-- ===== src/Router/Lifecycle.antt =====
-- core/Router.cpp, start and stop: the router's own use of the reactor, for the tunnel device at `fd`.
-- The router's handler is the client `self`; the capture file is left out.
use vpn_service_android.Common.{ℕ, ◌≡◌, ◌∙◌, List, some, Bool, true, false, if_both, arith}
use vpn_service_android.Reactor.{Events, client, Callback, Reactor, Status}
use vpn_service_android.Reactor.Calls.{Call, add, del, call, add_event, add_found, modify_stub}
use vpn_service_android.Reactor.Calls
use vpn_service_android.Reactor.Calls.Invariant.{IsReactor}
use vpn_service_android.Reactor.Calls.Kept.{call-Keeps}
use vpn_service_android.Reactor.Loop
use vpn_service_android.Reactor.Loop.{Wait, loop}
use vpn_service_android.Reactor.Loop.Kept.{other-Keeps}
use vpn_service_android.Reactor.Loop.Safety.{IsResting, Reports, loop-IsResting}

abbrev reads : Events
reads = record { read = true; write = false; error = false }

abbrev all_events : Events
all_events = record { read = true; write = true; error = true }

-- `added` and `removed` are whether epoll takes the device in and out.
unfoldable pub start :
    (List Callback → List Call) → ℕ → ℕ → Bool → Bool → List Wait → ℕ → Reactor → Status × Reactor
unfolding call
start handlers fd self added removed ws now r =
    let ready = (call (add (some fd) reads (some (client self)) 0 added) r).1 in
    let ran = Loop.start handlers ws now ready in
    (ran.0, (call (del fd all_events removed) ran.2).1)

unfoldable pub stop : Bool → Reactor → Status × Reactor
stop ok r = Calls.stop ok r

add-deleted :
    (fd self : ℕ) (ok : Bool) (r : Reactor)
    → (call (add (some fd) reads (some (client self)) 0 ok) r).1.deleted ≡ r.deleted
unfolding call add_event add_found modify_stub
add-deleted fd self ok r = ground arith

add-IsResting :
    (fd self : ℕ) (ok : Bool) (r : Reactor)
    → IsResting r
    → IsResting (call (add (some fd) reads (some (client self)) 0 ok) r).1
add-IsResting fd self ok r v =
    let kept = call-Keeps (add (some fd) reads (some (client self)) 0 ok) r v.valid in
    record {
      valid = kept.valid;
      sound = kept.fault ∙ v.sound;
      nothing_waits = add-deleted fd self ok r ∙ v.nothing_waits;
    }

at_work : Reactor → Reactor
at_work r = record r { working = true }

at_work-IsResting : (r : Reactor) → IsResting r → IsResting (at_work r)
unfolding at_work
at_work-IsResting r v = record {
  valid = (other-Keeps r true r.pipe r.log v.valid).valid;
  sound = v.sound;
  nothing_waits = v.nothing_waits;
}

-- A whole run of the router on a reactor at rest, told by epoll only of registered descriptors, uses no
-- freed stub and leaves the table in order, whatever the handlers do and whether or not epoll takes the
-- device in and out.
pub start_sound :
    (handlers : List Callback → List Call) (fd self : ℕ) (added removed : Bool) (ws : List Wait)
    (now : ℕ) (r : Reactor)
    → IsResting r
    → Reports handlers ws now
        (record (call (add (some fd) reads (some (client self)) 0 added) r).1 { working = true })
    → let q = (start handlers fd self added removed ws now r).1 in (q.fault ≡ false) × IsReactor q
unfolding start Loop.start at_work
start_sound handlers fd self added removed ws now r v p =
    let ready = (call (add (some fd) reads (some (client self)) 0 added) r).1 in
    let rests = add-IsResting fd self added r v in
    let ran = loop-IsResting handlers ws now (at_work ready) (at_work-IsResting ready rests) p in
    if_both
      (λ (t : Status × Bool × Reactor).
        let q = (call (del fd all_events removed) t.2).1 in (q.fault ≡ false) × IsReactor q)
      ready.working (left ready rests) (left (loop handlers ws now (at_work ready)).1 ran)
  where
    left :
        (t : Reactor)
        → IsResting t
        → let q = (call (del fd all_events removed) t).1 in (q.fault ≡ false) × IsReactor q
    left t w =
        let kept = call-Keeps (del fd all_events removed) t w.valid in
        (kept.fault ∙ w.sound, kept.valid)
