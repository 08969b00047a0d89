-- ===== src/Reactor/Calls/Refine.antt =====
-- The table of EpollReactor with its stubs implements the map of Reactor.Calls.Spec.
use vpn_service_android.Common.{
  ℕ, ◌≡◌, refl, ◌∙◌, ap, ap₂, subst, List, [], ◌∷◌, ◌++◌, Option, none, some, Bool, true, false,
  if◌then◌else◌, arith,
}
use vpn_service_android.Reactor.{
  Events, union, convert_event, covers, Listener, Stub, Reactor, success, refused, no_events, minus,
}
use vpn_service_android.Reactor.Table.{find, erase, store}
use vpn_service_android.Reactor.Calls.{
  modify_stub, new_stub, add_found, add_event, shrink_stub, del_listened, del_stub, del_found,
  del_event, contain_event, contain_found, contain_stub, contain_listened, stop, Call, add, del,
  stop_loop, call, calls,
}
use vpn_service_android.Reactor.Calls.Spec.{
  entry, entry_of, entry_at, put, view, spec_add_to, spec_shrink, spec_del_from, spec_call,
  spec_calls, spec_contain,
}
use vpn_service_android.Reactor.Calls.Kept.{call-Keeps}
use vpn_service_android.Reactor.Calls.Invariant.{IsReactor}
use vpn_service_android.Reactor.Calls.Views.{seen, view-store, view-retire, view-grow}

view_at_found :
    (r : Reactor) (fd a : ℕ) (s : Stub)
    → find fd r.table ≡ some a
    → r.heap a ≡ some s
    → view r fd ≡ some (entry s.events s.listener s.tag)
view_at_found r fd a s f h = rw f (rw h refl)

modify_refines :
    (r : Reactor) (o : Option Stub) (fd a : ℕ) (events : Events) (l : Option Listener) (tag : ℕ)
    (ok : Bool)
    → IsReactor r
    → find fd r.table ≡ some a
    → r.heap a ≡ o
    → seen (modify_stub o a events l tag ok r)
      ≡ spec_add_to (entry_of o) fd events l tag ok (view r)
unfolding modify_stub spec_add_to
modify_refines r none fd a events l tag ok v f h = absurd (ground (arith, v.tabled fd a f))
modify_refines r (some s) fd a events l tag ok v f h =
    let new : Stub = record s {
      events = union s.events events;
      mask = convert_event (union s.events events);
      listener = l;
      tag = tag;
    } in
    let e : s.fd ≡ fd = ground (arith, v.tabled fd a f) in
    let stored = view-store r a new v (ground arith) in
    ap₂ (λ x y. (x, y)) refl
      (stored ∙ ap (λ k. put k (some (entry new.events new.listener new.tag)) (view r)) e)

add_refines :
    (r : Reactor) (o : Option ℕ) (fd : ℕ) (events : Events) (l : Option Listener) (tag : ℕ)
    (ok : Bool)
    → IsReactor r
    → find fd r.table ≡ o
    → seen (add_found o fd events l tag ok r)
      ≡ spec_add_to (entry_at r.heap o) fd events l tag ok (view r)
unfolding add_found new_stub spec_add_to
add_refines r (some a) fd events l tag ok v f =
    modify_refines r (r.heap a) fd a events l tag ok v f refl
add_refines r none fd events l tag false v f = refl
add_refines r none fd events l tag true v f =
    ap (λ m. (success, m)) (view-grow r (new_stub fd events l tag) v f)

shrink_refines :
    (r : Reactor) (s : Stub) (l : Listener) (a : ℕ) (events : Events) (ok : Bool)
    → IsReactor r
    → find s.fd r.table ≡ some a
    → s.listener ≡ some l
    → seen (shrink_stub s a s.fd events ok r)
      ≡ spec_shrink (entry s.events s.listener s.tag) (some l) s.fd events ok (view r)
unfolding shrink_stub spec_shrink
shrink_refines r s l a events ok v f h = by_answer ok
  where
    left : Events
    left = minus s.events events

    new : Stub
    new = record s { events = left; mask = convert_event left }

    kept :
        view (record r { heap = store r.heap a (some new) })
        ≡ put s.fd (some (entry left s.listener s.tag)) (view r)
    kept = view-store r a new v f

    by_answer :
        (o : Bool)
        → seen (shrink_stub s a s.fd events o r)
          ≡ spec_shrink (entry s.events s.listener s.tag) (some l) s.fd events o (view r)
    by_answer false = ap (λ m. (refused, m)) kept
    by_answer true =
        elim (no_events left)
          as (λ b.
            seen (
              if b
              then (
                success,
                record r {
                  heap = store r.heap a (some (record new { listener = none }));
                  deleted = r.deleted ++ a ∷ [];
                  table = erase s.fd r.table;
                },
              )
              else (success, record r { heap = store r.heap a (some new) }))
            ≡ (
              success,
              if b
                  then put s.fd none (view r)
                  else put s.fd (some (entry left s.listener s.tag)) (view r),
            )) [
              | true ↦
                  ap (λ m. (success, m))
                    (view-retire r a (record new { listener = none }) (r.deleted ++ a ∷ []) v f)
              | false ↦ ap (λ m. (success, m)) kept
            ]

del_refines :
    (r : Reactor) (o : Option ℕ) (fd : ℕ) (events : Events) (ok : Bool)
    → IsReactor r
    → find fd r.table ≡ o
    → seen (del_found o fd events ok r) ≡ spec_del_from (entry_at r.heap o) fd events ok (view r)
unfolding del_found del_stub del_listened spec_del_from spec_shrink
del_refines r none fd events ok v f = refl
del_refines r (some a) fd events ok v f = stub_at (r.heap a) refl
  where
    listened :
        (s : Stub) (l : Option Listener)
        → r.heap a ≡ some s
        → s.listener ≡ l
        → seen (del_listened l s a fd events ok r)
          ≡ spec_shrink (entry s.events s.listener s.tag) l fd events ok (view r)
    listened s none h n = refl
    listened s (some l) h n =
        let e : s.fd ≡ fd = ground (arith, v.tabled fd a f) in
        subst
          (λ k.
            seen (shrink_stub s a k events ok r)
            ≡ spec_shrink (entry s.events s.listener s.tag) (some l) k events ok (view r))
          e (shrink_refines r s l a events ok v (ground arith) n)

    stub_at :
        (o : Option Stub)
        → r.heap a ≡ o
        → seen (del_stub o a fd events ok r) ≡ spec_del_from (entry_of o) fd events ok (view r)
    stub_at none h = absurd (ground (arith, v.tabled fd a f))
    stub_at (some s) h = listened s s.listener h refl

pub call_refines :
    (c : Call) (r : Reactor)
    → IsReactor r
    → r.has_epoll ≡ true
    → seen (call c r) ≡ spec_call c (view r)
unfolding call add_event del_event stop spec_call
call_refines (add none events l tag ok) r v h = refl
call_refines (add (some fd) events l tag ok) r v h =
    ap (λ b. seen (if b then add_found (find fd r.table) fd events l tag ok r else (refused, r))) h
    ∙ add_refines r (find fd r.table) fd events l tag ok v refl
call_refines (del fd events ok) r v h =
    ap (λ b. seen (if b then del_found (find fd r.table) fd events ok r else (refused, r))) h
    ∙ del_refines r (find fd r.table) fd events ok v refl
call_refines (stop_loop false) r v h = refl
call_refines (stop_loop true) r v h = refl

-- From a reactor with an epoll descriptor whose stubs are in order, any row of addEvent, delEvent and
-- stop returns what the map of entries returns, and leaves its stubs holding what that map holds.
pub calls_refine :
    (cs : List Call) (r : Reactor)
    → IsReactor r
    → r.has_epoll ≡ true
    → ((calls cs r).0, view (calls cs r).1) ≡ spec_calls cs (view r)
unfolding calls spec_calls
calls_refine [] r v h = refl
calls_refine (c ∷ cs) r v h =
    let one = call-Keeps c r v in
    let first = call_refines c r v h in
    let rest = calls_refine cs (call c r).1 one.valid (one.has_epoll ∙ h) in
    ap₂ (λ x p. (x ∷ p.0, p.1)) (ap (λ p. p.0) first) (rest ∙ ap (λ p. spec_calls cs p.1) first)

-- From such a reactor containEvent answers what the map answers: whether a handler is there and the
-- events kept for the descriptor, as epoll knows them, cover those asked for.
pub contain_event_refines :
    (r : Reactor) (fd : ℕ) (events : Events)
    → IsReactor r
    → r.has_epoll ≡ true
    → contain_event fd events r ≡ spec_contain (view r fd) events
unfolding contain_event contain_found contain_stub contain_listened
contain_event_refines r fd events v h =
    ap (λ b. if b then contain_found (find fd r.table) events r else false) h
    ∙ at_place (find fd r.table) refl
  where
    at_listener :
        (s : Stub) (l : Option Listener)
        → s.mask ≡ convert_event s.events
        → contain_listened l s events ≡ spec_contain (some (entry s.events l s.tag)) events
    at_listener s none m = refl
    at_listener s (some l) m = ap (λ k. covers k (convert_event events)) m

    at_stub :
        (a : ℕ) (o : Option Stub)
        → r.heap a ≡ o
        → contain_stub o events ≡ spec_contain (entry_of o) events
    at_stub a none e = refl
    at_stub a (some s) e = at_listener s s.listener (v.owned a s e).0

    at_place :
        (o : Option ℕ)
        → find fd r.table ≡ o
        → contain_found o events r ≡ spec_contain (entry_at r.heap o) events
    at_place none e = refl
    at_place (some a) e = at_stub a (r.heap a) refl
