-- ===== src/Tests/Reactors.antt =====
-- Concrete runs of the reactor: a command pipe at descriptor 3, a client's socket at 5.
use vpn_service_android.Common.{ℕ, ◌≡◌, refl, List, [], ◌∷◌, some, true, false}
use vpn_service_android.Reactor.{Events, client, Stub, Callback, Reactor, success, refused}
use vpn_service_android.Reactor.Table.{find}
use vpn_service_android.Reactor.Calls.{Call, add, del, call, calls, stop}
use vpn_service_android.Reactor.Calls.Spec.{view, spec_calls}
use vpn_service_android.Reactor.Calls.Refine.{calls_refine}
use vpn_service_android.Reactor.Calls.Kept.{call-Keeps}
use vpn_service_android.Reactor.Calls.Invariant.{IsReactor}
use vpn_service_android.Reactor.Loop.{Ready, dispatch_event, create_reactor, loop, reported}
use vpn_service_android.Reactor.Loop.Safety.{IsResting, create_reactor-IsResting, loop_safe}
use vpn_service_android.Reactor.Loop.Silence.{dispatch_event_silent}
use vpn_service_android.Reactor.Loop.Ending.{stop_ends}

abbrev reads : Events
reads = record { read = true; write = false; error = false }

abbrev writes : Events
writes = record { read = false; write = true; error = false }

abbrev every : Events
every = record { read = true; write = true; error = true }

abbrev new_reactor : Reactor
new_reactor = create_reactor 3

abbrev script : List Call
script =
    add (some 5) reads (some (client 0)) 7 true
    ∷ add (some 5) writes (some (client 0)) 7 true
    ∷ del 5 reads true
    ∷ del 9 reads true
    ∷ []

calls_refine_example :
    ((calls script new_reactor).0, view (calls script new_reactor).1)
    ≡ spec_calls script (view new_reactor)
unfolding create_reactor
calls_refine_example = calls_refine script new_reactor (create_reactor-IsResting 3).valid refl

statuses : (calls script new_reactor).0 ≡ success ∷ success ∷ success ∷ refused ∷ []
unfolding create_reactor calls
statuses = refl

-- The client of socket 5 removes it when it is called.
abbrev leaves : List Callback → List Call
leaves log = del 5 every true ∷ []

abbrev event_of : ℕ → Ready
event_of a = record { stub = a; can_read = true; can_write = true; broken = true }

abbrev two_sockets : Reactor
two_sockets = (call (add (some 5) reads (some (client 0)) 7 true) new_reactor).1

two_sockets-IsResting : IsResting two_sockets
unfolding create_reactor call
two_sockets-IsResting =
    let first = create_reactor-IsResting 3 in
    record {
      valid =
          (call-Keeps (add (some 5) reads (some (client 0)) 7 true) new_reactor first.valid).valid;
      sound = refl;
      nothing_waits = refl;
    }

loop_safe_example :
    let q = (loop leaves (reported (event_of 1 ∷ event_of 1 ∷ []) 100 ∷ []) 0 two_sockets).1 in
    (q.fault ≡ false) × ((a : ℕ) (s : Stub) → q.heap a ≡ some s → find s.fd q.table ≡ some a)
unfolding create_reactor call find
loop_safe_example =
    loop_safe leaves (reported (event_of 1 ∷ event_of 1 ∷ []) 100 ∷ []) 0 two_sockets
      two_sockets-IsResting (((5, refl), ((5, refl), tt)), tt)

abbrev removed : Reactor
removed = (call (del 5 every true) two_sockets).1

removed-IsReactor : IsReactor removed
removed-IsReactor = (call-Keeps (del 5 every true) two_sockets two_sockets-IsResting.valid).valid

dispatch_event_silent_example :
    dispatch_event leaves (event_of 0 ∷ event_of 1 ∷ []) removed
    ≡ dispatch_event leaves (event_of 0 ∷ []) removed
unfolding create_reactor call
dispatch_event_silent_example =
    dispatch_event_silent leaves (event_of 0 ∷ []) (event_of 1) removed removed-IsReactor (refl, tt)
      refl

stop_ends_example :
    (loop leaves (reported (event_of 1 ∷ event_of 0 ∷ []) 5 ∷ []) 0 (stop true two_sockets).1).0
    ≡ true
unfolding create_reactor call find stop
stop_ends_example =
    stop_ends leaves 3 0 (reported (event_of 1 ∷ event_of 0 ∷ []) 5 ∷ []) 0 two_sockets
      two_sockets-IsResting refl refl tt (λ log. (refl, tt)) (((5, refl), ((3, refl), tt)), tt) refl
