-- ===== src/Reactor/Calls.antt =====
-- reactor/EpollReactor.cpp: addEvent, delEvent, containEvent and stop. `ok` is whether epoll_ctl
-- accepts; a descriptor is `none` when it is negative.
pub mod Spec
pub mod Invariant
pub mod Kept
pub mod Views
pub mod Refine
pub mod Spared
use vpn_service_android.Common.{
  ℕ, zero, suc, List, [], ◌∷◌, ◌++◌, Option, none, some, Bool, true, false, if◌then◌else◌,
}
use vpn_service_android.Reactor.{
  Events, union, minus, no_events, convert_event, covers, Listener, command, Stub, Reactor, Status,
  success, refused, failure, faulted,
}
use vpn_service_android.Reactor.Table.{find, insert, erase, store}

unfoldable pub modify_stub :
    Option Stub → ℕ → Events → Option Listener → ℕ → Bool → Reactor → Status × Reactor
unfolding union convert_event faulted store
modify_stub none a events listener tag ok r = (success, faulted r)
modify_stub (some s) a events listener tag ok r =
    let both = union s.events events in
    let new = record s {
      events = both;
      mask = convert_event both;
      listener = listener;
      tag = tag;
    } in
    (if ok then success else failure, record r { heap = store r.heap a (some new) })

unfoldable pub new_stub : ℕ → Events → Option Listener → ℕ → Stub
unfolding convert_event
new_stub fd events listener tag = record {
  events = events;
  mask = convert_event events;
  fd = fd;
  listener = listener;
  tag = tag;
}

-- The stub of a descriptor that epoll refuses is deleted at once.
unfoldable pub add_found :
    Option ℕ → ℕ → Events → Option Listener → ℕ → Bool → Reactor → Status × Reactor
unfolding modify_stub new_stub insert store
add_found (some a) fd events listener tag ok r = modify_stub (r.heap a) a events listener tag ok r
add_found none fd events listener tag ok r =
    if ok
    then (
      success,
      record r {
        heap = store r.heap r.fresh (some (new_stub fd events listener tag));
        fresh = suc r.fresh;
        table = insert fd r.fresh r.table;
      },
    )
    else (failure, r)

unfoldable pub add_event :
    Option ℕ → Events → Option Listener → ℕ → Bool → Reactor → Status × Reactor
unfolding add_found find
add_event none events listener tag ok r = (refused, r)
add_event (some fd) events listener tag ok r =
    if r.has_epoll then add_found (find fd r.table) fd events listener tag ok r else (refused, r)

-- The last events of a descriptor: its stub loses the listener and waits for deletion.
unfoldable pub shrink_stub : Stub → ℕ → ℕ → Events → Bool → Reactor → Status × Reactor
unfolding minus convert_event no_events store erase
shrink_stub s a fd events ok r =
    let left = minus s.events events in
    let new = record s { events = left; mask = convert_event left } in
    if ok
    then (if no_events left
        then (
          success,
          record r {
            heap = store r.heap a (some (record new { listener = none }));
            deleted = r.deleted ++ a ∷ [];
            table = erase fd r.table;
          },
        )
        else (success, record r { heap = store r.heap a (some new) }))
    else (refused, record r { heap = store r.heap a (some new) })

unfoldable pub del_listened :
    Option Listener → Stub → ℕ → ℕ → Events → Bool → Reactor → Status × Reactor
unfolding shrink_stub
del_listened none s a fd events ok r = (success, r)
del_listened (some l) s a fd events ok r = shrink_stub s a fd events ok r

unfoldable pub del_stub : Option Stub → ℕ → ℕ → Events → Bool → Reactor → Status × Reactor
unfolding del_listened faulted
del_stub none a fd events ok r = (success, faulted r)
del_stub (some s) a fd events ok r = del_listened s.listener s a fd events ok r

unfoldable pub del_found : Option ℕ → ℕ → Events → Bool → Reactor → Status × Reactor
unfolding del_stub
del_found none fd events ok r = (refused, r)
del_found (some a) fd events ok r = del_stub (r.heap a) a fd events ok r

unfoldable pub del_event : ℕ → Events → Bool → Reactor → Status × Reactor
unfolding del_found find
del_event fd events ok r =
    if r.has_epoll then del_found (find fd r.table) fd events ok r else (refused, r)

unfoldable pub contain_listened : Option Listener → Stub → Events → Bool
unfolding covers convert_event
contain_listened none s events = false
contain_listened (some l) s events = covers s.mask (convert_event events)

unfoldable pub contain_stub : Option Stub → Events → Bool
unfolding contain_listened
contain_stub none events = false
contain_stub (some s) events = contain_listened s.listener s events

unfoldable pub contain_found : Option ℕ → Events → Reactor → Bool
unfolding contain_stub
contain_found none events r = false
contain_found (some a) events r = contain_stub (r.heap a) events

unfoldable pub contain_event : ℕ → Events → Reactor → Bool
unfolding contain_found find
contain_event fd events r = if r.has_epoll then contain_found (find fd r.table) events r else false

-- writeCmd(1); `ok` is whether the pipe takes the byte.
unfoldable pub stop : Bool → Reactor → Status × Reactor
stop ok r = if ok then (success, record r { pipe = r.pipe ++ 1 ∷ [] }) else (failure, r)

-- A call that a handler makes on the reactor.
pub data Call : Type 0 where
  add : Option ℕ → Events → Option Listener → ℕ → Bool → Call
  del : ℕ → Events → Bool → Call
  stop_loop : Bool → Call

unfoldable pub call : Call → Reactor → Status × Reactor
unfolding add_event del_event stop
call (add fd events listener tag ok) r = add_event fd events listener tag ok r
call (del fd events ok) r = del_event fd events ok r
call (stop_loop ok) r = stop ok r

unfoldable pub calls : List Call → Reactor → List Status × Reactor
unfolding call
calls [] r = ([], r)
calls (c ∷ cs) r = let first = call c r in let rest = calls cs first.1 in (first.0 ∷ rest.0, rest.1)
