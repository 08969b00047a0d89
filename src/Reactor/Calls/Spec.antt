-- ===== src/Reactor/Calls/Spec.antt =====
-- What EpollReactor promises: a map from descriptors to the events, the handler and the tag last given.
-- No addresses, no order and no waiting stubs; the answers of epoll_ctl are kept.
use vpn_service_android.Common.{
  ℕ, List, [], ◌∷◌, Option, none, some, Bool, false, ◌==◌, if◌then◌else◌,
}
use vpn_service_android.Reactor.{
  Events, union, minus, no_events, convert_event, covers, Listener, Stub, Reactor, Status, success,
  refused, failure,
}
use vpn_service_android.Reactor.Table.{find}
use vpn_service_android.Reactor.Calls.{Call, add, del, stop_loop}

pub record Entry : Type 0 where
  pub events : Events
  pub listener : Option Listener
  pub tag : ℕ

abbrev pub Interest : Type 0
Interest = ℕ → Option Entry

abbrev pub put : ℕ → Option Entry → Interest → Interest
put fd e m j = if fd == j then e else m j

abbrev pub entry : Events → Option Listener → ℕ → Entry
entry events listener tag = record { events = events; listener = listener; tag = tag }

unfoldable pub spec_add_to :
    Option Entry → ℕ → Events → Option Listener → ℕ → Bool → Interest → Status × Interest
unfolding union
spec_add_to none fd events l tag ok m =
    if ok then (success, put fd (some (entry events l tag)) m) else (failure, m)
spec_add_to (some e) fd events l tag ok m =
    (if ok then success else failure, put fd (some (entry (union e.events events) l tag)) m)

unfoldable pub spec_shrink :
    Entry → Option Listener → ℕ → Events → Bool → Interest → Status × Interest
unfolding minus no_events
spec_shrink e none fd events ok m = (success, m)
spec_shrink e (some l) fd events ok m =
    let left = minus e.events events in
    let kept = put fd (some (entry left e.listener e.tag)) m in
    if ok then (success, if no_events left then put fd none m else kept) else (refused, kept)

unfoldable pub spec_del_from : Option Entry → ℕ → Events → Bool → Interest → Status × Interest
unfolding spec_shrink
spec_del_from none fd events ok m = (refused, m)
spec_del_from (some e) fd events ok m = spec_shrink e e.listener fd events ok m

unfoldable pub spec_call : Call → Interest → Status × Interest
unfolding spec_add_to spec_del_from
spec_call (add none events l tag ok) m = (refused, m)
spec_call (add (some fd) events l tag ok) m = spec_add_to (m fd) fd events l tag ok m
spec_call (del fd events ok) m = spec_del_from (m fd) fd events ok m
spec_call (stop_loop ok) m = (if ok then success else failure, m)

unfoldable pub spec_calls : List Call → Interest → List Status × Interest
unfolding spec_call
spec_calls [] m = ([], m)
spec_calls (c ∷ cs) m =
    let first = spec_call c m in let rest = spec_calls cs first.1 in (first.0 ∷ rest.0, rest.1)

-- The map that a reactor holds.
abbrev pub entry_of : Option Stub → Option Entry
entry_of none = none
entry_of (some s) = some (entry s.events s.listener s.tag)

abbrev pub entry_at : (ℕ → Option Stub) → Option ℕ → Option Entry
entry_at h none = none
entry_at h (some a) = entry_of (h a)

abbrev pub view : Reactor → Interest
view r fd = entry_at r.heap (find fd r.table)

abbrev pub spec_contain_in : Option Listener → Events → Events → Bool
spec_contain_in none has events = false
spec_contain_in (some l) has events = covers (convert_event has) (convert_event events)

abbrev pub spec_contain : Option Entry → Events → Bool
spec_contain none events = false
spec_contain (some e) events = spec_contain_in e.listener e.events events
