-- ===== src/Dispatcher.antt =====
-- core/event/EventDispatcher.h: handlers by event, synchronous calls, and the queue that a thread works
-- off. The locks are held around each operation, so operations follow one another; a handler is a
-- number, and what it does in a call is the row of events it dispatches, a function `reacts` of the call.
pub mod Arrival
use vpn_service_android.Common.{
  ℕ, zero, suc, List, [], ◌∷◌, ◌++◌, Option, none, some, Bool, true, false, ◌==◌, ◌||◌,
  if◌then◌else◌,
}

-- The event's number and its data.
pub record Event : Type 0 where
  pub id : ℕ
  pub datum : ℕ

-- A call of a handler: onSyncEvent or onEvent.
pub record Delivery : Type 0 where
  pub synchronous : Bool
  pub handler : ℕ
  pub event : Event

pub record Dispatcher : Type 0 where
  pub handlers : List (ℕ × List ℕ)
  pub queue : List Event
  pub working : Bool
  pub log : List Delivery

-- getHandlers: NULL when nothing was registered under the number.
unfoldable pub get_handlers : ℕ → List (ℕ × List ℕ) → Option (List ℕ)
get_handlers id [] = none
get_handlers id ((k, hs) ∷ m) = if k == id then some hs else get_handlers id m

-- The list of handlers of a number, written in its place; the map's order is of no effect.
unfoldable pub put_handlers : ℕ → List ℕ → List (ℕ × List ℕ) → List (ℕ × List ℕ)
put_handlers id new [] = (id, new) ∷ []
put_handlers id new ((k, hs) ∷ m) =
    let rest = put_handlers id new m in if k == id then (k, new) ∷ m else (k, hs) ∷ rest

unfoldable pub listed : ℕ → List ℕ → Bool
listed h [] = false
listed h (k ∷ hs) = k == h || listed h hs

unfoldable pub handlers_or_new : Option (List ℕ) → List ℕ
handlers_or_new none = []
handlers_or_new (some hs) = hs

-- registerEvent: whether it fails, for a handler that may be NULL.
unfoldable pub register_event : ℕ → Option ℕ → Dispatcher → Bool × Dispatcher
unfolding get_handlers put_handlers listed handlers_or_new
register_event id none d = (true, d)
register_event id (some h) d =
    let hs = handlers_or_new (get_handlers id d.handlers) in
    let more = if listed h hs then hs else hs ++ h ∷ [] in
    (false, record d { handlers = put_handlers id more d.handlers })

unfoldable pub erase_first : ℕ → List ℕ → List ℕ
erase_first h [] = []
erase_first h (k ∷ hs) = let rest = erase_first h hs in if k == h then hs else k ∷ rest

unfoldable pub unregister_from : ℕ → ℕ → Option (List ℕ) → Dispatcher → Dispatcher
unfolding put_handlers erase_first
unregister_from id h none d = d
unregister_from id h (some hs) d = record d {
  handlers = put_handlers id (erase_first h hs) d.handlers;
}

unfoldable pub unregister_event : ℕ → Option ℕ → Dispatcher → Bool × Dispatcher
unfolding unregister_from get_handlers
unregister_event id none d = (true, d)
unregister_event id (some h) d = (false, unregister_from id h (get_handlers id d.handlers) d)

unfoldable pub dispatch : Option Event → Dispatcher → Bool × Dispatcher
dispatch none d = (true, d)
dispatch (some e) d = (false, record d { queue = d.queue ++ e ∷ [] })

-- The thread ends behind the event it is at; the join is left out.
unfoldable pub stop : Dispatcher → Dispatcher
stop d = record d { working = false }

module _ (reacts : Delivery → List Event) where
  unfoldable pub call_each : Bool → Event → List ℕ → Dispatcher → Dispatcher
  call_each sync e [] d = d
  call_each sync e (h ∷ hs) d =
      let made : Delivery = record { synchronous = sync; handler = h; event = e } in
      call_each sync e hs (record d { queue = d.queue ++ reacts made; log = d.log ++ made ∷ [] })

  unfoldable pub dispatch_sync : Option Event → Dispatcher → Bool × Dispatcher
  unfolding call_each handlers_or_new get_handlers
  dispatch_sync none d = (true, d)
  dispatch_sync (some e) d =
      (false, call_each true e (handlers_or_new (get_handlers e.id d.handlers)) d)

  -- obtainEvent on a queue that is not empty, and the calls for the event. The thread sleeps while the
  -- queue is empty.
  unfoldable pub round_with : List Event → Dispatcher → Dispatcher
  unfolding call_each handlers_or_new get_handlers
  round_with [] d = d
  round_with (e ∷ q) d =
      call_each false e (handlers_or_new (get_handlers e.id d.handlers)) (record d { queue = q })

  -- Some rounds of the loop of the thread.
  unfoldable pub rounds : ℕ → Dispatcher → Dispatcher
  unfolding round_with
  rounds zero d = d
  rounds (suc n) d = if d.working then rounds n (round_with d.queue d) else d
