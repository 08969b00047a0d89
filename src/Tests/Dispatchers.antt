-- ===== src/Tests/Dispatchers.antt =====
-- core/event/EventDispatcher with an event that waits already.
use vpn_service_android.Common.{ℕ, suc, ◌≡◌, refl, List, [], ◌∷◌, some, true, length}
use vpn_service_android.Dispatcher.{Event, Delivery, Dispatcher, register_event, dispatch, rounds}
use vpn_service_android.Dispatcher.Arrival.{delivered, dispatched_arrives}

abbrev event_of : ℕ → Event
event_of k = record { id = k; datum = 0 }

abbrev busy : Dispatcher
busy = record { handlers = (2, 8 ∷ []) ∷ []; queue = event_of 2 ∷ []; working = true; log = [] }

-- Each call of a handler dispatches another event.
abbrev echoes : Delivery → List Event
echoes c = event_of 2 ∷ []

dispatched_arrives_example :
    let after = (dispatch (some (event_of 1)) (register_event 1 (some 5) busy).1).1 in
    delivered 5 (event_of 1) (rounds echoes (suc (length busy.queue)) after).log ≡ true
dispatched_arrives_example = dispatched_arrives echoes 5 (event_of 1) busy refl
