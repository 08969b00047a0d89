-- ===== src/Dispatcher/Arrival.antt =====
-- An event dispatched reaches every handler registered for it.
use vpn_service_android.Common.{
  ℕ, suc, ◌≡◌, refl, sym, ap, ◌∙◌, List, [], ◌∷◌, ◌++◌, append_assoc, append-nil, some, Bool, true,
  false, ◌==◌, ◌||◌, if◌then◌else◌, length, arith, Bool-cases, inl, inr,
}
use vpn_service_android.Dispatcher.{
  Event, Delivery, Dispatcher, get_handlers, put_handlers, listed, handlers_or_new, register_event,
  dispatch, call_each, round_with, rounds,
}

abbrev pub same_event : Event → Event → Bool
same_event e f = if e.id == f.id then e.datum == f.datum else false

-- Whether the handler was called for the event by the thread.
abbrev pub delivered : ℕ → Event → List Delivery → Bool
delivered h e [] = false
delivered h e (c ∷ log) =
    (if c.synchronous then false else (if c.handler == h then same_event c.event e else false))
    || delivered h e log

delivered-append :
    (h : ℕ) (e : Event) (xs ys : List Delivery)
    → delivered h e (xs ++ ys) ≡ (delivered h e xs || delivered h e ys)
delivered-append h e [] ys = refl
delivered-append h e (c ∷ xs) ys = ground (arith, delivered-append h e xs ys)

get-put :
    (id : ℕ) (hs : List ℕ) (m : List (ℕ × List ℕ))
    → get_handlers id (put_handlers id hs m) ≡ some hs
unfolding get_handlers put_handlers
get-put id hs [] = ground arith
get-put id hs ((k, old) ∷ m) = ground (arith, get-put id hs m)

listed-append : (h : ℕ) (hs : List ℕ) → listed h (hs ++ h ∷ []) ≡ true
unfolding listed
listed-append h [] = ground arith
listed-append h (k ∷ hs) = ground (arith, listed-append h hs)

-- A handler registered is in the list of its number.
register_event-listed :
    (id h : ℕ) (d : Dispatcher)
    → listed h (handlers_or_new (get_handlers id (register_event id (some h) d).1.handlers)) ≡ true
unfolding register_event handlers_or_new
register_event-listed id h d =
    let hs = handlers_or_new (get_handlers id d.handlers) in
    ap (λ o. listed h (handlers_or_new o))
      (get-put id (if listed h hs then hs else hs ++ h ∷ []) d.handlers)
    ∙ added (listed h hs) refl
  where
    added :
        (b : Bool)
        → listed h (handlers_or_new (get_handlers id d.handlers)) ≡ b
        → listed h (
            if b
            then handlers_or_new (get_handlers id d.handlers)
            else handlers_or_new (get_handlers id d.handlers) ++ h ∷ [])
          ≡ true
    added true e = e
    added false e = listed-append h (handlers_or_new (get_handlers id d.handlers))

module _ (reacts : Delivery → List Event) where
  -- The calls add to the queue and the log at the end, and change nothing else.
  record Extends (d c : Dispatcher) : Type 0 where
    handlers : c.handlers ≡ d.handlers
    working : c.working ≡ d.working
    later : List Event
    queue : c.queue ≡ d.queue ++ later
    past : (h : ℕ) (e : Event) → delivered h e d.log ≡ true → delivered h e c.log ≡ true

  call_each-Extends :
      (b : Bool) (e : Event) (hs : List ℕ) (d : Dispatcher) → Extends d (call_each reacts b e hs d)
  unfolding call_each
  call_each-Extends b e [] d = record {
    handlers = refl;
    working = refl;
    later = [];
    queue = sym (append-nil d.queue);
    past = λ h f p. p;
  }
  call_each-Extends b e (h ∷ hs) d =
      let made : Delivery = record { synchronous = b; handler = h; event = e } in
      let rest =
        call_each-Extends b e hs
          (record d { queue = d.queue ++ reacts made; log = d.log ++ made ∷ [] }) in
      record {
        handlers = rest.handlers;
        working = rest.working;
        later = reacts made ++ rest.later;
        queue = rest.queue ∙ append_assoc d.queue (reacts made) rest.later;
        past = λ k f p. rest.past k f (ground (arith, delivered-append k f d.log (made ∷ []), p));
      }

  call_each-delivers :
      (h : ℕ) (e : Event) (hs : List ℕ) (d : Dispatcher)
      → listed h hs ≡ true
      → delivered h e (call_each reacts false e hs d).log ≡ true
  unfolding call_each listed
  call_each-delivers h e [] d l = absurd cc
  call_each-delivers h e (k ∷ hs) d l =
      let made : Delivery = record { synchronous = false; handler = k; event = e } in
      let next : Dispatcher = record d {
        queue = d.queue ++ reacts made;
        log = d.log ++ made ∷ [];
      } in
      elim (Bool-cases (k == h)) [
        | inl i ↦
            (call_each-Extends false e hs next).past h e
              (ground (arith, delivered-append h e d.log (made ∷ [])))
        | inr i ↦ call_each-delivers h e hs next (ground arith)
      ]

  first_round :
      (n : ℕ) (d : Dispatcher) (e : Event) (q : List Event)
      → d.working ≡ true
      → d.queue ≡ e ∷ q
      → rounds reacts (suc n) d
        ≡ rounds reacts n (
            call_each reacts false e
              (handlers_or_new (get_handlers e.id d.handlers))
              (record d { queue = q }))
  unfolding rounds round_with
  first_round n d e q w f =
      ap (λ b. if b then rounds reacts n (round_with reacts d.queue d) else d) w
      ∙ ap (λ l. rounds reacts n (round_with reacts l d)) f

  -- With the loop at work and the event in the queue behind `before`, its handlers are called within as
  -- many rounds as there are events up to it.
  queued-delivers :
      (before : List Event) (e : Event) (after : List Event) (h : ℕ) (d : Dispatcher)
      → d.working ≡ true
      → d.queue ≡ before ++ e ∷ after
      → listed h (handlers_or_new (get_handlers e.id d.handlers)) ≡ true
      → delivered h e (rounds reacts (suc (length before)) d).log ≡ true
  unfolding rounds
  queued-delivers [] e after h d w q l =
      let hs = handlers_or_new (get_handlers e.id d.handlers) in
      ap (λ (c : Dispatcher). delivered h e c.log) (first_round 0 d e after w q)
      ∙ call_each-delivers h e hs (record d { queue = after }) l
  queued-delivers (f ∷ before) e after h d w q l =
      let next = record d { queue = before ++ e ∷ after } in
      let called = handlers_or_new (get_handlers f.id d.handlers) in
      let c = call_each reacts false f called next in
      let x = call_each-Extends false f called next in
      ap (λ (c : Dispatcher). delivered h e c.log)
        (first_round (suc (length before)) d f (before ++ e ∷ after) w q)
      ∙ queued-delivers before e (after ++ x.later) h c (x.working ∙ w)
          (x.queue ∙ append_assoc before (e ∷ after) x.later)
          (ap (λ m. listed h (handlers_or_new (get_handlers e.id m))) x.handlers ∙ l)

-- A handler is registered for the number of an event, and the event is dispatched: with the loop at
-- work, the handler is called for it within one round more than events were queued before, whatever
-- events the handlers called dispatch in turn.
pub dispatched_arrives :
    (reacts : Delivery → List Event) (h : ℕ) (e : Event) (d : Dispatcher)
    → d.working ≡ true
    → let after = (dispatch (some e) (register_event e.id (some h) d).1).1 in
      delivered h e (rounds reacts (suc (length d.queue)) after).log ≡ true
unfolding dispatch register_event
dispatched_arrives reacts h e d w =
    let after = (dispatch (some e) (register_event e.id (some h) d).1).1 in
    queued-delivers reacts d.queue e [] h after w refl (register_event-listed e.id h d)
