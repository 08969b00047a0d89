-- ===== src/Reactor/Loop/Safety.antt =====
-- The loop of EpollReactor uses no freed stub: what its handlers remove is freed only behind a round.
use vpn_service_android.Common.{
  ℕ, ◌+◌, ◌≡◌, refl, ◌∙◌, List, [], ◌∷◌, some, Bool, true, false, ltb, if_both, All, arith,
  Bool-cases,
}
use vpn_service_android.Reactor.{Events, command, Stub, Callback, Reactor}
use vpn_service_android.Reactor.Table.{find}
use vpn_service_android.Reactor.Table.Laws.{has, free_all_lem}
use vpn_service_android.Reactor.Calls.{Call, add, call}
use vpn_service_android.Reactor.Calls.Kept.{Keeps, trans-Keeps, call-Keeps}
use vpn_service_android.Reactor.Calls.Invariant.{IsReactor}
use vpn_service_android.Reactor.Loop.{
  Ready, check_period, dispatch_event, dispatch_check, clean_deleted_events, no_stubs,
  create_reactor, round, Wait, interrupted, bad, reported, loop,
}
use vpn_service_android.Reactor.Loop.Kept.{
  AllLive, stubs, dispatch_event-Keeps, dispatch_check-Keeps,
}

-- A state between two rounds: in order, with no stub waiting and no stub used that was freed.
pub record IsResting (r : Reactor) : Type 0 where
  pub valid : IsReactor r
  pub sound : r.fault ≡ false
  pub nothing_waits : r.deleted ≡ []

-- What epoll promises: the pointers it reports are those of descriptors that are registered.
abbrev pub IsRegistered : Reactor → List ℕ → Type 0
IsRegistered r xs = All (λ a. (fd : ℕ) × (find fd r.table ≡ some a)) xs

module _ (handlers : List Callback → List Call) where
  pub clean_IsReactor : (r : Reactor) → IsReactor r → IsReactor (clean_deleted_events handlers r)
  unfolding clean_deleted_events
  clean_IsReactor r v = record {
    ordered = v.ordered;
    tabled = λ fd a e. ground (arith, v.tabled fd a e, free_all_lem r.deleted r.heap a);
    waits = λ a e. absurd (ground arith);
    recent = λ a h. ground (arith, v.recent a h, free_all_lem r.deleted r.heap a);
    owned = λ a s e.
        ground (arith, v.owned a s, free_all_lem r.deleted r.heap a, Bool-cases (has a r.deleted));
  }

  clean-IsResting :
      (r q : Reactor) → Keeps r q → r.fault ≡ false → IsResting (clean_deleted_events handlers q)
  unfolding clean_deleted_events
  clean-IsResting r q k f = record {
    valid = clean_IsReactor q k.valid;
    sound = k.fault ∙ f;
    nothing_waits = refl;
  }

  pub round-IsResting :
      (es : List Ready) (now last : ℕ) (r : Reactor)
      → IsResting r
      → AllLive r (stubs es)
      → IsResting (round handlers es now last r).1
  unfolding round
  round-IsResting es now last r v h =
      let dispatched = dispatch_event handlers es r in
      let one = dispatch_event-Keeps handlers es r v.valid h in
      let checked = dispatch_check handlers dispatched in
      let two =
        trans-Keeps r dispatched checked one (dispatch_check-Keeps handlers dispatched one.valid) in
      if_both (λ (p : ℕ × Reactor). IsResting p.1) (ltb (last + check_period) now)
        (clean-IsResting r checked two v.sound) (clean-IsResting r dispatched one v.sound)

  -- The promise at each wait of the loop.
  abbrev pub Reports : List Wait → ℕ → Reactor → Type 0
  Reports [] last r = Unit
  Reports (interrupted ∷ ws) last r = Reports ws last r
  Reports (bad ∷ ws) last r = Unit
  Reports (reported es now ∷ ws) last r =
      IsRegistered r (stubs es)
      × Reports ws (round handlers es now last r).0 (round handlers es now last r).1

  pub registered_live : (r : Reactor) (xs : List ℕ) → IsReactor r → IsRegistered r xs → AllLive r xs
  registered_live r [] v h = tt
  registered_live r (a ∷ xs) v h =
      (ground (arith, v.tabled h.0.0 a h.0.1), registered_live r xs v h.1)

  pub loop-IsResting :
      (ws : List Wait) (last : ℕ) (r : Reactor)
      → IsResting r
      → Reports ws last r
      → IsResting (loop handlers ws last r).1
  unfolding loop
  loop-IsResting [] last r v h = v
  loop-IsResting (interrupted ∷ ws) last r v h =
      if_both (λ (p : Bool × Reactor). IsResting p.1) r.working (loop-IsResting ws last r v h) v
  loop-IsResting (bad ∷ ws) last r v h = v
  loop-IsResting (reported es now ∷ ws) last r v h =
      let live = registered_live r (stubs es) v.valid h.0 in
      let after = round handlers es now last r in
      if_both (λ (p : Bool × Reactor). IsResting p.1) r.working
        (loop-IsResting ws after.0 after.1 (round-IsResting es now last r v live) h.1) v

  -- The loop, started between two rounds and told by epoll only of registered descriptors, never uses a
  -- freed stub, whatever calls the handlers make, and leaves every stub that is allocated in the table,
  -- under its own descriptor: none leaks.
  pub loop_safe :
      (ws : List Wait) (last : ℕ) (r : Reactor)
      → IsResting r
      → Reports ws last r
      → let q = (loop handlers ws last r).1 in
        (q.fault ≡ false) × ((a : ℕ) (s : Stub) → q.heap a ≡ some s → find s.fd q.table ≡ some a)
  loop_safe ws last r v h = (rests.sound, in_table)
    where
      rests : IsResting (loop handlers ws last r).1
      rests = loop-IsResting ws last r v h

      in_table :
          (a : ℕ) (s : Stub)
          → (loop handlers ws last r).1.heap a ≡ some s
          → find s.fd (loop handlers ws last r).1.table ≡ some a
      in_table a s e = ground (arith, rests.valid.owned a s e, rests.nothing_waits)

no_stubs-IsReactor : IsReactor no_stubs
unfolding find
no_stubs-IsReactor = record {
  ordered = tt;
  tabled = λ fd a e. absurd cc;
  waits = λ a e. absurd cc;
  recent = λ a h. refl;
  owned = λ a s e. absurd cc;
}

pub create_reactor-IsResting : (fd : ℕ) → IsResting (create_reactor fd)
unfolding create_reactor call
create_reactor-IsResting fd =
    let reads : Events = record { read = true; write = false; error = false } in
    record { valid = add_event-IsReactor fd reads; sound = refl; nothing_waits = refl }
  where
    add_event-IsReactor :
        (fd : ℕ) (events : Events)
        → IsReactor (call (add (some fd) events (some command) 0 true) no_stubs).1
    add_event-IsReactor fd events =
        (call-Keeps (add (some fd) events (some command) 0 true) no_stubs no_stubs-IsReactor).valid
