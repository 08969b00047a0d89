-- ===== src/Reactor/Loop/Ending.antt =====
-- How EpollReactor::stop ends the loop: through the command pipe.
use vpn_service_android.Common.{
  ℕ, ◌≡◌, refl, List, [], ◌∷◌, ◌++◌, some, Bool, true, false, ◌||◌, if_both, All, arith, Bool-cases,
  inl, inr,
}
use vpn_service_android.Reactor.{command, Callback, Reactor}
use vpn_service_android.Reactor.Table.{find}
use vpn_service_android.Reactor.Calls.{Call, stop}
use vpn_service_android.Reactor.Calls.Spared.{asks_stop, Spares}
use vpn_service_android.Reactor.Loop.{round, Wait, interrupted, bad, reported, loop}
use vpn_service_android.Reactor.Loop.Kept.{stubs}
use vpn_service_android.Reactor.Loop.Safety.{IsResting, round-IsResting, Reports, registered_live}
use vpn_service_android.Reactor.Loop.Tracks.{Stops, IsCommand, listener_of, other-IsCommand}
use vpn_service_android.Reactor.Loop.Rounds.{wakes, Ends, round-Ends}

-- A row of answers, in one of which the pipe's stub `a` is reported as readable.
abbrev pub some_wakes : ℕ → List Wait → Bool
some_wakes a [] = false
some_wakes a (interrupted ∷ ws) = some_wakes a ws
some_wakes a (bad ∷ ws) = some_wakes a ws
some_wakes a (reported es now ∷ ws) = wakes a es || some_wakes a ws

module _ (handlers : List Callback → List Call) (fd a : ℕ)
    (spares : (log : List Callback) → All (Spares fd) (handlers log)) where
  off_ends :
      (ws : List Wait) (last : ℕ) (r : Reactor)
      → r.working ≡ false
      → (loop handlers ws last r).0 ≡ true
  unfolding loop
  off_ends [] last r e = rw e refl
  off_ends (interrupted ∷ ws) last r e = ground arith
  off_ends (bad ∷ ws) last r e = refl
  off_ends (reported es now ∷ ws) last r e = ground arith

  woken_ends :
      (ws : List Wait) (last : ℕ) (r : Reactor)
      → IsResting r
      → IsCommand fd a r
      → Stops r
      → Reports handlers ws last r
      → some_wakes a ws ≡ true
      → (loop handlers ws last r).0 ≡ true
  unfolding loop Ends
  woken_ends [] last r v h s n w = absurd cc
  woken_ends (interrupted ∷ ws) last r v h s n w =
      if_both (λ (p : Bool × Reactor). p.0 ≡ true) r.working (woken_ends ws last r v h s n w) refl
  woken_ends (bad ∷ ws) last r v h s n w = refl
  woken_ends (reported es now ∷ ws) last r v h s n w =
      let live = registered_live handlers r (stubs es) v.valid n.0 in
      let (checked, q) = round handlers es now last r in
      let one = round-Ends handlers fd a spares es now last r h live in
      let rest =
        woken_ends ws checked q (round-IsResting handlers es now last r v live) one.0.here
          (one.0.stops s) n.1 in
      if_both (λ (p : Bool × Reactor). p.0 ≡ true) r.working
        (elim (Bool-cases (wakes a es)) [
          | inl e ↦ off_ends ws checked q (one.1 e s)
          | inr e ↦ rest (ground arith)
        ])
        refl

-- Only EpollReactor::stop writes to the command pipe.
abbrev pub OnlyStops : Reactor → Type 0
OnlyStops r = All (λ c. c ≡ 1) r.pipe

-- A call of stop that gets its byte into the pipe ends the loop: between two rounds, with nothing but
-- stops in the pipe, with its descriptor registered and never named by a call of a handler, and with
-- epoll reporting registered descriptors only, the loop ends within any row of answers of epoll_wait
-- that reports the pipe as readable once, whatever the handlers do otherwise.
pub stop_ends :
    (handlers : List Callback → List Call) (fd a : ℕ) (ws : List Wait) (last : ℕ) (r : Reactor)
    → IsResting r
    → find fd r.table ≡ some a
    → listener_of (r.heap a) ≡ some command
    → OnlyStops r
    → ((log : List Callback) → All (Spares fd) (handlers log))
    → Reports handlers ws last (stop true r).1
    → some_wakes a ws ≡ true
    → (loop handlers ws last (stop true r).1).0 ≡ true
unfolding stop
stop_ends handlers fd a ws last r v f l o spares n w =
    let h : IsCommand fd a r = record { valid = v.valid; place = f; listens = l } in
    woken_ends handlers fd a spares ws last (record r { pipe = r.pipe ++ 1 ∷ [] })
      (record {
        valid = (other-IsCommand fd a r r.working (r.pipe ++ 1 ∷ []) r.log h).valid;
        sound = v.sound;
        nothing_waits = v.nothing_waits;
      })
      (other-IsCommand fd a r r.working (r.pipe ++ 1 ∷ []) r.log h) (inr (asked r.pipe o)) n w
  where
    asked : (xs : List ℕ) → All (λ c. c ≡ 1) xs → asks_stop (xs ++ 1 ∷ []) ≡ true
    asked [] o = refl
    asked (x ∷ xs) o = ground arith
