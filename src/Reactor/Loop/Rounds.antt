-- ===== src/Reactor/Loop/Rounds.antt =====
-- What a round of EpollReactor's loop does to a stop that waits in the command pipe.
use vpn_service_android.Common.{
  ℕ, ◌+◌, ◌≡◌, ◌∙◌, ap, sym, subst, Option, none, some, List, [], ◌∷◌, Bool, true, false, ◌&&◌,
  ◌||◌, ◌==◌, ltb, if_both, All, arith, inl, inr, ◌⊎◌,
}
use vpn_service_android.Reactor.{Listener, readable, writable, exception, check, Callback, Reactor}
use vpn_service_android.Reactor.Calls.{Call}
use vpn_service_android.Reactor.Calls.Kept.{is_live}
use vpn_service_android.Reactor.Calls.Spared.{Spares}
use vpn_service_android.Reactor.Table.Laws.{free_all_lem}
use vpn_service_android.Reactor.Loop.{
  Ready, check_period, call_if, dispatch_known, dispatch_listened, dispatch_stub, dispatch_one,
  dispatch_event, check_each, addresses, dispatch_check, clean_deleted_events, round,
}
use vpn_service_android.Reactor.Loop.Kept.{
  AllLive, stubs, live_cases, live_later, call_if-Keeps, dispatch_one-Keeps, table_live,
}
use vpn_service_android.Reactor.Loop.Safety.{clean_IsReactor}
use vpn_service_android.Reactor.Loop.Tracks.{
  listener_of, Stops, IsCommand, Tracks, refl-Tracks, trans-Tracks, call_if-Tracks, call_if_off,
}

-- A batch in which the pipe's stub `a` is reported as readable.
abbrev pub wakes : ℕ → List Ready → Bool
wakes a [] = false
wakes a (e ∷ es) = (e.stub == a && e.can_read) || wakes a es

module _ (handlers : List Callback → List Call) (fd a : ℕ)
    (spares : (log : List Callback) → All (Spares fd) (handlers log)) where
  off_at :
      (c : ℕ) (b : Bool) (r : Reactor)
      → IsCommand fd a r
      → Stops r
      → (c == a && b) ≡ true
      → (call_if handlers b readable c r).working ≡ false
  off_at c false r h s w = absurd (ground arith)
  off_at c true r h s w =
      let e : a ≡ c = ground arith in
      subst (λ k. (call_if handlers true readable k r).working ≡ false) e
        (call_if_off handlers fd a spares r h s)

  -- What holds behind some callbacks: the pipe's stub is there still, and the loop is off if a stop
  -- waited and `w` says that the pipe was read.
  unfoldable pub Ends : Bool → Reactor → Reactor → Type 0
  Ends w r q = Tracks fd a r q × (w ≡ true → Stops r → q.working ≡ false)

  dispatch_known-Ends :
      (e : Ready) (r : Reactor)
      → IsCommand fd a r
      → is_live (r.heap e.stub) ≡ true
      → Ends (e.stub == a && e.can_read) r (dispatch_known handlers e r)
  unfolding dispatch_known Ends
  dispatch_known-Ends e r h n =
      let q = call_if handlers e.can_read readable e.stub r in
      let p = call_if handlers e.can_write writable e.stub q in
      let one = call_if-Tracks handlers fd a spares e.can_read readable e.stub r h n in
      let l = (call_if-Keeps handlers e.can_read readable e.stub r h.valid n).live e.stub n in
      let two = call_if-Tracks handlers fd a spares e.can_write writable e.stub q one.here l in
      let m =
        (call_if-Keeps handlers e.can_write writable e.stub q one.here.valid l).live e.stub l in
      let end = call_if handlers e.broken exception e.stub p in
      let three = call_if-Tracks handlers fd a spares e.broken exception e.stub p two.here m in
      let rest = trans-Tracks fd a q p end two three in
      (trans-Tracks fd a r q end one rest, λ w s. rest.off (off_at e.stub e.can_read r h s w))

  dispatch_one-Ends :
      (e : Ready) (r : Reactor)
      → IsCommand fd a r
      → is_live (r.heap e.stub) ≡ true
      → Ends (e.stub == a && e.can_read) r (dispatch_one handlers e r)
  unfolding dispatch_one dispatch_stub dispatch_listened Ends
  dispatch_one-Ends e r h n =
      let (s, found) = live_cases (r.heap e.stub) n in
      subst (λ o. Ends (e.stub == a && e.can_read) r (dispatch_stub handlers o e r)) (sym found)
        (by_listener s.listener (ap listener_of found))
    where
      missing :
          (b : Bool)
          → listener_of (r.heap e.stub) ≡ none
          → (e.stub == a && b) ≡ true
          → r.working ≡ false
      missing b m w =
          let i : e.stub ≡ a = ground arith in
          let none_some = sym m ∙ ap (λ k. listener_of (r.heap k)) i ∙ h.listens in
          absurd (ground (arith, none_some))

      by_listener :
          (l : Option Listener)
          → listener_of (r.heap e.stub) ≡ l
          → Ends (e.stub == a && e.can_read) r (dispatch_listened handlers l e r)
      by_listener none m = (refl-Tracks fd a r h, λ w s. missing e.can_read m w)
      by_listener (some l) m = dispatch_known-Ends e r h n

  dispatch_event-Ends :
      (es : List Ready) (r : Reactor)
      → IsCommand fd a r
      → AllLive r (stubs es)
      → Ends (wakes a es) r (dispatch_event handlers es r)
  unfolding dispatch_event Ends
  dispatch_event-Ends [] r h n = (refl-Tracks fd a r h, λ w s. absurd cc)
  dispatch_event-Ends (e ∷ es) r h n =
      let q = dispatch_one handlers e r in
      let p = dispatch_event handlers es q in
      let kept = dispatch_one-Keeps handlers e r h.valid n.0 in
      let one = dispatch_one-Ends e r h n.0 in
      let rest =
        dispatch_event-Ends es q one.0.here (live_later handlers r q (stubs es) kept n.1) in
      (
        trans-Tracks fd a r q p one.0 rest.0,
        λ w s. elim (or_cases (e.stub == a && e.can_read) (wakes a es) w) [
          | inl x ↦ rest.0.off (one.1 x s)
          | inr y ↦ rest.1 y (one.0.stops s)
        ],
      )
    where
      or_cases : (x y : Bool) → (x || y) ≡ true → (x ≡ true) ⊎ (y ≡ true)
      or_cases x y w = ground arith

  dispatched_here :
      (es : List Ready) (r : Reactor)
      → IsCommand fd a r
      → AllLive r (stubs es)
      → IsCommand fd a (dispatch_event handlers es r)
  unfolding Ends
  dispatched_here es r h n = (dispatch_event-Ends es r h n).0.here

  check_each-Tracks :
      (xs : List ℕ) (r : Reactor)
      → IsCommand fd a r
      → AllLive r xs
      → Tracks fd a r (check_each handlers xs r)
  unfolding check_each
  check_each-Tracks [] r h n = refl-Tracks fd a r h
  check_each-Tracks (c ∷ xs) r h n =
      let q = call_if handlers true check c r in
      let kept = call_if-Keeps handlers true check c r h.valid n.0 in
      let one = call_if-Tracks handlers fd a spares true check c r h n.0 in
      trans-Tracks fd a r q (check_each handlers xs q) one
        (check_each-Tracks xs q one.here (live_later handlers r q xs kept n.1))

  clean-Tracks : (r : Reactor) → IsCommand fd a r → Tracks fd a r (clean_deleted_events handlers r)
  unfolding clean_deleted_events
  clean-Tracks r h = record {
    here = record {
      valid = clean_IsReactor handlers r h.valid;
      place = h.place;
      listens =
          ground (arith, h.listens, h.valid.tabled fd a h.place, free_all_lem r.deleted r.heap a);
    };
    stops = λ s. s;
    off = λ e. e;
  }

  clean-Ends :
      (w : Bool) (r q p : Reactor)
      → Ends w r q
      → Tracks fd a q p
      → Ends w r (clean_deleted_events handlers p)
  unfolding Ends
  clean-Ends w r q p f t =
      let c = clean_deleted_events handlers p in
      let cleaned = clean-Tracks p t.here in
      (
        trans-Tracks fd a r q c f.0 (trans-Tracks fd a q p c t cleaned),
        λ x s. cleaned.off (t.off (f.1 x s)),
      )

  pub round-Ends :
      (es : List Ready) (now last : ℕ) (r : Reactor)
      → IsCommand fd a r
      → AllLive r (stubs es)
      → Ends (wakes a es) r (round handlers es now last r).1
  unfolding round dispatch_check
  round-Ends es now last r h n =
      let q = dispatch_event handlers es r in
      let one = dispatch_event-Ends es r h n in
      let here = dispatched_here es r h n in
      let p = dispatch_check handlers q in
      let checked =
        check_each-Tracks (addresses q.table) q here (table_live handlers q here.valid) in
      if_both (λ (p : ℕ × Reactor). Ends (wakes a es) r p.1) (ltb (last + check_period) now)
        (clean-Ends (wakes a es) r q p one checked)
        (clean-Ends (wakes a es) r q q one (refl-Tracks fd a q here))
