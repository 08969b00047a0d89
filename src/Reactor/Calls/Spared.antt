-- ===== src/Reactor/Calls/Spared.antt =====
-- What calls on EpollReactor leave of a descriptor that they do not name.
use vpn_service_android.Common.{
  ℕ, ◌≡◌, refl, List, [], ◌∷◌, ◌++◌, Option, none, some, Bool, true, false, ◌==◌, if_both, arith,
}
use vpn_service_android.Reactor.{
  Events, Listener, Stub, Reactor, Status, minus, convert_event, no_events,
}
use vpn_service_android.Reactor.Table.{find, erase, store}
use vpn_service_android.Reactor.Table.Laws.{find-insert, find-erase}
use vpn_service_android.Reactor.Calls.{
  Call, add, del, stop_loop, call, modify_stub, add_found, add_event, shrink_stub, del_listened,
  del_stub, del_found, del_event, stop,
}
use vpn_service_android.Reactor.Calls.Invariant.{IsReactor}

abbrev pub asks_stop : List ℕ → Bool
asks_stop [] = false
asks_stop (c ∷ rest) = c == 1

-- A call on another descriptor than `fd`.
abbrev pub Spares : ℕ → Call → Type 0
Spares fd (add none events l tag ok) = Unit
Spares fd (add (some k) events l tag ok) = (k == fd) ≡ false
Spares fd (del k events ok) = (k == fd) ≡ false
Spares fd (stop_loop ok) = Unit

module _ (fd a : ℕ) where
  -- The stub at `a` stays that of `fd`, untouched; the loop goes on, and a stop that waits is not lost.
  pub record IsSpared (r q : Reactor) : Type 0 where
    pub place : find fd q.table ≡ some a
    pub stub : q.heap a ≡ r.heap a
    pub working : q.working ≡ r.working
    pub pipe : asks_stop r.pipe ≡ true → asks_stop q.pipe ≡ true

  refl-IsSpared : (r : Reactor) → find fd r.table ≡ some a → IsSpared r r
  refl-IsSpared r f = record { place = f; stub = refl; working = refl; pipe = λ h. h }

  modify-IsSpared :
      (r : Reactor) (o : Option Stub) (k b : ℕ) (events : Events) (l : Option Listener) (tag : ℕ)
      (ok : Bool)
      → IsReactor r
      → find fd r.table ≡ some a
      → find k r.table ≡ some b
      → (k == fd) ≡ false
      → IsSpared r (modify_stub o b events l tag ok r).1
  unfolding modify_stub store
  modify-IsSpared r none k b events l tag ok v f g n = record {
    place = f;
    stub = refl;
    working = refl;
    pipe = λ h. h;
  }
  modify-IsSpared r (some s) k b events l tag ok v f g n = record {
    place = f;
    stub = ground (arith, v.tabled fd a f, v.tabled k b g);
    working = refl;
    pipe = λ h. h;
  }

  add-IsSpared :
      (r : Reactor) (o : Option ℕ) (k : ℕ) (events : Events) (l : Option Listener) (tag : ℕ)
      (ok : Bool)
      → IsReactor r
      → find fd r.table ≡ some a
      → find k r.table ≡ o
      → (k == fd) ≡ false
      → IsSpared r (add_found o k events l tag ok r).1
  unfolding add_found store
  add-IsSpared r (some b) k events l tag ok v f g n =
      modify-IsSpared r (r.heap b) k b events l tag ok v f g n
  add-IsSpared r none k events l tag false v f g n = refl-IsSpared r f
  add-IsSpared r none k events l tag true v f g n = record {
    place = ground (arith, find-insert k r.fresh fd r.table g);
    stub = ground (arith, v.tabled fd a f, v.recent r.fresh);
    working = refl;
    pipe = λ h. h;
  }

  shrink-IsSpared :
      (r : Reactor) (s : Stub) (k b : ℕ) (events : Events) (ok : Bool)
      → IsReactor r
      → find fd r.table ≡ some a
      → find k r.table ≡ some b
      → (k == fd) ≡ false
      → IsSpared r (shrink_stub s b k events ok r).1
  unfolding shrink_stub store
  shrink-IsSpared r s k b events ok v f g n =
      if_both (λ (p : Status × Reactor). IsSpared r p.1) ok
        (if_both (λ (p : Status × Reactor). IsSpared r p.1) (no_events left)
          (retired (record new { listener = none })) (written new))
        (written new)
    where
      left : Events
      left = minus s.events events

      new : Stub
      new = record s { events = left; mask = convert_event left }

      apart : (t : Option Stub) → store r.heap b t a ≡ r.heap a
      apart t = ground (arith, v.tabled fd a f, v.tabled k b g)

      written : (t : Stub) → IsSpared r (record r { heap = store r.heap b (some t) })
      written t = record { place = f; stub = apart (some t); working = refl; pipe = λ h. h }

      retired :
          (t : Stub)
          → IsSpared r (record r {
            heap = store r.heap b (some t);
            deleted = r.deleted ++ b ∷ [];
            table = erase k r.table;
          })
      retired t = record {
        place = ground (arith, find-erase k fd r.table v.ordered);
        stub = apart (some t);
        working = refl;
        pipe = λ h. h;
      }

  del-IsSpared :
      (r : Reactor) (o : Option ℕ) (k : ℕ) (events : Events) (ok : Bool)
      → IsReactor r
      → find fd r.table ≡ some a
      → find k r.table ≡ o
      → (k == fd) ≡ false
      → IsSpared r (del_found o k events ok r).1
  unfolding del_found del_stub del_listened
  del-IsSpared r none k events ok v f g n = refl-IsSpared r f
  del-IsSpared r (some b) k events ok v f g n = at_stub (r.heap b)
    where
      listened : (s : Stub) (l : Option Listener) → IsSpared r (del_listened l s b k events ok r).1
      listened s none = refl-IsSpared r f
      listened s (some l) = shrink-IsSpared r s k b events ok v f g n

      at_stub : (o : Option Stub) → IsSpared r (del_stub o b k events ok r).1
      at_stub none = record { place = f; stub = refl; working = refl; pipe = λ h. h }
      at_stub (some s) = listened s s.listener

  asks_more : (xs ys : List ℕ) → asks_stop xs ≡ true → asks_stop (xs ++ ys) ≡ true
  asks_more [] ys h = absurd cc
  asks_more (x ∷ xs) ys h = h

  pub call-IsSpared :
      (c : Call) (r : Reactor)
      → IsReactor r
      → find fd r.table ≡ some a
      → Spares fd c
      → IsSpared r (call c r).1
  unfolding call add_event del_event stop
  call-IsSpared (add none events l tag ok) r v f n = refl-IsSpared r f
  call-IsSpared (add (some k) events l tag ok) r v f n =
      if_both (λ (p : Status × Reactor). IsSpared r p.1) r.has_epoll
        (add-IsSpared r (find k r.table) k events l tag ok v f refl n) (refl-IsSpared r f)
  call-IsSpared (del k events ok) r v f n =
      if_both (λ (p : Status × Reactor). IsSpared r p.1) r.has_epoll
        (del-IsSpared r (find k r.table) k events ok v f refl n) (refl-IsSpared r f)
  call-IsSpared (stop_loop false) r v f n = refl-IsSpared r f
  call-IsSpared (stop_loop true) r v f n = record {
    place = f;
    stub = refl;
    working = refl;
    pipe = asks_more r.pipe (1 ∷ []);
  }
