-- ===== src/Reactor/Calls/Kept.antt =====
-- What the calls on EpollReactor keep.
use vpn_service_android.Common.{
  ℕ, ◌≡◌, refl, ◌∙◌, List, [], ◌∷◌, ◌++◌, Option, none, some, Bool, true, false, if_both, subst,
  arith,
}
use vpn_service_android.Reactor.{
  Events, union, convert_event, Listener, Stub, Reactor, Status, no_events, minus,
}
use vpn_service_android.Reactor.Table.{find, erase, store}
use vpn_service_android.Reactor.Table.Laws.{has, has-append}
use vpn_service_android.Reactor.Calls.{
  modify_stub, new_stub, add_found, add_event, shrink_stub, del_listened, del_stub, del_found,
  del_event, stop, Call, add, del, stop_loop, call, calls,
}
use vpn_service_android.Reactor.Calls.Invariant.{
  IsReactor, store-IsReactor, retire-IsReactor, grow-IsReactor,
}

abbrev pub is_live : Option Stub → Bool
is_live none = false
is_live (some s) = true

-- Nothing is used that is not allocated, nothing is freed, and what waits for deletion waits on.
pub record Keeps (r q : Reactor) : Type 0 where
  pub valid : IsReactor q
  pub fault : q.fault ≡ r.fault
  pub has_epoll : q.has_epoll ≡ r.has_epoll
  pub live : (a : ℕ) → is_live (r.heap a) ≡ true → is_live (q.heap a) ≡ true
  pub deleted : (a : ℕ) → has a r.deleted ≡ true → has a q.deleted ≡ true

pub refl-Keeps : (r : Reactor) → IsReactor r → Keeps r r
refl-Keeps r v = record {
  valid = v;
  fault = refl;
  has_epoll = refl;
  live = λ a h. h;
  deleted = λ a h. h;
}

pub trans-Keeps : (r q p : Reactor) → Keeps r q → Keeps q p → Keeps r p
trans-Keeps r q p f g = record {
  valid = g.valid;
  fault = g.fault ∙ f.fault;
  has_epoll = g.has_epoll ∙ f.has_epoll;
  live = λ a h. g.live a (f.live a h);
  deleted = λ a h. g.deleted a (f.deleted a h);
}

live-store :
    (h : ℕ → Option Stub) (a b : ℕ) (s : Stub)
    → is_live (h b) ≡ true
    → is_live (store h a (some s) b) ≡ true
unfolding store
live-store h a b s e = ground arith

modify_stub-Keeps :
    (r : Reactor) (o : Option Stub) (a fd : ℕ) (events : Events) (l : Option Listener) (tag : ℕ)
    (ok : Bool)
    → IsReactor r
    → find fd r.table ≡ some a
    → r.heap a ≡ o
    → Keeps r (modify_stub o a events l tag ok r).1
unfolding modify_stub store
modify_stub-Keeps r none a fd events l tag ok v f h = absurd (ground (arith, v.tabled fd a f))
modify_stub-Keeps r (some s) a fd events l tag ok v f h =
    let new : Stub = record s {
      events = union s.events events;
      mask = convert_event (union s.events events);
      listener = l;
      tag = tag;
    } in
    let same : find s.fd r.table ≡ some a = ground (arith, v.tabled fd a f) in
    record {
      valid = store-IsReactor r a new v same refl;
      fault = refl;
      has_epoll = refl;
      live = λ b e. ground arith;
      deleted = λ b e. e;
    }

add_found-Keeps :
    (r : Reactor) (o : Option ℕ) (fd : ℕ) (events : Events) (l : Option Listener) (tag : ℕ)
    (ok : Bool)
    → IsReactor r
    → find fd r.table ≡ o
    → Keeps r (add_found o fd events l tag ok r).1
unfolding add_found new_stub store
add_found-Keeps r (some a) fd events l tag ok v f =
    modify_stub-Keeps r (r.heap a) a fd events l tag ok v f refl
add_found-Keeps r none fd events l tag false v f = refl-Keeps r v
add_found-Keeps r none fd events l tag true v f = record {
  valid = grow-IsReactor r (new_stub fd events l tag) v f refl;
  fault = refl;
  has_epoll = refl;
  live = λ b e. ground arith;
  deleted = λ b e. e;
}

shrink_own-Keeps :
    (r : Reactor) (s : Stub) (a : ℕ) (events : Events) (ok : Bool)
    → IsReactor r
    → find s.fd r.table ≡ some a
    → Keeps r (shrink_stub s a s.fd events ok r).1
unfolding shrink_stub
shrink_own-Keeps r s a events ok v f = by_answer ok
  where
    left : Events
    left = minus s.events events

    new : Stub
    new = record s { events = left; mask = convert_event left }

    written : Keeps r (record r { heap = store r.heap a (some new) })
    written = record {
      valid = store-IsReactor r a new v f refl;
      fault = refl;
      has_epoll = refl;
      live = λ b e. live-store r.heap a b new e;
      deleted = λ b e. e;
    }

    retired : Stub
    retired = record new { listener = none }

    last : Keeps r (record r {
      heap = store r.heap a (some retired);
      deleted = r.deleted ++ a ∷ [];
      table = erase s.fd r.table;
    })
    last = record {
      valid = retire-IsReactor r a retired v f refl refl;
      fault = refl;
      has_epoll = refl;
      live = λ b h. live-store r.heap a b retired h;
      deleted = λ b h. ground (arith, has-append b a r.deleted);
    }

    by_answer : (o : Bool) → Keeps r (shrink_stub s a s.fd events o r).1
    by_answer false = written
    by_answer true = if_both (λ (p : Status × Reactor). Keeps r p.1) (no_events left) last written

shrink_stub-Keeps :
    (r : Reactor) (s : Stub) (a fd : ℕ) (events : Events) (ok : Bool)
    → IsReactor r
    → find fd r.table ≡ some a
    → r.heap a ≡ some s
    → Keeps r (shrink_stub s a fd events ok r).1
shrink_stub-Keeps r s a fd events ok v f h =
    let e : s.fd ≡ fd = ground (arith, v.tabled fd a f) in
    subst (λ k. Keeps r (shrink_stub s a k events ok r).1) e
      (shrink_own-Keeps r s a events ok v (ground arith))

del_found-Keeps :
    (r : Reactor) (o : Option ℕ) (fd : ℕ) (events : Events) (ok : Bool)
    → IsReactor r
    → find fd r.table ≡ o
    → Keeps r (del_found o fd events ok r).1
unfolding del_found del_listened del_stub
del_found-Keeps r none fd events ok v f = refl-Keeps r v
del_found-Keeps r (some a) fd events ok v f = stub_at (r.heap a) refl
  where
    listened :
        (s : Stub) (l : Option Listener)
        → r.heap a ≡ some s
        → Keeps r (del_listened l s a fd events ok r).1
    listened s none h = refl-Keeps r v
    listened s (some l) h = shrink_stub-Keeps r s a fd events ok v f h

    stub_at : (o : Option Stub) → r.heap a ≡ o → Keeps r (del_stub o a fd events ok r).1
    stub_at none h = absurd (ground (arith, v.tabled fd a f))
    stub_at (some s) h = listened s s.listener h

-- Every call keeps the table and the stubs in order.
pub call-Keeps : (c : Call) (r : Reactor) → IsReactor r → Keeps r (call c r).1
unfolding call add_event del_event stop
call-Keeps (add none events l tag ok) r v = refl-Keeps r v
call-Keeps (add (some fd) events l tag ok) r v =
    if_both (λ (p : Status × Reactor). Keeps r p.1) r.has_epoll
      (add_found-Keeps r (find fd r.table) fd events l tag ok v refl) (refl-Keeps r v)
call-Keeps (del fd events ok) r v =
    if_both (λ (p : Status × Reactor). Keeps r p.1) r.has_epoll
      (del_found-Keeps r (find fd r.table) fd events ok v refl) (refl-Keeps r v)
call-Keeps (stop_loop false) r v = refl-Keeps r v
call-Keeps (stop_loop true) r v = record {
  valid = record {
    ordered = v.ordered;
    tabled = v.tabled;
    waits = v.waits;
    recent = v.recent;
    owned = v.owned;
  };
  fault = refl;
  has_epoll = refl;
  live = λ a h. h;
  deleted = λ a h. h;
}

pub calls-Keeps : (cs : List Call) (r : Reactor) → IsReactor r → Keeps r (calls cs r).1
unfolding calls
calls-Keeps [] r v = refl-Keeps r v
calls-Keeps (c ∷ cs) r v =
    let one = call-Keeps c r v in
    trans-Keeps r (call c r).1 (calls cs (call c r).1).1 one (calls-Keeps cs (call c r).1 one.valid)
