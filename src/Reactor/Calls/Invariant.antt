-- ===== src/Reactor/Calls/Invariant.antt =====
-- The invariant of EpollReactor: each descriptor has its own stub, each stub is in the table or waits for
-- its deletion, and one that waits has no listener.
use vpn_service_android.Common.{
  ℕ, suc, ◌≤◌, ◌≡◌, ◌⊎◌, [], ◌∷◌, ◌++◌, Option, none, some, Bool, true, false, arith, Bool-cases,
}
use vpn_service_android.Reactor.{convert_event, Listener, Stub, Reactor}
use vpn_service_android.Reactor.Table.{find, insert, erase, store}
use vpn_service_android.Reactor.Table.Laws.{
  has, IsOrdered, find-insert, find-erase, insert-IsOrdered, erase-IsOrdered, has-append,
}

abbrev pub fd_of : Option Stub → Option ℕ
fd_of none = none
fd_of (some s) = some s.fd

abbrev pub no_listener : Option Listener → Bool
no_listener none = true
no_listener (some l) = false

-- An allocated stub without a listener.
abbrev pub is_silent : Option Stub → Bool
is_silent none = false
is_silent (some s) = no_listener s.listener

-- The stub of a descriptor in the table.
abbrev pub IsTabled : Reactor → ℕ → ℕ → Type 0
IsTabled r fd a = (fd_of (r.heap a) ≡ some fd) × (has a r.deleted ≡ false)

abbrev pub IsOwned : Reactor → ℕ → Stub → Type 0
IsOwned r a s =
    (s.mask ≡ convert_event s.events) × ((find s.fd r.table ≡ some a) ⊎ (has a r.deleted ≡ true))

pub record IsReactor (r : Reactor) : Type 0 where
  pub ordered : IsOrdered r.table
  pub tabled : (fd a : ℕ) → find fd r.table ≡ some a → IsTabled r fd a
  pub waits : (a : ℕ) → has a r.deleted ≡ true → is_silent (r.heap a) ≡ true
  pub recent : (a : ℕ) → r.fresh ≤ a → r.heap a ≡ none
  pub owned : (a : ℕ) (s : Stub) → r.heap a ≡ some s → IsOwned r a s

-- Writing a stub of the table, with its descriptor kept.
pub store-IsReactor :
    (r : Reactor) (a : ℕ) (s : Stub)
    → IsReactor r
    → find s.fd r.table ≡ some a
    → s.mask ≡ convert_event s.events
    → IsReactor (record r { heap = store r.heap a (some s) })
unfolding store
store-IsReactor r a s v f m = record {
  ordered = v.ordered;
  tabled = λ fd b e. ground (arith, v.tabled fd b e, v.tabled s.fd a f);
  waits = λ b e. ground (arith, v.waits b e, v.tabled s.fd a f);
  recent = λ b l. ground (arith, v.recent b l, v.tabled s.fd a f);
  owned = λ b t e. ground (arith, v.owned b t);
}

-- The last events of a descriptor are removed.
pub retire-IsReactor :
    (r : Reactor) (a : ℕ) (s : Stub)
    → IsReactor r
    → find s.fd r.table ≡ some a
    → s.mask ≡ convert_event s.events
    → s.listener ≡ none
    → IsReactor (record r {
      heap = store r.heap a (some s);
      deleted = r.deleted ++ a ∷ [];
      table = erase s.fd r.table;
    })
unfolding store
retire-IsReactor r a s v f m l = record {
  ordered = erase-IsOrdered s.fd r.table v.ordered;
  tabled = λ fd b e. ground (
    arith,
    v.tabled fd b,
    v.tabled s.fd a f,
    find-erase s.fd fd r.table v.ordered,
    has-append b a r.deleted,
  );
  waits = λ b e. ground (arith, v.waits b, has-append b a r.deleted);
  recent = λ b h. ground (arith, v.recent b h, v.tabled s.fd a f);
  owned = λ b t e.
      ground (arith, v.owned b t, find-erase s.fd t.fd r.table v.ordered, has-append b a r.deleted);
}

-- A descriptor that was not in the table gets a stub at a new address.
pub grow-IsReactor :
    (r : Reactor) (s : Stub)
    → IsReactor r
    → find s.fd r.table ≡ none
    → s.mask ≡ convert_event s.events
    → IsReactor (record r {
      heap = store r.heap r.fresh (some s);
      fresh = suc r.fresh;
      table = insert s.fd r.fresh r.table;
    })
unfolding store
grow-IsReactor r s v f m = record {
  ordered = insert-IsOrdered s.fd r.fresh r.table f v.ordered;
  tabled = λ fd b e. ground (
    arith,
    v.tabled fd b,
    v.recent b,
    v.waits b,
    Bool-cases (has b r.deleted),
    find-insert s.fd r.fresh fd r.table f,
  );
  waits = λ b e. ground (arith, v.waits b, v.recent b);
  recent = λ b h. ground (arith, v.recent b);
  owned = λ b t e. ground (arith, v.owned b t, find-insert s.fd r.fresh t.fd r.table f, v.recent b);
}
