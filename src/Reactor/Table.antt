-- ===== src/Reactor/Table.antt =====
-- reactor/EpollReactor.h, `std::map<int,EventStub*> mFd2Events` and `std::list<EventStub*>
-- mDelEventStubs`: the map in the order of its keys, and the stubs as a store of objects at addresses.
pub mod Laws
use vpn_service_android.Common.{ℕ, List, [], ◌∷◌, Option, none, some, ◌==◌, ltb, if◌then◌else◌}

abbrev pub Table : Type 0
Table = List (ℕ × ℕ)

unfoldable pub find : ℕ → Table → Option ℕ
find fd [] = none
find fd ((k, a) ∷ t) = if k == fd then some a else find fd t

-- In place of an equal key, too; the reactor inserts only keys that are not there.
unfoldable pub insert : ℕ → ℕ → Table → Table
insert fd a [] = (fd, a) ∷ []
insert fd a ((k, b) ∷ t) =
    let rest = insert fd a t in if ltb fd k then (fd, a) ∷ (k, b) ∷ t else (k, b) ∷ rest

unfoldable pub erase : ℕ → Table → Table
erase fd [] = []
erase fd ((k, a) ∷ t) = let rest = erase fd t in if k == fd then t else (k, a) ∷ rest

module _ {ℓ} {A : Type ℓ} where
  -- The store of objects; `none` is an address that holds nothing.
  unfoldable pub store : (ℕ → Option A) → ℕ → Option A → ℕ → Option A
  store h a o b = if b == a then o else h b

  -- SAFE_DELETE on every address of a list.
  unfoldable pub free_all : List ℕ → (ℕ → Option A) → ℕ → Option A
  unfolding store
  free_all [] h = h
  free_all (a ∷ xs) h = free_all xs (store h a none)
