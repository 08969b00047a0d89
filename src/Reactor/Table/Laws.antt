-- ===== src/Reactor/Table/Laws.antt =====
-- The table of EpollReactor as a map from descriptors to addresses, and the store of stubs.
use vpn_service_android.Common.{
  ℕ, ◌<◌, ◌≡◌, refl, List, [], ◌∷◌, ◌++◌, Option, none, some, Bool, false, ◌||◌, ◌==◌,
  if◌then◌else◌, All, arith,
}
use vpn_service_android.Reactor.Table.{Table, find, insert, erase, store, free_all}

-- Every key of the table is above `k`.
abbrev pub Above : ℕ → Table → Type 0
Above k t = All (λ e. k < e.0) t

abbrev pub IsOrdered : Table → Type 0
IsOrdered [] = Unit
IsOrdered ((k, a) ∷ t) = Above k t × IsOrdered t

abbrev pub has : ℕ → List ℕ → Bool
has a [] = false
has a (b ∷ xs) = a == b || has a xs

pub has-append : (a b : ℕ) (xs : List ℕ) → has a (xs ++ b ∷ []) ≡ (a == b || has a xs)
has-append a b [] = refl
has-append a b (x ∷ xs) = ground (arith, has-append a b xs)

Above-lower : (j k : ℕ) (t : Table) → j < k → Above k t → Above j t
Above-lower j k [] l h = tt
Above-lower j k (e ∷ t) l h = (omega (arith, h.0), Above-lower j k t l h.1)

insert-Above : (j fd a : ℕ) (t : Table) → j < fd → Above j t → Above j (insert fd a t)
unfolding insert
insert-Above j fd a [] l h = (l, tt)
insert-Above j fd a ((k, b) ∷ t) l h = ground (arith, insert-Above j fd a t l h.1)

erase-Above : (j fd : ℕ) (t : Table) → Above j t → Above j (erase fd t)
unfolding erase
erase-Above j fd [] h = tt
erase-Above j fd ((k, b) ∷ t) h = ground (arith, erase-Above j fd t h.1)

pub find-Above : (fd : ℕ) (t : Table) → Above fd t → find fd t ≡ none
unfolding find
find-Above fd [] h = refl
find-Above fd ((k, a) ∷ t) h = ground (arith, find-Above fd t h.1)

pub find-insert :
    (fd a j : ℕ) (t : Table)
    → find fd t ≡ none
    → find j (insert fd a t) ≡ (if fd == j then some a else find j t)
unfolding find insert
find-insert fd a j [] h = refl
find-insert fd a j ((k, b) ∷ t) h = ground (arith, find-insert fd a j t)

pub find-erase :
    (fd j : ℕ) (t : Table)
    → IsOrdered t
    → find j (erase fd t) ≡ (if fd == j then none else find j t)
unfolding find erase
find-erase fd j [] h = ground arith
find-erase fd j ((k, b) ∷ t) h = ground (arith, find-erase fd j t h.1, find-Above k t h.0)

pub insert-IsOrdered :
    (fd a : ℕ) (t : Table) → find fd t ≡ none → IsOrdered t → IsOrdered (insert fd a t)
unfolding find insert
insert-IsOrdered fd a [] e h = (tt, tt)
insert-IsOrdered fd a ((k, b) ∷ t) e h =
    ground (arith, insert-IsOrdered fd a t, Above-lower fd k t, insert-Above k fd a t)

pub erase-IsOrdered : (fd : ℕ) (t : Table) → IsOrdered t → IsOrdered (erase fd t)
unfolding erase
erase-IsOrdered fd [] h = tt
erase-IsOrdered fd ((k, b) ∷ t) h = ground (arith, erase-IsOrdered fd t h.1, erase-Above k fd t h.0)

module _ {ℓ} {A : Type ℓ} where
  pub free_all_lem :
      (xs : List ℕ) (h : ℕ → Option A) (a : ℕ) → free_all xs h a ≡ (if has a xs then none else h a)
  unfolding free_all store
  free_all_lem [] h a = refl
  free_all_lem (x ∷ xs) h a = ground (arith, free_all_lem xs (store h x none) a)
