-- ===== src/Buffer/Queue/Sorted.antt =====
-- Insertion at the place that `findNotSmaller` gives keeps a queue in order.
use vpn_service_android.Common.{
  ℕ, suc, ◌≤◌, ◌≡◌, inl, inr, refl, List, [], ◌∷◌, ◌++◌, Bool, true, arith, leb, Bool-cases,
}
use vpn_service_android.Buffer.Queue.{Iterator, find_not_smaller, insert}

module _ {ℓ} {A : Type ℓ} where
  -- Nothing is lost: the iterator splits the queue.
  pub find-splits :
      (p : A → Bool) (q : List A)
      → (find_not_smaller p q).before ++ (find_not_smaller p q).after ≡ q
  unfolding find_not_smaller
  find-splits p [] = refl
  find-splits p (x ∷ q) = ground (arith, find-splits p q)

  -- The first item of a list passes a test, if there is one.
  abbrev pub Heads : (A → Bool) → List A → Type 0
  Heads p [] = Unit
  Heads p (y ∷ q) = p y ≡ true

-- A queue in strictly rising order of a key, all above a bound.
module _ {ℓ} {A : Type ℓ} (key : A → ℕ) where
  abbrev pub Rises : ℕ → List A → Type 0
  Rises low [] = Unit
  Rises low (x ∷ q) = (low ≤ key x) × Rises (suc (key x)) q

  -- The item at the place found has the key of the new one: a duplicate.
  abbrev pub Duplicate : A → Iterator A → Type 0
  Duplicate x it = Same it.after
    where
      Same : List A → Type 0
      Same [] = ⊥
      Same (y ∷ q) = key y ≡ key x

  abbrev pub at_most : A → A → Bool
  at_most x y = leb (key x) (key y)

  -- An item whose key is not in the queue yet goes to its place in the order.
  pub insert-Rises :
      (low : ℕ) (q : List A) (x : A)
      → Rises low q
      → low ≤ key x
      → ¬ Duplicate x (find_not_smaller (at_most x) q)
      → Rises low (insert (find_not_smaller (at_most x) q) x)
  unfolding find_not_smaller insert
  insert-Rises low [] x r h new = (h, tt)
  insert-Rises low (y ∷ q) x r h new = elim (Bool-cases (leb (key x) (key y))) [
    | inl here ↦ rw here (h, (above here (λ e. new (rw here e)), r.1))
    | inr further ↦
        rw further
          (r.0, insert-Rises (suc (key y)) q x r.1 (ground arith) (λ d. new (rw further d)))
  ]
    where
      above : leb (key x) (key y) ≡ true → ¬ (key y ≡ key x) → suc (key x) ≤ key y
      above le ne = ground arith
