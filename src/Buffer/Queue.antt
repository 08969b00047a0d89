-- ===== src/Buffer/Queue.antt =====
-- core/BufferQueue.h, class BufferQueue over `std::list<T*>`. An iterator is the split of the list at
-- its place: the items before it, and those from it on; `end()` has none from it on.
pub mod Sorted
use vpn_service_android.Common.{
  ℕ, suc, ◌+◌, List, [], ◌∷◌, ◌++◌, Option, none, some, Bool, true, false, if◌then◌else◌, length,
}

pub record Iterator {ℓ} (A : Type ℓ) : Type ℓ where
  pub before : List A
  pub after : List A

module _ {ℓ} {A : Type ℓ} where
  unfoldable pub size : List A → ℕ
  size q = length q

  unfoldable pub push : List A → A → List A
  push q x = q ++ x ∷ []

  unfoldable pub pop : List A → List A
  pop [] = []
  pop (x ∷ q) = q

  unfoldable pub front : List A → Option A
  front [] = none
  front (x ∷ q) = some x

  unfoldable pub empty : List A → Bool
  empty [] = true
  empty (x ∷ q) = false

  abbrev step_over : A → Iterator A → Iterator A
  step_over x it = record { before = x ∷ it.before; after = it.after }

  -- The place of the first item that is not smaller; `not_greater x` is the test
  -- `compare(segment, x) <= 0` of the loop.
  unfoldable pub find_not_smaller : (A → Bool) → List A → Iterator A
  find_not_smaller not_greater [] = record { before = []; after = [] }
  find_not_smaller not_greater (x ∷ q) =
      if not_greater x
      then record { before = []; after = x ∷ q }
      else step_over x (find_not_smaller not_greater q)

  unfoldable pub insert : Iterator A → A → List A
  insert it x = it.before ++ x ∷ it.after

  -- The range from one iterator to another, and a single place.
  unfoldable pub remove_range : List A → List A → List A
  remove_range before from_t = before ++ from_t

  unfoldable pub remove : Iterator A → List A
  remove it = it.before ++ pop it.after

  -- Every segment is deleted and popped.
  unfoldable pub clear : List A → List A
  clear [] = []
  clear (x ∷ q) = clear q
