-- ===== src/Packet/Checksum/Fold.antt =====
-- The checksum as arithmetic modulo 65535, and its use by a receiver.
use vpn_service_android.Common.{
  ℕ, zero, suc, ◌+◌, ◌-◌, ◌*◌, ◌/◌, ◌%◌, ◌^◌, ◌≤◌, ◌<◌, ◌≡◌, refl, sym, List, [], ◌∷◌, ◌++◌, arith,
  length, u32, IsBytes,
}
use vpn_service_android.Packet.Checksum.{sum_words, fold_carries, compute_checksum}

-- The plain sum of the words.
abbrev pub word_sum : List ℕ → ℕ
word_sum [] = 0
word_sum (lo ∷ []) = lo
word_sum (lo ∷ hi ∷ rest) = hi * 256 + lo + word_sum rest

word_sum-le : (xs : List ℕ) → IsBytes xs → word_sum xs ≤ length xs * 65535
word_sum-le [] b = omega arith
word_sum-le (lo ∷ []) b = omega arith
word_sum-le (lo ∷ hi ∷ rest) b = omega (arith, word_sum-le rest b.1.1)

-- The loop does not wrap.
pub sum_words_lem :
    (sum : ℕ) (xs : List ℕ)
    → IsBytes xs
    → sum + word_sum xs < 2 ^ 32
    → sum_words sum xs ≡ sum + word_sum xs
unfolding sum_words
sum_words_lem sum [] b h = omega arith
sum_words_lem sum (lo ∷ []) b h = omega arith
sum_words_lem sum (lo ∷ hi ∷ rest) b h =
    omega (arith, sum_words_lem (u32 (sum + (hi * 256 + lo))) rest b.1.1 (omega arith))

fold_small : (fuel sum : ℕ) → sum < 2 ^ 16 → fold_carries fuel sum ≡ sum
unfolding fold_carries
fold_small zero sum h = refl
fold_small (suc fuel) sum h = ground arith

fold_one :
    (fuel sum : ℕ) → sum < 2 ^ 17 - 1 → fold_carries (suc fuel) sum ≡ sum % 2 ^ 16 + sum / 2 ^ 16
unfolding fold_carries
fold_one fuel sum h = ground (arith, fold_small fuel (sum % 65536 + sum / 65536))

-- What the carry loop makes of a sum: 16 bits, the same modulo 65535, and 0 only for 0.
abbrev pub Folds : ℕ → ℕ → Type 0
Folds sum r = (r < 2 ^ 16) × (r % 65535 ≡ sum % 65535) × (r ≡ 0 → sum ≡ 0) × (sum ≡ 0 → r ≡ 0)

-- Two rounds of the carry loop are enough for any 32-bit sum.
pub fold_carries_lem : (fuel sum : ℕ) → sum < 2 ^ 32 → Folds sum (fold_carries (suc (suc fuel)) sum)
unfolding fold_carries
fold_carries_lem fuel sum h =
    let one = fold_one fuel (sum % 65536 + sum / 65536) (omega arith) in
    (ground arith, ground arith, ground arith, ground arith)

Folds-unique :
    (s t r q : ℕ)
    → s % 65535 ≡ t % 65535
    → (s ≡ 0 → t ≡ 0)
    → (t ≡ 0 → s ≡ 0)
    → Folds s r
    → Folds t q
    → r ≡ q
Folds-unique s t r q e f g a b = ground arith

pub compute_checksum_lem :
    (start : ℕ) (xs : List ℕ)
    → IsBytes xs
    → start + word_sum xs < 2 ^ 32
    → Folds (start + word_sum xs) (compute_checksum start xs)
unfolding compute_checksum
compute_checksum_lem start xs b h = rw (sum_words_lem start xs b h) (
    let f = fold_carries_lem 1 (start + word_sum xs) h in
    (omega arith, omega arith, λ e. f.2 (omega arith), λ e. let z = f.3 e in omega arith))

-- A list of whole words.
abbrev pub IsEven : List ℕ → Type 0
IsEven [] = Unit
IsEven (x ∷ []) = ⊥
IsEven (x ∷ y ∷ xs) = IsEven xs

pub word_sum-append : (xs ys : List ℕ) → IsEven xs → word_sum (xs ++ ys) ≡ word_sum xs + word_sum ys
word_sum-append [] ys e = omega arith
word_sum-append (x ∷ []) ys e = absurd e
word_sum-append (x ∷ y ∷ xs) ys e = omega (arith, word_sum-append xs ys e)

pub append-IsBytes : (xs ys : List ℕ) → IsBytes xs → IsBytes ys → IsBytes (xs ++ ys)
append-IsBytes [] ys p q = q
append-IsBytes (x ∷ xs) ys p q = (p.0, append-IsBytes xs ys p.1 q)

-- Summing the parts of a packet one after the other, each from the checksum of the one before, gives
-- the checksum of the whole, if the first part has whole words and the packet is below 2 ^ 16 - 1 bytes.
pub compute_checksum-append :
    (xs ys : List ℕ)
    → IsEven xs
    → IsBytes xs
    → IsBytes ys
    → length xs + length ys < 2 ^ 16 - 1
    → compute_checksum (compute_checksum 0 xs) ys ≡ compute_checksum 0 (xs ++ ys)
compute_checksum-append xs ys e bx by h =
    let wx = word_sum-le xs bx in
    let wy = word_sum-le ys by in
    let w = word_sum-append xs ys e in
    let a = compute_checksum_lem 0 xs bx (omega arith) in
    let b = compute_checksum_lem (compute_checksum 0 xs) ys by (omega arith) in
    let c = compute_checksum_lem 0 (xs ++ ys) (append-IsBytes xs ys bx by) (omega arith) in
    Folds-unique (compute_checksum 0 xs + word_sum ys) (0 + word_sum (xs ++ ys)) _ _ (omega arith)
      (λ z. let z' = a.2 (omega arith) in omega arith)
      (λ z. let z' = a.3 (omega arith) in omega arith) b c

-- The header field that holds `~checksum`, where the checksum was summed with the field at 0, makes
-- the sum of the whole all ones: what a receiver tests.
pub compute_checksum_verifies :
    (front back : List ℕ)
    → IsEven front
    → IsBytes front
    → IsBytes back
    → length front + length back + 2 < 2 ^ 16 - 1
    → let field = 65535 - compute_checksum 0 (front ++ 0 ∷ 0 ∷ back) in
      compute_checksum 0 (front ++ field % 256 ∷ field / 256 ∷ back) ≡ 65535
compute_checksum_verifies front back e bf bb h =
    let c : ℕ = compute_checksum 0 (front ++ 0 ∷ 0 ∷ back) in
    let field : ℕ = 65535 - c in
    let wf = word_sum-le front bf in
    let wb = word_sum-le back bb in
    let w0 = word_sum-append front (0 ∷ 0 ∷ back) e in
    let w1 = word_sum-append front (field % 256 ∷ field / 256 ∷ back) e in
    let p =
      compute_checksum_lem 0 (front ++ 0 ∷ 0 ∷ back)
        (append-IsBytes front (0 ∷ 0 ∷ back) bf (omega arith, (omega arith, bb))) (omega arith) in
    let q =
      compute_checksum_lem 0 (front ++ field % 256 ∷ field / 256 ∷ back)
        (append-IsBytes front (field % 256 ∷ field / 256 ∷ back) bf
          (omega arith, (omega arith, bb)))
        (omega arith) in
    sym (
      Folds-unique 65535 (0 + word_sum (front ++ field % 256 ∷ field / 256 ∷ back)) 65535 _
        (omega arith) (λ z. absurd (omega arith))
        (λ z.
          absurd (
            zero_case c (word_sum (front ++ 0 ∷ 0 ∷ back)) field _ p (omega arith) (omega arith) z))
        (omega arith, refl, (λ z. absurd (omega arith)), (λ z. absurd (omega arith))) q)
  where
    zero_case :
        (c s field t : ℕ) → Folds (0 + s) c → field ≡ 65535 - c → t ≡ s + field → 0 + t ≡ 0 → ⊥
    zero_case c s field t p f g z = ground arith
