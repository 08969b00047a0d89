-- ===== src/Cipher/Padding/Laws.antt =====
-- `decode` drops the padding that `encode` put in front.
use vpn_service_android.Common.{
  ℕ, zero, suc, ◌<◌, ◌≤◌, ◌+◌, ◌%◌, ◌^◌, ◌≡◌, refl, ap, List, [], ◌∷◌, ◌++◌, arith, leb, length,
  length-append, drop-append, IsBytes, Bool-cases, inl, inr,
}
use vpn_service_android.Cipher.Coder.{bytes}
use vpn_service_android.Cipher.Padding.{
  padding_range, fitted_range, padding_count, noise, encode, decode,
}

pub padding_range-le : (len : ℕ) → padding_range len ≤ 1024
unfolding padding_range
padding_range-le len = ground arith

fitted_range-le : (len size : ℕ) → fitted_range len size ≤ padding_range len
unfolding fitted_range
fitted_range-le len size = ground (arith, padding_range-le len)

mod-lt : (a b : ℕ) → 0 < b → a % b < b
mod-lt a b h = grind arith

-- The count is within the range for this length, so it fits the two bytes of the header.
pub padding_count-le : (draw len size : ℕ) → padding_count draw len size ≤ padding_range len
unfolding padding_count
padding_count-le draw len size =
    ground
      (arith, mod-lt draw (fitted_range len size), fitted_range-le len size, padding_range-le len)

pub padding_count-lt : (draw len size : ℕ) → padding_count draw len size < 2 ^ 16
padding_count-lt draw len size = omega (arith, padding_count-le draw len size, padding_range-le len)

pub length-noise : (draw : ℕ → ℕ) (i n : ℕ) → length (noise draw i n) ≡ n
unfolding noise
length-noise draw i zero = refl
length-noise draw i (suc n) = ap suc (length-noise draw (i + 1) n)

noise-IsBytes : (draw : ℕ → ℕ) (i n : ℕ) → IsBytes (noise draw i n)
unfolding noise
noise-IsBytes draw i zero = tt
noise-IsBytes draw i (suc n) = (omega arith, noise-IsBytes draw (i + 1) n)

pub append-IsBytes : (xs ys : List ℕ) → IsBytes xs → IsBytes ys → IsBytes (xs ++ ys)
append-IsBytes [] ys hx hy = hy
append-IsBytes (x ∷ xs) ys hx hy = (hx.0, append-IsBytes xs ys hx.1 hy)

pub encode-IsBytes :
    (draw : ℕ → ℕ) (xs : List ℕ) (size : ℕ) → IsBytes xs → IsBytes (encode draw xs size)
unfolding encode
encode-IsBytes draw xs size b = elim (Bool-cases (leb size (length xs + 3))) [
  | inl full ↦ rw full tt
  | inr room ↦ rw room (omega arith, (omega arith, append-IsBytes _ xs (noise-IsBytes draw 1 _) b))
]

pub length-encode :
    (draw : ℕ → ℕ) (xs : List ℕ) (size : ℕ)
    → length xs + 3 < size
    → length (encode draw xs size) ≡ length xs + padding_count (draw 0) (length xs) size + 2
unfolding encode
length-encode draw xs size h =
    let n = padding_count (draw 0) (length xs) size in
    ground (arith, length-append (noise draw 1 n) xs, length-noise draw 1 n)

-- `PaddingCoder::decode` undoes `PaddingCoder::encode` whatever `rand()` gives, if the output
-- buffer of `encode` has more than three bytes beyond the data.
pub decode-encode :
    (draw : ℕ → ℕ) (xs : List ℕ) (size : ℕ)
    → length xs + 3 < size
    → decode (encode draw xs size) ≡ bytes xs
unfolding encode decode
decode-encode draw xs size h =
    let n = padding_count (draw 0) (length xs) size in
    ground (
      arith,
      length-append (noise draw 1 n) xs,
      length-noise draw 1 n,
      padding_count-lt (draw 0) (length xs) size,
      drop-append (noise draw 1 n) xs n,
    )
