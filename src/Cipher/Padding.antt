-- ===== src/Cipher/Padding.antt =====
-- core/cipher/PaddingCoder.cpp: random bytes in front of the data, behind a two-byte count.
-- `draw i` is the value of the call i of `rand()` after the call's `srand(time(NULL))`.
pub mod Laws
use vpn_service_android.Common.{
  ℕ, zero, suc, ◌+◌, ◌-◌, ◌*◌, ◌%◌, ◌≤◌, List, [], ◌∷◌, ◌++◌, ltb, leb, if◌then◌else◌, length, drop,
  u16, u32, ◌<<<◌, ◌>>>◌,
}
use vpn_service_android.Cipher.Coder.{Decoded, bytes, max_section_size}

unfoldable pub padding_range : ℕ → ℕ
padding_range len = if ltb max_section_size len then 2 else u16 (max_section_size - len)

-- The range cut down to the room that is left in the output.
unfoldable pub fitted_range : ℕ → ℕ → ℕ
unfolding padding_range
fitted_range len size =
    if ltb (size - len - 2) (padding_range len) then u16 (size - len - 2) else padding_range len

unfoldable pub padding_count : ℕ → ℕ → ℕ → ℕ
unfolding fitted_range
padding_count draw len size =
    if ltb 0 (fitted_range len size) then u16 (draw % fitted_range len size + 1) else 0

-- The loop `for (i = 2; i < t; i++) out[i] = rand() % 256`.
unfoldable pub noise : (ℕ → ℕ) → ℕ → ℕ → List ℕ
noise draw i zero = []
noise draw i (suc left) = draw i % 256 ∷ noise draw (i + 1) left

unfoldable pub encode : (ℕ → ℕ) → List ℕ → ℕ → List ℕ
unfolding padding_count noise
encode draw data_in size =
    if leb size (length data_in + 3)
    then []
    else let padding = padding_count (draw 0) (length data_in) size in
      (padding >>> 8) % 256 ∷ padding % 256 ∷ (noise draw 1 padding ++ data_in)

-- With fewer than two bytes the count is read behind the data, and whatever it is the length left
-- is negative.
unfoldable pub decode : List ℕ → Decoded
decode [] = bytes []
decode (x ∷ []) = bytes []
decode (hi ∷ lo ∷ rest) =
    let padding = u16 ((hi <<< 8) + lo) in
    if ltb (length rest) padding then bytes [] else bytes (drop padding rest)

unfoldable pub encode_len : ℕ → ℕ
unfolding padding_range
encode_len len = u32 (padding_range len + len)

unfoldable pub decode_len : ℕ → ℕ
decode_len len = len
