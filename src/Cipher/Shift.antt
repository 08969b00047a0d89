-- ===== src/Cipher/Shift.antt =====
-- core/cipher/ShiftCoder.cpp: byte i is rotated by shift + i bits.
-- `draw` is the value of `rand()` after the call's `srand(time(NULL))`.
pub mod Laws
use vpn_service_android.Common.{
  ℕ, ◌+◌, ◌-◌, ◌%◌, ◌^◌, List, [], ◌∷◌, ltb, leb, if◌then◌else◌, length, u8, u32, ◌<<<◌, ◌>>>◌,
  bit_or,
}
use vpn_service_android.Cipher.Coder.{Decoded, bytes, by_behind}

-- `if (++shift > 7) shift = 0`
unfoldable pub next_shift : ℕ → ℕ
next_shift shift = if ltb 7 (shift + 1) then 0 else shift + 1

unfoldable pub rotate_left : ℕ → ℕ → ℕ
rotate_left x shift = u8 (bit_or (x <<< shift) (x >>> (8 - shift)))

unfoldable pub rotate_right : ℕ → ℕ → ℕ
rotate_right x shift = u8 (bit_or (x >>> shift) (x <<< (8 - shift)))

-- The loop of `encode`.
unfoldable pub encode_loop : ℕ → List ℕ → List ℕ
unfolding next_shift rotate_left
encode_loop shift [] = []
encode_loop shift (x ∷ xs) = rotate_left x shift ∷ encode_loop (next_shift shift) xs

-- The loop of `decode`.
unfoldable pub decode_loop : ℕ → List ℕ → List ℕ
unfolding next_shift rotate_right
decode_loop shift [] = []
decode_loop shift (x ∷ xs) = rotate_right x shift ∷ decode_loop (next_shift shift) xs

unfoldable pub encode : ℕ → List ℕ → ℕ → List ℕ
unfolding encode_loop
encode draw data_in size =
    let shift = u8 (draw % 8) in
    if leb size (length data_in) then [] else shift ∷ encode_loop shift data_in

-- What `decode` returns for no input, whose shift is then the byte `behind` it: 0 for an invalid shift,
-- or else `len - 1` on a `uint32_t` that is 0.
unfoldable pub returned_for_nothing : ℕ → ℕ
returned_for_nothing behind = if ltb 7 behind then 0 else u32 (0 + 2 ^ 32 - 1)

unfoldable pub decode : List ℕ → Decoded
unfolding decode_loop returned_for_nothing
decode [] = by_behind returned_for_nothing
decode (shift ∷ xs) = if ltb 7 shift then bytes [] else bytes (decode_loop shift xs)

unfoldable pub encode_len : ℕ → ℕ
encode_len len = u32 (len + 1)

unfoldable pub decode_len : ℕ → ℕ
decode_len len = u32 (len + 2 ^ 32 - 1)
