-- ===== src/Cipher/Shift/Laws.antt =====
-- The rotations undo one another, so `decode` undoes `encode`.
use vpn_service_android.Common.{
  ℕ, zero, suc, ◌<◌, ◌+◌, ◌≡◌, refl, ap, ap₂, Bool, true, List, [], ◌∷◌, arith, ◌==◌, false,
  if◌then◌else◌, ℕ_discrete, length, IsBytes, leb, u8, ◌%◌, Bool-cases, inl, inr,
}
use vpn_service_android.Cipher.Coder.{bytes}
use vpn_service_android.Cipher.Shift.{
  next_shift, rotate_left, rotate_right, encode_loop, decode_loop, encode, decode,
}

-- Whether a byte x comes back from a rotation by s, for every x below n, and for every s below m.
bytes_return : ℕ → ℕ → Bool
bytes_return s zero = true
bytes_return s (suc n) = if rotate_right (rotate_left n s) s == n then bytes_return s n else false

shifts_return : ℕ → Bool
shifts_return zero = true
shifts_return (suc m) = if bytes_return m 256 then shifts_return m else false

byte_returns :
    (s n : ℕ) → bytes_return s n ≡ true → (x : ℕ) → x < n → rotate_right (rotate_left x s) s ≡ x
unfolding bytes_return
byte_returns s zero h x lt = absurd (omega arith)
byte_returns s (suc n) h x lt = elim (ℕ_discrete x n) [
  | yes e ↦ rw e (ground arith)
  | no ne ↦ byte_returns s n (ground arith) x (omega arith)
]

shift_returns : (m : ℕ) → shifts_return m ≡ true → (s : ℕ) → s < m → bytes_return s 256 ≡ true
unfolding shifts_return
shift_returns zero h s lt = absurd (omega arith)
shift_returns (suc m) h s lt = elim (ℕ_discrete s m) [
  | yes e ↦ rw e (ground arith)
  | no ne ↦ shift_returns m (ground arith) s (omega arith)
]

all_return : shifts_return 8 ≡ true
unfolding shifts_return bytes_return rotate_left rotate_right
all_return = refl

pub rotate_right-rotate_left : (x s : ℕ) → x < 256 → s < 8 → rotate_right (rotate_left x s) s ≡ x
rotate_right-rotate_left x s hx hs = byte_returns s 256 (shift_returns 8 all_return s hs) x hx

next_shift-lt : (s : ℕ) → next_shift s < 8
unfolding next_shift
next_shift-lt s = ground arith

pub decode_loop-encode_loop :
    (s : ℕ) (xs : List ℕ) → s < 8 → IsBytes xs → decode_loop s (encode_loop s xs) ≡ xs
unfolding encode_loop decode_loop
decode_loop-encode_loop s [] h b = refl
decode_loop-encode_loop s (x ∷ xs) h b =
    ap₂ ◌∷◌ (rotate_right-rotate_left x s b.0 h)
      (decode_loop-encode_loop (next_shift s) xs (next_shift-lt s) b.1)

pub length-encode_loop : (s : ℕ) (xs : List ℕ) → length (encode_loop s xs) ≡ length xs
unfolding encode_loop
length-encode_loop s [] = refl
length-encode_loop s (x ∷ xs) = ap suc (length-encode_loop (next_shift s) xs)

pub encode_loop-IsBytes : (s : ℕ) (xs : List ℕ) → IsBytes (encode_loop s xs)
unfolding encode_loop rotate_left
encode_loop-IsBytes s [] = tt
encode_loop-IsBytes s (x ∷ xs) = (omega arith, encode_loop-IsBytes (next_shift s) xs)

-- What `encode` writes has one byte more than the input, if the output has the room.
pub length-encode :
    (draw : ℕ) (xs : List ℕ) (size : ℕ)
    → length xs < size
    → length (encode draw xs size) ≡ length xs + 1
unfolding encode
length-encode draw xs size h = ground (arith, length-encode_loop (draw % 8 % 256) xs)

pub encode-IsBytes : (draw : ℕ) (xs : List ℕ) (size : ℕ) → IsBytes (encode draw xs size)
unfolding encode
encode-IsBytes draw xs size = elim (Bool-cases (leb size (length xs))) [
  | inl full ↦ rw full tt
  | inr room ↦ rw room (omega arith, encode_loop-IsBytes (u8 (draw % 8)) xs)
]

-- `ShiftCoder::decode` undoes `ShiftCoder::encode` for every random start, if the output buffer of
-- `encode` is larger than the data.
pub decode-encode :
    (draw : ℕ) (xs : List ℕ) (size : ℕ)
    → IsBytes xs
    → length xs < size
    → decode (encode draw xs size) ≡ bytes xs
unfolding encode decode
decode-encode draw xs size b h =
    ground (arith, decode_loop-encode_loop (draw % 8 % 256) xs (omega arith) b)
