-- ===== src/Cipher/Crypt.antt =====
-- core/cipher/Cipher.cpp: `getCoder`, the estimates, `encrypt` and `decrypt`.
-- `rand i j` is the value of call j of `rand()` in the encoder of round i, after its
-- `srand(time(NULL))`: the C library is a parameter. The cache `mCoders` of objects without state is
-- left out: `get_coder` gives the class.
pub mod Rounds
pub mod Peel
pub mod Estimate
pub mod Stream
pub mod Consumption
pub mod EmptyShift
use vpn_service_android.Common.{
  ℕ, zero, suc, ◌+◌, ◌-◌, ◌<◌, List, [], ◌∷◌, ◌++◌, Option, none, some, Bool, ltb, leb, ◌==◌, ◌||◌,
  if◌then◌else◌, length, take, drop, u32,
}
use vpn_service_android.Cipher.Coder.{
  Decoded, bytes, by_behind, max_encrypt_size, cipher_buffer_size,
}
use vpn_service_android.Cipher.Shift
use vpn_service_android.Cipher.Padding
use vpn_service_android.Cipher.Parcel.{Unpacked, pack, unpack, estimate_pack_len}

-- The classes behind `ICoder*`.
pub data Coder : Type 0 where
  padding shift : Coder

-- enum CODER_TYPE
abbrev pub padding_id : ℕ
padding_id = 1

abbrev pub shift_id : ℕ
shift_id = 2

abbrev pub codes : List ℕ
codes = shift_id ∷ padding_id ∷ []

unfoldable pub get_coder : ℕ → Option Coder
get_coder id =
    if id == padding_id then some padding else if id == shift_id then some shift else none

unfoldable pub encode_with : Coder → (ℕ → ℕ) → List ℕ → ℕ → List ℕ
encode_with padding draw s size = Padding.encode draw s size
encode_with shift draw s size = Shift.encode (draw 0) s size

unfoldable pub decode_with : Coder → List ℕ → Decoded
decode_with padding s = Padding.decode s
decode_with shift s = Shift.decode s

unfoldable pub encode_len_with : Coder → ℕ → ℕ
encode_len_with padding len = Padding.encode_len len
encode_len_with shift len = Shift.encode_len len

-- The loop of `estimateEncryptLen` over `mCodes`.
unfoldable pub estimate_rounds : List ℕ → ℕ → ℕ
estimate_rounds [] len = len
estimate_rounds (id ∷ ids) len =
    estimate_rounds ids
      (elim (get_coder id) [ none ↦ len | some c ↦ u32 (encode_len_with c len + 1) ])

unfoldable pub estimate_encrypt_len : ℕ → ℕ
estimate_encrypt_len len = estimate_pack_len (estimate_rounds codes (u32 (len + 1)))

unfoldable pub estimate_decrypt_len : ℕ → ℕ
estimate_decrypt_len len = len

-- What is written, and what `*origin` or `*data` points to at the end.
pub record Output : Type 0 where
  pub out : List ℕ
  pub rest : List ℕ

module _ (rand : ℕ → ℕ → ℕ) where
  -- The loop of `encrypt` over `mCodes`, on the `l` bytes at `s`. A coder that fails ends it with
  -- `l` at 1.
  unfoldable pub rounds : ℕ → List ℕ → List ℕ → List ℕ
  rounds i [] s = s
  rounds i (id ∷ ids) s = elim (get_coder id) [
    | none ↦ rounds (i + 1) ids s
    | some c ↦
        let t = encode_with c (rand i) s (cipher_buffer_size - 1) in
        let go_on = rounds (i + 1) ids (id ∷ t) in if leb (length t + 1) 1 then take 1 s else go_on
  ]

  -- `len` is cut down to `max_encrypt_size` before the buffers are filled.
  unfoldable pub encrypt : List ℕ → ℕ → Output
  encrypt origin size =
      if leb (length origin) 0 || leb size 0
      then record { out = []; rest = origin }
      else let message = take max_encrypt_size origin in
        if ltb cipher_buffer_size (length message)
        then record { out = []; rest = origin }
        else if ltb size (estimate_encrypt_len (length message))
        then record { out = []; rest = origin }
        else record {
          out = pack (rounds 0 codes (0 ∷ message)) size;
          rest = drop max_encrypt_size origin;
        }

-- The inner loop of `decrypt`, which strips one coder a round. A round takes the byte that names the
-- coder, and no decoder gives more than it is given, so the length of the parcel is enough fuel.
pub data Peeled : Type 0 where
  -- The loop was left by `break`, with these bytes at `s`.
  plain : List ℕ → Peeled
  -- `return 0`: a decoder failed.
  failed : Peeled
  -- A decoder came to no input, and returned the length given by the byte behind it. On 0 `decrypt`
  -- returns 0; on any other length the loop goes on over what the buffer held before, which is left
  -- open here.
  stale_run : (ℕ → ℕ) → Peeled

unfoldable pub peel_round : ℕ → List ℕ → (List ℕ → Peeled) → Peeled
peel_round cid s continue_with = if cid == 0 then plain s else elim (get_coder cid) [
  | none ↦ plain s
  | some c ↦ elim (decode_with c s) [
    | by_behind returned ↦ stale_run returned
    | bytes [] ↦ failed
    | bytes (y ∷ ys) ↦ continue_with (y ∷ ys)
  ]
]

unfoldable pub peel : ℕ → List ℕ → Peeled
peel fuel [] = plain []
peel zero (cid ∷ s) = failed
peel (suc fuel) (cid ∷ s) = peel_round cid s (peel fuel)

-- `done` is a normal return: the bytes written to `out`, and what `*data` points to. `stale_bytes` is
-- the call at the point where a decoder came to no input: the bytes written so far, and the length
-- that the decoder returned.
pub data Decrypted : Type 0 where
  done : Output → Decrypted
  stale_bytes : List ℕ → (ℕ → ℕ) → Decrypted

-- The body of the loop of `decrypt` for a parcel: `data0` is what `*data` points to at the start, and
-- `continue_with` is the next round, on what `p1` points to and what is written.
unfoldable pub decrypt_round :
    List ℕ → Unpacked → List ℕ → ℕ → (List ℕ → List ℕ → Decrypted) → Decrypted
decrypt_round data0 parcel out size continue_with =
    if length parcel.out == 0
    then done (record { out = out; rest = parcel.rest })
    else elim (peel (length parcel.out) parcel.out) [
      | stale_run returned ↦ stale_bytes out returned
      | failed ↦ done (record { out = []; rest = data0 })
      | plain [] ↦ done (record { out = out; rest = parcel.rest })
      | plain (y ∷ ys) ↦
          let go_on = continue_with parcel.rest (out ++ (y ∷ ys)) in
          if ltb (u32 (length out + length (y ∷ ys))) size
          then go_on
          else done (record { out = out; rest = parcel.rest })
    ]

-- The loop `while (rlen > 0 && unpack(...) > 0)`. Each round takes two bytes or more from `s`, so the
-- length of the data is enough fuel.
unfoldable pub decrypt_loop : ℕ → List ℕ → List ℕ → List ℕ → ℕ → Decrypted
decrypt_loop zero data0 s out size = done (record { out = out; rest = s })
decrypt_loop (suc fuel) data0 [] out size = done (record { out = out; rest = [] })
decrypt_loop (suc fuel) data0 (x ∷ xs) out size =
    decrypt_round data0 (unpack (x ∷ xs) cipher_buffer_size) out size
      (λ s o. decrypt_loop fuel data0 s o size)

unfoldable pub decrypt : List ℕ → ℕ → Decrypted
decrypt data0 size =
    if leb (length data0) 0 || leb size 0
    then done (record { out = []; rest = data0 })
    else if ltb size (estimate_decrypt_len (length data0))
    then done (record { out = []; rest = data0 })
    else decrypt_loop (length data0) data0 data0 [] size
