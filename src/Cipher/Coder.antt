-- ===== src/Cipher/Coder.antt =====
-- core/cipher/ICoder.h: what a coder's `decode` gives, and the sizes of core/cipher/Cipher.h.
use vpn_service_android.Common.{ℕ, ◌*◌, List}

-- `bytes out` is a return of the length of `out`, with `out` written; a return of 0 is `bytes []`.
-- `by_behind returned` writes nothing and returns `returned b` on the byte `b` behind the input, which
-- the arguments do not hold.
pub data Decoded : Type 0 where
  bytes : List ℕ → Decoded
  by_behind : (ℕ → ℕ) → Decoded

abbrev pub max_section_size : ℕ
max_section_size = 1024

abbrev pub max_encrypt_size : ℕ
max_encrypt_size = max_section_size * 4

abbrev pub max_parcel_size : ℕ
max_parcel_size = max_encrypt_size * 2

abbrev pub cipher_buffer_size : ℕ
cipher_buffer_size = max_parcel_size
