-- ===== src/Cipher/Crypt/EmptyShift.antt =====
-- core/cipher/Cipher.cpp and ShiftCoder.cpp: a parcel that names the shift coder and holds nothing more.
use vpn_service_android.Common.{ℕ, List, [], ◌∷◌}
use vpn_service_android.Cipher.Shift

-- The parcel of one byte, which names the shift coder.
abbrev pub empty_shift : List ℕ
empty_shift = 0 ∷ 1 ∷ 2 ∷ []
