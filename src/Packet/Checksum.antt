-- ===== src/Packet/Checksum.antt =====
-- core/IPAdpt.cpp, `computeChecksum`: the ones' complement sum of little-endian 16-bit words.
-- The loop's sum stays below 2 ^ 32 for the at most 65535 bytes of a packet.
pub mod Fold
use vpn_service_android.Common.{
  ℕ, zero, suc, ◌+◌, ◌*◌, ◌/◌, ◌%◌, ◌^◌, List, [], ◌∷◌, ltb, if◌then◌else◌, u16, u32, ◌>>>◌,
}

-- The loop over whole words, and the odd byte.
unfoldable pub sum_words : ℕ → List ℕ → ℕ
sum_words sum [] = sum
sum_words sum (lo ∷ []) = u32 (sum + lo)
sum_words sum (lo ∷ hi ∷ rest) = sum_words (u32 (sum + (hi * 256 + lo))) rest

-- `while (sum >> 16) sum = (sum & 0xFFFF) + (sum >> 16)`: two rounds are enough for 32 bits.
unfoldable pub fold_carries : ℕ → ℕ → ℕ
fold_carries zero sum = sum
fold_carries (suc fuel) sum =
    let next = fold_carries fuel (sum % 2 ^ 16 + (sum >>> 16)) in
    if ltb 0 (sum >>> 16) then next else sum

unfoldable pub compute_checksum : ℕ → List ℕ → ℕ
unfolding sum_words fold_carries
compute_checksum start buffer = u16 (fold_carries 3 (sum_words start buffer))
