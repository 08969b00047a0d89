-- ===== src/Packet/Sequence/Order.antt =====
-- How the comparisons of sequence numbers relate to the order of the numbers.
use vpn_service_android.Common.{ℕ, ◌+◌, ◌-◌, ◌^◌, ◌≤◌, ◌<◌, ◌≡◌, ◌≢◌, ◌↔◌, arith, leb, u32}
use vpn_service_android.Packet.Sequence.{relative_seq, smaller, greater, compare_u32, not_greater}

-- Behind the base the macro gives the distance from it; at the base and, once the sequence numbers
-- have wrapped around, everywhere, it gives one less than the distance modulo 2 ^ 32.
pub relative_seq_lem :
    (seq base : ℕ)
    → seq < 2 ^ 32
    → base < 2 ^ 32
    → (base < seq → relative_seq seq base ≡ seq - base)
      × (seq ≤ base → u32 (relative_seq seq base + 1) ≡ u32 (seq + 2 ^ 32 - base))
unfolding relative_seq
relative_seq_lem seq base h k = (λ p. ground arith, λ p. ground arith)

-- `compare_u32` compares signed numbers. Below 2 ^ 31 (0 and 2 ^ 31 - 1 as a pair apart) that is the
-- order of the numbers; but every number below 2 ^ 31 counts as greater than every number from
-- 2 ^ 31 on, though the one may follow the other closely.
pub compare_u32_lem :
    (a b : ℕ)
    → a < 2 ^ 31
    → (b < 2 ^ 31 → b ≢ a + 0x7fff_ffff → (compare_u32 a b ≡ smaller) ↔ (a < b))
      × (2 ^ 31 ≤ b → b < 2 ^ 32 → compare_u32 a b ≡ greater)
unfolding compare_u32
compare_u32_lem a b ha = (λ hb ne. ground arith, λ hb lt. ground arith)

-- Within half of the sequence space `TCPDatagram::compare` is the order of the numbers.
pub not_greater_lem : (a b : ℕ) → a < 2 ^ 31 → b < 2 ^ 31 → not_greater a b ≡ leb a b
unfolding not_greater
not_greater_lem a b ha hb = ground arith
