-- ===== src/Packet/Sequence.antt =====
-- Sequence numbers: TCP_RELATIVE_SEQ of core/TCPSession.cpp, TCPDatagram::compare of
-- core/TCPSession.h, and `compare_u32` of utils/Utils.cpp.
pub mod Order
use vpn_service_android.Common.{
  ℕ, ◌+◌, ◌-◌, ◌^◌, ◌%◌, Bool, ltb, leb, ◌==◌, ◌&&◌, ◌||◌, if◌then◌else◌, u32,
}

unfoldable pub relative_seq : ℕ → ℕ → ℕ
relative_seq seq base =
    if ltb base seq then u32 (seq + 2 ^ 32 - base) else u32 (u32 (0xffff_ffff - base) + seq)

-- What an `int` compares: a pattern below 2 ^ 31 is itself, any other stands 2 ^ 32 lower. Adding
-- 2 ^ 31 to the pattern, with wrap-around, turns that order into the order of ℕ.
unfoldable pub biased : ℕ → ℕ
biased w = u32 (w + 2 ^ 31)

-- `a < b` for `int`s.
unfoldable pub signed_lt : ℕ → ℕ → Bool
unfolding biased
signed_lt a b = ltb (biased a) (biased b)

-- -1, 0 and 1.
pub data Compared : Type 0 where
  smaller equal greater : Compared

-- The differences of `int`s are taken to wrap around.
unfoldable pub compare_u32 : ℕ → ℕ → Compared
unfolding signed_lt
compare_u32 s1 s2 =
    if s1 == s2
    then equal
    else if (signed_lt s1 s2 && signed_lt (u32 (s2 + 2 ^ 32 - s1)) 0x7fff_ffff)
        || (signed_lt s2 s1 && signed_lt 0x7fff_ffff (u32 (s1 + 2 ^ 32 - s2)))
    then smaller
    else greater

-- `compare(segment, item) <= 0` for the `int` value of the difference.
unfoldable pub not_greater : ℕ → ℕ → Bool
unfolding signed_lt
not_greater a b = (u32 (a + 2 ^ 32 - b) == 0) || signed_lt (u32 (a + 2 ^ 32 - b)) 0
