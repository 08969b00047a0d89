-- ===== src/Buffer/Segment.antt =====
-- core/BufferQueue.cpp, class Segment. `mData` is a list of bytes, of length `mSize`.
-- Sizes stay far below the width of size_t, so no sum wraps.
pub mod Laws
use vpn_service_android.Common.{
  ℕ, ◌+◌, ◌-◌, ◌<◌, ◌^◌, List, [], ◌++◌, ◌||◌, ltb, leb, if◌then◌else◌, length, take, drop,
  replicate,
}

pub record Segment : Type 0 where
  pub bytes : List ℕ
  pub size : ℕ
  pub pos : ℕ
  pub limit : ℕ
  pub mark_pos : ℕ
  pub mark_limit : ℕ

-- The constructor; a refused size leaves `mData` unset and `mSize` 0.
unfoldable pub create : ℕ → Segment
create size =
    if ltb size 1 || ltb (2 ^ 19) size
    then record { bytes = []; size = 0; pos = 0; limit = 0; mark_pos = 0; mark_limit = 0 }
    else record {
      bytes = replicate size 0;
      size = size;
      pos = 0;
      limit = 0;
      mark_pos = 0;
      mark_limit = 0;
    }

unfoldable pub capacity : Segment → ℕ
capacity s = s.size

-- `size()`
unfoldable pub used : Segment → ℕ
used s = s.limit - s.pos

unfoldable pub remain : Segment → ℕ
remain s = s.size - s.limit

-- The `size()` bytes at `begin()`.
unfoldable pub contents : Segment → List ℕ
contents s = take (s.limit - s.pos) (drop s.pos s.bytes)

unfoldable pub consume : Segment → ℕ → Segment
consume s n = if leb (s.pos + n) s.limit then record s { pos = s.pos + n } else s

unfoldable pub set_limit : Segment → ℕ → Segment
set_limit s limit = if leb limit s.size then record s { limit = limit } else s

-- What `write` returns.
unfoldable pub write_len : Segment → ℕ → ℕ
write_len s len = if ltb s.size (s.limit + len) then s.size - s.limit else len

unfoldable pub write : Segment → List ℕ → Segment
write s input =
    let l = write_len s (length input) in
    if ltb 0 l
    then record s {
      bytes = take s.limit s.bytes ++ (take l input ++ drop (s.limit + l) s.bytes);
      limit = s.limit + l;
    }
    else s

-- What `memcpy` leaves at the front of the buffer. Ranges that overlap have no defined result: the model
-- then holds zeros there, and no theorem on the content covers that case.
unfoldable pub copied_front : Segment → List ℕ
copied_front s =
    if leb (s.limit - s.pos) s.pos
    then take (s.limit - s.pos) (drop s.pos s.bytes)
    else replicate (s.limit - s.pos) 0

-- The bytes in use go to the front.
unfoldable pub flip : Segment → Segment
unfolding copied_front
flip s =
    if ltb 0 s.limit
    then record s {
      bytes = copied_front s ++ drop (s.limit - s.pos) s.bytes;
      limit = s.limit - s.pos;
      pos = 0;
    }
    else s

unfoldable pub reset : Segment → Segment
reset s = record s { pos = 0; limit = 0; mark_pos = 0; mark_limit = 0 }

unfoldable pub mark : Segment → Segment
mark s = record s { mark_pos = s.pos; mark_limit = s.limit }

unfoldable pub resume : Segment → Segment
resume s = record s { pos = s.mark_pos; limit = s.mark_limit }
