-- ===== src/Buffer/Segment/Laws.antt =====
-- A segment is a queue of bytes of a bounded size.
use vpn_service_android.Common.{
  ℕ, ◌+◌, ◌-◌, ◌≤◌, ◌<◌, ◌≡◌, refl, ap, ap₂, ◌∙◌, min, List, [], ◌∷◌, ◌++◌, arith, ltb, Bool-cases,
  inl, inr, length, take, drop, length-append, length-take, length-drop, length-replicate,
  take-append_le, take-append, drop-append_le, drop-drop, drop-take, append-nil,
}
use vpn_service_android.Buffer.Segment.{
  Segment, create, used, remain, contents, consume, set_limit, copied_front, write_len, write, flip,
  mark, resume,
}

pub record IsSegment (s : Segment) : Type 0 where
  pub allocated : length s.bytes ≡ s.size
  pub ordered : s.pos ≤ s.limit
  pub bounded : s.limit ≤ s.size
  pub mark_ordered : s.mark_pos ≤ s.mark_limit
  pub mark_bounded : s.mark_limit ≤ s.size

pub create-IsSegment : (size : ℕ) → IsSegment (create size)
unfolding create
create-IsSegment size = ground (arith, length-replicate {A = ℕ} size 0)

pub consume-IsSegment : (s : Segment) (n : ℕ) → IsSegment s → IsSegment (consume s n)
unfolding consume
consume-IsSegment s n v = ground arith

pub set_limit-IsSegment :
    (s : Segment) (limit : ℕ) → s.pos ≤ limit → IsSegment s → IsSegment (set_limit s limit)
unfolding set_limit
set_limit-IsSegment s limit h v = ground arith

write_len-le :
    (s : Segment) (len : ℕ)
    → IsSegment s
    → s.limit + write_len s len ≤ s.size × write_len s len ≤ len
unfolding write_len
write_len-le s len v = ground arith

pub write-IsSegment : (s : Segment) (input : List ℕ) → IsSegment s → IsSegment (write s input)
unfolding write
write-IsSegment s input v =
    let l : ℕ = write_len s (length input) in
    ground (
      arith,
      write_len-le s (length input) v,
      length-append (take s.limit s.bytes) (take l input ++ drop (s.limit + l) s.bytes),
      length-append (take l input) (drop (s.limit + l) s.bytes),
      length-take s.limit s.bytes,
      length-take l input,
      length-drop (s.limit + l) s.bytes,
    )

length-copied_front : (s : Segment) → IsSegment s → length (copied_front s) ≡ s.limit - s.pos
unfolding copied_front
length-copied_front s v = ground (
  arith,
  length-take (s.limit - s.pos) (drop s.pos s.bytes),
  length-drop s.pos s.bytes,
  length-replicate {A = ℕ} (s.limit - s.pos) 0,
)

pub flip-IsSegment : (s : Segment) → IsSegment s → IsSegment (flip s)
unfolding flip
flip-IsSegment s v = ground (
  arith,
  length-append (copied_front s) (drop (s.limit - s.pos) s.bytes),
  length-copied_front s v,
  length-drop (s.limit - s.pos) s.bytes,
)

pub length-contents : (s : Segment) → IsSegment s → length (contents s) ≡ used s
unfolding contents used
length-contents s v =
    omega (arith, length-take (s.limit - s.pos) (drop s.pos s.bytes), length-drop s.pos s.bytes, v)

pub used-consume : (s : Segment) (n : ℕ) → n ≤ used s → used (consume s n) ≡ used s - n
unfolding used consume
used-consume s n h = ground arith

-- `consume n` drops the first n bytes, or does nothing where there are fewer.
pub contents-consume :
    (s : Segment) (n : ℕ)
    → IsSegment s
    → (n ≤ used s → contents (consume s n) ≡ drop n (contents s))
      × (used s < n → contents (consume s n) ≡ contents s)
unfolding contents used consume
contents-consume s n v = (
  λ h.
      ground (arith, drop-take n (s.limit - s.pos) (drop s.pos s.bytes), drop-drop s.pos n s.bytes),
  λ h. ground arith,
)

-- `write` appends as many bytes as there is room for, and keeps what was there.
pub contents-write :
    (s : Segment) (input : List ℕ)
    → IsSegment s
    → contents (write s input) ≡ contents s ++ take (min (length input) (remain s)) input
unfolding contents write remain
contents-write s input v = elim (Bool-cases (ltb 0 l)) [
  | inl more ↦ rw more appended
  | inr none_left ↦ rw none_left (
      let e : min (length input) (s.size - s.limit) ≡ 0 = unfold write_len in ground arith in
      rw (e, append-nil (take (s.limit - s.pos) (drop s.pos s.bytes))))
]
  where
    l : ℕ
    l = write_len s (length input)

    l_eq : l ≡ min (length input) (s.size - s.limit)
    l_eq = unfold write_len in ground arith

    front : List ℕ
    front = take s.limit s.bytes

    back : List ℕ
    back = drop (s.limit + l) s.bytes

    front_length : length front ≡ s.limit
    front_length = omega (arith, length-take s.limit s.bytes)

    kept : drop s.pos front ≡ take (s.limit - s.pos) (drop s.pos s.bytes)
    kept = drop-take s.pos s.limit s.bytes

    appended :
        take (s.limit + l - s.pos) (drop s.pos (front ++ (take l input ++ back)))
        ≡ take (s.limit - s.pos) (drop s.pos s.bytes)
          ++ take (min (length input) (s.size - s.limit)) input
    appended =
        rw
          (
            drop-append_le front (take l input ++ back) s.pos (omega (arith, front_length)),
            take-append_le (drop s.pos front) (take l input ++ back) (s.limit + l - s.pos)
                (omega (arith, front_length, length-drop s.pos front)),
          )
          (ap₂ ◌++◌ kept (
            take-append (take l input) back _ (
              omega (
                arith,
                front_length,
                length-drop s.pos front,
                length-take l input,
                write_len-le s (length input) v,
              ))
            ∙ ap (λ (n : ℕ). take n input) l_eq))

-- When the bytes in use are no more than those in front of them, so that the ranges of the `memcpy` do
-- not overlap, `flip` keeps the content, and all the room that is not in use is behind it.
pub contents-flip :
    (s : Segment)
    → IsSegment s
    → s.limit - s.pos ≤ s.pos
    → (contents (flip s) ≡ contents s)
      × (used (flip s) ≡ used s)
      × (remain (flip s) + used s ≡ s.size)
unfolding contents flip copied_front used remain
contents-flip s v apart = (
  ground (
    arith,
    take-append (take (s.limit - s.pos) (drop s.pos s.bytes)) (drop (s.limit - s.pos) s.bytes)
        (s.limit - s.pos - 0),
    length-take (s.limit - s.pos) (drop s.pos s.bytes),
    length-drop s.pos s.bytes,
  ),
  ground arith,
  ground arith,
)

-- Several calls of `consume` in a row.
abbrev pub consume_each : Segment → List ℕ → Segment
consume_each s [] = s
consume_each s (n ∷ ns) = consume_each (consume s n) ns

consume_keeps :
    (s : Segment) (n : ℕ)
    → ((consume s n).bytes ≡ s.bytes)
      × ((consume s n).mark_pos ≡ s.mark_pos)
      × ((consume s n).mark_limit ≡ s.mark_limit)
unfolding consume
consume_keeps s n = (ground arith, ground arith, ground arith)

resume-consume_each :
    (s : Segment) (ns : List ℕ) → contents (resume (consume_each s ns)) ≡ contents (resume s)
unfolding contents resume
resume-consume_each s [] = refl
resume-consume_each s (n ∷ ns) =
    resume-consume_each (consume s n) ns ∙ ground (arith, consume_keeps s n)

-- After `mark`, `resume` brings back the bytes that any calls of `consume` took.
pub contents-resume :
    (s : Segment) (ns : List ℕ) → contents (resume (consume_each (mark s) ns)) ≡ contents s
contents-resume s ns = resume-consume_each (mark s) ns ∙ unfold contents resume mark in refl
