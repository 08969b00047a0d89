-- ===== src/Tests/Queues.antt =====
-- core/BufferQueue on a segment of eight bytes and a queue of three numbers.
use vpn_service_android.Common.{ℕ, ◌+◌, ◌-◌, ◌≤◌, ◌≡◌, [], ◌∷◌, ◌++◌, arith, take, min}
use vpn_service_android.Buffer.Segment.{
  Segment, create, contents, write, write_len, consume, flip, mark, resume, remain, used,
}
use vpn_service_android.Buffer.Segment.Laws.{
  IsSegment, create-IsSegment, write-IsSegment, consume-IsSegment, contents-write, contents-flip,
  contents-resume, consume_each,
}
use vpn_service_android.Buffer.Queue
use vpn_service_android.Buffer.Queue.Sorted.{insert-Rises, Rises, at_most}

abbrev held : Segment
held = write (create 8) (1 ∷ 2 ∷ 3 ∷ [])

held-IsSegment : IsSegment held
held-IsSegment = write-IsSegment (create 8) (1 ∷ 2 ∷ 3 ∷ []) (create-IsSegment 8)

contents-write_example :
    contents (write held (4 ∷ 5 ∷ [])) ≡ contents held ++ take (min 2 (remain held)) (4 ∷ 5 ∷ [])
contents-write_example = contents-write held (4 ∷ 5 ∷ []) held-IsSegment

-- Two of three bytes consumed: the last one is moved to the front.
abbrev worn : Segment
worn = consume held 2

worn-IsSegment : IsSegment worn
worn-IsSegment = consume-IsSegment held 2 held-IsSegment

worn_apart : worn.limit - worn.pos ≤ worn.pos
unfolding create write write_len consume
worn_apart = omega arith

contents-flip_example :
    (contents (flip worn) ≡ contents worn)
    × (used (flip worn) ≡ used worn)
    × (remain (flip worn) + used worn ≡ worn.size)
contents-flip_example = contents-flip worn worn-IsSegment worn_apart

contents-resume_example : contents (resume (consume_each (mark held) (1 ∷ 2 ∷ []))) ≡ contents held
contents-resume_example = contents-resume held (1 ∷ 2 ∷ [])

insert-Rises_example :
    Rises
      (λ (n : ℕ). n)
      0
      (Queue.insert (Queue.find_not_smaller (at_most (λ (n : ℕ). n) 2) (1 ∷ 3 ∷ [])) 2)
unfolding Queue.find_not_smaller
insert-Rises_example =
    insert-Rises (λ n. n) 0 (1 ∷ 3 ∷ []) 2 (omega arith, (omega arith, tt)) (omega arith)
      (λ d. omega (arith, d))
