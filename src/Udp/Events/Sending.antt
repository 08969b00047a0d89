-- ===== src/Udp/Events/Sending.antt =====
-- What UDPSession sends of its queue, and when the sending loop ends.
use vpn_service_android.Common.{
  ℕ, suc, ◌+◌, ◌≤◌, ◌<◌, ◌^◌, ◌≡◌, refl, sym, ap, subst, ◌∙◌, List, [], ◌∷◌, ◌++◌, Option, none,
  some, Bool, true, false, leb, if◌then◌else◌, length, length-append, length-drop, drop, min, u32,
  All, drop-drop, drop-append_le, drop-append, arith, Bool-cases, inl, inr,
}
use vpn_service_android.Buffer.Segment.{Segment, consume, used, contents}
use vpn_service_android.Buffer.Segment.Laws.{
  IsSegment, consume-IsSegment, length-contents, contents-consume, used-consume,
}
use vpn_service_android.Udp.Session.{UdpSession, emit}
use vpn_service_android.Udp.Events.{
  Sent, count_sent, send_segments, settle_sent, tunnel_writable_with, on_tunnel_writable,
}

-- The bytes queued, in order.
abbrev pub pending : List Segment → List ℕ
pending [] = []
pending (x ∷ q) = contents x ++ pending q

-- The rest of the queue `q` when `r.sent` bytes were taken from its front.
pub record Drains (q : List Segment) (r : Sent) : Type 0 where
  pub rest : pending r.queue ≡ drop r.sent (pending q)
  pub within : r.sent ≤ length (pending q)
  pub valid : All IsSegment r.queue

-- The queue behind an answer that takes `n` bytes of the first segment.
abbrev behind : ℕ → Segment → List Segment → List Segment
behind n x q = if leb (used (consume x n)) 0 then q else consume x n ∷ q

pending-behind :
    (n : ℕ) (x : Segment) (q : List Segment)
    → IsSegment x
    → n ≤ used x
    → pending (behind n x q) ≡ drop n (pending (x ∷ q))
pending-behind n x q v h = elim (Bool-cases (leb (used (consume x n)) 0)) [
  | inl e ↦ rw e (
      sym (
        drop-append (contents x) (pending q) n
          (ground (arith, used-consume x n h, length-contents x v))))
  | inr e ↦ rw e (
      rw ((contents-consume x n v).0 h)
        (sym (drop-append_le (contents x) (pending q) n (omega (arith, length-contents x v)))))
]

behind-Drains :
    (n : ℕ) (x : Segment) (q : List Segment) (r : Sent)
    → IsSegment x
    → n ≤ used x
    → Drains (behind n x q) r
    → Drains (x ∷ q) (count_sent n r)
unfolding count_sent
behind-Drains n x q r v h d =
    let e = pending-behind n x q v h in
    let l = length-drop n (pending (x ∷ q)) in
    let room : n ≤ length (pending (x ∷ q)) =
      omega (arith, length-append (contents x) (pending q), length-contents x v) in
    record {
      rest = d.rest ∙ ap (λ xs. drop r.sent xs) e ∙ drop-drop n r.sent (pending (x ∷ q));
      within = omega (arith, d.within, ap length e, l, room);
      valid = d.valid;
    }

either-Drains :
    (b : Bool) (q p : List Segment) (r t : Sent)
    → Drains q r
    → Drains p t
    → Drains (if b then q else p) (if b then r else t)
either-Drains true q p r t f g = f
either-Drains false q p r t f g = g

pub send_segments-Drains :
    (answers : List (Option ℕ)) (q : List Segment)
    → All IsSegment q
    → Drains q (send_segments answers q)
unfolding send_segments
send_segments-Drains answers [] v = record { rest = refl; within = omega arith; valid = tt }
send_segments-Drains [] (x ∷ q) v = record { rest = refl; within = omega arith; valid = v }
send_segments-Drains (none ∷ answers) (x ∷ q) v = record {
  rest = refl;
  within = omega arith;
  valid = v;
}
send_segments-Drains (some most ∷ answers) (x ∷ q) v =
    let n = min most (used x) in
    let whole = send_segments-Drains answers q v.1 in
    let part = send_segments-Drains answers (consume x n ∷ q) (consume-IsSegment x n v.0, v.1) in
    behind-Drains n x q _ v.0 (omega arith)
      (either-Drains (leb (used (consume x n)) 0) q (consume x n ∷ q) _ _ whole part)

-- How many answers the loop needs at most: one for each byte, and one for each segment.
abbrev pub weight : List Segment → ℕ
weight [] = 0
weight (x ∷ q) = suc (used x) + weight q

-- An error, or an answer that takes something.
abbrev pub Advances : Option ℕ → Type 0
Advances none = Unit
Advances (some most) = 0 < most

-- When every answer is an error or takes at least one byte, and there are as many answers as bytes
-- and segments, the loop that sends the queue ends.
pub send_segments_ends :
    (answers : List (Option ℕ)) (q : List Segment)
    → All Advances answers
    → weight q ≤ length answers
    → (send_segments answers q).ended ≡ true
unfolding send_segments count_sent
send_segments_ends answers [] p h = refl
send_segments_ends [] (x ∷ q) p h = absurd (omega arith)
send_segments_ends (none ∷ answers) (x ∷ q) p h = refl
send_segments_ends (some most ∷ answers) (x ∷ q) p h =
    let n = min most (used x) in
    let e = used-consume x n (omega arith) in
    elim (Bool-cases (leb (used (consume x n)) 0)) [
      | inl z ↦ rw z (send_segments_ends answers q p.1 (omega arith))
      | inr z ↦ rw z (send_segments_ends answers (consume x n ∷ q) p.1 (ground (arith, e)))
    ]

settle_sent_lem :
    (r : Sent) (s : UdpSession)
    → s.total_sent < 2 ^ 32
    → ((settle_sent r s).out_buffer ≡ r.queue)
      × ((settle_sent r s).total_sent ≡ u32 (s.total_sent + r.sent))
unfolding settle_sent emit
settle_sent_lem r s h = ground arith

-- From proper segments and a total below 2 ^ 32, onTunnelWritable returns the number of bytes that
-- the tunnel took, which is added to the total; these bytes were the front of what was queued, and
-- the rest is still queued, in order.
pub on_tunnel_writable_sends :
    (answers : List (Option ℕ)) (s : UdpSession)
    → All IsSegment s.out_buffer
    → s.total_sent < 2 ^ 32
    → let (n, after) = on_tunnel_writable answers s in
      (pending after.out_buffer ≡ drop n (pending s.out_buffer))
      × (n ≤ length (pending s.out_buffer))
      × (after.total_sent ≡ u32 (s.total_sent + n))
      × All IsSegment after.out_buffer
unfolding on_tunnel_writable tunnel_writable_with emit
on_tunnel_writable_sends answers s v h = by_queue s.out_buffer refl v
  where
    by_queue :
        (q : List Segment)
        → s.out_buffer ≡ q
        → All IsSegment q
        → (pending (tunnel_writable_with answers q s).1.out_buffer
            ≡ drop (tunnel_writable_with answers q s).0 (pending q))
          × ((tunnel_writable_with answers q s).0 ≤ length (pending q))
          × ((tunnel_writable_with answers q s).1.total_sent
              ≡ u32 (s.total_sent + (tunnel_writable_with answers q s).0))
          × All IsSegment (tunnel_writable_with answers q s).1.out_buffer
    by_queue [] e w = (ap pending e, omega arith, omega arith, subst (All IsSegment) (sym e) tt)
    by_queue (x ∷ q) e w =
        let r = send_segments answers (x ∷ q) in
        let d = send_segments-Drains answers (x ∷ q) w in
        let (kept, total) = settle_sent_lem r s h in
        (ap pending kept ∙ d.rest, d.within, total, subst (All IsSegment) (sym kept) d.valid)
