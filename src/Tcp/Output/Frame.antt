-- ===== src/Tcp/Output/Frame.antt =====
-- What the functions of the way back leave alone.
use vpn_service_android.Common.{
  ℕ, ◌+◌, ◌-◌, ◌≡◌, inl, inr, refl, List, [], ◌∷◌, arith, Bool-cases, u32,
}
use vpn_service_android.Tcp.Session.{Datagram, released, Session, emit}
use vpn_service_android.Tcp.Output.{
  send_back_segment, safe_release_segment, is_acked, pop_acked, send_queue,
}

-- The same but for the queue on the way back, the windows, the counters and the log.
pub record Frame (s t : Session) : Type 0 where
  pub state : t.state ≡ s.state
  pub alive : t.alive ≡ s.alive
  pub remote_finished : t.remote_finished ≡ s.remote_finished
  pub forward : t.forward ≡ s.forward
  pub forward_size : t.forward_size ≡ s.forward_size
  pub local_seq : t.local_seq ≡ s.local_seq
  pub local_next : t.local_next ≡ s.local_next
  pub remote_next : t.remote_next ≡ s.remote_next

unfoldable pub popped_one : Datagram → Session → Session
popped_one d s = emit (released (safe_release_segment d)) (record s {
  total_back = u32 (s.total_back + d.length_field);
  back_size = s.back_size - d.capacity;
})

Frame-popped_one : (d : Datagram) (s t : Session) → Frame (popped_one d s) t → Frame s t
unfolding popped_one emit
Frame-popped_one d s t f = record {
  state = f.state;
  alive = f.alive;
  remote_finished = f.remote_finished;
  forward = f.forward;
  forward_size = f.forward_size;
  local_seq = f.local_seq;
  local_next = f.local_next;
  remote_next = f.remote_next;
}

Frame-refl : (s : Session) (q : List Datagram) → Frame s (record s { back = q })
Frame-refl s q = record {
  state = refl;
  alive = refl;
  remote_finished = refl;
  forward = refl;
  forward_size = refl;
  local_seq = refl;
  local_next = refl;
  remote_next = refl;
}

pub pop_acked-Frame : (xs : List Datagram) (s : Session) → Frame s (pop_acked xs s)
unfolding pop_acked popped_one emit
pop_acked-Frame [] s = Frame-refl s []
pop_acked-Frame (d ∷ ds) s = elim (Bool-cases (is_acked s.local_next d)) [
  | inl gone ↦ rw gone (Frame-popped_one d s _ (pop_acked-Frame ds (popped_one d s)))
  | inr kept ↦ rw kept (Frame-refl s (d ∷ ds))
]

-- The sizes in a queue.
abbrev pub capacities : List Datagram → ℕ
capacities [] = 0
capacities (d ∷ ds) = d.capacity + capacities ds

-- Popping keeps the account of the queue's size.
pub pop_acked-capacities :
    (xs : List Datagram) (s : Session)
    → s.back_size ≡ capacities xs
    → (pop_acked xs s).back_size ≡ capacities (pop_acked xs s).back
unfolding pop_acked popped_one emit
pop_acked-capacities [] s h = h
pop_acked-capacities (d ∷ ds) s h = elim (Bool-cases (is_acked s.local_next d)) [
  | inl gone ↦ rw gone (pop_acked-capacities ds (popped_one d s) (omega arith))
  | inr kept ↦ rw kept h
]

send_back-capacity : (d : Datagram) → ((send_back_segment d).0).capacity ≡ d.capacity
unfolding send_back_segment
send_back-capacity d = ground arith

-- Sending changes no size.
pub send_queue-capacities :
    (local_next limit w packet sent : ℕ) (q : List Datagram)
    → capacities (send_queue local_next limit w packet sent q).queue ≡ capacities q
unfolding send_queue
send_queue-capacities local_next limit w packet sent [] = refl
send_queue-capacities local_next limit w packet sent (d ∷ ds) = ground (
  arith,
  send_back-capacity d,
  send_queue-capacities local_next limit (w + d.size) (packet + 1) sent ds,
  send_queue-capacities local_next limit (w + d.size) (packet + 1) (sent + d.size) ds,
)
