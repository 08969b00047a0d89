-- ===== src/Tcp/Input/Accounts.antt =====
-- The accounts through the handling of packets from the tun device.
use vpn_service_android.Common.{
  ℕ, zero, suc, ◌+◌, ◌-◌, ◌≡◌, inl, inr, refl, sym, ap, ◌∙◌, List, [], ◌∷◌, ◌++◌, Bool, true, false,
  arith, ltb, ◌==◌, ◌||◌, not, ◌/◌, Bool-cases, u32, length,
}
use vpn_service_android.Buffer.Queue
use vpn_service_android.Buffer.Queue.{Iterator}
use vpn_service_android.Buffer.Queue.Sorted.{find-splits}
use vpn_service_android.Packet.Options.{Found, found, absent, running, outside, opt_sack}
use vpn_service_android.Packet.Sequence.{Compared, smaller, equal, greater, not_greater}
use vpn_service_android.Tcp.Session.{
  State, listen, syn_rcved, established, fin_wait1, fin_wait2, closing, last_ack, time_wait, closed,
  is, fin, syn, rst, ack, Datagram, request_send, keep_alive, traffic_accept, Session, emit,
}
use vpn_service_android.Tcp.Output.Frame.{capacities}
use vpn_service_android.Tcp.Output.Accounts.{
  sizes, IsSession, emit-IsSession, switch_state-IsSession, then_switch-IsSession, flush-IsSession,
  push-IsSession, if-IsSession, if-IsSession_fst,
}
use vpn_service_android.Tcp.Input.{
  Packet, packet_has, option_at, datagram_of, is_queued, place_of, enqueue_new, enqueue_by,
  enqueue_if_need, mark_block, mark_blocks, on_sack, sack_found, read_sack, with_found, syn_start,
  fin_numbers, fin_by_state, advance, data_queued, flush_unless, by_flags, syn_options,
  on_receive_syn, on_receive_rst, ack_then, fin_in_wait1, on_receive_fin, handshake_done,
  receive_data, accept_ack, accept_new, accept_data, accept,
}

-- A session that differs in none of what the accounts are about.
pub IsSession-same :
    {s t : Session}
    → t.back_size ≡ s.back_size
    → t.back ≡ s.back
    → t.forward_size ≡ s.forward_size
    → t.forward ≡ s.forward
    → t.state ≡ s.state
    → t.alive ≡ s.alive
    → IsSession s
    → IsSession t
IsSession-same a b c d e f v = record {
  back_account = a ∙ v.back_account ∙ ap capacities (sym b);
  forward_account = c ∙ v.forward_account ∙ ap sizes (sym d);
  closed_dead = λ h. f ∙ v.closed_dead (sym e ∙ h);
}

sizes-insert :
    (before after : List Datagram) (d : Datagram)
    → sizes (before ++ d ∷ after) ≡ sizes (before ++ after) + d.size
sizes-insert [] after d = omega arith
sizes-insert (x ∷ before) after d = omega (arith, sizes-insert before after d)

queued-IsSession :
    (seq : ℕ) (p : Packet) (s : Session)
    → IsSession s
    → IsSession (record s {
      forward = Queue.insert (place_of seq s) (datagram_of seq p);
      forward_size = s.forward_size + length p.payload;
    })
unfolding Queue.insert place_of datagram_of
queued-IsSession seq p s v = record {
  back_account = v.back_account;
  forward_account = omega (
    arith,
    v.forward_account,
    sizes-insert (place_of seq s).before (place_of seq s).after (datagram_of seq p),
    ap sizes (find-splits (λ (d : Datagram). not_greater seq d.seq) s.forward),
  );
  closed_dead = v.closed_dead;
}

enqueue_new-IsSession :
    (seq : ℕ) (p : Packet) (s : Session) → IsSession s → IsSession (enqueue_new seq p s).0
unfolding enqueue_new
enqueue_new-IsSession seq p s v = elim (Bool-cases (is_queued seq (place_of seq s).after)) [
  | inl queued ↦ rw queued v
  | inr fresh ↦ rw fresh (emit-IsSession request_send _ (queued-IsSession seq p s v))
]

enqueue_by-IsSession :
    (c : Compared) (room seq : ℕ) (p : Packet) (s : Session)
    → IsSession s
    → IsSession (enqueue_by c room seq p s).0
unfolding enqueue_by
enqueue_by-IsSession smaller room seq p s v = push-IsSession room ack [] s v
enqueue_by-IsSession equal room seq p s v = enqueue_new-IsSession seq p s v
enqueue_by-IsSession greater room seq p s v = enqueue_new-IsSession seq p s v

enqueue-IsSession :
    (room : ℕ) (p : Packet) (s : Session) → IsSession s → IsSession (enqueue_if_need room p s).0
unfolding enqueue_if_need
enqueue-IsSession room p s v = elim (Bool-cases (length p.payload == 0)) [
  | inl none_there ↦ rw none_there v
  | inr there ↦ rw there (enqueue_by-IsSession _ room _ p s v)
]

capacities-mark_block : (s t : ℕ) (q : List Datagram) → capacities (mark_block s t q) ≡ capacities q
unfolding mark_block
capacities-mark_block s t [] = refl
capacities-mark_block s t (d ∷ ds) = ground (arith, capacities-mark_block s t ds)

capacities-mark_blocks :
    (left i : ℕ) (b : List ℕ) (base : ℕ) (q : List Datagram)
    → capacities (mark_blocks left i b base q) ≡ capacities q
unfolding mark_blocks
capacities-mark_blocks zero i b base q = refl
capacities-mark_blocks (suc left) i b base q =
    capacities-mark_blocks left (i + 8) b base _ ∙ capacities-mark_block _ _ q

on_sack-IsSession : (b : List ℕ) (s : Session) → IsSession s → IsSession (on_sack b s)
unfolding on_sack
on_sack-IsSession [] s v = v
on_sack-IsSession (n ∷ b) s v = elim (Bool-cases (n == 10 || n == 18 || n == 26 || n == 34)) [
  | inl blocks ↦ rw blocks (record {
    back_account =
        v.back_account ∙ sym (capacities-mark_blocks ((n - 2) / 8) 0 b s.local_seq_base s.back);
    forward_account = v.forward_account;
    closed_dead = v.closed_dead;
  })
  | inr other ↦ rw other v
]

sack_found-IsSession : (f : Found) (s : Session) → IsSession s → IsSession (sack_found f s)
unfolding sack_found
sack_found-IsSession (found at) s v = on_sack-IsSession at s v
sack_found-IsSession absent s v = v
sack_found-IsSession running s v = v
sack_found-IsSession outside s v = v

read_sack-IsSession : (p : Packet) (s : Session) → IsSession s → IsSession (read_sack p s)
unfolding read_sack
read_sack-IsSession p s v = if-IsSession s.sack (sack_found-IsSession (option_at opt_sack p) s v) v

with_found-IsSession :
    (set : List ℕ → Session → Session)
    → ((at : List ℕ) (t : Session) → IsSession t → IsSession (set at t))
    → (f : Found) (s : Session) → IsSession s
    → IsSession (with_found set f s)
unfolding with_found
with_found-IsSession set keep (found at) s v = keep at s v
with_found-IsSession set keep absent s v = v
with_found-IsSession set keep running s v = v
with_found-IsSession set keep outside s v = v

syn_options-IsSession : (p : Packet) (s : Session) → IsSession s → IsSession (syn_options p s)
unfolding syn_options
syn_options-IsSession p s v =
    with_found-IsSession _ (λ at t w. IsSession-same refl refl refl refl refl refl w) _ _
      (with_found-IsSession _ (λ at t w. IsSession-same refl refl refl refl refl refl w) _ _
        (with_found-IsSession _ (λ at t w. IsSession-same refl refl refl refl refl refl w) _ _ v))

syn-IsSession :
    (draw room : ℕ) (p : Packet) (s : Session)
    → IsSession s
    → IsSession (on_receive_syn draw room p s)
unfolding on_receive_syn syn_start
syn-IsSession draw room p s v = if-IsSession (not (is s.state listen)) (flush-IsSession room s v) (
    then_switch-IsSession _ _ (
      push-IsSession room (syn + ack) [] _
        (IsSession-same refl refl refl refl refl refl (syn_options-IsSession p s v))))

fin_by_state-IsSession :
    (room acked : ℕ) (s : Session) → IsSession s → IsSession (fin_by_state room acked s)
unfolding fin_by_state ack_then fin_in_wait1
fin_by_state-IsSession room acked s v =
    let pushed = push-IsSession room ack [] s v in
    if-IsSession (is s.state established) (then_switch-IsSession _ _ pushed) (
      if-IsSession (is s.state fin_wait1) (then_switch-IsSession _ _ pushed)
        (if-IsSession (is s.state fin_wait2) (then_switch-IsSession _ _ pushed) pushed))

fin-IsSession :
    (room : ℕ) (p : Packet) (s : Session) → IsSession s → IsSession (on_receive_fin room p s)
unfolding on_receive_fin fin_numbers
fin-IsSession room p s v =
    fin_by_state-IsSession room _ _ (IsSession-same refl refl refl refl refl refl v)

advance-IsSession : (r : Session × ℕ) → IsSession r.0 → IsSession (advance r)
unfolding advance
advance-IsSession (s, n) v = IsSession-same refl refl refl refl refl refl v

data_queued-IsSession :
    (room : ℕ) (r : Session × ℕ) → IsSession r.0 → IsSession (data_queued room r).0
unfolding data_queued
data_queued-IsSession room (s, n) v =
    if-IsSession_fst (ltb 0 n) _ _ (push-IsSession room ack [] _ (advance-IsSession (s, n) v)) v

accept_ack-IsSession :
    (room : ℕ) (p : Packet) (s : Session) → IsSession s → IsSession (accept_ack room p s).0
unfolding accept_ack handshake_done receive_data
accept_ack-IsSession room p s v =
    let switched = λ (t : State). switch_state-IsSession t s v in
    if-IsSession_fst (is s.state syn_rcved) _ _
      (advance-IsSession _ (enqueue-IsSession room p _ (switched established)))
      (if-IsSession_fst (is s.state fin_wait1) _ _ (switched fin_wait2) (
        if-IsSession_fst (is s.state last_ack) _ _ (switched closed) (
          if-IsSession_fst (is s.state closing) _ _ (switched time_wait) (
            if-IsSession_fst (is s.state established) _ _
              (data_queued-IsSession room _
                (enqueue-IsSession room p _ (read_sack-IsSession p s v)))
              v))))

flush_unless-IsSession :
    (room : ℕ) (r : Session × Bool) → IsSession r.0 → IsSession (flush_unless room r)
unfolding flush_unless
flush_unless-IsSession room (s, true) v = v
flush_unless-IsSession room (s, false) v = flush-IsSession room s v

accept_data-IsSession :
    (room : ℕ) (p : Packet) (s : Session) → IsSession s → IsSession (accept_data room p s)
unfolding accept_data accept_new
accept_data-IsSession room p s v =
    if-IsSession _
      (flush_unless-IsSession room _
        (accept_ack-IsSession room p _ (IsSession-same refl refl refl refl refl refl v)))
      (if-IsSession _ (emit-IsSession keep_alive _ (IsSession-same refl refl refl refl refl refl v))
        (IsSession-same refl refl refl refl refl refl v))

-- A packet from the tun device, whatever it holds, leaves the sizes kept equal to those of the
-- queues, and a session in CLOSED dead.
pub accept-IsSession :
    (now draw room : ℕ) (p : Packet) (s : Session)
    → IsSession s
    → IsSession (accept now draw room p s)
unfolding accept by_flags on_receive_rst
accept-IsSession now draw room p s v = IsSession-same refl refl refl refl refl refl (
    if-IsSession (packet_has p syn) (syn-IsSession draw room p _ counted) (
      if-IsSession (packet_has p fin) (fin-IsSession room p _ counted) (
        if-IsSession (packet_has p rst) (switch_state-IsSession closed _ counted)
          (accept_data-IsSession room p _ counted))))
  where
    counted : IsSession (
        emit
          (traffic_accept (length p.payload))
          (record s { total_accept = u32 (s.total_accept + length p.payload) }))
    counted = emit-IsSession _ _ (IsSession-same refl refl refl refl refl refl v)
