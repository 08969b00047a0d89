-- ===== src/Tcp/Input.antt =====
-- core/TCPSession.cpp, the packets from the tun device: `accept` and what it calls.
pub mod Accounts
pub mod Moves
use vpn_service_android.Common.{
  ℕ, zero, suc, ◌+◌, ◌-◌, ◌*◌, ◌/◌, ◌^◌, ◌%◌, ◌<◌, List, [], ◌∷◌, ◌++◌, Bool, true, false, ◌&&◌,
  ◌||◌, not, ltb, leb, ◌==◌, if◌then◌else◌, bit_and, u8, u16, u32, ◌<<<◌, ◌>>>◌, length, drop,
  Option, none, some,
}
use vpn_service_android.Buffer.Queue
use vpn_service_android.Buffer.Queue.{Iterator}
use vpn_service_android.Packet.Options.{
  Found, found, absent, running, outside, get_option_addr, opt_mss, opt_ws, opt_sackf, opt_sack,
}
use vpn_service_android.Packet.Sequence.{
  relative_seq, compare_u32, Compared, smaller, equal, greater, not_greater,
}
use vpn_service_android.Tcp.Session.{
  State, listen, syn_rcved, established, fin_wait1, fin_wait2, close_wait, closing, last_ack,
  time_wait, closed, is, fin, syn, rst, ack, Datagram, Effect, keep_alive, request_send,
  traffic_accept, Session, emit, switch_state,
}
use vpn_service_android.Tcp.Output.{then_switch, flush_back_queue, push_in_back_queue}

-- The fields of a packet that the session reads, in host order. `options` are the bytes of the packet
-- behind the fixed part of its TCP header. The lengths in the headers agree with the packet, so that
-- the payload has a length that is not negative.
pub record Packet : Type 0 where
  pub seq : ℕ
  pub ack_seq : ℕ
  pub flag : ℕ
  pub data_off : ℕ
  pub window : ℕ
  pub options : List ℕ
  pub payload : List ℕ

abbrev pub packet_has : Packet → ℕ → Bool
packet_has p flag = ltb 0 (bit_and p.flag flag)

-- The walk over the options takes a byte or more a round, unless one has length 0: 40 rounds, for
-- headers of at most 60 bytes.
unfoldable pub option_at : ℕ → Packet → Found
option_at option p = get_option_addr 41 p.data_off option p.options

abbrev pub byte_at : List ℕ → ℕ → ℕ
byte_at [] i = 0
byte_at (x ∷ xs) zero = x
byte_at (x ∷ xs) (suc i) = byte_at xs i

-- `enqueueIfNeed`, with what it returns.
unfoldable pub datagram_of : ℕ → Packet → Datagram
datagram_of seq p = record {
  seq = seq;
  ack_seq = 0;
  flag = p.flag;
  length_field = length p.payload;
  size = length p.payload;
  capacity = length p.payload;
  payload = p.payload;
  acked = false;
  retry = 0;
  buffering = false;
  abort = false;
  release_after = false;
  wire_seq = p.seq;
  wire_ack = p.ack_seq;
  window = p.window;
}

unfoldable pub is_queued : ℕ → List Datagram → Bool
is_queued seq [] = false
is_queued seq (d ∷ ds) = d.seq == seq

unfoldable pub place_of : ℕ → Session → Iterator Datagram
place_of seq s = Queue.find_not_smaller (λ d. not_greater seq d.seq) s.forward

-- A datagram that is not old goes to its place, unless its number is queued already.
unfoldable pub enqueue_new : ℕ → Packet → Session → Session × ℕ
enqueue_new seq p s = if is_queued seq (place_of seq s).after then (s, 0) else (
  emit request_send (record s {
    forward = Queue.insert (place_of seq s) (datagram_of seq p);
    forward_size = s.forward_size + length p.payload;
  }),
  length p.payload,
)

unfoldable pub enqueue_by : Compared → ℕ → ℕ → Packet → Session → Session × ℕ
enqueue_by smaller room seq p s = ((push_in_back_queue room ack [] s).0, 0)
enqueue_by equal room seq p s = enqueue_new seq p s
enqueue_by greater room seq p s = enqueue_new seq p s

unfoldable pub enqueue_if_need : ℕ → Packet → Session → Session × ℕ
enqueue_if_need room p s =
    let seq = relative_seq p.seq s.remote_seq_base in
    let by_order = enqueue_by (compare_u32 seq s.remote_next) room seq p s in
    if length p.payload == 0 then (s, 0) else by_order

-- `onSack`: the loop over the blocks, and that over the queue.
unfoldable pub mark_block : ℕ → ℕ → List Datagram → List Datagram
mark_block s t [] = []
mark_block s t (d ∷ ds) =
    let rest = mark_block s t ds in
    if leb t d.seq
    then d ∷ ds
    else if leb s d.seq
    then record d { acked = true } ∷ rest
    else d ∷ rest

abbrev pub u32_at : List ℕ → ℕ → ℕ
u32_at b i =
    byte_at b i * 2 ^ 24
    + byte_at b (i + 1) * 2 ^ 16
    + byte_at b (i + 2) * 2 ^ 8
    + byte_at b (i + 3)

unfoldable pub mark_blocks : ℕ → ℕ → List ℕ → ℕ → List Datagram → List Datagram
mark_blocks zero i b base q = q
mark_blocks (suc left) i b base q =
    mark_blocks left (i + 8) b base
      (mark_block (relative_seq (u32_at b i) base) (relative_seq (u32_at b (i + 4)) base) q)

-- `n = *sack++` reads the byte that the pointer shows.
unfoldable pub on_sack : List ℕ → Session → Session
on_sack [] s = s
on_sack (n ∷ b) s =
    if n == 10 || n == 18 || n == 26 || n == 34
    then record s { back = mark_blocks ((n - 2) / 8) 0 b s.local_seq_base s.back }
    else s

unfoldable pub sack_found : Found → Session → Session
sack_found (found at) s = on_sack at s
sack_found absent s = s
sack_found running s = s
sack_found outside s = s

unfoldable pub read_sack : Packet → Session → Session
read_sack p s = if s.sack then sack_found (option_at opt_sack p) s else s

-- `onReceiveSYN`: the options of the handshake, and the answer. `draw` is the value of `rand()`.
-- A walk that has no end, or that reads behind the packet, is taken as one that finds nothing.
unfoldable pub with_found : (List ℕ → Session → Session) → Found → Session → Session
with_found set (found at) s = set at s
with_found set absent s = s
with_found set running s = s
with_found set outside s = s

unfoldable pub syn_options : Packet → Session → Session
syn_options p s =
    let s1 = with_found (λ at t. record t { sack = true }) (option_at opt_sackf p) s in
    let s2 =
      with_found (λ at t. record t { mss = byte_at at 2 + byte_at at 3 * 256 })
        (option_at opt_mss p) s1 in
    with_found (λ at t. record t { window_scale = byte_at at 2 }) (option_at opt_ws p) s2

-- The session before the answer to a SYN.
unfoldable pub syn_start : ℕ → Packet → Session → Session
syn_start draw p s = record s {
  send_window = u32 (p.window <<< s.window_scale);
  remote_seq_base = p.seq;
  local_seq_base = u32 draw;
  local_seq = 0;
  local_next = 0;
  remote_next = 1;
}

unfoldable pub on_receive_syn : ℕ → ℕ → Packet → Session → Session
on_receive_syn draw room p s =
    if not (is s.state listen)
    then flush_back_queue room s
    else then_switch (λ _. syn_rcved)
        (push_in_back_queue room (syn + ack) [] (syn_start draw p (syn_options p s)))

unfoldable pub on_receive_rst : Session → Session
on_receive_rst s = switch_state closed s

-- An acknowledgement pushed, and the state after it.
unfoldable pub ack_then : ℕ → State → Session → Session
ack_then room t s = then_switch (λ _. t) (push_in_back_queue room ack [] s)

-- A FIN while in FIN_WAIT1.
unfoldable pub fin_in_wait1 : ℕ → ℕ → Session → Session
fin_in_wait1 room acked s =
    then_switch (λ s'. if acked == s'.local_next then time_wait else closing)
      (push_in_back_queue room ack [] s)

-- The numbers that a FIN moves.
unfoldable pub fin_numbers : Packet → Session → Session
fin_numbers p s =
    let acked = relative_seq p.ack_seq s.local_seq_base in
    record s {
      local_next = if leb s.local_next acked then acked else s.local_next;
      remote_next = u32 (relative_seq p.seq s.remote_seq_base + 1);
    }

unfoldable pub fin_by_state : ℕ → ℕ → Session → Session
fin_by_state room acked s =
    if is s.state established
    then ack_then room close_wait s
    else if is s.state fin_wait1
    then fin_in_wait1 room acked s
    else if is s.state fin_wait2
    then ack_then room time_wait s
    else (push_in_back_queue room ack [] s).0

unfoldable pub on_receive_fin : ℕ → Packet → Session → Session
on_receive_fin room p s =
    fin_by_state room (relative_seq p.ack_seq s.local_seq_base) (fin_numbers p s)

-- The last step of the handshake.
unfoldable pub advance : Session × ℕ → Session
advance (s, n) = record s { remote_next = u32 (s.remote_next + n) }

unfoldable pub handshake_done : ℕ → Packet → Session → Session
handshake_done room p s = advance (enqueue_if_need room p (switch_state established s))

-- A packet while the connection is established.
unfoldable pub data_queued : ℕ → Session × ℕ → Session × Bool
data_queued room (s, n) =
    if ltb 0 n then ((push_in_back_queue room ack [] (advance (s, n))).0, true) else (s, false)

unfoldable pub receive_data : ℕ → Packet → Session → Session × Bool
receive_data room p s = data_queued room (enqueue_if_need room p (read_sack p s))

-- The states of `accept` for a packet with no SYN, FIN or RST whose acknowledgement is not old, with
-- whether the queue was flushed on the way.
unfoldable pub accept_ack : ℕ → Packet → Session → Session × Bool
accept_ack room p s =
    if is s.state syn_rcved
    then (handshake_done room p s, false)
    else if is s.state fin_wait1
    then (switch_state fin_wait2 s, false)
    else if is s.state last_ack
    then (switch_state closed s, false)
    else if is s.state closing
    then (switch_state time_wait s, false)
    else if is s.state established
    then receive_data room p s
    else (s, false)

unfoldable pub flush_unless : ℕ → Session × Bool → Session
flush_unless room (s, true) = s
flush_unless room (s, false) = flush_back_queue room s

unfoldable pub accept_new : ℕ → Packet → Session → Session
accept_new room p s = flush_unless room (accept_ack room p s)

unfoldable pub accept_data : ℕ → Packet → Session → Session
accept_data room p s =
    let acked = relative_seq p.ack_seq s.local_seq_base in
    let opened = record s { send_window = u32 (p.window <<< s.window_scale) } in
    if leb s.local_next acked
    then accept_new room p (record opened { local_next = acked })
    else if u32 (acked + 1) == s.local_next
    then emit keep_alive opened
    else opened

-- The branches of `accept` on the flags.
unfoldable pub by_flags : ℕ → ℕ → Packet → Session → Session
by_flags draw room p s =
    if packet_has p syn
    then on_receive_syn draw room p s
    else if packet_has p fin
    then on_receive_fin room p s
    else if packet_has p rst
    then on_receive_rst s
    else accept_data room p s

-- `accept`, at the time `now`.
unfoldable pub accept : ℕ → ℕ → ℕ → Packet → Session → Session
accept now draw room p s =
    let handled = by_flags draw room p (
      emit (traffic_accept (length p.payload))
        (record s { total_accept = u32 (s.total_accept + length p.payload) })) in
    record handled { last_time = now }
