-- ===== src/Tcp/Output.antt =====
-- core/TCPSession.cpp, the way back to the tun device: the window, the packets built, the queue of
-- those not acknowledged yet, and its flushing.
-- `room` is what the tunnel's `getAvailableBufferSize()` answers during the handler. The router takes
-- a package as `Router::onSyncEvent` of core/Router.cpp does.
pub mod Frame
pub mod Accounts
pub mod Moves
pub mod Ends
use vpn_service_android.Common.{
  ℕ, zero, suc, ◌+◌, ◌-◌, ◌*◌, ◌/◌, ◌^◌, ◌%◌, ◌<◌, List, [], ◌∷◌, ◌++◌, Bool, true, false, ◌&&◌,
  ◌||◌, not, ltb, leb, ◌==◌, if◌then◌else◌, bit_and, bit_or, u16, u32, ◌<<<◌, ◌>>>◌, length, Option,
  none, some,
}
use vpn_service_android.Buffer.Queue
use vpn_service_android.Tcp.Session.{
  State, established, close_wait, fin_wait1, last_ack, closed, is, fin, syn, rst, ack, Datagram,
  has_flag, Effect, resume_receive, write_package, released, Session, emit, switch_state,
}

abbrev pub session_buffer_size : ℕ
session_buffer_size = 2 ^ 18

abbrev pub max_send_window : ℕ
max_send_window = 2 ^ 16

abbrev pub max_send_packet : ℕ
max_send_packet = 1

unfoldable pub window_max : ℕ → ℕ
window_max scale = u32 (0xffff <<< scale)

-- The window of the tunnel, cut down to what the header can tell.
unfoldable pub tunnel_window : ℕ → Session → ℕ
tunnel_window room s =
    let size = if s.tunnel_alive then room else window_max s.window_scale in
    if ltb (window_max s.window_scale) size then window_max s.window_scale else size

unfoldable pub update_window_size : ℕ → Session → Session
update_window_size room s =
    let size = tunnel_window room s in
    record s { receive_window = if leb size s.forward_size then 0 else size - s.forward_size }

-- The headers take 40 bytes, the options of a SYN 10.
unfoldable pub opt_len : ℕ → ℕ
opt_len flag = if ltb 0 (bit_and flag syn) then 10 else 0

unfoldable pub build_package : ℕ → List ℕ → Session → Datagram
build_package flag payload s =
    let ttlen = 40 + opt_len flag + length payload in
    record {
      seq = s.local_seq;
      ack_seq = s.remote_next;
      flag = flag;
      length_field = length payload;
      size = ttlen;
      capacity = ttlen;
      payload = payload;
      acked = false;
      retry = 0;
      buffering = false;
      abort = false;
      release_after = false;
      wire_seq = u32 (s.local_seq + s.local_seq_base);
      wire_ack = u32 (s.remote_next + s.remote_seq_base);
      window = u16 (s.receive_window >>> s.window_scale);
    }

-- Whether `Router::onSyncEvent` queues the segment.
unfoldable pub router_takes : Datagram → Bool
router_takes d = ltb 0 d.size && not d.buffering && not d.abort

-- `sendBackSegment`: what the segment is then, and whether the return is positive.
unfoldable pub send_back_segment : Datagram → Datagram × Bool
send_back_segment d =
    if leb d.size 0
    then (d, false)
    else let tried = record d { retry = u32 (d.retry + 1) } in
      if router_takes tried then (record tried { buffering = true }, true) else (tried, false)

-- `safeReleaseSegment`: a segment that the router still writes is left to the router.
unfoldable pub safe_release_segment : Datagram → Datagram
safe_release_segment d = if d.buffering then record d { abort = true; release_after = true } else d

-- The end of `resetConnection`, on what `sendBackSegment` gave.
unfoldable pub reset_sent : Datagram × Bool → Session → Session
reset_sent (segment, true) s = switch_state closed (emit (write_package segment) s)
reset_sent (segment, false) s = s

unfoldable pub reset_connection : ℕ → Session → Session
reset_connection room s =
    let w = update_window_size room s in
    let back_to = record w { local_seq = w.local_next } in
    reset_sent
      (send_back_segment (record (build_package (rst + ack) [] back_to) { release_after = true }))
      back_to

-- The first loop of `flushBackQueue`: what is acknowledged, and pure acknowledgements that were sent,
-- leave the queue.
unfoldable pub is_acked : ℕ → Datagram → Bool
is_acked local_next d =
    ltb d.seq local_next || (leb d.length_field 0 && d.flag == ack && ltb 0 d.retry)

unfoldable pub pop_acked : List Datagram → Session → Session
pop_acked [] s = record s { back = [] }
pop_acked (d ∷ ds) s =
    let next = pop_acked ds (
      emit (released (safe_release_segment d)) (record s {
        total_back = u32 (s.total_back + d.length_field);
        back_size = s.back_size - d.capacity;
      })) in
    if is_acked s.local_next d then next else record s { back = d ∷ ds }

-- The second loop: the queue then, the bytes sent, and whether a gap in front of the first segment
-- was met.
pub record Sent : Type 0 where
  pub queue : List Datagram
  pub sent : ℕ
  pub gap : Bool
  pub writes : List Effect

abbrev pub stop_at : List Datagram → ℕ → Sent
stop_at q sent = record { queue = q; sent = sent; gap = false; writes = [] }

abbrev pub keep_front : Datagram → List Effect → Sent → Sent
keep_front d es r = record r { queue = d ∷ r.queue; writes = es ++ r.writes }

unfoldable pub send_queue : ℕ → ℕ → ℕ → ℕ → ℕ → List Datagram → Sent
send_queue local_next limit w packet sent [] = stop_at [] sent
send_queue local_next limit w packet sent (d ∷ ds) =
    let (d', taken) = send_back_segment d in
    let in_flight =
      keep_front d [] (send_queue local_next limit (w + d.size) (packet + 1) sent ds) in
    let after_send =
      keep_front d' (write_package d' ∷ [])
        (send_queue local_next limit (w + d.size) (packet + 1) (sent + d.size) ds) in
    if ltb 0 w && has_flag d fin
    then stop_at (d ∷ ds) sent
    else if w == 0 && ltb local_next d.seq
    then record { queue = d ∷ ds; sent = sent; gap = true; writes = [] }
    else if ltb (w + d.size) limit && ltb packet max_send_packet
    then (if not d.buffering && not d.acked
        then (if taken then after_send else stop_at (d' ∷ ds) sent)
        else in_flight)
    else stop_at (d ∷ ds) sent

unfoldable pub send_limit : Session → ℕ
send_limit s = if ltb max_send_window s.send_window then max_send_window else s.send_window

-- `flushBackQueue` from its second loop on, with what it returns.
unfoldable pub sends_done : ℕ → Sent → Session → Session × ℕ
sends_done room r s =
    let after = record s { back = r.queue; log = s.log ++ r.writes } in
    if r.gap
    then (reset_connection room after, 0)
    else if is s.state established && ltb s.back_size (session_buffer_size / 2)
    then (emit resume_receive after, r.sent)
    else (after, r.sent)

unfoldable pub flush_sends : ℕ → Session → Session × ℕ
flush_sends room s = sends_done room (send_queue s.local_next (send_limit s) 0 0 0 s.back) s

-- The segment at the end of the queue, and the sequence number behind it.
unfoldable pub enqueue_back : ℕ → List ℕ → Session → Session
enqueue_back flag payload s =
    let d = build_package flag payload s in
    record s {
      back = Queue.push s.back d;
      back_size = s.back_size + d.capacity;
      local_seq =
          if has_flag d (fin + syn)
          then u32 (s.local_seq + 1)
          else u32 (s.local_seq + length payload);
    }

-- `pushInBackQueue`, where `flush` is `flushBackQueue`; `none` is the return of -1.
unfoldable pub push_with : (Session → Session) → ℕ → ℕ → List ℕ → Session → Session × Option ℕ
push_with flush room flag payload s =
    if ltb s.local_seq s.local_next
    then (s, none)
    else (flush (enqueue_back flag payload (update_window_size room s)), some (length payload))

-- A change of state after a push that did not fail.
unfoldable pub then_switch : (Session → State) → Session × Option ℕ → Session
then_switch next (s, none) = s
then_switch next (s, some n) = switch_state (next s) s

-- The end of a connection whose remote side has finished.
unfoldable pub finish_with : (Session → Session) → ℕ → Session → Session
finish_with flush room s =
    then_switch (λ s'. if is s'.state established then fin_wait1 else last_ack)
      (push_with flush room (fin + ack) [] s)

-- `flushBackQueue` and `pushInBackQueue` call one another. The inner flush meets the segment just
-- pushed and pushes no other, so two levels are enough.
unfoldable pub flush_levels : ℕ → ℕ → Session → Session
flush_levels zero room s = s
flush_levels (suc level) room s =
    let popped = pop_acked s.back s in
    let ended = finish_with (flush_levels level room) room popped in
    if (popped.remote_finished && (is popped.state established || is popped.state close_wait))
      && Queue.empty popped.back
    then ended
    else (flush_sends room popped).0

unfoldable pub flush_back_queue : ℕ → Session → Session
flush_back_queue room s = flush_levels 2 room s

unfoldable pub push_in_back_queue : ℕ → ℕ → List ℕ → Session → Session × Option ℕ
push_in_back_queue room flag payload s = push_with (flush_back_queue room) room flag payload s
