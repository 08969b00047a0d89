-- ===== src/Tcp/Tunnel.antt =====
-- core/TCPSession.cpp, what the tunnel calls: data from the remote side, room for data to it, and its
-- end.
pub mod Accounts
pub mod Drain
use vpn_service_android.Common.{
  ℕ, zero, suc, ◌+◌, ◌-◌, ◌*◌, ◌/◌, ◌^◌, ◌%◌, ◌<◌, List, [], ◌∷◌, ◌++◌, Bool, true, false, ltb, leb,
  if◌then◌else◌, u32, length, take, drop, Option, none, some, map,
}
use vpn_service_android.Buffer.Queue
use vpn_service_android.Tcp.Session.{
  State, listen, syn_sent, syn_rcved, established, fin_wait1, fin_wait2, close_wait, closing,
  last_ack, time_wait, closed, ack, psh, Datagram, has_flag, Effect, pause_send, pause_receive,
  destroy_tunnel, traffic_sent, traffic_recv, released, Session, emit, switch_state,
}
use vpn_service_android.Tcp.Output.{
  safe_release_segment, reset_connection, flush_back_queue, push_in_back_queue, session_buffer_size,
}

-- TCP_IP_PAYLOAD_SIZE
abbrev pub ip_payload_size : ℕ
ip_payload_size = 61440

unfoldable pub on_remote_finished : ℕ → Session → Session
on_remote_finished room s = flush_back_queue room (record s { remote_finished = true })

unfoldable pub disconnected_in : State → ℕ → Session → Session
disconnected_in close_wait room s = on_remote_finished room s
disconnected_in established room s = on_remote_finished room s
disconnected_in time_wait room s = switch_state closed s
disconnected_in closing room s = switch_state closed s
disconnected_in fin_wait1 room s = switch_state closed s
disconnected_in fin_wait2 room s = switch_state closed s
disconnected_in _ room s = reset_connection room s

unfoldable pub on_tunnel_disconnected : ℕ → Session → Session
on_tunnel_disconnected room s = disconnected_in s.state room s

-- A piece of `n` bytes pushed; `relay_rest` is the loop behind it.
unfoldable pub piece_pushed : ℕ → (Session → Session × ℕ) → Session × Option ℕ → Session × ℕ
piece_pushed n relay_rest (s, none) = (s, 0)
piece_pushed n relay_rest (s, some pushed) = let rest = relay_rest s in (rest.0, rest.1 + n)

-- The loop over pieces of at most `ip_payload_size` bytes, with the bytes handed on. Each round takes
-- a byte, so the length of the data is enough fuel.
unfoldable pub relay_pieces : ℕ → ℕ → List ℕ → Session → Session × ℕ
relay_pieces fuel room [] s = (s, 0)
relay_pieces zero room (x ∷ xs) s = (s, 0)
relay_pieces (suc fuel) room (x ∷ xs) s =
    let piece = take ip_payload_size (x ∷ xs) in
    piece_pushed (length piece) (relay_pieces fuel room (drop ip_payload_size (x ∷ xs)))
      (push_in_back_queue room ack piece s)

unfoldable pub relay_data : ℕ → List ℕ → Session → Session
relay_data room input s =
    let (s', i) = relay_pieces (length input) room input s in
    let counted =
      if ltb 0 i
      then emit (traffic_recv i) (record s' { total_recv = u32 (s'.total_recv + i) })
      else s' in
    if leb session_buffer_size counted.back_size then emit pause_receive counted else counted

unfoldable pub on_tunnel_data_back : ℕ → ℕ → List ℕ → Session → Session
on_tunnel_data_back now room input s =
    let handled =
      if leb (length input) 0
      then on_remote_finished room (emit pause_receive s)
      else relay_data room input s in
    record handled { last_time = now }

-- What the tunnel's `sendData` answers: bytes taken, none now, or a failure, on which a TCPTunnel
-- destroys itself and reports its end before it returns.
pub data Reply : Type 0 where
  took : ℕ → Reply
  refused broken : Reply

-- `segment->consume(n)` on the data that is left of a datagram.
unfoldable pub consume : ℕ → Datagram → Datagram
consume n d = if leb n d.size then record d { size = d.size - n; payload = drop n d.payload } else d

-- A round of the loop over the queue, on what `sendData` answers for its first datagram; `drain_rest`
-- is the loop behind it.
unfoldable pub drain_reply :
    ℕ → Datagram → List Datagram → Session → (List Datagram → Session × ℕ) → Reply → Session × ℕ
drain_reply room d ds s drain_rest refused = (record s { forward = d ∷ ds }, 0)
drain_reply room d ds s drain_rest broken = (
  on_tunnel_disconnected room
      (emit destroy_tunnel (record s { forward = d ∷ ds; tunnel_alive = false })),
  0,
)
drain_reply room d ds s drain_rest (took n) =
    let rest = drain_rest (if leb (consume n d).size 0 then ds else consume n d ∷ ds) in
    if leb n 0 then (record s { forward = d ∷ ds }, 0) else (rest.0, rest.1 + n)

-- The loop: `replies i` is the answer to call i. A round that goes on takes a byte or more, so the
-- bytes in the queue are enough fuel.
unfoldable pub drain_forward :
    ℕ → ℕ → ℕ → (ℕ → List ℕ → Reply) → List Datagram → Session → Session × ℕ
drain_forward fuel room i replies [] s = (record s { forward = [] }, 0)
drain_forward zero room i replies (d ∷ ds) s = (record s { forward = d ∷ ds }, 0)
drain_forward (suc fuel) room i replies (d ∷ ds) s =
    drain_reply room d ds s (λ q. drain_forward fuel room (i + 1) replies q s) (replies i d.payload)

unfoldable pub queued_bytes : List Datagram → ℕ
queued_bytes [] = 0
queued_bytes (d ∷ ds) = d.size + queued_bytes ds

unfoldable pub on_tunnel_writable : ℕ → (ℕ → List ℕ → Reply) → Session → Session × ℕ
on_tunnel_writable room replies s =
    let (s', sent) = drain_forward (queued_bytes s.forward) room 0 replies s.forward s in
    let counted = emit (traffic_sent sent) (record s' {
      total_sent = u32 (s'.total_sent + sent);
      forward_size = s'.forward_size - sent;
    }) in
    if Queue.empty s.forward
    then (emit pause_send s, 0)
    else if ltb 0 sent
    then (counted, sent)
    else (emit pause_send s', sent)

-- `clearBackQueue`, on destruction.
unfoldable pub clear_back_queue : Session → Session
clear_back_queue s = record s {
  back = [];
  back_size = 0;
  log = s.log ++ map (λ d. released (safe_release_segment d)) s.back;
}
