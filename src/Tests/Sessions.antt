-- ===== src/Tests/Sessions.antt =====
-- core/TCPSession on an established session with three bytes for the remote side.
use vpn_service_android.Common.{ℕ, ◌≡◌, refl, List, [], ◌∷◌, arith, length, drop, min, true, false}
use vpn_service_android.Tcp.Session.{
  fin_wait1, established, ack, Datagram, Session, has_flag, emit, switch_state,
}
use vpn_service_android.Buffer.Queue
use vpn_service_android.Packet.Sequence.{relative_seq}
use vpn_service_android.Tcp.Output.{
  flush_levels, flush_back_queue, pop_acked, finish_with, then_switch, push_with,
  update_window_size, tunnel_window, window_max, enqueue_back, build_package, opt_len, is_acked,
  flush_sends, sends_done, send_queue, send_limit, send_back_segment, router_takes,
  safe_release_segment,
}
use vpn_service_android.Tcp.Output.Accounts.{IsSession}
use vpn_service_android.Tcp.Output.Moves.{Reach}
use vpn_service_android.Tcp.Output.Ends.{flush_levels_enough}
use vpn_service_android.Tcp.Input.{
  Packet, accept, by_flags, accept_data, accept_new, accept_ack, flush_unless,
}
use vpn_service_android.Tcp.Input.Accounts.{accept-IsSession}
use vpn_service_android.Tcp.Input.Moves.{accept-Reach}
use vpn_service_android.Tcp.Tunnel.{
  Reply, took, on_remote_finished, disconnected_in, on_tunnel_data_back, on_tunnel_disconnected,
  on_tunnel_writable,
}
use vpn_service_android.Tcp.Tunnel.Accounts.{
  on_tunnel_data_back-IsSession, on_tunnel_disconnected-Reach,
}
use vpn_service_android.Tcp.Tunnel.Drain.{bytes_of, TakesSome, on_tunnel_writable_lem}

abbrev queued : Datagram
queued = record {
  seq = 1;
  ack_seq = 0;
  flag = ack;
  length_field = 3;
  size = 3;
  capacity = 3;
  payload = 10 ∷ 20 ∷ 30 ∷ [];
  acked = false;
  retry = 0;
  buffering = false;
  abort = false;
  release_after = false;
  wire_seq = 101;
  wire_ack = 0;
  window = 512;
}

abbrev session : Session
session = record {
  alive = true;
  tunnel_alive = true;
  state = established;
  remote_finished = false;
  sack = true;
  forward = queued ∷ [];
  forward_size = 3;
  back = [];
  back_size = 0;
  local_seq = 1;
  local_next = 1;
  local_seq_base = 700;
  remote_next = 4;
  remote_seq_base = 100;
  send_window = 4096;
  receive_window = 4096;
  window_scale = 0;
  mss = 1460;
  total_accept = 3;
  total_back = 0;
  total_recv = 0;
  total_sent = 0;
  last_time = 50;
  log = [];
}

session-IsSession : IsSession session
session-IsSession = record {
  back_account = refl;
  forward_account = refl;
  closed_dead = λ h. ground arith;
}

-- Two more bytes, in order.
abbrev packet : Packet
packet = record {
  seq = 104;
  ack_seq = 701;
  flag = ack;
  data_off = 20;
  window = 512;
  options = [];
  payload = 40 ∷ 50 ∷ [];
}

accept-IsSession_example : IsSession (accept 60 9 100 packet session)
accept-IsSession_example = accept-IsSession 60 9 100 packet session session-IsSession

flush_levels_enough_example : flush_levels 5 100 session ≡ flush_back_queue 100 session
flush_levels_enough_example = flush_levels_enough 3 100 session

on_tunnel_data_back-IsSession_example : IsSession (on_tunnel_data_back 60 100 (1 ∷ 2 ∷ []) session)
on_tunnel_data_back-IsSession_example =
    on_tunnel_data_back-IsSession 60 100 (1 ∷ 2 ∷ []) session session-IsSession

abbrev two_bytes : ℕ → List ℕ → Reply
two_bytes i b = took (min 2 (length b))

two_bytes-TakesSome : TakesSome two_bytes
two_bytes-TakesSome = (λ i b e. ground arith, λ i b n e. ground arith)

on_tunnel_writable_lem_example :
    IsSession (on_tunnel_writable 100 two_bytes session).0
    × (bytes_of (on_tunnel_writable 100 two_bytes session).0.forward
        ≡ drop (on_tunnel_writable 100 two_bytes session).1 (10 ∷ 20 ∷ 30 ∷ []))
on_tunnel_writable_lem_example =
    on_tunnel_writable_lem 100 two_bytes session two_bytes-TakesSome (refl, tt) session-IsSession

-- A session whose FIN is under way, and its acknowledgement.
abbrev half : Session
half = record session { state = fin_wait1; forward = []; forward_size = 0 }

abbrev pure_ack : Packet
pure_ack = record packet { payload = [] }

half_lives : (accept 60 9 100 pure_ack half).alive ≡ true
unfolding accept by_flags accept_data accept_new accept_ack flush_unless switch_state emit
    relative_seq flush_back_queue flush_levels pop_acked Queue.empty flush_sends sends_done
    send_queue send_limit
half_lives = refl

accept-Reach_example : (true ≡ true) × Reach fin_wait1 (accept 60 9 100 pure_ack half).state
accept-Reach_example = accept-Reach 60 9 100 pure_ack half half_lives

session_lives : (on_tunnel_disconnected 100 session).alive ≡ true
unfolding on_tunnel_disconnected disconnected_in on_remote_finished flush_back_queue flush_levels
    pop_acked Queue.empty Queue.push finish_with then_switch push_with update_window_size
    tunnel_window window_max enqueue_back build_package opt_len has_flag is_acked flush_sends
    sends_done send_queue send_limit send_back_segment router_takes safe_release_segment emit
    switch_state
session_lives = refl

on_tunnel_disconnected-Reach_example :
    (true ≡ true) × Reach established (on_tunnel_disconnected 100 session).state
on_tunnel_disconnected-Reach_example = on_tunnel_disconnected-Reach 100 session session_lives
