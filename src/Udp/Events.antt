-- ===== src/Udp/Events.antt =====
-- core/UDPSession.cpp: what comes back from the remote side, and the sending of what is queued.
pub mod Sending
pub mod Back
use vpn_service_android.Common.{
  ℕ, zero, suc, ◌+◌, ◌-◌, List, [], ◌∷◌, ◌++◌, Option, none, some, Bool, true, false, ltb, leb,
  ◌==◌, if◌then◌else◌, length, take, drop, min, u32,
}
use vpn_service_android.Buffer.Segment.{Segment, consume, used}
use vpn_service_android.Udp.Packet.{build_packet}
use vpn_service_android.Udp.Session.{
  UdpSession, emit, add_socket_event, react, close, Effect, del_write, conn_recv, conn_sent,
  conn_back, write_package, pause_send, pause_receive,
}

-- MAX_IP_SIZE
abbrev pub max_ip_size : ℕ
max_ip_size = 61440

unfoldable pub send_package : Option (List ℕ) → UdpSession → UdpSession
unfolding emit
send_package none s = s
send_package (some p) s = emit (write_package p) s

unfoldable pub answered : Option (List ℕ) → ℕ → UdpSession → UdpSession
unfolding emit
answered none length s = s
answered (some p) length s =
    emit (conn_back length)
      (emit (write_package p) (record s { total_back = u32 (s.total_back + length) }))

-- What `read` gives: an error, or at most MAX_IP_SIZE bytes.
unfoldable pub on_readable : Option (List ℕ) → UdpSession → UdpSession
unfolding close emit answered build_packet
on_readable none s = close s
on_readable (some bytes) s =
    let len = length bytes in
    let counted = emit (conn_recv len) (record s { total_recv = u32 (s.total_recv + len) }) in
    answered (build_packet s.ip_ver s.ends bytes) len counted

-- The queue behind the sending loop, the bytes sent, and whether the loop ended within the answers
-- given. An answer is an error, or how much is taken at most of what is offered.
pub record Sent : Type 0 where
  pub queue : List Segment
  pub sent : ℕ
  pub ended : Bool

unfoldable pub count_sent : ℕ → Sent → Sent
count_sent n r = record r { sent = n + r.sent }

-- The loop of onWritable and of onTunnelWritable.
unfoldable pub send_segments : List (Option ℕ) → List Segment → Sent
unfolding count_sent consume used
send_segments answers [] = record { queue = []; sent = 0; ended = true }
send_segments [] (x ∷ q) = record { queue = x ∷ q; sent = 0; ended = false }
send_segments (none ∷ answers) (x ∷ q) = record { queue = x ∷ q; sent = 0; ended = true }
send_segments (some most ∷ answers) (x ∷ q) =
    let n = min most (used x) in
    let left = consume x n in
    let whole = send_segments answers q in
    let part = send_segments answers (left ∷ q) in
    count_sent n (if leb (used left) 0 then whole else part)

unfoldable pub settle_sent : Sent → UdpSession → UdpSession
unfolding emit
settle_sent r s =
    let kept = record s { out_buffer = r.queue } in
    if ltb 0 r.sent
    then emit (conn_sent (u32 r.sent)) (record kept { total_sent = u32 (s.total_sent + r.sent) })
    else kept

unfoldable pub writable_with : List (Option ℕ) → List Segment → UdpSession → UdpSession
unfolding settle_sent send_segments react
writable_with answers [] s = react del_write s
writable_with answers (x ∷ q) s = settle_sent (send_segments answers (x ∷ q)) s

unfoldable pub on_writable : List (Option ℕ) → UdpSession → UdpSession
unfolding writable_with
on_writable answers s = writable_with answers s.out_buffer s

unfoldable pub tunnel_writable_with : List (Option ℕ) → List Segment → UdpSession → ℕ × UdpSession
unfolding settle_sent send_segments emit
tunnel_writable_with answers [] s = (0, emit pause_send s)
tunnel_writable_with answers (x ∷ q) s =
    let r = send_segments answers (x ∷ q) in (r.sent, settle_sent r s)

unfoldable pub on_tunnel_writable : List (Option ℕ) → UdpSession → ℕ × UdpSession
unfolding tunnel_writable_with
on_tunnel_writable answers s = tunnel_writable_with answers s.out_buffer s

-- The loop of onTunnelDataBack: a packet for each piece of at most MAX_IP_SIZE bytes; `total` is the
-- length of all of it.
unfoldable pub relay_pieces : ℕ → ℕ → List ℕ → UdpSession → UdpSession
unfolding emit send_package build_packet
relay_pieces zero total bytes s = s
relay_pieces (suc fuel) total [] s = s
relay_pieces (suc fuel) total (b ∷ bytes) s =
    let n = min max_ip_size (length (b ∷ bytes)) in
    relay_pieces fuel total (drop n (b ∷ bytes))
      (send_package (build_packet s.ip_ver s.ends (take n (b ∷ bytes))) (emit (conn_recv total) s))

unfoldable pub on_tunnel_data_back : List ℕ → ℕ → UdpSession → UdpSession
unfolding relay_pieces emit close
on_tunnel_data_back [] now s = record (close (emit pause_receive s)) { last_time = now }
on_tunnel_data_back (b ∷ bytes) now s =
    let len = length (b ∷ bytes) in
    let relayed = relay_pieces len len (b ∷ bytes) s in
    let counted = record relayed {
      total_recv = u32 (s.total_recv + len);
      total_back = u32 (s.total_back + len);
    } in
    record (emit (conn_back len) (emit (conn_recv len) counted)) { last_time = now }
