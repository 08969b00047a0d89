-- ===== src/Tests/Datagrams.antt =====
-- core/UDPSession on a few bytes, from 10.0.0.2:5000 to 8.8.8.8:53.
use vpn_service_android.Common.{
  ℕ, ◌+◌, ◌≤◌, ◌≡◌, refl, List, [], ◌∷◌, ◌++◌, Option, none, some, true, false, All, arith, length,
  drop, u32,
}
use vpn_service_android.Buffer.Segment.{Segment, create, write, write_len, used}
use vpn_service_android.Buffer.Segment.Laws.{IsSegment, create-IsSegment, write-IsSegment}
use vpn_service_android.Packet.Checksum.{compute_checksum}
use vpn_service_android.Udp.Packet.{
  Endpoints, ip_header_size, udp_header_size, build_packet, pseudo_header,
}
use vpn_service_android.Udp.Packet.Verifies.{IsEndpoints, build_packet_verifies}
use vpn_service_android.Udp.Session.{
  Control, captured, conn_accept, add_nothing, UdpSession, Opening, Incoming, accept, init,
  conn_recv, conn_back,
}
use vpn_service_android.Udp.Session.Proxied.{accept_announces}
use vpn_service_android.Udp.Events.{send_segments, on_tunnel_writable, on_tunnel_data_back}
use vpn_service_android.Udp.Events.Sending.{pending, send_segments_ends, on_tunnel_writable_sends}
use vpn_service_android.Udp.Events.Back.{concat, AreFitting, relayed, on_tunnel_data_back_relays}
use vpn_service_android.Router.Sessions.{Key}
use vpn_service_android.Router.Sessions.UdpOps.{base_session}

abbrev name_server : Endpoints
name_server = record {
  dest_addr = record { byte0 = 8; byte1 = 8; byte2 = 8; byte3 = 8 };
  src_addr = record { byte0 = 10; byte1 = 0; byte2 = 0; byte3 = 2 };
  dest_port = record { high = 0; low = 53 };
  src_port = record { high = 19; low = 136 };
}

name_server-IsEndpoints : IsEndpoints name_server
name_server-IsEndpoints = record {
  dest_addr = (omega arith, (omega arith, (omega arith, (omega arith, tt))));
  src_addr = (omega arith, (omega arith, (omega arith, (omega arith, tt))));
  dest_port = (omega arith, omega arith);
  src_port = (omega arith, omega arith);
}

build_packet_verifies_example :
    (front : List ℕ) × (back : List ℕ) × (build_packet 4 name_server (1 ∷ 2 ∷ 3 ∷ [])
      ≡ some (front ++ (back ++ 1 ∷ 2 ∷ 3 ∷ [])))
    × (length front ≡ ip_header_size)
    × (length back ≡ udp_header_size)
    × (compute_checksum 0 front ≡ 65535)
    × (compute_checksum 0 (pseudo_header name_server 11 ++ (back ++ 1 ∷ 2 ∷ 3 ∷ [])) ≡ 65535)
build_packet_verifies_example =
    build_packet_verifies name_server (1 ∷ 2 ∷ 3 ∷ []) name_server-IsEndpoints
      (omega arith, (omega arith, (omega arith, tt))) (omega arith)

abbrev five_tuple : Key
five_tuple = record {
  ip_ver = 4;
  src_addr = 33554442;
  dest_addr = 134744072;
  src_port = 34835;
  dest_port = 13568;
}

abbrev three_bytes : Segment
three_bytes = write (create 3) (1 ∷ 2 ∷ 3 ∷ [])

three_bytes-IsSegment : IsSegment three_bytes
three_bytes-IsSegment = write-IsSegment (create 3) (1 ∷ 2 ∷ 3 ∷ []) (create-IsSegment 3)

abbrev waiting : UdpSession
waiting = record (base_session five_tuple) {
  alive = true;
  tunnel = true;
  reactor = true;
  out_buffer = three_bytes ∷ three_bytes ∷ [];
}

abbrev answers : List (Option ℕ)
answers = some 2 ∷ some 9 ∷ none ∷ []

on_tunnel_writable_sends_example :
    let (n, after) = on_tunnel_writable answers waiting in
    (pending after.out_buffer ≡ drop n (pending waiting.out_buffer))
    × (n ≤ length (pending waiting.out_buffer))
    × (after.total_sent ≡ u32 (waiting.total_sent + n))
    × All IsSegment after.out_buffer
unfolding base_session
on_tunnel_writable_sends_example =
    on_tunnel_writable_sends answers waiting (three_bytes-IsSegment, (three_bytes-IsSegment, tt))
      (omega arith)

send_segments_ends_example :
    (send_segments (some 1 ∷ some 1 ∷ some 1 ∷ some 1 ∷ []) (three_bytes ∷ [])).ended ≡ true
unfolding create write used write_len
send_segments_ends_example =
    send_segments_ends (some 1 ∷ some 1 ∷ some 1 ∷ some 1 ∷ []) (three_bytes ∷ [])
      (omega arith, (omega arith, (omega arith, (omega arith, tt)))) (omega arith)

on_tunnel_data_back_relays_example :
    (pieces : List (List ℕ)) × (concat pieces ≡ 1 ∷ 2 ∷ [])
    × AreFitting pieces
    × (on_tunnel_data_back (1 ∷ 2 ∷ []) 7 waiting ≡ record waiting {
      total_recv = u32 (waiting.total_recv + 2);
      total_back = u32 (waiting.total_back + 2);
      last_time = 7;
      log =
          ((waiting.log ++ relayed 2 waiting.ends pieces) ++ conn_recv 2 ∷ []) ++ conn_back 2 ∷ [];
    })
unfolding base_session
on_tunnel_data_back_relays_example =
    on_tunnel_data_back_relays (1 ∷ 2 ∷ []) 7 waiting (omega arith) refl

abbrev captured_proxy : Control
captured_proxy = record { none_bit = false; proxy = true; block = false; capture = true }

abbrev query : Incoming
query = record { packet = 69 ∷ 0 ∷ []; payload = 1 ∷ 2 ∷ [] }

abbrev no_opening : Opening
no_opening = record { opened = false; protected = false }

accept_announces_example :
    let q =
      (accept query 9 (init captured_proxy 4 true no_opening (base_session five_tuple)).1).1 in
    (q.log ≡ captured query.packet ∷ conn_accept 2 ∷ add_nothing ∷ [])
    × (pending q.out_buffer ≡ pending (base_session five_tuple).out_buffer ++ query.payload)
unfolding base_session
accept_announces_example =
    accept_announces captured_proxy no_opening query 9 (base_session five_tuple) refl refl
      (omega arith) (omega arith)
