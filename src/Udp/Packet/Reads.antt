-- ===== src/Udp/Packet/Reads.antt =====
-- The packets that UDPSession::buildPacket writes, read by the getters of core/IPAdpt.cpp.
use vpn_service_android.Common.{ℕ, ◌+◌, ◌*◌, ◌≤◌, ◌^◌, ◌≡◌, refl, List, ◌++◌, some, length, arith}
use vpn_service_android.Packet.Header.{
  get_ip_ver, get_ttlen, get_protocol, get_src, get_dest, get_header_len, get_payload_offset,
  get_payload_len, get_src_port, get_dest_port, port_at,
}
use vpn_service_android.Udp.Packet.{
  Ip4, Port, Endpoints, ip_header_size, udp_header_size, ip_header, udp_header, udp_front,
}

-- An address and a port as the getters read them.
abbrev pub address_number : Ip4 → ℕ
address_number a = (a.byte0 + 256 * a.byte1) + 2 ^ 16 * (a.byte2 + 256 * a.byte3)

abbrev pub port_number : Port → ℕ
port_number p = p.high + 256 * p.low

-- The packet for data that fits goes from the remote side to the application, with its version, its
-- protocol and its lengths as a reader of IP packets takes them.
pub packet_reads :
    (e : Endpoints) (bytes : List ℕ)
    → length bytes ≤ 61440
    → let p =
        ip_header e (ip_header_size + (udp_header_size + length bytes))
        ++ (udp_header e bytes ++ bytes) in
      (get_ip_ver p ≡ 4)
      × (get_protocol p ≡ 17)
      × (get_src p ≡ address_number e.dest_addr)
      × (get_dest p ≡ address_number e.src_addr)
      × (get_src_port p ≡ port_number e.dest_port)
      × (get_dest_port p ≡ port_number e.src_port)
      × (get_payload_len p ≡ some (length bytes))
unfolding ip_header udp_header udp_front get_ip_ver get_protocol get_src get_dest get_src_port
    get_dest_port port_at get_payload_len get_payload_offset get_header_len get_ttlen
packet_reads e bytes h = (refl, refl, refl, refl, refl, refl, ground arith)
