-- ===== src/Udp/Packet.antt =====
-- core/UDPSession.cpp, buildPacket: the datagram that goes back to the application.
-- Addresses and ports are kept as the bytes in memory, in network order. A little-endian machine is
-- modelled, as the source assumes when it swaps bytes.
pub mod Verifies
pub mod Reads
use vpn_service_android.Common.{
  ℕ, ◌+◌, ◌-◌, ◌/◌, ◌%◌, List, [], ◌∷◌, ◌++◌, Option, none, some, ◌==◌, if◌then◌else◌, length, u16,
}
use vpn_service_android.Packet.Checksum.{compute_checksum}

pub record Ip4 : Type 0 where
  pub byte0 : ℕ
  pub byte1 : ℕ
  pub byte2 : ℕ
  pub byte3 : ℕ

pub record Port : Type 0 where
  pub high : ℕ
  pub low : ℕ

abbrev pub address_bytes : Ip4 → List ℕ
address_bytes a = a.byte0 ∷ a.byte1 ∷ a.byte2 ∷ a.byte3 ∷ []

-- `mDestAddr`, `mSrcAddr`, `mDestPort` and `mSrcPort`.
pub record Endpoints : Type 0 where
  pub dest_addr : Ip4
  pub src_addr : Ip4
  pub dest_port : Port
  pub src_port : Port

-- sizeof(IPHeader) and sizeof(struct udphdr)
abbrev pub ip_header_size : ℕ
ip_header_size = 20

abbrev pub udp_header_size : ℕ
udp_header_size = 8

-- The fields of the IP header before and behind CHECKSUM; the version is 4 and the length 5 words.
abbrev pub ip_front : ℕ → List ℕ
ip_front ttlen = 69 ∷ 0 ∷ u16 ttlen / 256 ∷ u16 ttlen % 256 ∷ 0 ∷ 0 ∷ 0 ∷ 0 ∷ 64 ∷ 17 ∷ []

abbrev pub ip_back : Endpoints → List ℕ
ip_back e = address_bytes e.dest_addr ++ address_bytes e.src_addr

-- The field that holds `~checksum`, as a machine with little-endian words stores it.
abbrev pub check_bytes : ℕ → List ℕ
check_bytes checksum = (65535 - checksum) % 256 ∷ (65535 - checksum) / 256 ∷ []

unfoldable pub ip_header : Endpoints → ℕ → List ℕ
unfolding compute_checksum
ip_header e ttlen =
    let zeroed = ip_front ttlen ++ 0 ∷ 0 ∷ ip_back e in
    ip_front ttlen ++ (check_bytes (compute_checksum 0 zeroed) ++ ip_back e)

-- struct ippseudo: the addresses, a zero, the protocol, and the length.
unfoldable pub pseudo_header : Endpoints → ℕ → List ℕ
pseudo_header e len = ip_back e ++ 0 ∷ 17 ∷ u16 len / 256 ∷ u16 len % 256 ∷ []

-- The fields of the UDP header before `check`.
unfoldable pub udp_front : Endpoints → ℕ → List ℕ
udp_front e len =
    e.dest_port.high
    ∷ e.dest_port.low
    ∷ e.src_port.high
    ∷ e.src_port.low
    ∷ u16 len / 256
    ∷ u16 len % 256
    ∷ []

unfoldable pub udp_checksum : Endpoints → List ℕ → ℕ
unfolding pseudo_header udp_front compute_checksum
udp_checksum e bytes =
    let len = udp_header_size + length bytes in
    let of_pseudo = compute_checksum 0 (pseudo_header e len) in
    let of_header = compute_checksum of_pseudo (udp_front e len ++ 0 ∷ 0 ∷ []) in
    compute_checksum of_header bytes

unfoldable pub udp_header : Endpoints → List ℕ → List ℕ
unfolding udp_front udp_checksum
udp_header e bytes =
    udp_front e (udp_header_size + length bytes) ++ check_bytes (udp_checksum e bytes)

-- At most MAX_IP_SIZE bytes come in, so the segment is never refused for its size.
unfoldable pub build_packet : ℕ → Endpoints → List ℕ → Option (List ℕ)
unfolding ip_header udp_header
build_packet ipver e bytes =
    let ttlen = ip_header_size + (udp_header_size + length bytes) in
    if ipver == 4 then some (ip_header e ttlen ++ (udp_header e bytes ++ bytes)) else none
