-- ===== src/Packet/Header.antt =====
-- core/IPAdpt.cpp, the getters of header fields, on the bytes of a packet. A little-endian machine is
-- modelled: a field of two or four bytes is read as it lies in memory, and SWAP_INT16 is written out.
-- A packet lies in a buffer of the size of the largest one; what is read behind the list is 0 there.
use vpn_service_android.Common.{
  ℕ, zero, suc, ◌+◌, ◌-◌, ◌*◌, ◌/◌, ◌%◌, ◌^◌, List, [], ◌∷◌, Option, none, some, leb, ◌==◌,
  if◌then◌else◌, u8,
}

abbrev pub byte_at : ℕ → List ℕ → ℕ
byte_at n [] = 0
byte_at zero (b ∷ bytes) = b
byte_at (suc n) (b ∷ bytes) = byte_at n bytes

abbrev pub word_at : ℕ → List ℕ → ℕ
word_at n h = byte_at n h + 256 * byte_at (suc n) h

abbrev pub long_at : ℕ → List ℕ → ℕ
long_at n h = word_at n h + 2 ^ 16 * word_at (suc (suc n)) h

-- PROTO
abbrev pub proto_tcp : ℕ
proto_tcp = 6

abbrev pub proto_udp : ℕ
proto_udp = 17

unfoldable pub get_ip_ver : List ℕ → ℕ
get_ip_ver h = byte_at 0 h / 16

unfoldable pub get_ttlen : List ℕ → ℕ
get_ttlen h = byte_at 2 h * 256 + byte_at 3 h

unfoldable pub get_protocol : List ℕ → ℕ
get_protocol h = byte_at 9 h

unfoldable pub get_checksum : List ℕ → ℕ
get_checksum h = word_at 10 h

unfoldable pub get_src : List ℕ → ℕ
get_src h = long_at 12 h

unfoldable pub get_dest : List ℕ → ℕ
get_dest h = long_at 16 h

-- (VER_IHL & 0x0F) << 2
unfoldable pub get_header_len : List ℕ → ℕ
get_header_len h = byte_at 0 h % 16 * 4

-- `dataoff` is the high half of the byte 12 of the TCP header.
unfoldable pub get_tcp_header_len : ℕ → List ℕ → ℕ
get_tcp_header_len at h = u8 (byte_at (at + 12) h / 16 * 4)

unfoldable pub get_payload_offset : List ℕ → ℕ
unfolding get_header_len get_tcp_header_len get_protocol
get_payload_offset h =
    if get_protocol h == proto_udp
    then get_header_len h + 8
    else (if get_protocol h == proto_tcp
        then get_header_len h + get_tcp_header_len (get_header_len h) h
        else 0)

-- A negative length is `none`.
unfoldable pub get_payload_len : List ℕ → Option ℕ
unfolding get_ttlen get_payload_offset
get_payload_len h =
    if leb (get_payload_offset h) (get_ttlen h)
    then some (get_ttlen h - get_payload_offset h)
    else none

-- The ports are the first words of a UDP and of a TCP header.
unfoldable pub port_at : ℕ → List ℕ → ℕ
unfolding get_protocol get_header_len
port_at at h =
    if get_protocol h == proto_udp
    then word_at (get_header_len h + at) h
    else (if get_protocol h == proto_tcp then word_at (get_header_len h + at) h else 0)

unfoldable pub get_src_port : List ℕ → ℕ
unfolding port_at
get_src_port h = port_at 0 h

unfoldable pub get_dest_port : List ℕ → ℕ
unfolding port_at
get_dest_port h = port_at 2 h
