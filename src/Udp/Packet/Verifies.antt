-- ===== src/Udp/Packet/Verifies.antt =====
-- The checksums that UDPSession::buildPacket writes are those a receiver expects.
use vpn_service_android.Common.{
  ℕ, ◌+◌, ◌/◌, ◌%◌, ◌<◌, ◌≤◌, some, ◌≡◌, refl, ◌∙◌, ap, List, [], ◌∷◌, ◌++◌, length, u16, IsBytes,
  arith,
}
use vpn_service_android.Packet.Checksum.{compute_checksum}
use vpn_service_android.Packet.Checksum.Fold.{
  append-IsBytes, compute_checksum-append, compute_checksum_verifies,
}
use vpn_service_android.Udp.Packet.{
  address_bytes, Endpoints, ip_header_size, udp_header_size, ip_front, ip_back, check_bytes,
  ip_header, pseudo_header, udp_front, udp_checksum, udp_header, build_packet,
}

-- Every byte of the addresses and the ports is one.
pub record IsEndpoints (e : Endpoints) : Type 0 where
  pub dest_addr : IsBytes (address_bytes e.dest_addr)
  pub src_addr : IsBytes (address_bytes e.src_addr)
  pub dest_port : (e.dest_port.high < 256) × (e.dest_port.low < 256)
  pub src_port : (e.src_port.high < 256) × (e.src_port.low < 256)

ip_back-IsBytes : (e : Endpoints) → IsEndpoints e → IsBytes (ip_back e)
ip_back-IsBytes e v =
    let d = v.dest_addr in let s = v.src_addr in (d.0, (d.1.0, (d.1.1.0, (d.1.1.1.0, s))))

word_bytes-IsBytes : (n : ℕ) → (u16 n / 256 < 256) × (u16 n % 256 < 256)
word_bytes-IsBytes n = (omega arith, omega arith)

ip_front-IsBytes : (n : ℕ) → IsBytes (ip_front n)
ip_front-IsBytes n =
    let (h, l) = word_bytes-IsBytes n in
    let z : 0 < 256 = omega arith in
    (omega arith, (z, (h, (l, (z, (z, (z, (z, (omega arith, (omega arith, tt))))))))))

pseudo_header-IsBytes : (e : Endpoints) (n : ℕ) → IsEndpoints e → IsBytes (pseudo_header e n)
unfolding pseudo_header
pseudo_header-IsBytes e n v =
    let (h, l) = word_bytes-IsBytes n in
    append-IsBytes (ip_back e) (0 ∷ 17 ∷ u16 n / 256 ∷ u16 n % 256 ∷ []) (ip_back-IsBytes e v)
      (omega arith, (omega arith, (h, (l, tt))))

udp_front-IsBytes : (e : Endpoints) (n : ℕ) → IsEndpoints e → IsBytes (udp_front e n)
unfolding udp_front
udp_front-IsBytes e n v =
    let (h, l) = word_bytes-IsBytes n in
    (v.dest_port.0, (v.dest_port.1, (v.src_port.0, (v.src_port.1, (h, (l, tt))))))

ip_header_verifies :
    (e : Endpoints) (ttlen : ℕ) → IsEndpoints e → compute_checksum 0 (ip_header e ttlen) ≡ 65535
unfolding ip_header
ip_header_verifies e ttlen v =
    compute_checksum_verifies (ip_front ttlen) (ip_back e) tt (ip_front-IsBytes ttlen)
      (ip_back-IsBytes e v) (omega arith)

-- The pseudo header and the fields of the UDP header before its checksum.
udp_lead : Endpoints → ℕ → List ℕ
udp_lead e n = pseudo_header e n ++ udp_front e n

udp_checksum_whole :
    (e : Endpoints) (bytes : List ℕ)
    → IsEndpoints e
    → IsBytes bytes
    → length bytes < 65000
    → udp_checksum e bytes
      ≡ compute_checksum 0 (udp_lead e (udp_header_size + length bytes) ++ 0 ∷ 0 ∷ bytes)
unfolding udp_checksum udp_lead pseudo_header udp_front
udp_checksum_whole e bytes v b h =
    let len = udp_header_size + length bytes in
    let p = pseudo_header e len in
    let f = udp_front e len ++ 0 ∷ 0 ∷ [] in
    let bp = pseudo_header-IsBytes e len v in
    let bf =
      append-IsBytes (udp_front e len) (0 ∷ 0 ∷ []) (udp_front-IsBytes e len v)
        (omega arith, (omega arith, tt)) in
    ap (λ c. compute_checksum c bytes) (compute_checksum-append p f tt bp bf (omega arith))
    ∙ compute_checksum-append (p ++ f) bytes tt (append-IsBytes p f bp bf) b (omega arith)

udp_verifies :
    (e : Endpoints) (bytes : List ℕ)
    → IsEndpoints e
    → IsBytes bytes
    → length bytes < 65000
    → compute_checksum 0
        (pseudo_header e (udp_header_size + length bytes) ++ (udp_header e bytes ++ bytes))
      ≡ 65535
unfolding udp_header udp_lead pseudo_header udp_front
udp_verifies e bytes v b h =
    let len = udp_header_size + length bytes in
    ap (λ c. compute_checksum 0 (udp_lead e len ++ (check_bytes c ++ bytes)))
      (udp_checksum_whole e bytes v b h)
    ∙ compute_checksum_verifies (udp_lead e len) bytes tt
        (append-IsBytes (pseudo_header e len) (udp_front e len) (pseudo_header-IsBytes e len v)
          (udp_front-IsBytes e len v))
        b (omega arith)

-- For proper addresses and ports and at most MAX_IP_SIZE bytes of data, buildPacket of an IPv4 session
-- gives the IP header, the UDP header and the data; the sum of the IP header is all ones, and so is the
-- sum of the pseudo header, the UDP header and the data, which is what a receiver tests.
pub build_packet_verifies :
    (e : Endpoints) (bytes : List ℕ)
    → IsEndpoints e
    → IsBytes bytes
    → length bytes ≤ 61440
    → (front : List ℕ) × (back : List ℕ) × (build_packet 4 e bytes
        ≡ some (front ++ (back ++ bytes)))
      × (length front ≡ ip_header_size)
      × (length back ≡ udp_header_size)
      × (compute_checksum 0 front ≡ 65535)
      × (compute_checksum 0 (pseudo_header e (udp_header_size + length bytes) ++ (back ++ bytes))
          ≡ 65535)
unfolding build_packet ip_header udp_header udp_front
build_packet_verifies e bytes v b h =
    let ttlen = ip_header_size + (udp_header_size + length bytes) in
    (
      ip_header e ttlen,
      udp_header e bytes,
      refl,
      refl,
      refl,
      ip_header_verifies e ttlen v,
      udp_verifies e bytes v b (omega arith),
    )
