-- ===== src/Udp/Events/Back.antt =====
-- What UDPSession makes of the bytes that the tunnel hands back.
use vpn_service_android.Common.{
  ℕ, zero, suc, ◌+◌, ◌≤◌, ◌<◌, ◌≡◌, refl, sym, ap, ◌∙◌, List, [], ◌∷◌, ◌++◌, append_assoc,
  append-nil, some, length, take, drop, take-append-drop, length-take, length-drop, min, u32, All,
  arith,
}
use vpn_service_android.Udp.Packet.{
  Endpoints, ip_header_size, udp_header_size, ip_header, udp_header, build_packet,
}
use vpn_service_android.Udp.Session.{UdpSession, emit, Effect, conn_recv, conn_back, write_package}
use vpn_service_android.Udp.Events.{max_ip_size, send_package, relay_pieces, on_tunnel_data_back}

abbrev pub concat : List (List ℕ) → List ℕ
concat [] = []
concat (p ∷ ps) = p ++ concat ps

-- The packet for one piece.
abbrev pub packet : Endpoints → List ℕ → List ℕ
packet e p = ip_header e (ip_header_size + (udp_header_size + length p)) ++ (udp_header e p ++ p)

-- What is done for the pieces, in order.
abbrev pub relayed : ℕ → Endpoints → List (List ℕ) → List Effect
relayed total e [] = []
relayed total e (p ∷ ps) = conn_recv total ∷ write_package (packet e p) ∷ relayed total e ps

-- Pieces that fit a packet, and are not empty.
abbrev pub AreFitting : List (List ℕ) → Type 0
AreFitting = All (λ p. (1 ≤ length p) × (length p ≤ max_ip_size))

record Cut (total : ℕ) (bytes : List ℕ) (s t : UdpSession) : Type 0 where
  pieces : List (List ℕ)
  whole : concat pieces ≡ bytes
  fitting : AreFitting pieces
  result : t ≡ record s { log = s.log ++ relayed total s.ends pieces }

built : (ver : ℕ) (e : Endpoints) (p : List ℕ) → ver ≡ 4 → build_packet ver e p ≡ some (packet e p)
unfolding build_packet
built ver e p v = ap (λ k. build_packet k e p) v

relay_pieces-Cut :
    (fuel total : ℕ) (bytes : List ℕ) (s : UdpSession)
    → length bytes ≤ fuel
    → s.ip_ver ≡ 4
    → Cut total bytes s (relay_pieces fuel total bytes s)
unfolding relay_pieces send_package emit build_packet
relay_pieces-Cut zero total [] s h v = record {
  pieces = [];
  whole = refl;
  fitting = tt;
  result = ap (λ l. record s { log = l }) (sym (append-nil s.log));
}
relay_pieces-Cut zero total (b ∷ bytes) s h v = absurd (omega arith)
relay_pieces-Cut (suc fuel) total [] s h v = record {
  pieces = [];
  whole = refl;
  fitting = tt;
  result = ap (λ l. record s { log = l }) (sym (append-nil s.log));
}
relay_pieces-Cut (suc fuel) total (b ∷ bytes) s h v =
    let all = b ∷ bytes in
    let n = min max_ip_size (length all) in
    let next : UdpSession = record s {
      log = (s.log ++ conn_recv total ∷ []) ++ write_package (packet s.ends (take n all)) ∷ [];
    } in
    let rest = relay_pieces-Cut fuel total (drop n all) next (omega (arith, length-drop n all)) v in
    record {
      pieces = take n all ∷ rest.pieces;
      whole = ap (λ xs. take n all ++ xs) rest.whole ∙ take-append-drop n all;
      fitting =
          ((omega (arith, length-take n all), omega (arith, length-take n all)), rest.fitting);
      result =
          ap (λ o. relay_pieces fuel total (drop n all) (send_package o (emit (conn_recv total) s)))
            (built s.ip_ver s.ends (take n all) v)
          ∙ rest.result
          ∙ ap (λ l. record s { log = l })
              (append_assoc (s.log ++ conn_recv total ∷ [])
                  (write_package (packet s.ends (take n all)) ∷ [])
                  (relayed total s.ends rest.pieces)
                ∙ append_assoc s.log (conn_recv total ∷ []) (
                    write_package (packet s.ends (take n all)) ∷ relayed total s.ends rest.pieces));
    }

-- Bytes from the tunnel, at least one, to an IPv4 session: they are cut into pieces of at most
-- MAX_IP_SIZE bytes, none empty, which put together are these bytes; each piece goes to the router as
-- one packet, in order, with its event before it; both totals grow by the number of bytes, and the two
-- events with that number come last.
pub on_tunnel_data_back_relays :
    (bytes : List ℕ) (now : ℕ) (s : UdpSession)
    → 0 < length bytes
    → s.ip_ver ≡ 4
    → (pieces : List (List ℕ)) × (concat pieces ≡ bytes)
      × AreFitting pieces
      × (on_tunnel_data_back bytes now s ≡ record s {
        total_recv = u32 (s.total_recv + length bytes);
        total_back = u32 (s.total_back + length bytes);
        last_time = now;
        log =
            ((s.log ++ relayed (length bytes) s.ends pieces) ++ conn_recv (length bytes) ∷ [])
            ++ conn_back (length bytes) ∷ [];
      })
unfolding on_tunnel_data_back emit
on_tunnel_data_back_relays [] now s h v = absurd (omega arith)
on_tunnel_data_back_relays (b ∷ bytes) now s h v =
    let all = b ∷ bytes in
    let cut = relay_pieces-Cut (length all) (length all) all s (omega arith) v in
    (
      cut.pieces,
      cut.whole,
      cut.fitting,
      ap
          (λ (t : UdpSession). record t {
            total_recv = u32 (s.total_recv + length all);
            total_back = u32 (s.total_back + length all);
            last_time = now;
            log = (t.log ++ conn_recv (length all) ∷ []) ++ conn_back (length all) ∷ [];
          })
          cut.result,
    )
