-- ===== src/Tests/Packets.antt =====
-- core/IPAdpt and utils on short byte lists.
use vpn_service_android.Common.{◌-◌, ◌%◌, ◌/◌, ◌≡◌, [], ◌∷◌, arith, leb}
use vpn_service_android.Packet.Options.{walk, running}
use vpn_service_android.Packet.Options.Walk.{walk_hangs}
use vpn_service_android.Packet.Sequence.{not_greater}
use vpn_service_android.Packet.Sequence.Order.{not_greater_lem}
use vpn_service_android.Packet.Checksum.{compute_checksum}
use vpn_service_android.Packet.Checksum.Fold.{compute_checksum-append, compute_checksum_verifies}

compute_checksum-append_example :
    compute_checksum (compute_checksum 0 (69 ∷ 0 ∷ [])) (200 ∷ 17 ∷ 5 ∷ [])
    ≡ compute_checksum 0 (69 ∷ 0 ∷ 200 ∷ 17 ∷ 5 ∷ [])
compute_checksum-append_example =
    compute_checksum-append (69 ∷ 0 ∷ []) (200 ∷ 17 ∷ 5 ∷ []) tt (omega arith, (omega arith, tt))
      (omega arith, (omega arith, (omega arith, tt))) (omega arith)

compute_checksum_verifies_example :
    let field = 65535 - compute_checksum 0 (69 ∷ 0 ∷ 0 ∷ 0 ∷ 200 ∷ 17 ∷ []) in
    compute_checksum 0 (69 ∷ 0 ∷ field % 256 ∷ field / 256 ∷ 200 ∷ 17 ∷ []) ≡ 65535
compute_checksum_verifies_example =
    compute_checksum_verifies (69 ∷ 0 ∷ []) (200 ∷ 17 ∷ []) tt (omega arith, (omega arith, tt))
      (omega arith, (omega arith, tt)) (omega arith)

not_greater_lem_example : not_greater 5 9 ≡ leb 5 9
not_greater_lem_example = not_greater_lem 5 9 (omega arith) (omega arith)

walk_hangs_example : walk 100 5 20 (8 ∷ 0 ∷ 1 ∷ []) ≡ running
walk_hangs_example = walk_hangs 100 5 19 8 (1 ∷ []) (λ e. omega (arith, e)) (omega arith)
