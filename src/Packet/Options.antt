-- ===== src/Packet/Options.antt =====
-- core/IPAdpt.cpp, `getOptionAddr`: the walk over the options of a TCP header.
pub mod Walk
use vpn_service_android.Common.{
  ℕ, zero, suc, ◌+◌, ◌-◌, ◌*◌, List, [], ◌∷◌, Bool, ltb, leb, ◌==◌, if◌then◌else◌, drop,
}

-- TCP_OPT
abbrev pub opt_end : ℕ
opt_end = 0

abbrev pub opt_nop : ℕ
opt_nop = 1

abbrev pub opt_mss : ℕ
opt_mss = 2

abbrev pub opt_ws : ℕ
opt_ws = 3

abbrev pub opt_sackf : ℕ
opt_sackf = 4

abbrev pub opt_sack : ℕ
opt_sack = 5

-- `found at` is the pointer to the option, as the bytes from there on. `running` is a loop that has
-- not ended within the fuel, and `outside` a read behind the packet.
pub data Found : Type 0 where
  found : List ℕ → Found
  absent running outside : Found

-- The loop, with `left` for `optlen` while it is positive, on the packet's bytes from `options` on.
unfoldable pub walk : ℕ → ℕ → ℕ → List ℕ → Found
walk zero option left at = running
walk (suc fuel) option zero at = absent
walk (suc fuel) option (suc left) [] = outside
walk (suc fuel) option (suc left) (kind ∷ []) =
    if option == kind then found (kind ∷ []) else if kind == opt_end then absent else outside
walk (suc fuel) option (suc left) (kind ∷ len ∷ rest) =
    let next =
      walk fuel option (if kind == opt_nop then left else suc left - len)
        (if kind == opt_nop then len ∷ rest else drop len (kind ∷ len ∷ rest)) in
    if option == kind then found (kind ∷ len ∷ rest) else if kind == opt_end then absent else next

-- `data_off` is the header's length in words, and `at` the packet behind its fixed part.
unfoldable pub get_option_addr : ℕ → ℕ → ℕ → List ℕ → Found
get_option_addr fuel data_off option at = walk fuel option ((data_off - 5) * 4) at
