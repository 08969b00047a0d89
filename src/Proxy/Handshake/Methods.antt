-- ===== src/Proxy/Handshake/Methods.antt =====
-- The methods offered in the greeting, and those accepted in the answer.
use vpn_service_android.Common.{
  ℕ, zero, suc, ◌≤◌, ◌≡◌, ◌≢◌, ◌==◌, ◌>>>◌, refl, List, [], ◌∷◌, Bool, true, false, arith,
  if◌then◌else◌,
}
use vpn_service_android.Proxy.Handshake.{contain_verify, verify_methods}

-- Whether a list of methods holds one.
abbrev pub offers : List ℕ → ℕ → Bool
offers [] m = false
offers (x ∷ xs) m = if x == m then true else offers xs m

contain_verify-offered :
    (left room vfms m : ℕ)
    → left ≤ room
    → m ≢ 0xff
    → contain_verify left vfms m ≡ offers (verify_methods left room vfms) m
unfolding contain_verify verify_methods
contain_verify-offered zero room vfms m le ne = refl
contain_verify-offered (suc left) zero vfms m le ne = ground arith
contain_verify-offered (suc left) (suc room) vfms m le ne = ground (
  arith,
  contain_verify-offered left (suc room) (vfms >>> 8) m (omega arith) ne,
  contain_verify-offered left room (vfms >>> 8) m (omega arith) ne,
)

-- The answer of the proxy may choose a method other than 0xFF exactly when the greeting offered it.
pub contain_verify_lem :
    (vfms m : ℕ) → m ≢ 0xff → contain_verify 4 vfms m ≡ offers (verify_methods 4 4 vfms) m
contain_verify_lem vfms m ne = contain_verify-offered 4 4 vfms m (omega arith) ne
