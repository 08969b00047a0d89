-- ===== src/Packet/Options/Walk.antt =====
-- When the walk over the options ends.
use vpn_service_android.Common.{
  ℕ, zero, suc, ◌≤◌, ◌≡◌, ◌≢◌, inl, inr, refl, List, [], ◌∷◌, arith, ◌==◌, Bool-cases,
}
use vpn_service_android.Packet.Options.{found, running, walk}

-- An option is found where its kind stands.
pub found-kind :
    (fuel option left : ℕ) (at : List ℕ) (k : ℕ) (rest : List ℕ)
    → walk fuel option left at ≡ found (k ∷ rest)
    → k ≡ option
unfolding walk
found-kind zero option left at k rest e = cc
found-kind (suc fuel) option zero at k rest e = cc
found-kind (suc fuel) option (suc left) [] k rest e = cc
found-kind (suc fuel) option (suc left) (kind ∷ []) k rest e = ground arith
found-kind (suc fuel) option (suc left) (kind ∷ len ∷ r) k rest e =
    elim (Bool-cases (option == kind)) [
      | inl here ↦ let e' = rw here at e in ground arith
      | inr other ↦ elim (Bool-cases (kind == 0)) [
        | inl last ↦ let e' = rw (other, last) at e in cc
        | inr more ↦ found-kind fuel option _ _ k rest (rw (other, more) at e)
      ]
    ]

-- An option of length 0 that is not the one looked for is never left: no amount of fuel is enough.
pub walk_hangs :
    (fuel option left kind : ℕ) (rest : List ℕ)
    → kind ≢ option
    → 2 ≤ kind
    → walk fuel option (suc left) (kind ∷ 0 ∷ rest) ≡ running
unfolding walk
walk_hangs zero option left kind rest ne h = refl
walk_hangs (suc fuel) option left kind rest ne h =
    ground (arith, walk_hangs fuel option left kind rest)
