-- ===== src/Cipher/Parcel/Bounds.antt =====
-- What `unpack` writes and consumes, for any input.
use vpn_service_android.Common.{
  ℕ, zero, suc, ◌+◌, ◌-◌, ◌*◌, ◌≤◌, ◌≡◌, ◌⊎◌, inl, inr, refl, List, [], ◌∷◌, ◌++◌, arith, length,
  take, drop, length-append, length-take, length-drop, u16,
}
use vpn_service_android.Cipher.Parcel.{Unpacked, refused, section_body, unpack_loop, unpack}

-- Nothing is written or consumed, or the bytes written and the bytes left are at least two fewer
-- than those that there were, and they fit the output.
abbrev pub Consumes : List ℕ → ℕ → ℕ → Unpacked → Type 0
Consumes whole written room u =
    (u ≡ refused whole) ⊎ ((length u.out + length u.rest + 2 ≤ written) × (length u.out ≤ room))

-- The three ways a section is handled.
body_cases :
    (whole s out : List ℕ) (l room : ℕ) (k : List ℕ → List ℕ → ℕ → Unpacked)
    → (section_body whole l s out room k ≡ refused whole)
      ⊎ (((l ≤ length s)
            × (l ≤ room)
            × (section_body whole l s out room k ≡ k (drop l s) (out ++ take l s) (room - l)))
          ⊎ ((l ≤ length s)
              × (l ≤ room)
              × (section_body whole l s out room k
                  ≡ record { out = out ++ take l s; rest = drop l s })))
unfolding section_body
body_cases whole s out l room k = ground arith

written_length :
    (s out : List ℕ) (l : ℕ)
    → l ≤ length s
    → (length (out ++ take l s) ≡ length out + l) × (length (drop l s) + l ≡ length s)
written_length s out l h =
    (omega (arith, length-append out (take l s), length-take l s), omega (arith, length-drop l s))

loop-Consumes :
    (fuel : ℕ) (whole s out : List ℕ) (room written size : ℕ)
    → length out + length s ≤ written
    → length out + room ≤ size
    → Consumes whole written size (unpack_loop fuel whole s out room)
unfolding unpack_loop
loop-Consumes zero whole s out room written size h r = inl refl
loop-Consumes (suc fuel) whole [] out room written size h r = inl refl
loop-Consumes (suc fuel) whole (x ∷ []) out room written size h r = inl refl
loop-Consumes (suc fuel) whole (hi ∷ lo ∷ s) out room written size h r =
    elim (body_cases whole s out (u16 (hi * 256 + lo)) room (unpack_loop fuel whole)) [
      | inl e ↦ inl e
      | inr (inl (p, q, e)) ↦
          let sizes = written_length s out (u16 (hi * 256 + lo)) p in
          rw e (loop-Consumes fuel whole _ _ _ written size (omega arith) (omega arith))
      | inr (inr (p, q, e)) ↦
          let sizes = written_length s out (u16 (hi * 256 + lo)) p in
          rw e (inr (omega arith, omega arith))
    ]

-- `unpack` writes within its output and moves `*data` behind two bytes or more and what it wrote;
-- where it returns 0 without having found the end of a parcel, it leaves `*data`.
pub unpack-Consumes :
    (whole : List ℕ) (size : ℕ) → Consumes whole (length whole) size (unpack whole size)
unfolding unpack
unpack-Consumes whole size =
    loop-Consumes (length whole) whole whole [] size (length whole) size (omega arith) (omega arith)
