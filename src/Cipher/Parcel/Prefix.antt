-- ===== src/Cipher/Parcel/Prefix.antt =====
-- A parcel that has not arrived whole is refused, and nothing of it is consumed.
use vpn_service_android.Common.{
  ℕ, zero, suc, ◌+◌, ◌-◌, ◌/◌, ◌%◌, ◌≤◌, ◌<◌, ◌≡◌, inl, inr, refl, ap, ◌∙◌, List, [], ◌∷◌, ◌++◌,
  arith, length, take, drop, length-append, length-take, length-drop, dec_lt, take-append_le,
}
use vpn_service_android.Cipher.Parcel.{
  estimate_pack_len, section_len, sections, pack, refused, section_body, unpack_loop, unpack,
}
use vpn_service_android.Cipher.Parcel.Laws.{
  Closes, Closes-full, sections-suc, sections_closed, section_len-cases, length-take_section,
  header_value, loop_continues, short_end, IsSmall, pack_fits,
}

-- Fewer than two bytes are left.
too_short :
    (g : ℕ) (whole s out : List ℕ) (room : ℕ)
    → length s < 2
    → unpack_loop g whole s out room ≡ refused whole
unfolding unpack_loop
too_short zero whole s out room h = refl
too_short (suc g) whole [] out room h = refl
too_short (suc g) whole (x ∷ []) out room h = refl
too_short (suc g) whole (x ∷ y ∷ s) out room h = absurd (omega arith)

-- The section is not there in full.
cut_section :
    (g : ℕ) (whole s out : List ℕ) (room l : ℕ)
    → l ≤ 1024
    → length s < l
    → unpack_loop g whole ((l / 256) % 256 ∷ l % 256 ∷ s) out room ≡ refused whole
unfolding unpack_loop section_body
cut_section zero whole s out room l e h = refl
cut_section (suc g) whole s out room l e h = rw (header_value l e) (ground arith)

pub loop-take-sections :
    (n last : ℕ) (xs whole out : List ℕ) (room g k : ℕ)
    → Closes last xs
    → length xs ≤ n
    → length xs ≤ room
    → k < length (sections n last xs)
    → unpack_loop g whole (take k (sections n last xs)) out room ≡ refused whole
loop-take-sections n last xs whole out room g zero c hn hr hk =
    too_short g whole [] out room (omega arith)
loop-take-sections n last xs whole out room g (suc zero) c hn hr hk =
    too_short g whole _ out room (omega (arith, length-take 1 (sections n last xs)))
loop-take-sections n last [] whole out room g (suc (suc k)) c hn hr hk =
    absurd (omega (arith, ap length (sections_closed n last c)))
loop-take-sections zero last (x ∷ xs) whole out room g (suc (suc k)) c hn hr hk =
    absurd (omega arith)
loop-take-sections (suc n) last (x ∷ xs) whole out room zero (suc (suc k)) c hn hr hk =
    unfold unpack_loop in refl
loop-take-sections (suc n) last (x ∷ xs) whole out room (suc g) (suc (suc k)) c hn hr hk =
    rw (sections-suc n last x xs) (elim (dec_lt k l) [
      | yes cut ↦
          cut_section (suc g) whole (take k (a ++ more)) out room l
            (omega (arith, section_len-cases (length (x ∷ xs))))
            (omega (arith, length-take k (a ++ more)))
      | no whole_section ↦
          rw (take-append_le a more k (omega (arith, length-take_section x xs)))
            (elim (section_len-cases (length (x ∷ xs))) [
              | inl (full, ge) ↦
                  loop_continues g whole a (take (k - length a) more) out room l
                    (length-take_section x xs) full (omega arith)
                  ∙ loop-take-sections n l b whole (out ++ a) (room - l) g (k - length a)
                      (Closes-full l b full) (omega (arith, length-drop l (x ∷ xs)))
                      (omega (arith, length-drop l (x ∷ xs)))
                      (omega (arith, size_of_row, length-take_section x xs))
              | inr (short, lt) ↦
                  absurd (omega (arith, size_of_row, ap length (short_end n x xs short lt)))
            ])
    ])
  where
    l : ℕ
    l = section_len (length (x ∷ xs))

    a : List ℕ
    a = take l (x ∷ xs)

    b : List ℕ
    b = drop l (x ∷ xs)

    more : List ℕ
    more = sections n l b

    size_of_row : length (sections (suc n) last (x ∷ xs)) ≡ l + 2 + length more
    size_of_row = omega (
      arith,
      ap length (sections-suc n last x xs),
      length-append a more,
      length-take_section x xs,
    )

-- As long as fewer bytes of a parcel are there than `pack` wrote, `unpack` gives nothing and
-- consumes nothing, so the receiver can wait for the rest.
pub unpack-take-pack :
    (xs : List ℕ) (size room k : ℕ)
    → 0 < length xs
    → IsSmall xs
    → estimate_pack_len (length xs) ≤ size
    → length xs ≤ room
    → k < length (pack xs size)
    → unpack (take k (pack xs size)) room ≡ refused (take k (pack xs size))
unfolding unpack
unpack-take-pack xs size room k p s h r =
    rw (pack_fits xs size p s h)
      λ hk. loop-take-sections (length xs) 0 xs _ [] room _ k (closes xs p) (omega arith) r hk
  where
    closes : (ys : List ℕ) → 0 < length ys → Closes 0 ys
    closes [] q = absurd (omega arith)
    closes (y ∷ ys) q = tt
