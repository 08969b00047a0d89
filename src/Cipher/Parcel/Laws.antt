-- ===== src/Cipher/Parcel/Laws.antt =====
-- `unpack` reads back what `pack` writes, and leaves what follows the parcel.
use vpn_service_android.Common.{
  ℕ, zero, suc, ◌+◌, ◌-◌, ◌*◌, ◌/◌, ◌%◌, ◌≤◌, ◌<◌, ◌≡◌, ◌^◌, ◌⊎◌, inl, inr, refl, ap, subst, ◌∙◌,
  List, [], ◌∷◌, ◌++◌, arith, length, take, drop, length-append, length-take, length-drop,
  take-append-drop, take-append, drop-append, drop_all, append_assoc, append-nil, u16,
}
use vpn_service_android.Cipher.Parcel.{
  estimate_pack_len, section_len, sections, pack, Unpacked, section_body, unpack_loop, unpack,
}

pub section_len-le : (r : ℕ) → section_len r ≤ 1024
unfolding section_len
section_len-le r = ground arith

pub section_len-cases :
    (r : ℕ) → ((section_len r ≡ 1024) × (1024 ≤ r)) ⊎ ((section_len r ≡ r) × (r < 1024))
unfolding section_len
section_len-cases r = ground arith

pub header_value : (l : ℕ) → l ≤ 1024 → u16 (l / 256 % 256 * 256 + l % 256) ≡ l
header_value l h = omega arith

body_continues :
    (whole a b out : List ℕ) (room l : ℕ) (k : List ℕ → List ℕ → ℕ → Unpacked)
    → l ≡ length a
    → l ≡ 1024
    → l ≤ room
    → section_body whole l (a ++ b) out room k ≡ k b (out ++ a) (room - l)
unfolding section_body
body_continues whole a b out room l k e f h =
    ground (arith, length-append a b, take-append a b l e, drop-append a b l e)

body_ends :
    (whole a b out : List ℕ) (room l : ℕ) (k : List ℕ → List ℕ → ℕ → Unpacked)
    → l ≡ length a
    → l < 1024
    → l ≤ room
    → section_body whole l (a ++ b) out room k ≡ record { out = out ++ a; rest = b }
unfolding section_body
body_ends whole a b out room l k e f h =
    ground (arith, length-append a b, take-append a b l e, drop-append a b l e)

-- The closing empty section follows a full one.
abbrev pub Closes : ℕ → List ℕ → Type 0
Closes last [] = last ≡ 1024
Closes last (x ∷ xs) = Unit

-- The loop on a section and what follows it.
pub loop_continues :
    (g : ℕ) (whole a b out : List ℕ) (room l : ℕ)
    → l ≡ length a
    → l ≡ 1024
    → l ≤ room
    → unpack_loop (suc g) whole ((l / 256) % 256 ∷ l % 256 ∷ (a ++ b)) out room
      ≡ unpack_loop g whole b (out ++ a) (room - l)
unfolding unpack_loop
loop_continues g whole a b out room l e f h =
    rw (header_value l (omega arith)) (body_continues whole a b out room l _ e f h)

loop_ends :
    (g : ℕ) (whole a b out : List ℕ) (room l : ℕ)
    → l ≡ length a
    → l < 1024
    → l ≤ room
    → unpack_loop (suc g) whole ((l / 256) % 256 ∷ l % 256 ∷ (a ++ b)) out room
      ≡ record { out = out ++ a; rest = b }
unfolding unpack_loop
loop_ends g whole a b out room l e f h =
    rw (header_value l (omega arith)) (body_ends whole a b out room l _ e f h)

pub sections-suc :
    (fuel last x : ℕ) (xs : List ℕ)
    → sections (suc fuel) last (x ∷ xs)
      ≡ (section_len (length (x ∷ xs)) / 256) % 256
        ∷ section_len (length (x ∷ xs)) % 256
        ∷ (take (section_len (length (x ∷ xs))) (x ∷ xs)
            ++ sections fuel
                (section_len (length (x ∷ xs)))
                (drop (section_len (length (x ∷ xs))) (x ∷ xs)))
unfolding sections
sections-suc fuel last x xs = refl

pub length-take_section :
    (x : ℕ) (xs : List ℕ)
    → section_len (length (x ∷ xs)) ≡ length (take (section_len (length (x ∷ xs))) (x ∷ xs))
length-take_section x xs = omega (
  arith,
  length-take (section_len (length (x ∷ xs))) (x ∷ xs),
  section_len-cases (length (x ∷ xs)),
)

pub sections_closed : (n last : ℕ) → last ≡ 1024 → sections n last [] ≡ 0 ∷ 0 ∷ []
unfolding sections
sections_closed n last e = ground arith

sections_open : (n last : ℕ) → last < 1024 → sections n last [] ≡ []
unfolding sections
sections_open n last e = ground arith

-- After a full section the row goes on or is closed.
pub Closes-full : (l : ℕ) (xs : List ℕ) → l ≡ 1024 → Closes l xs
Closes-full l [] e = e
Closes-full l (x ∷ xs) e = tt

empty_section :
    (g : ℕ) (rest whole out : List ℕ) (room : ℕ)
    → unpack_loop (suc g) whole (0 ∷ 0 ∷ rest) out room ≡ record { out = out ++ []; rest = rest }
empty_section g rest whole out room =
    loop_ends g whole [] rest out room 0 refl (omega arith) (omega arith)

-- One section `a` of `l` bytes, where `more` is the row of sections of what follows in the data.
one_section :
    (g l : ℕ) (a b more rest whole out : List ℕ) (room : ℕ)
    → l ≡ length a
    → l ≤ room
    → ((l ≡ 1024)
        × (unpack_loop g whole (more ++ rest) (out ++ a) (room - l)
            ≡ record { out = (out ++ a) ++ b; rest = rest }))
      ⊎ ((l < 1024) × (more ≡ []) × (b ≡ []))
    → unpack_loop (suc g) whole (((l / 256) % 256 ∷ l % 256 ∷ (a ++ more)) ++ rest) out room
      ≡ record { out = out ++ (a ++ b); rest = rest }
one_section g l a b more rest whole out room e h (inl (full, next)) =
    rw (append_assoc a more rest) (
      loop_continues g whole a (more ++ rest) out room l e full h
      ∙ next
      ∙ rw (append_assoc out a b))
one_section g l a b more rest whole out room e h (inr (short, m, n)) =
    rw (m, n, append-nil a) (loop_ends g whole a rest out room l e short h)

fuel_left :
    (n last x : ℕ) (xs rest : List ℕ) (g : ℕ)
    → length (sections (suc n) last (x ∷ xs) ++ rest) ≤ suc g
    → length (
        sections n (section_len (length (x ∷ xs))) (drop (section_len (length (x ∷ xs))) (x ∷ xs))
        ++ rest)
      ≤ g
fuel_left n last x xs rest g h =
    let e = rw (sections-suc n last x xs) at h in
    let l : ℕ = section_len (length (x ∷ xs)) in
    let more : List ℕ = sections n l (drop l (x ∷ xs)) in
    omega (
      arith,
      length-append (take l (x ∷ xs) ++ more) rest,
      length-append (take l (x ∷ xs)) more,
      length-append more rest,
    )

pub short_end :
    (n x : ℕ) (xs : List ℕ)
    → section_len (length (x ∷ xs)) ≡ length (x ∷ xs)
    → length (x ∷ xs) < 1024
    → sections n (section_len (length (x ∷ xs))) (drop (section_len (length (x ∷ xs))) (x ∷ xs))
      ≡ []
short_end n x xs e h =
    rw (drop_all (x ∷ xs) (section_len (length (x ∷ xs))) (omega arith))
      (sections_open n _ (omega arith))

-- The rows of sections of any data, from any place in the loop, are read back and the rest is left.
pub loop-sections :
    (n last : ℕ) (xs rest whole out : List ℕ) (room g : ℕ)
    → Closes last xs
    → length xs ≤ n
    → length xs ≤ room
    → length (sections n last xs ++ rest) ≤ g
    → unpack_loop g whole (sections n last xs ++ rest) out room
      ≡ record { out = out ++ xs; rest = rest }
loop-sections n last [] rest whole out room zero c hn hr hg =
    absurd (let e = rw (sections_closed n last c) at hg in omega arith)
loop-sections n last [] rest whole out room (suc g) c hn hr hg =
    rw (sections_closed n last c) (empty_section g rest whole out room)
loop-sections zero last (x ∷ xs) rest whole out room g c hn hr hg = absurd (omega arith)
loop-sections (suc n) last (x ∷ xs) rest whole out room zero c hn hr hg =
    absurd (let e = rw (sections-suc n last x xs) at hg in omega arith)
loop-sections (suc n) last (x ∷ xs) rest whole out room (suc g) c hn hr hg =
    subst
      (λ v.
        unpack_loop (suc g) whole (sections (suc n) last (x ∷ xs) ++ rest) out room
        ≡ record { out = out ++ v; rest = rest })
      (take-append-drop l (x ∷ xs))
      (rw (sections-suc n last x xs) (
        one_section g l (take l (x ∷ xs)) (drop l (x ∷ xs)) (sections n l (drop l (x ∷ xs))) rest
          whole out room (length-take_section x xs)
          (omega (arith, section_len-cases (length (x ∷ xs))))
          (elim (section_len-cases (length (x ∷ xs))) [
            | inl (full, ge) ↦ inl (
              full,
              loop-sections n l (drop l (x ∷ xs)) rest whole (out ++ take l (x ∷ xs)) (room - l) g
                  (Closes-full l _ full) (omega (arith, length-drop l (x ∷ xs)))
                  (omega (arith, length-drop l (x ∷ xs))) (fuel_left n last x xs rest g hg),
            )
            | inr (short, lt) ↦
                inr (omega arith, short_end n x xs short lt, drop_all (x ∷ xs) l (omega arith))
          ])))
  where
    l : ℕ
    l = section_len (length (x ∷ xs))

-- The room a row of sections takes: two bytes for each section, a closing one included.
pub length-sections :
    (n last : ℕ) (xs : List ℕ)
    → Closes last xs
    → length xs ≤ n
    → length (sections n last xs) ≡ length xs + 2 * (length xs / 1024 + 1)
length-sections n last [] c h = rw (sections_closed n last c)
length-sections zero last (x ∷ xs) c h = absurd (omega arith)
length-sections (suc n) last (x ∷ xs) c h =
    let l : ℕ = section_len (length (x ∷ xs)) in
    let b : List ℕ = drop l (x ∷ xs) in
    rw (sections-suc n last x xs) (elim (section_len-cases (length (x ∷ xs))) [
      | inl (full, ge) ↦ omega (
        arith,
        length-append (take l (x ∷ xs)) (sections n l b),
        length-take_section x xs,
        length-drop l (x ∷ xs),
        length-sections n l b (Closes-full l b full) (omega (arith, length-drop l (x ∷ xs))),
      )
      | inr (short, lt) ↦ omega (
        arith,
        length-append (take l (x ∷ xs)) (sections n l b),
        length-take_section x xs,
        ap length (short_end n x xs short lt),
      )
    ])

-- The bound below which no size wraps.
abbrev pub IsSmall : List ℕ → Type 0
IsSmall xs = length xs < 2 ^ 30

-- Within the estimate `pack` writes exactly the row of sections.
pub pack_fits :
    (xs : List ℕ) (size : ℕ)
    → 0 < length xs
    → IsSmall xs
    → estimate_pack_len (length xs) ≤ size
    → pack xs size ≡ sections (length xs) 0 xs
unfolding pack estimate_pack_len
pack_fits [] size p s h = absurd (omega arith)
pack_fits (x ∷ xs) size p s h = ground arith

-- The estimate is two bytes above what `pack` writes, so `pack` stays within the output: a data of
-- n > 0 bytes takes n + 2 * (n / 1024 + 1) bytes where the estimate allows it.
pub length-pack :
    (xs : List ℕ) (size : ℕ)
    → 0 < length xs
    → IsSmall xs
    → estimate_pack_len (length xs) ≤ size
    → (length (pack xs size) ≡ length xs + 2 * (length xs / 1024 + 1))
      × (length (pack xs size) + 2 ≡ estimate_pack_len (length xs))
unfolding estimate_pack_len
length-pack [] size p s h = absurd (omega arith)
length-pack (x ∷ xs) size p s h =
    let e = pack_fits (x ∷ xs) size p s h in
    omega (arith, ap length e, length-sections (length (x ∷ xs)) 0 (x ∷ xs) tt (omega arith))

-- A parcel of n > 0 bytes that `pack` had the room to write is read back by `unpack` into any output
-- of n bytes or more, and the bytes behind the parcel are left.
pub unpack-pack :
    (xs rest : List ℕ) (size room : ℕ)
    → 0 < length xs
    → IsSmall xs
    → estimate_pack_len (length xs) ≤ size
    → length xs ≤ room
    → unpack (pack xs size ++ rest) room ≡ record { out = xs; rest = rest }
unfolding unpack
unpack-pack [] rest size room p s h r = absurd (omega arith)
unpack-pack (x ∷ xs) rest size room p s h r =
    rw (pack_fits (x ∷ xs) size p s h)
      (loop-sections (length (x ∷ xs)) 0 (x ∷ xs) rest _ [] room _ tt (omega arith) r (omega arith))
