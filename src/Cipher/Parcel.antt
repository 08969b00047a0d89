-- ===== src/Cipher/Parcel.antt =====
-- core/cipher/Cipher.cpp, `pack` and `unpack`: a parcel is a row of sections of at most 1024 bytes,
-- each behind its length in two bytes, and ends with the first section that is not full.
-- Sizes stay far below 2 ^ 32, so only the casts that are written cut bits off.
pub mod Laws
pub mod Prefix
pub mod Bounds
use vpn_service_android.Common.{
  ℕ, zero, suc, ◌+◌, ◌-◌, ◌*◌, ◌/◌, ◌%◌, List, [], ◌∷◌, ◌++◌, Bool, true, ltb, leb, ◌==◌,
  if◌then◌else◌, length, take, drop, u16, u32, ◌<<<◌, ◌>>>◌,
}
use vpn_service_android.Cipher.Coder.{max_section_size}

unfoldable pub estimate_pack_len : ℕ → ℕ
estimate_pack_len len = u32 (len + u32 (u32 (len + max_section_size) / max_section_size * 2) + 2)

-- `l = r < MAX_SECTION_SIZE ? r : MAX_SECTION_SIZE`
unfoldable pub section_len : ℕ → ℕ
section_len r = u16 (if ltb r max_section_size then r else max_section_size)

-- The loop `while (r > 0)` with the closing empty section; `last` is the length that the loop's
-- variable `l` holds. Each round takes a byte or more, so the length of the data is enough fuel.
unfoldable pub sections : ℕ → ℕ → List ℕ → List ℕ
sections fuel last [] = if last == max_section_size then 0 ∷ 0 ∷ [] else []
sections zero last (x ∷ xs) = []
sections (suc fuel) last (x ∷ xs) =
    let l = section_len (length (x ∷ xs)) in
    let rest = sections fuel l (drop l (x ∷ xs)) in
    (l >>> 8) % 256 ∷ l % 256 ∷ (take l (x ∷ xs) ++ rest)

-- What `pack` writes to `out`; nothing where it returns 0.
unfoldable pub pack : List ℕ → ℕ → List ℕ
pack [] size = []
pack (x ∷ xs) size =
    if ltb size (length (x ∷ xs))
    then []
    else if ltb size (estimate_pack_len (length (x ∷ xs)))
    then []
    else sections (length (x ∷ xs)) 0 (x ∷ xs)

-- `out` is what is written, and `rest` what `*data` points to at the end.
pub record Unpacked : Type 0 where
  pub out : List ℕ
  pub rest : List ℕ

-- A return of 0 that leaves `*data` where it was.
abbrev pub refused : List ℕ → Unpacked
refused whole = record { out = []; rest = whole }

-- The body of the loop behind the two length bytes, for a section of `l` bytes; `continue_with` is
-- the next round, on what is left of the data, what is written and the room after it.
unfoldable pub section_body :
    List ℕ → ℕ → List ℕ → List ℕ → ℕ → (List ℕ → List ℕ → ℕ → Unpacked) → Unpacked
section_body whole l s out room continue_with =
    if ltb max_section_size l
    then refused whole
    else if ltb (length s) l
    then refused whole
    else if ltb room l
    then refused whole
    else let next = continue_with (drop l s) (out ++ take l s) (room - l) in
      if l == max_section_size then next else record { out = out ++ take l s; rest = drop l s }

-- The loop `while (r >= 2)`. Each round takes two bytes, so the length of the data is enough fuel.
unfoldable pub unpack_loop : ℕ → List ℕ → List ℕ → List ℕ → ℕ → Unpacked
unpack_loop zero whole s out room = refused whole
unpack_loop (suc fuel) whole [] out room = refused whole
unpack_loop (suc fuel) whole (x ∷ []) out room = refused whole
unpack_loop (suc fuel) whole (hi ∷ lo ∷ s) out room =
    section_body whole (u16 ((hi <<< 8) + lo)) s out room (unpack_loop fuel whole)

unfoldable pub unpack : List ℕ → ℕ → Unpacked
unpack whole size = unpack_loop (length whole) whole whole [] size
