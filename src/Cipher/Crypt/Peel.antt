-- ===== src/Cipher/Crypt/Peel.antt =====
-- The loops of `decrypt`: their fuel, what they consume, and the parcels they trip over.
use vpn_service_android.Common.{
  ℕ, zero, suc, ◌+◌, ◌*◌, ◌%◌, ◌≤◌, ◌≡◌, ◌⊎◌, inl, inr, refl, ap, List, [], ◌∷◌, none, some, arith,
  length, length-drop, ◌==◌, Bool-cases, Option-cases,
}
use vpn_service_android.Cipher.Coder.{Decoded, bytes, by_behind}
use vpn_service_android.Cipher.Shift
use vpn_service_android.Cipher.Padding
use vpn_service_android.Cipher.Crypt.{
  Coder, padding, shift, get_coder, decode_with, Peeled, plain, failed, stale_run, peel_round, peel,
}

length-decode_loop : (s : ℕ) (xs : List ℕ) → length (Shift.decode_loop s xs) ≡ length xs
unfolding Shift.decode_loop
length-decode_loop s [] = refl
length-decode_loop s (x ∷ xs) = ap suc (length-decode_loop (Shift.next_shift s) xs)

-- No decoder gives more than it is given.
decode_with-le : (c : Coder) (s ys : List ℕ) → decode_with c s ≡ bytes ys → length ys ≤ length s
unfolding decode_with Shift.decode Padding.decode
decode_with-le padding [] ys e = ground arith
decode_with-le padding (x ∷ []) ys e = ground arith
decode_with-le padding (x ∷ y ∷ s) ys e = ground (arith, length-drop ((x * 256 + y) % 65536) s)
decode_with-le shift [] ys e = cc
decode_with-le shift (x ∷ s) ys e = ground (arith, length-decode_loop x s)

Decoded-cases :
    (d : Decoded)
    → ((r : ℕ → ℕ) × (d ≡ by_behind r))
      ⊎ ((d ≡ bytes []) ⊎ ((y : ℕ) × (ys : List ℕ) × (d ≡ bytes (y ∷ ys))))
Decoded-cases (by_behind r) = inl (r, refl)
Decoded-cases (bytes []) = inr (inl refl)
Decoded-cases (bytes (y ∷ ys)) = inr (inr (y, ys, refl))

-- The round goes on with no more bytes than are left.
peel_round_ext :
    (cid : ℕ) (s : List ℕ) (k k' : List ℕ → Peeled)
    → ((ys : List ℕ) → length ys ≤ length s → k ys ≡ k' ys)
    → peel_round cid s k ≡ peel_round cid s k'
unfolding peel_round
peel_round_ext cid s k k' h = elim (Bool-cases (cid == 0)) [
  | inl z ↦ rw z
  | inr nz ↦ rw nz (elim (Option-cases (get_coder cid)) [
    | inl e ↦ rw e
    | inr (c, e) ↦ rw e (elim (Decoded-cases (decode_with c s)) [
      | inl (r, d) ↦ rw d
      | inr (inl d) ↦ rw d
      | inr (inr (y, ys, d)) ↦ rw d (h (y ∷ ys) (decode_with-le c s (y ∷ ys) d))
    ])
  ])
]

peel_fuel : (f g : ℕ) (s : List ℕ) → length s ≤ f → length s ≤ g → peel f s ≡ peel g s
unfolding peel
peel_fuel zero zero s hf hg = refl
peel_fuel zero (suc g) [] hf hg = refl
peel_fuel zero (suc g) (x ∷ s) hf hg = absurd (omega arith)
peel_fuel (suc f) zero [] hf hg = refl
peel_fuel (suc f) zero (x ∷ s) hf hg = absurd (omega arith)
peel_fuel (suc f) (suc g) [] hf hg = refl
peel_fuel (suc f) (suc g) (x ∷ s) hf hg =
    peel_round_ext x s (peel f) (peel g) (λ ys h. peel_fuel f g ys (omega arith) (omega arith))

peel_round-le :
    (cid : ℕ) (s m : List ℕ) (k : List ℕ → Peeled)
    → ((ys : List ℕ) → length ys ≤ length s → k ys ≡ plain m → length m ≤ length ys)
    → peel_round cid s k ≡ plain m
    → length m ≤ length s
unfolding peel_round
peel_round-le cid s m k h e = elim (Bool-cases (cid == 0)) [
  | inl z ↦ plain_length s m (rw z at e)
  | inr nz ↦ unknown (rw nz at e)
]
  where
    plain_length : (a b : List ℕ) → plain a ≡ plain b → length b ≤ length a
    plain_length a b p = ground arith

    known :
        (c : Coder) (d : Decoded)
        → decode_with c s ≡ d
        → (elim d as (λ _. Peeled) [
          | by_behind returned ↦ stale_run returned
          | bytes [] ↦ failed
          | bytes (y ∷ ys) ↦ k (y ∷ ys)
        ])
          ≡ plain m
        → length m ≤ length s
    known c (by_behind r) e' p = cc
    known c (bytes []) e' p = cc
    known c (bytes (y ∷ ys)) e' p =
        let le = decode_with-le c s (y ∷ ys) e' in let le' = h (y ∷ ys) le p in omega arith

    unknown :
        (elim (get_coder cid) as (λ _. Peeled) [
          | none ↦ plain s
          | some c ↦ elim (decode_with c s) [
            | by_behind returned ↦ stale_run returned
            | bytes [] ↦ failed
            | bytes (y ∷ ys) ↦ k (y ∷ ys)
          ]
        ])
          ≡ plain m
        → length m ≤ length s
    unknown p = elim (Option-cases (get_coder cid)) [
      | inl g ↦ plain_length s m (rw g at p)
      | inr (c, g) ↦ known c (decode_with c s) refl (rw g at p)
    ]

-- The message of a parcel is no longer than the parcel.
pub peel-le : (f : ℕ) (s m : List ℕ) → peel f s ≡ plain m → length m ≤ length s
unfolding peel
peel-le zero [] m e = ground arith
peel-le zero (x ∷ s) m e = cc
peel-le (suc f) [] m e = ground arith
peel-le (suc f) (x ∷ s) m e =
    let le = peel_round-le x s m (peel f) (λ ys h p. peel-le f ys m p) e in omega arith

-- The loop was left with a message no longer than the parcel, failed, or came to the shift coder with
-- no input.
abbrev pub Ends : List ℕ → Peeled → Type 0
Ends s (plain m) = length m ≤ length s
Ends s failed = Unit
Ends s (stale_run returned) = returned ≡ Shift.returned_for_nothing

decode_with-by_behind :
    (c : Coder) (s : List ℕ) (r : ℕ → ℕ)
    → decode_with c s ≡ by_behind r
    → r ≡ Shift.returned_for_nothing
unfolding decode_with Shift.decode Padding.decode
decode_with-by_behind padding [] r e = absurd cc
decode_with-by_behind padding (x ∷ []) r e = absurd cc
decode_with-by_behind padding (x ∷ y ∷ s) r e = absurd (ground arith)
decode_with-by_behind shift [] r e = cc
decode_with-by_behind shift (x ∷ s) r e = absurd (ground arith)

Ends-le : (s t : List ℕ) (p : Peeled) → length s ≤ length t → Ends s p → Ends t p
Ends-le s t (plain m) h e = omega arith
Ends-le s t failed h e = tt
Ends-le s t (stale_run r) h e = e

peel_round-Ends :
    (cid : ℕ) (s : List ℕ) (k : List ℕ → Peeled)
    → ((ys : List ℕ) → Ends ys (k ys))
    → Ends s (peel_round cid s k)
unfolding peel_round
peel_round-Ends cid s k h = elim (Bool-cases (cid == 0)) [
  | inl z ↦ rw z (omega arith)
  | inr nz ↦ rw nz (elim (Option-cases (get_coder cid)) [
    | inl e ↦ rw e (omega arith)
    | inr (c, e) ↦ rw e (elim (Decoded-cases (decode_with c s)) [
      | inl (r, d) ↦ rw d (decode_with-by_behind c s r d)
      | inr (inl d) ↦ rw d tt
      | inr (inr (y, ys, d)) ↦
          rw d (Ends-le (y ∷ ys) s (k (y ∷ ys)) (decode_with-le c s (y ∷ ys) d) (h (y ∷ ys)))
    ])
  ])
]

pub peel-Ends : (f : ℕ) (s : List ℕ) → Ends s (peel f s)
unfolding peel
peel-Ends zero [] = omega arith
peel-Ends zero (x ∷ s) = tt
peel-Ends (suc f) [] = omega arith
peel-Ends (suc f) (x ∷ s) =
    Ends-le s (x ∷ s) (peel_round x s (peel f)) (omega arith)
      (peel_round-Ends x s (peel f) (λ ys. peel-Ends f ys))

-- Within as many rounds as the parcel has bytes, the inner loop of `decrypt` is left with a message no
-- longer than the parcel, fails, or comes to a call of the shift coder with no input, which returns 0
-- or 0xFFFFFFFF by the byte behind; more fuel changes nothing. What the loop does after such a call
-- is not covered.
pub peel_terminates :
    (f : ℕ) (s : List ℕ) → length s ≤ f → (peel f s ≡ peel (length s) s) × Ends s (peel f s)
peel_terminates f s h = (peel_fuel f (length s) s h (omega arith), peel-Ends f s)
