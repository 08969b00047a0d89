-- ===== src/Cipher/Crypt/Rounds.antt =====
-- What the two encoders of `encrypt` make of a message, and how long it is.
use vpn_service_android.Common.{
  ℕ, zero, suc, ◌+◌, ◌≤◌, ◌≡◌, refl, ◌∙◌, List, ◌∷◌, arith, length, IsBytes,
}
use vpn_service_android.Cipher.Coder.{bytes}
use vpn_service_android.Cipher.Shift
use vpn_service_android.Cipher.Shift.Laws as ShiftLaws
use vpn_service_android.Cipher.Padding
use vpn_service_android.Cipher.Padding.Laws as PaddingLaws
use vpn_service_android.Cipher.Crypt.{
  codes, get_coder, encode_with, decode_with, rounds, plain, peel_round, peel,
}

module _ (rand : ℕ → ℕ → ℕ) (m : List ℕ) where
  -- The message behind its zero byte, shifted, behind the byte that names the coder.
  abbrev pub shifted : List ℕ
  shifted = 2 ∷ Shift.encode (rand 0 0) (0 ∷ m) 8191

  -- The same padded.
  abbrev pub padded : List ℕ
  padded = 1 ∷ Padding.encode (rand 1) shifted 8191

module _ (rand : ℕ → ℕ → ℕ) (m : List ℕ) (small : length m ≤ 4096) where
  pub length-shifted : length (shifted rand m) ≡ length m + 3
  length-shifted = omega (arith, ShiftLaws.length-encode (rand 0 0) (0 ∷ m) 8191 (omega arith))

  pub length-padded :
      length (padded rand m)
      ≡ length m + 6 + Padding.padding_count (rand 1 0) (length (shifted rand m)) 8191
  length-padded = omega (
    arith,
    length-shifted,
    PaddingLaws.length-encode (rand 1) (shifted rand m) 8191 (omega (arith, length-shifted)),
  )

  -- Neither encoder fails on a message of at most 4096 bytes.
  pub rounds-codes : rounds rand 0 codes (0 ∷ m) ≡ padded rand m
  unfolding rounds get_coder encode_with
  rounds-codes = ground (arith, length-shifted, length-padded)

peel_shift :
    (f : ℕ) (s ys : List ℕ) (y : ℕ)
    → Shift.decode s ≡ bytes (y ∷ ys)
    → peel (suc f) (2 ∷ s) ≡ peel f (y ∷ ys)
unfolding peel peel_round get_coder decode_with
peel_shift f s ys y e = rw e

peel_padding :
    (f : ℕ) (s ys : List ℕ) (y : ℕ)
    → Padding.decode s ≡ bytes (y ∷ ys)
    → peel (suc f) (1 ∷ s) ≡ peel f (y ∷ ys)
unfolding peel peel_round get_coder decode_with
peel_padding f s ys y e = rw e

peel_zero : (f : ℕ) (s : List ℕ) → peel (suc f) (0 ∷ s) ≡ plain s
unfolding peel peel_round
peel_zero f s = refl

-- The inner loop of `decrypt` gives the message back from what the rounds of `encrypt` made of it.
pub peel-padded :
    (rand : ℕ → ℕ → ℕ) (m : List ℕ) (f : ℕ)
    → length m ≤ 4096
    → IsBytes m
    → 3 ≤ f
    → peel f (padded rand m) ≡ plain m
peel-padded rand m zero small b h = absurd (omega arith)
peel-padded rand m (suc zero) small b h = absurd (omega arith)
peel-padded rand m (suc (suc zero)) small b h = absurd (omega arith)
peel-padded rand m (suc (suc (suc f))) small b h =
    peel_padding (suc (suc f)) _ _ 2 (
      PaddingLaws.decode-encode (rand 1) (shifted rand m) 8191
        (omega (arith, length-shifted rand m small)))
    ∙ peel_shift (suc f) _ m 0
        (ShiftLaws.decode-encode (rand 0 0) (0 ∷ m) 8191 (omega arith, b) (omega arith))
    ∙ peel_zero f m
