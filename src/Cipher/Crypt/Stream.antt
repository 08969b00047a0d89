-- ===== src/Cipher/Crypt/Stream.antt =====
-- A stream of encrypted messages and its decryption.
use vpn_service_android.Common.{
  ℕ, zero, suc, ◌+◌, ◌^◌, ◌≤◌, ◌<◌, ◌≡◌, refl, ap, ◌∙◌, List, [], ◌∷◌, ◌++◌, arith, length,
  length-append, All, append_assoc, append-nil, IsBytes,
}
use vpn_service_android.Cipher.Coder.{cipher_buffer_size}
use vpn_service_android.Cipher.Parcel.{refused, pack, unpack}
use vpn_service_android.Cipher.Parcel.Laws.{unpack-pack}
use vpn_service_android.Cipher.Crypt.{
  estimate_encrypt_len, estimate_decrypt_len, Output, encrypt, plain, peel, Decrypted, done,
  decrypt_round, decrypt_loop, decrypt,
}
use vpn_service_android.Cipher.Crypt.Rounds.{padded, length-padded, peel-padded}
use vpn_service_android.Cipher.Crypt.Estimate.{
  encrypt_fits, padded_bound, parcel_length, pack_estimate-le,
}

round_goes_on :
    (data0 u tail m out : List ℕ) (room : ℕ) (k : List ℕ → List ℕ → Decrypted)
    → 0 < length u
    → 0 < length m
    → peel (length u) u ≡ plain m
    → length out + length m < room
    → room < 2 ^ 32
    → decrypt_round data0 (record { out = u; rest = tail }) out room k ≡ k tail (out ++ m)
unfolding decrypt_round
round_goes_on data0 u tail [] out room k hu hm p r w = absurd (omega arith)
round_goes_on data0 u tail (y ∷ ys) out room k hu hm p r w = rw p (ground arith)

-- A round of `decrypt` whose parcel `u` peels to the message `m` and fits the output.
loop_round :
    (f : ℕ) (data0 s u tail m out : List ℕ) (room : ℕ)
    → 0 < length s
    → unpack s cipher_buffer_size ≡ record { out = u; rest = tail }
    → 0 < length u
    → 0 < length m
    → peel (length u) u ≡ plain m
    → length out + length m < room
    → room < 2 ^ 32
    → decrypt_loop (suc f) data0 s out room ≡ decrypt_loop f data0 tail (out ++ m) room
unfolding decrypt_loop
loop_round f data0 [] u tail m out room hs e hu hm p r w = absurd (omega arith)
loop_round f data0 (x ∷ xs) u tail m out room hs e hu hm p r w =
    rw e (round_goes_on data0 u tail m out room _ hu hm p r w)

module _ (rand : ℕ → ℕ → ℕ) (m : List ℕ) (small : length m ≤ 4096) where
  -- One round of `decrypt` on the parcel of a message, with anything behind it.
  decrypt_step :
      (f : ℕ) (data0 tail out : List ℕ) (size room : ℕ)
      → 0 < length m
      → IsBytes m
      → estimate_encrypt_len (length m) + 4 ≤ size
      → length out + length m < room
      → room < 2 ^ 32
      → decrypt_loop (suc f) data0 (pack (padded rand m) size ++ tail) out room
        ≡ decrypt_loop f data0 tail (out ++ m) room
  decrypt_step f data0 tail out size room p b h r w =
      loop_round f data0 (pack (padded rand m) size ++ tail) (padded rand m) tail m out room
        (omega (
          arith,
          length-append (pack (padded rand m) size) tail,
          parcel_length rand m small size h,
        ))
        (unpack-pack (padded rand m) tail size 8192 (omega arith)
          (omega (arith, padded_bound rand m small)) (omega (arith, pack_estimate-le rand m small))
          (omega (arith, padded_bound rand m small)))
        (omega arith) p
        (peel-padded rand m (length (padded rand m)) small b
          (omega (arith, length-padded rand m small)))
        r w

-- What `encrypt` is called with, one call after another.
pub record Sent : Type 0 where
  pub rand : ℕ → ℕ → ℕ
  pub text : List ℕ

-- The bytes of the calls in a row, each into an output of `size` bytes.
abbrev pub wire : ℕ → List Sent → List ℕ
wire size [] = []
wire size (p ∷ ps) = (encrypt p.rand p.text size).out ++ wire size ps

abbrev pub texts : List Sent → List ℕ
texts [] = []
texts (p ∷ ps) = p.text ++ texts ps

-- A text of bytes that one call takes whole, and for which `size` is enough.
abbrev pub Fits : ℕ → Sent → Type 0
Fits size p =
    (0 < length p.text)
    × (length p.text ≤ 4096)
    × IsBytes p.text
    × (estimate_encrypt_len (length p.text) + 4 ≤ size)

-- A parcel that is not there in full ends the loop.
loop_waits :
    (f : ℕ) (data0 tail out : List ℕ) (room : ℕ)
    → unpack tail cipher_buffer_size ≡ refused tail
    → decrypt_loop f data0 tail out room ≡ done (record { out = out; rest = tail })
unfolding decrypt_loop decrypt_round
loop_waits zero data0 tail out room e = refl
loop_waits (suc f) data0 [] out room e = refl
loop_waits (suc f) data0 (x ∷ xs) out room e = rw e

wire-cons :
    (size : ℕ) (p : Sent) (ps : List Sent)
    → Fits size p
    → wire size (p ∷ ps) ≡ pack (padded p.rand p.text) size ++ wire size ps
wire-cons size p ps ok =
    ap (λ (o : Output). o.out ++ wire size ps) (encrypt_fits p.rand p.text ok.1 size ok.0 ok.3)

-- A parcel is longer than its text.
pub length-wire :
    (size : ℕ) (p : Sent) (ps : List Sent) (tail : List ℕ)
    → Fits size p
    → length p.text + 1 + length (wire size ps ++ tail) ≤ length (wire size (p ∷ ps) ++ tail)
length-wire size p ps tail ok =
    rw (wire-cons size p ps ok, append_assoc (pack (padded p.rand p.text) size) (wire size ps) tail)
      (omega (
        arith,
        length-append (pack (padded p.rand p.text) size) (wire size ps ++ tail),
        parcel_length p.rand p.text ok.1 size ok.3,
        length-padded p.rand p.text ok.1,
      ))

loop_text :
    (size room f : ℕ) (p : Sent) (ps : List Sent) (tail data0 out : List ℕ)
    → Fits size p
    → length out + length p.text < room
    → room < 2 ^ 32
    → decrypt_loop (suc f) data0 (wire size (p ∷ ps) ++ tail) out room
      ≡ decrypt_loop f data0 (wire size ps ++ tail) (out ++ p.text) room
loop_text size room f p ps tail data0 out ok h w =
    rw (wire-cons size p ps ok, append_assoc (pack (padded p.rand p.text) size) (wire size ps) tail)
      (decrypt_step p.rand p.text ok.1 f data0 (wire size ps ++ tail) out size room ok.0 ok.2 ok.3 h
        w)

-- The rounds of the messages in a row lead to what follows them, with fuel enough left for that.
pub loop-through :
    (size room f : ℕ) (ps : List Sent) (tail data0 out : List ℕ)
    → All (Fits size) ps
    → length (wire size ps ++ tail) ≤ f
    → length out + length (wire size ps ++ tail) ≤ room
    → room < 2 ^ 32
    → (g : ℕ) × (length tail ≤ g)
      × (decrypt_loop f data0 (wire size ps ++ tail) out room
          ≡ decrypt_loop g data0 tail (out ++ texts ps) room)
loop-through size room f [] tail data0 out ok hf hr w = (f, hf, rw (append-nil out))
loop-through size room zero (p ∷ ps) tail data0 out ok hf hr w =
    absurd (omega (arith, length-wire size p ps tail ok.0))
loop-through size room (suc f) (p ∷ ps) tail data0 out ok hf hr w =
    let (g, enough, later) =
      loop-through size room f ps tail data0 (out ++ p.text) ok.1
        (omega (arith, length-wire size p ps tail ok.0))
        (omega (arith, length-append out p.text, length-wire size p ps tail ok.0)) w in
    (
      g,
      enough,
      loop_text size room f p ps tail data0 out ok.0
            (omega (arith, length-wire size p ps tail ok.0)) w
          ∙ later
          ∙ ap (λ o. decrypt_loop g data0 tail o room) (append_assoc out p.text (texts ps)),
    )

loop-wire :
    (size room f : ℕ) (ps : List Sent) (tail data0 out : List ℕ)
    → All (Fits size) ps
    → unpack tail cipher_buffer_size ≡ refused tail
    → length (wire size ps ++ tail) ≤ f
    → length out + length (wire size ps ++ tail) ≤ room
    → room < 2 ^ 32
    → decrypt_loop f data0 (wire size ps ++ tail) out room
      ≡ done (record { out = out ++ texts ps; rest = tail })
loop-wire size room f ps tail data0 out ok incomplete hf hr w =
    let (g, enough, through) = loop-through size room f ps tail data0 out ok hf hr w in
    through ∙ loop_waits g data0 tail (out ++ texts ps) room incomplete

pub decrypt_enters :
    (data0 : List ℕ) (room : ℕ)
    → 0 < length data0
    → length data0 ≤ room
    → decrypt data0 room ≡ decrypt_loop (length data0) data0 data0 [] room
unfolding decrypt estimate_decrypt_len
decrypt_enters data0 room p h = ground arith

decrypt_nothing : (room : ℕ) → decrypt [] room ≡ done (record { out = []; rest = [] })
unfolding decrypt
decrypt_nothing room = refl

-- Any number of messages, each encrypted by a call of its own, come back in one call of `decrypt` in
-- their order and in full, whatever `rand()` gave, and what follows them stays for the next call, if
-- it is no whole parcel; the output has the room that `decrypt` asks for.
pub decrypt-wire :
    (size room : ℕ) (ps : List Sent) (tail : List ℕ)
    → All (Fits size) ps
    → unpack tail cipher_buffer_size ≡ refused tail
    → length (wire size ps ++ tail) ≤ room
    → room < 2 ^ 32
    → decrypt (wire size ps ++ tail) room ≡ done (record { out = texts ps; rest = tail })
decrypt-wire size room [] [] ok incomplete h w = decrypt_nothing room
decrypt-wire size room [] (t ∷ tail) ok incomplete h w =
    decrypt_enters (t ∷ tail) room (omega arith) h
    ∙ loop-wire size room _ [] (t ∷ tail) _ [] ok incomplete (omega arith) (omega arith) w
decrypt-wire size room (p ∷ ps) tail ok incomplete h w =
    decrypt_enters (wire size (p ∷ ps) ++ tail) room
      (omega (arith, length-wire size p ps tail ok.0)) h
    ∙ loop-wire size room _ (p ∷ ps) tail _ [] ok incomplete (omega arith) (omega arith) w
