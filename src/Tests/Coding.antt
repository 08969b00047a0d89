-- ===== src/Tests/Coding.antt =====
-- core/cipher on small messages.
use vpn_service_android.Common.{
  ℕ, ◌+◌, ◌*◌, ◌≤◌, ◌<◌, ◌≡◌, refl, List, [], ◌∷◌, ◌++◌, arith, length, length-append, take,
}
use vpn_service_android.Cipher.Coder.{bytes, cipher_buffer_size}
use vpn_service_android.Cipher.Shift
use vpn_service_android.Cipher.Padding
use vpn_service_android.Cipher.Shift.Laws.{decode-encode}
use vpn_service_android.Cipher.Parcel.{
  refused, pack, unpack, unpack_loop, section_body, estimate_pack_len,
}
use vpn_service_android.Cipher.Parcel.Laws.{unpack-pack, length-pack}
use vpn_service_android.Cipher.Parcel.Prefix.{unpack-take-pack}
use vpn_service_android.Cipher.Crypt.{encrypt, peel, done, decrypt, estimate_encrypt_len}
use vpn_service_android.Cipher.Crypt.Rounds.{padded, shifted, length-shifted}
use vpn_service_android.Cipher.Crypt.Peel.{peel_terminates, Ends}
use vpn_service_android.Cipher.Crypt.Stream.{Sent, Fits, wire, decrypt-wire}
use vpn_service_android.Cipher.Crypt.Estimate.{
  encrypt_loses, estimate-le, encrypt_fits, padded_bound, parcel_length,
}
use vpn_service_android.Cipher.Crypt.EmptyShift.{empty_shift}

abbrev pub draws : ℕ → ℕ → ℕ
draws i j = 7 * i + 3 * j + 5

abbrev pub hello : Sent
hello = record { rand = draws; text = 104 ∷ 105 ∷ [] }

pub Fits-hello : Fits 8192 hello
Fits-hello =
    (omega arith, omega arith, (omega arith, (omega arith, tt)), estimate-le 2 (omega arith))

-- A parcel that announces five bytes and holds one.
abbrev pub cut : List ℕ
cut = 0 ∷ 5 ∷ 1 ∷ []

pub waits : unpack cut cipher_buffer_size ≡ refused cut
unfolding unpack unpack_loop section_body
waits = refl

pub hello_short : length (wire 8192 (hello ∷ []) ++ cut) ≤ 6300
hello_short = rw (encrypt_fits draws hello.text (omega arith) 8192 (omega arith) Fits-hello.3) (
    omega (
      arith,
      length-append (pack (padded draws hello.text) 8192 ++ []) cut,
      length-append (pack (padded draws hello.text) 8192) [],
      parcel_length draws hello.text (omega arith) 8192 Fits-hello.3,
      padded_bound draws hello.text (omega arith),
    ))

decrypt-wire_example :
    decrypt (wire 8192 (hello ∷ []) ++ cut) 8192
    ≡ done (record { out = 104 ∷ 105 ∷ []; rest = cut })
decrypt-wire_example =
    decrypt-wire 8192 8192 (hello ∷ []) cut (Fits-hello, tt) waits (omega (arith, hello_short))
      (omega arith)

decode-encode_example :
    Shift.decode (Shift.encode 3 (1 ∷ 200 ∷ 255 ∷ []) 16) ≡ bytes (1 ∷ 200 ∷ 255 ∷ [])
decode-encode_example =
    decode-encode 3 (1 ∷ 200 ∷ 255 ∷ []) 16 (omega arith, (omega arith, (omega arith, tt)))
      (omega arith)

abbrev four : List ℕ
four = 9 ∷ 8 ∷ 7 ∷ 6 ∷ []

four_fits : estimate_pack_len 4 ≤ 64
unfolding estimate_pack_len
four_fits = omega arith

four_long : 3 < length (pack four 64)
four_long = omega (arith, length-pack four 64 (omega arith) (omega arith) four_fits)

unpack-pack_example : unpack (pack four 64 ++ cut) 16 ≡ record { out = four; rest = cut }
unpack-pack_example = unpack-pack four cut 64 16 (omega arith) (omega arith) four_fits (omega arith)

unpack-take-pack_example : unpack (take 3 (pack four 64)) 16 ≡ refused (take 3 (pack four 64))
unpack-take-pack_example =
    unpack-take-pack four 64 16 3 (omega arith) (omega arith) four_fits (omega arith) four_long

-- A message, and behind it the empty shift: the call ends there with the message written.
abbrev broken : List ℕ
broken = wire 8192 (hello ∷ []) ++ (empty_shift ++ [])

-- The largest padding for a message of four bytes is of 1017.
abbrev most : ℕ → ℕ → ℕ
most i j = 1016

largest :
    Padding.padding_count (most 1 0) (length (shifted most four)) 8191
    ≡ Padding.padding_range (length (shifted most four))
unfolding Padding.padding_count Padding.fitted_range Padding.padding_range Shift.encode
largest = omega (arith, length-shifted most four (omega arith))

encrypt_loses_example :
    encrypt most four (estimate_encrypt_len 4 + 1) ≡ record { out = []; rest = [] }
encrypt_loses_example =
    encrypt_loses most four (omega arith) (estimate_encrypt_len 4 + 1) (omega arith) largest
      (omega arith) (omega arith)

peel_terminates_example :
    (peel 9 (1 ∷ 0 ∷ 0 ∷ 2 ∷ []) ≡ peel 4 (1 ∷ 0 ∷ 0 ∷ 2 ∷ []))
    × Ends (1 ∷ 0 ∷ 0 ∷ 2 ∷ []) (peel 9 (1 ∷ 0 ∷ 0 ∷ 2 ∷ []))
peel_terminates_example = peel_terminates 9 (1 ∷ 0 ∷ 0 ∷ 2 ∷ []) (omega arith)
