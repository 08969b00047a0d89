-- ===== src/Cipher/Crypt/Consumption.antt =====
-- What `decrypt` writes and consumes, for any input that reaches it from the network.
use vpn_service_android.Common.{
  ℕ, zero, suc, ◌+◌, ◌-◌, ◌≤◌, ◌<◌, ◌^◌, ◌≡◌, ◌||◌, inl, inr, refl, subst, List, [], ◌∷◌, ◌++◌,
  arith, length, length-append, ltb, leb, u32, ◌==◌, Bool-cases, if◌then◌else◌,
}
use vpn_service_android.Cipher.Coder.{cipher_buffer_size}
use vpn_service_android.Cipher.Parcel.{Unpacked, unpack}
use vpn_service_android.Cipher.Parcel.Bounds.{Consumes, unpack-Consumes}
use vpn_service_android.Cipher.Crypt.{
  Peeled, plain, failed, stale_run, peel, Decrypted, done, stale_bytes, decrypt_round, decrypt_loop,
  decrypt, estimate_decrypt_len,
}
use vpn_service_android.Cipher.Crypt.Peel.{peel-le, peel-Ends, Ends}
use vpn_service_android.Cipher.Shift

-- What a normal return leaves: at most `n` bytes written and left, at most `size` of them written.
-- Where a decoder came to no input: at most `size` bytes written before, the length it returns, and
-- that the test for room lets each length `2 ^ 32 - k` pass that is past the bytes written.
abbrev pub Within : ℕ → ℕ → Decrypted → Type 0
Within n size (stale_bytes out returned) =
    (length out ≤ size)
    × (returned ≡ Shift.returned_for_nothing)
    × ((k : ℕ) → 0 < k → k ≤ length out → u32 (length out + (2 ^ 32 - k)) < size)
Within n size (done o) = (length o.out + length o.rest ≤ n) × (length o.out ≤ size)

round-Within :
    (data0 : List ℕ) (parcel : Unpacked) (out : List ℕ) (n size : ℕ)
    (k : List ℕ → List ℕ → Decrypted)
    → length data0 ≤ n
    → length out + length parcel.out + length parcel.rest ≤ n
    → length out ≤ size
    → size < 2 ^ 32
    → n < 2 ^ 32
    → ((s o : List ℕ) → length o + length s ≤ n → length o ≤ size → Within n size (k s o))
    → Within n size (decrypt_round data0 parcel out size k)
unfolding decrypt_round
round-Within data0 parcel out n size k hd h ho hs hn next =
    elim (Bool-cases (length parcel.out == 0)) [
      | inl empty ↦ rw empty (omega arith, ho)
      | inr some_bytes ↦ rw some_bytes (peeled (peel (length parcel.out) parcel.out) refl)
    ]
  where
    peeled :
        (p : Peeled)
        → peel (length parcel.out) parcel.out ≡ p
        → Within n size (elim p as (λ _. Decrypted) [
          | stale_run returned ↦ stale_bytes out returned
          | failed ↦ done (record { out = []; rest = data0 })
          | plain [] ↦ done (record { out = out; rest = parcel.rest })
          | plain (y ∷ ys) ↦
              let go_on = k parcel.rest (out ++ (y ∷ ys)) in
              if ltb (u32 (length out + length (y ∷ ys))) size
              then go_on
              else done (record { out = out; rest = parcel.rest })
        ])
    peeled (stale_run returned) e = (
      ho,
      subst (Ends parcel.out) e (peel-Ends (length parcel.out) parcel.out),
      λ k p q. ground arith,
    )
    peeled failed e = (omega arith, omega arith)
    peeled (plain []) e = (omega arith, ho)
    peeled (plain (y ∷ ys)) e =
        let le = peel-le (length parcel.out) parcel.out (y ∷ ys) e in
        elim (Bool-cases (ltb (u32 (length out + length (y ∷ ys))) size)) [
          | inl fits ↦ rw fits (
              next parcel.rest (out ++ (y ∷ ys)) (omega (arith, length-append out (y ∷ ys)))
                (ground (arith, length-append out (y ∷ ys))))
          | inr full ↦ rw full (omega arith, ho)
        ]

loop-Within :
    (f : ℕ) (data0 s out : List ℕ) (n size : ℕ)
    → length data0 ≤ n
    → length out + length s ≤ n
    → length out ≤ size
    → size < 2 ^ 32
    → n < 2 ^ 32
    → Within n size (decrypt_loop f data0 s out size)
unfolding decrypt_loop
loop-Within zero data0 s out n size hd h ho hs hn = (h, ho)
loop-Within (suc f) data0 [] out n size hd h ho hs hn = (h, ho)
loop-Within (suc f) data0 (x ∷ xs) out n size hd h ho hs hn =
    round-Within data0 (unpack (x ∷ xs) cipher_buffer_size) out n size _ hd
      (parcel_bound (unpack (x ∷ xs) cipher_buffer_size)
        (unpack-Consumes (x ∷ xs) cipher_buffer_size))
      ho hs hn (λ s o p q. loop-Within f data0 s o n size hd p q hs hn)
  where
    parcel_bound :
        (u : Unpacked)
        → Consumes (x ∷ xs) (length (x ∷ xs)) cipher_buffer_size u
        → length out + length u.out + length u.rest ≤ n
    parcel_bound u (inl e) = rw e (omega arith)
    parcel_bound u (inr (p, q)) = omega arith

pub decrypt-Within :
    (data0 : List ℕ) (size : ℕ) → size < 2 ^ 32 → Within (length data0) size (decrypt data0 size)
unfolding decrypt estimate_decrypt_len
decrypt-Within data0 size hs = elim (Bool-cases (leb (length data0) 0 || leb size 0)) [
  | inl nothing ↦ rw nothing (omega arith, omega arith)
  | inr some_data ↦ rw some_data (elim (Bool-cases (ltb size (length data0))) [
    | inl large ↦ rw large (omega arith, omega arith)
    | inr room ↦ rw room (
        loop-Within (length data0) data0 data0 [] (length data0) size (omega arith) (omega arith)
          (omega arith) hs (ground arith))
  ])
]
