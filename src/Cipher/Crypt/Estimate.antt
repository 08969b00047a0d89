-- ===== src/Cipher/Crypt/Estimate.antt =====
-- core/cipher/Cipher.cpp, estimateEncryptLen: what `encrypt` asks for, and what its parcel needs.
use vpn_service_android.Common.{
  ℕ, ◌+◌, ◌*◌, ◌/◌, ◌≤◌, ◌<◌, ◌≡◌, ap, List, [], arith, length, take_all, drop_all,
}
use vpn_service_android.Cipher.Shift
use vpn_service_android.Cipher.Padding
use vpn_service_android.Cipher.Padding.Laws.{padding_count-le, padding_range-le}
use vpn_service_android.Cipher.Parcel.{pack, estimate_pack_len}
use vpn_service_android.Cipher.Parcel.Laws.{length-pack}
use vpn_service_android.Cipher.Crypt.{
  get_coder, encode_len_with, estimate_rounds, estimate_encrypt_len, encrypt,
}
use vpn_service_android.Cipher.Crypt.Rounds.{
  padded, shifted, length-shifted, length-padded, rounds-codes,
}

estimate_as_sum :
    (n : ℕ)
    → n ≤ 4096
    → estimate_encrypt_len n
      ≡ n
        + 4
        + Padding.padding_range (n + 3)
        + 2 * ((n + 4 + Padding.padding_range (n + 3) + 1024) / 1024)
        + 2
unfolding estimate_encrypt_len estimate_rounds get_coder encode_len_with Padding.encode_len
    Shift.encode_len estimate_pack_len
estimate_as_sum n h = ground (arith, padding_range-le (n + 3))

-- The buffer that the proxy shares is more than enough for any estimate.
pub estimate-le : (n : ℕ) → n ≤ 4096 → estimate_encrypt_len n + 4 ≤ 8192
estimate-le n h = omega (arith, estimate_as_sum n h, padding_range-le (n + 3))

module _ (rand : ℕ → ℕ → ℕ) (m : List ℕ) (small : length m ≤ 4096) where
  -- What a padded message needs when packed is at most four bytes above the estimate.
  pub pack_estimate-le :
      estimate_pack_len (length (padded rand m)) ≤ estimate_encrypt_len (length m) + 4
  unfolding estimate_pack_len
  pack_estimate-le = omega (
    arith,
    estimate_as_sum (length m) small,
    length-padded rand m small,
    length-shifted rand m small,
    padding_count-le (rand 1 0) (length (shifted rand m)) 8191,
    padding_range-le (length (shifted rand m)),
    ap Padding.padding_range (length-shifted rand m small),
  )

  -- With four bytes more than the estimate `encrypt` takes the whole message and writes its parcel.
  pub encrypt_fits :
      (size : ℕ)
      → 0 < length m
      → estimate_encrypt_len (length m) + 4 ≤ size
      → encrypt rand m size ≡ record { out = pack (padded rand m) size; rest = [] }
  unfolding encrypt
  encrypt_fits size p h =
      ground (arith, take_all m 4096 small, drop_all m 4096 small, rounds-codes rand m small)

  -- The bytes that count the padding are not in the estimate.
  pack_estimate-short :
      Padding.padding_count (rand 1 0) (length (shifted rand m)) 8191
        ≡ Padding.padding_range (length (shifted rand m))
      → estimate_encrypt_len (length m) + 2 ≤ estimate_pack_len (length (padded rand m))
  unfolding estimate_pack_len
  pack_estimate-short largest = omega (
    arith,
    largest,
    estimate_as_sum (length m) small,
    length-padded rand m small,
    length-shifted rand m small,
    padding_range-le (length (shifted rand m)),
    ap Padding.padding_range (length-shifted rand m small),
  )

  -- When the largest padding is drawn, the estimate is short by the two bytes that count the padding:
  -- an output that has what `encrypt` asks for and less than two bytes more passes its test, and the
  -- whole of a message of at most 4096 bytes is consumed without a byte written.
  pub encrypt_loses :
      (size : ℕ)
      → 0 < length m
      → Padding.padding_count (rand 1 0) (length (shifted rand m)) 8191
        ≡ Padding.padding_range (length (shifted rand m))
      → estimate_encrypt_len (length m) ≤ size
      → size < estimate_encrypt_len (length m) + 2
      → encrypt rand m size ≡ record { out = []; rest = [] }
  unfolding encrypt pack
  encrypt_loses size p largest enough tight = ground (
    arith,
    pack_estimate-short largest,
    take_all m 4096 small,
    drop_all m 4096 small,
    rounds-codes rand m small,
    estimate_as_sum (length m) small,
  )

  pub padded_bound : length (padded rand m) ≤ 6200
  padded_bound = omega (
    arith,
    length-padded rand m small,
    padding_count-le (rand 1 0) (length (shifted rand m)) 8191,
    padding_range-le (length (shifted rand m)),
  )

  pub parcel_length :
      (size : ℕ)
      → estimate_encrypt_len (length m) + 4 ≤ size
      → length (pack (padded rand m) size)
        ≡ length (padded rand m) + 2 * (length (padded rand m) / 1024 + 1)
  parcel_length size h =
      (length-pack (padded rand m) size (omega arith) (omega (arith, padded_bound))
        (omega (arith, pack_estimate-le))).0
