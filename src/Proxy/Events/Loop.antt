-- ===== src/Proxy/Events/Loop.antt =====
-- The loops of `onReadable` and `sendQueue` have the fuel they need, and what arrives of a stream
-- reaches the client.
use vpn_service_android.Common.{
  ℕ, zero, suc, ◌+◌, ◌-◌, ◌≤◌, ◌<◌, ◌≡◌, refl, sym, ap, subst, List, false, arith, leb, inl, inr,
  Bool-cases, Option, length, take, length-take,
}
use vpn_service_android.Buffer.Segment.{used, contents, consume}
use vpn_service_android.Buffer.Segment.Laws.{IsSegment, consume-IsSegment, length-contents}
use vpn_service_android.Cipher.Crypt.{Decrypted, done, stale_bytes}
use vpn_service_android.Cipher.Crypt.Consumption.{Within, decrypt-Within}
use vpn_service_android.Proxy.State.{share_buffer_size, Proxy}
use vpn_service_android.Proxy.Handshake.{Config, Client}
use vpn_service_android.Proxy.Events.{dispatch, decrypted, decrypt_all}
use vpn_service_android.Proxy.Events.Accounts.{dispatch-Runs}
use vpn_service_android.Proxy.Events.Sending.{used-consume}

module _ (rand : ℕ → ℕ → ℕ → ℕ) (client : Client) (config : Config) where
  -- Two continuations that agree on the proxies whose buffer has become shorter give the same round.
  decrypted-agree :
      (d : Decrypted) (input : List ℕ) (p : Proxy) (k l : Proxy → Option Proxy)
      → IsSegment p.decrypt_buffer
      → length input ≤ used p.decrypt_buffer
      → Within (length input) share_buffer_size d
      → ((q : Proxy)
          → IsSegment q.decrypt_buffer
          → used q.decrypt_buffer < used p.decrypt_buffer
          → k q ≡ l q)
      → decrypted rand client config d input p k ≡ decrypted rand client config d input p l
  unfolding decrypted
  decrypted-agree (stale_bytes o r) input p k l v le w agree = refl
  decrypted-agree (done o) input p k l v le w agree = elim (Bool-cases (leb (length o.out) 0)) [
    | inl over ↦ rw over
    | inr more ↦
        rw more (agree _ (subst IsSegment (sym same) (consume-IsSegment _ n v)) (shorter more))
  ]
    where
      n : ℕ
      n = length input - length o.rest

      q : Proxy
      q = record p { decrypt_buffer = consume p.decrypt_buffer n }

      same : (dispatch rand client config o.out q).decrypt_buffer ≡ consume p.decrypt_buffer n
      same = (dispatch-Runs rand client config o.out q).buffer

      shorter :
          leb (length o.out) 0 ≡ false
          → used (dispatch rand client config o.out q).decrypt_buffer < used p.decrypt_buffer
      shorter h =
          let some_taken : 0 < n = ground (arith, w) in
          omega (arith, used-consume p.decrypt_buffer n (omega (arith, le)) v, ap used same)

  -- Fuel beyond the bytes in the buffer changes nothing.
  decrypt_all-fuel :
      (f g : ℕ) (p : Proxy)
      → IsSegment p.decrypt_buffer
      → used p.decrypt_buffer < f
      → used p.decrypt_buffer < g
      → decrypt_all rand client config f p ≡ decrypt_all rand client config g p
  unfolding decrypt_all
  decrypt_all-fuel zero g p v hf hg = absurd (omega arith)
  decrypt_all-fuel (suc f) zero p v hf hg = absurd (omega arith)
  decrypt_all-fuel (suc f) (suc g) p v hf hg =
      decrypted-agree _ input p _ _ v
        (omega (
          arith,
          length-take share_buffer_size (contents p.decrypt_buffer),
          length-contents p.decrypt_buffer v,
        ))
        (decrypt-Within input share_buffer_size (omega arith))
        (λ q w lt. decrypt_all-fuel f g q w (omega (arith, lt)) (omega (arith, lt)))
    where
      input : List ℕ
      input = take share_buffer_size (contents p.decrypt_buffer)

  -- The loop of `onReadable` ends within the rounds that it is given: any more of them, and it is the
  -- same.
  pub decrypt_all_fuel :
      (k : ℕ) (p : Proxy)
      → IsSegment p.decrypt_buffer
      → decrypt_all rand client config (used p.decrypt_buffer + 1 + k) p
        ≡ decrypt_all rand client config (used p.decrypt_buffer + 1) p
  decrypt_all_fuel k p v = decrypt_all-fuel _ _ p v (omega arith) (omega arith)
