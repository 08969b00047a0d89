-- ===== src/Proxy/Events/Delivery.antt =====
-- A stream of parcels that arrives in pieces reaches the client.
use vpn_service_android.Common.{
  ℕ, suc, ◌+◌, ◌-◌, ◌≤◌, ◌<◌, ◌≡◌, refl, ap, ◌∙◌, List, [], ◌∷◌, ◌++◌, Bool, true, false, arith,
  ltb, leb, inl, inr, Bool-cases, if◌then◌else◌, Option, some, length, take, drop, All, min,
  take_all, length-append, drop-append,
}
use vpn_service_android.Buffer.Segment.{Segment, used, remain, contents, consume, flip}
use vpn_service_android.Buffer.Segment
use vpn_service_android.Buffer.Segment.Laws.{
  IsSegment, length-contents, contents-consume, contents-write, contents-flip, write-IsSegment,
  flip-IsSegment,
}
use vpn_service_android.Cipher.Coder.{cipher_buffer_size}
use vpn_service_android.Cipher.Parcel.{refused, unpack}
use vpn_service_android.Cipher.Crypt.{Output, done, decrypt}
use vpn_service_android.Cipher.Crypt.Stream.{Sent, Fits, wire, texts, decrypt-wire, length-wire}
use vpn_service_android.Proxy.State.{trans, failed, Proxy}
use vpn_service_android.Proxy.Handshake.{Config, Client, switch_state}
use vpn_service_android.Proxy.Events.{
  got, connected_once, data_back, dispatch, dispatch_by, decrypted, decrypt_all, make_room,
  received, on_readable,
}
use vpn_service_android.Proxy.Events.Accounts.{data_back-Runs}

-- The buffer of the proxy, flipped where the room behind it is short.
roomy :
    (b : Segment) (n : ℕ)
    → IsSegment b
    → b.size ≡ 32768
    → used b + n ≤ 8192
    → n ≤ remain (if ltb (remain b) n then flip b else b)
unfolding flip remain used
roomy b n v e h = ground arith

-- The buffer is flipped only where the ranges of the copy are apart.
flips_apart :
    (b : Segment) (n : ℕ)
    → IsSegment b
    → b.size ≡ 32768
    → used b + n ≤ 8192
    → ltb (remain b) n ≡ true
    → b.limit - b.pos ≤ b.pos
unfolding remain used
flips_apart b n v e h short = ground arith

roomed : ℕ → Segment → Segment
roomed n b = if ltb (remain b) n then flip b else b

roomed_same :
    (n : ℕ) (b : Segment)
    → IsSegment b
    → b.size ≡ 32768
    → used b + n ≤ 8192
    → IsSegment (roomed n b) × (contents (roomed n b) ≡ contents b) × (used (roomed n b) ≡ used b)
unfolding roomed
roomed_same n b v e h = by_test (ltb (remain b) n) refl
  where
    by_test :
        (t : Bool)
        → ltb (remain b) n ≡ t
        → IsSegment (if t then flip b else b)
          × (contents (if t then flip b else b) ≡ contents b)
          × (used (if t then flip b else b) ≡ used b)
    by_test true short =
        let moved = contents-flip b v (flips_apart b n v e h short) in
        (flip-IsSegment b v, moved.0, moved.1)
    by_test false enough = (v, refl, refl)

left_over :
    (b : Segment) (w tail : List ℕ)
    → IsSegment b
    → contents b ≡ w ++ tail
    → contents (consume b (length w)) ≡ tail
left_over b w tail v e =
    (contents-consume b (length w) v).0
      (omega (arith, length-contents b v, ap length e, length-append w tail))
    ∙ ap (drop (length w)) e
    ∙ drop-append w tail (length w) refl

written :
    (b : Segment) (input : List ℕ)
    → IsSegment b
    → length input ≤ remain b
    → contents (Segment.write b input) ≡ contents b ++ input
written b input v h =
    contents-write b input v
    ∙ ap (λ xs. contents b ++ xs) (take_all input (min (length input) (remain b)) (omega arith))

texts-length :
    (size : ℕ) (p : Sent) (ps : List Sent) → All (Fits size) (p ∷ ps) → 0 < length (texts (p ∷ ps))
texts-length size p ps ok = omega (arith, length-append p.text (texts ps), ok.0.1)

module _ (rand : ℕ → ℕ → ℕ → ℕ) (client : Client) (config : Config) where
  -- A buffer that starts with no whole parcel is left as it is.
  quiet :
      (f : ℕ) (p : Proxy) (tail : List ℕ)
      → contents p.decrypt_buffer ≡ tail
      → unpack tail cipher_buffer_size ≡ refused tail
      → length tail ≤ 8192
      → decrypt_all rand client config (suc f) p ≡ some p
  unfolding decrypt_all decrypted
  quiet f p tail e r le =
      rw (e, take_all tail 8192 le, decrypt-wire 0 8192 [] tail tt r le (omega arith))

  decrypted_done :
      (o : Output) (input : List ℕ) (p : Proxy) (k : Proxy → Option Proxy) (n : ℕ)
      → 0 < length o.out
      → p.state ≡ trans
      → length input - length o.rest ≡ n
      → decrypted rand client config (done o) input p k
        ≡ k (
            data_back rand client config o.out
              (record p { decrypt_buffer = consume p.decrypt_buffer n }))
  unfolding decrypted dispatch dispatch_by
  decrypted_done o input p k n h st e = rw (e) (elim (Bool-cases (leb (length o.out) 0)) [
    | inl over ↦ absurd (ground arith)
    | inr more ↦ rw more (
        ap
          (λ t. k (
            dispatch_by rand client config t o.out
              (record p { decrypt_buffer = consume p.decrypt_buffer n })))
          st)
  ])

  delivered :
      (f size : ℕ) (p : Proxy) (s : Sent) (ss : List Sent) (tail : List ℕ)
      → p.state ≡ trans
      → IsSegment p.decrypt_buffer
      → All (Fits size) (s ∷ ss)
      → contents p.decrypt_buffer ≡ wire size (s ∷ ss) ++ tail
      → unpack tail cipher_buffer_size ≡ refused tail
      → length (wire size (s ∷ ss) ++ tail) ≤ 8192
      → decrypt_all rand client config (suc (suc f)) p
        ≡ some (
            data_back rand client config (texts (s ∷ ss)) (record p {
              decrypt_buffer = consume p.decrypt_buffer (length (wire size (s ∷ ss)));
            }))
  unfolding decrypt_all
  delivered f size p s ss tail st v ok e r le =
      ap
        (λ i.
          decrypted rand client config (decrypt i 8192) i p
            (decrypt_all rand client config (suc f)))
        (ap (take 8192) e ∙ take_all (w ++ tail) 8192 le)
      ∙ ap
          (λ d.
            decrypted rand client config d (w ++ tail) p (decrypt_all rand client config (suc f)))
          (decrypt-wire size 8192 (s ∷ ss) tail ok r le (omega arith))
      ∙ decrypted_done _ (w ++ tail) p (decrypt_all rand client config (suc f)) (length w)
          (texts-length size s ss ok) st (omega (arith, length-append w tail))
      ∙ quiet f _ tail left r (omega (arith, length-append w tail))
    where
      w : List ℕ
      w = wire size (s ∷ ss)

      q : Proxy
      q = record p { decrypt_buffer = consume p.decrypt_buffer (length w) }

      left : contents (data_back rand client config (texts (s ∷ ss)) q).decrypt_buffer ≡ tail
      left =
          ap contents (data_back-Runs rand client config (texts (s ∷ ss)) q).buffer
          ∙ left_over p.decrypt_buffer w tail v e

  make_room-roomed :
      (n : ℕ) (p : Proxy)
      → make_room rand client config n p ≡ record p { decrypt_buffer = roomed n p.decrypt_buffer }
  unfolding make_room roomed
  make_room-roomed n p = by_test (ltb (remain p.decrypt_buffer) n)
    where
      by_test :
          (t : Bool)
          → (if t then record p { decrypt_buffer = flip p.decrypt_buffer } else p)
            ≡ record p { decrypt_buffer = if t then flip p.decrypt_buffer else p.decrypt_buffer }
      by_test true = refl
      by_test false = refl

  already : (p : Proxy) → p.connected ≡ true → connected_once rand client config p ≡ p
  unfolding connected_once
  already p on = ground (arith, on)

  -- What the client is given of the texts, and what is left in the buffer.
  pub record Delivers (p : Proxy) (text tail : List ℕ) (r : Option Proxy) : Type 0 where
    pub buffer : Segment
    pub result : r ≡ some (data_back rand client config text (record p { decrypt_buffer = buffer }))
    pub left : contents buffer ≡ tail

  received-Delivers :
      (size : ℕ) (input : List ℕ) (p : Proxy) (s : Sent) (ss : List Sent) (tail : List ℕ)
      → p.state ≡ trans
      → IsSegment p.decrypt_buffer
      → length input ≤ remain p.decrypt_buffer
      → All (Fits size) (s ∷ ss)
      → contents p.decrypt_buffer ++ input ≡ wire size (s ∷ ss) ++ tail
      → unpack tail cipher_buffer_size ≡ refused tail
      → length (wire size (s ∷ ss) ++ tail) ≤ 8192
      → Delivers p (texts (s ∷ ss)) tail (received rand client config input p)
  unfolding received
  received-Delivers size input p s ss tail st v fits ok e r le = record {
    buffer = consume b (length w);
    result =
        skip
        ∙ ap (λ n. decrypt_all rand client config n q) enough
        ∙ delivered (used b - 1) size q s ss tail st bv ok be r le;
    left = left_over b w tail bv be;
  }
    where
      w : List ℕ
      w = wire size (s ∷ ss)

      b : Segment
      b = Segment.write p.decrypt_buffer input

      q : Proxy
      q = record p { decrypt_buffer = b }

      bv : IsSegment b
      bv = write-IsSegment p.decrypt_buffer input v

      be : contents b ≡ w ++ tail
      be = written p.decrypt_buffer input v fits ∙ e

      enough : used b + 1 ≡ suc (suc (used b - 1))
      enough = omega (arith, length-contents b bv, ap length be, length-wire size s ss tail ok.0)

      skip :
          (if ltb (remain p.decrypt_buffer) (length input)
            then some (switch_state rand client config failed p)
            else decrypt_all rand client config (used b + 1) q)
          ≡ decrypt_all rand client config (used b + 1) q
      skip = ground (arith, fits)

  -- A stream of texts that the other side encrypted, the last parcel possibly cut, reaches the client
  -- in order and whole: when a readable event gives the bytes that follow those in the buffer, all of
  -- them at most 8192, the client of a connected tunnel in S_TRANS is given the texts of every parcel
  -- that is complete, in one call, and the bytes behind the last of them stay in the buffer.
  pub on_readable-Delivers :
      (size : ℕ) (input : List ℕ) (p : Proxy) (s : Sent) (ss : List Sent) (tail : List ℕ)
      → p.connected ≡ true
      → p.state ≡ trans
      → IsSegment p.decrypt_buffer
      → p.decrypt_buffer.size ≡ 32768
      → All (Fits size) (s ∷ ss)
      → contents p.decrypt_buffer ++ input ≡ wire size (s ∷ ss) ++ tail
      → unpack tail cipher_buffer_size ≡ refused tail
      → length (wire size (s ∷ ss) ++ tail) ≤ 8192
      → Delivers p (texts (s ∷ ss)) tail (on_readable rand client config (got input) p)
  unfolding on_readable roomed
  on_readable-Delivers size input p s ss tail on st v sz ok e r le =
      let d =
        received-Delivers size input (record p { decrypt_buffer = b }) s ss tail st same.0 room ok
          (ap (λ xs. xs ++ input) same.1 ∙ e) r le in
      record {
        buffer = d.buffer;
        result = ap (received rand client config input) start ∙ d.result;
        left = d.left;
      }
    where
      b : Segment
      b = roomed (length input) p.decrypt_buffer

      few : used p.decrypt_buffer + length input ≤ 8192
      few = omega (
        arith,
        length-contents p.decrypt_buffer v,
        length-append (contents p.decrypt_buffer) input,
        ap length e,
        le,
      )

      same :
          IsSegment b × (contents b ≡ contents p.decrypt_buffer) × (used b ≡ used p.decrypt_buffer)
      same = roomed_same (length input) p.decrypt_buffer v sz few

      room : length input ≤ remain b
      room = roomy p.decrypt_buffer (length input) v sz few

      start :
          make_room rand client config (length input) (connected_once rand client config p)
          ≡ record p { decrypt_buffer = b }
      start =
          ap (make_room rand client config (length input)) (already p on)
          ∙ make_room-roomed (length input) p
