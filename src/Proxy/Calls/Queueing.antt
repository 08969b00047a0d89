-- ===== src/Proxy/Calls/Queueing.antt =====
-- The account of the bytes queued through `encryptAndQueue`, and all calls of the client.
use vpn_service_android.Common.{
  ℕ, ◌+◌, ◌≤◌, ◌<◌, ◌≡◌, refl, sym, List, [], ◌∷◌, ◌++◌, Bool, true, false, arith, ◌||◌, not, ltb,
  leb, u32, length, take, drop, length-take, subst, All, inl, inr, Bool-cases, if◌then◌else◌,
}
use vpn_service_android.Buffer.Segment.{Segment, create, used, write_len, remain}
use vpn_service_android.Buffer.Segment
use vpn_service_android.Buffer.Queue
use vpn_service_android.Buffer.Segment.Laws.{IsSegment, create-IsSegment, write-IsSegment}
use vpn_service_android.Cipher.Crypt.{Output, encrypt, estimate_encrypt_len}
use vpn_service_android.Cipher.Crypt.Rounds.{padded, rounds-codes}
use vpn_service_android.Cipher.Parcel.{pack}
use vpn_service_android.Cipher.Coder.{cipher_buffer_size}
use vpn_service_android.Cipher.Crypt.Estimate.{padded_bound, parcel_length, estimate-le}
use vpn_service_android.Proxy.State.{
  Effect, add_event, null_reactor, write, Proxy, note, react, share_buffer_size,
}
use vpn_service_android.Proxy.Calls.{
  get_available_buffer_size, request_send_data, pause_send_data, pause_receive_data,
  resume_receive_data, Channel, handshake, payload, queue_of, set_queue, wire_segment, queue_output,
  encrypt_and_queue, send_data, Call, send, request_send, pause_send, pause_receive, resume_receive,
  destroy, perform, perform_all,
}
use vpn_service_android.Proxy.Calls.Accounts.{
  total, IsProxy, Keeps, Keeps-refl, Keeps-trans, if-IsProxy_fst, if-Keeps_fst, react-IsProxy,
  react-Keeps, destroy-Keeps, destroy-IsProxy, switch_event-IsProxy, switch_event-Keeps,
}

record Small (o : Output) : Type 0 where
  bound : length o.out ≤ 8192

if-Small : (b : Bool) {o q : Output} → Small o → Small q → Small (if b then o else q)
if-Small true v w = v
if-Small false v w = w

-- What `encrypt` writes fits the buffer that the proxy gives it.
encrypt-Small : (rand : ℕ → ℕ → ℕ) (input : List ℕ) → Small (encrypt rand input share_buffer_size)
unfolding encrypt
encrypt-Small rand input = rw (rounds-codes rand (take 4096 input) small) (
    if-Small (leb (length input) 0 || leb share_buffer_size 0) nothing (
      if-Small (ltb cipher_buffer_size (length (take 4096 input))) nothing (
        if-Small (ltb share_buffer_size (estimate_encrypt_len (length (take 4096 input)))) nothing
          written)))
  where
    small : length (take 4096 input) ≤ 4096
    small = omega (arith, length-take 4096 input)

    written : Small (record {
      out = pack (padded rand (take 4096 input)) share_buffer_size;
      rest = drop 4096 input;
    })
    written = record {
      bound = omega (
        arith,
        padded_bound rand (take 4096 input) small,
        parcel_length rand (take 4096 input) small 8192
            (estimate-le (length (take 4096 input)) small),
      );
    }

    nothing : Small (record { out = []; rest = input })
    nothing = record { bound = omega arith }

used-wire_segment :
    (out : List ℕ) → 0 < length out → length out ≤ 8192 → used (wire_segment out) ≡ length out
unfolding wire_segment Segment.write write_len create used
used-wire_segment out p h = ground arith

wire_segment-IsSegment : (out : List ℕ) → IsSegment (wire_segment out)
unfolding wire_segment
wire_segment-IsSegment out =
    write-IsSegment (create (length out)) out (create-IsSegment (length out))

pub total-push : (q : List Segment) (s : Segment) → total (q ++ s ∷ []) ≡ total q + used s
total-push [] s = omega arith
total-push (x ∷ q) s = omega (arith, total-push q s)

All-push :
    (q : List Segment) (s : Segment) → All IsSegment q → IsSegment s → All IsSegment (q ++ s ∷ [])
All-push [] s v w = (w, tt)
All-push (x ∷ q) s v w = (v.0, All-push q s v.1 w)

-- The number of bytes may be counted before the reactor is called.
unfoldable pub counted : ℕ → Proxy → Proxy
counted n p = record p { buffered_size = u32 (p.buffered_size + n) }

counted-react : (e : Effect) (n : ℕ) (p : Proxy) → counted n (react e p) ≡ react e (counted n p)
unfolding counted react note
counted-react e n p = by_reactor p.reactor
  where
    by_reactor :
        (b : Bool)
        → counted n (if b then note e p else note null_reactor p)
          ≡ (if b then note e (counted n p) else note null_reactor (counted n p))
    by_reactor true = refl
    by_reactor false = refl

pushed-IsProxy :
    (q : Channel) (out : List ℕ) (p : Proxy)
    → 0 < length out
    → length out ≤ 8192
    → IsProxy p
    → IsProxy (counted (length out) (set_queue q (Queue.push (queue_of q p) (wire_segment out)) p))
unfolding counted set_queue queue_of Queue.push
pushed-IsProxy handshake out p h b v = record {
  account =
      omega (arith, v.account, total-push p.socks5 (wire_segment out), used-wire_segment out h b);
  reactor = v.reactor;
  socks5 = All-push p.socks5 _ v.socks5 (wire_segment-IsSegment out);
  out_queue = v.out_queue;
  decrypt_buffer = v.decrypt_buffer;
}
pushed-IsProxy payload out p h b v = record {
  account =
      omega
        (arith, v.account, total-push p.out_queue (wire_segment out), used-wire_segment out h b);
  reactor = v.reactor;
  socks5 = v.socks5;
  out_queue = All-push p.out_queue _ v.out_queue (wire_segment-IsSegment out);
  decrypt_buffer = v.decrypt_buffer;
}

pub set_queue-Keeps : (q : Channel) (xs : List Segment) (p : Proxy) → Keeps p (set_queue q xs p)
unfolding set_queue
set_queue-Keeps handshake xs p = record { state = refl; buffer = refl; alive = λ h. h }
set_queue-Keeps payload xs p = record { state = refl; buffer = refl; alive = λ h. h }

pub counted-Keeps : (n : ℕ) (p : Proxy) → Keeps p (counted n p)
unfolding counted
counted-Keeps n p = record { state = refl; buffer = refl; alive = λ h. h }

module _ (rand : ℕ → ℕ → ℕ → ℕ) where
  queue_output-IsProxy :
      (q : Channel) (len : ℕ) (o : Output) (p : Proxy)
      → length o.out ≤ 8192
      → IsProxy p
      → IsProxy (queue_output rand q len o p).0
  unfolding queue_output counted
  queue_output-IsProxy q len o p b v = elim (Bool-cases (ltb 0 (length o.out))) [
    | inl some_out ↦ rw some_out (
        subst IsProxy (sym (counted-react (add_event write) (length o.out) _))
          (react-IsProxy (add_event write) _ (pushed-IsProxy q o.out p (ground arith) b v)))
    | inr no_out ↦ rw no_out v
  ]

  queue_output-Keeps :
      (q : Channel) (len : ℕ) (o : Output) (p : Proxy) → Keeps p (queue_output rand q len o p).0
  unfolding queue_output counted
  queue_output-Keeps q len o p =
      if-Keeps_fst (ltb 0 (length o.out)) _ _
        (Keeps-trans (Keeps-trans (set_queue-Keeps q _ p) (react-Keeps (add_event write) _))
          (counted-Keeps (length o.out) _))
        (Keeps-refl p)

  pub encrypt_and_queue-IsProxy :
      (q : Channel) (input : List ℕ) (p : Proxy)
      → IsProxy p
      → IsProxy (encrypt_and_queue rand q input p).0
  unfolding encrypt_and_queue
  encrypt_and_queue-IsProxy q input p v =
      queue_output-IsProxy q (length input) _ p (encrypt-Small (rand (length p.log)) input).bound v

  pub encrypt_and_queue-Keeps :
      (q : Channel) (input : List ℕ) (p : Proxy) → Keeps p (encrypt_and_queue rand q input p).0
  unfolding encrypt_and_queue
  encrypt_and_queue-Keeps q input p = queue_output-Keeps q (length input) _ p

  perform-IsProxy : (c : Call) (p : Proxy) → IsProxy p → IsProxy (perform rand c p)
  unfolding perform send_data request_send_data pause_send_data pause_receive_data
      resume_receive_data
  perform-IsProxy (send input) p v = if-IsProxy_fst (not p.alive) _ _ v (
      if-IsProxy_fst (ltb (get_available_buffer_size p) (length input)) _ _ v
        (encrypt_and_queue-IsProxy payload input p v))
  perform-IsProxy request_send p v = switch_event-IsProxy _ p v
  perform-IsProxy pause_send p v = switch_event-IsProxy _ p v
  perform-IsProxy pause_receive p v = switch_event-IsProxy _ p v
  perform-IsProxy resume_receive p v = switch_event-IsProxy _ p v
  perform-IsProxy destroy p v = destroy-IsProxy p v

  perform-Keeps : (c : Call) (p : Proxy) → Keeps p (perform rand c p)
  unfolding perform send_data request_send_data pause_send_data pause_receive_data
      resume_receive_data
  perform-Keeps (send input) p = if-Keeps_fst (not p.alive) _ _ (Keeps-refl p) (
      if-Keeps_fst (ltb (get_available_buffer_size p) (length input)) _ _ (Keeps-refl p)
        (encrypt_and_queue-Keeps payload input p))
  perform-Keeps request_send p = switch_event-Keeps _ p
  perform-Keeps pause_send p = switch_event-Keeps _ p
  perform-Keeps pause_receive p = switch_event-Keeps _ p
  perform-Keeps resume_receive p = switch_event-Keeps _ p
  perform-Keeps destroy p = destroy-Keeps p

  pub perform_all-IsProxy :
      (cs : List Call) (p : Proxy) → IsProxy p → IsProxy (perform_all rand cs p)
  unfolding perform_all
  perform_all-IsProxy [] p v = v
  perform_all-IsProxy (c ∷ cs) p v = perform_all-IsProxy cs _ (perform-IsProxy c p v)

  pub perform_all-Keeps : (cs : List Call) (p : Proxy) → Keeps p (perform_all rand cs p)
  unfolding perform_all
  perform_all-Keeps [] p = Keeps-refl p
  perform_all-Keeps (c ∷ cs) p = Keeps-trans (perform-Keeps c p) (perform_all-Keeps cs _)
