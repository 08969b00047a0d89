-- ===== src/Proxy/Events/Sending.antt =====
-- What a writable event sends: the bytes counted out of the queues, and the invariants.
use vpn_service_android.Common.{
  ℕ, zero, suc, ◌+◌, ◌-◌, ◌^◌, ◌≤◌, ◌<◌, ◌≡◌, refl, sym, ap, ◌∙◌, subst, List, [], ◌∷◌, true, arith,
  not, ltb, leb, inl, inr, Bool-cases, if◌then◌else◌, Option, none, some, length, u32, All,
}
use vpn_service_android.Buffer.Segment.{Segment, used, contents, consume}
use vpn_service_android.Buffer.Queue
use vpn_service_android.Buffer.Segment.Laws.{IsSegment, consume-IsSegment, length-contents}
use vpn_service_android.Proxy.State.{
  S5State, init, greet, verify, connect, trans, end, failed, in_state, write, del_event, Proxy,
}
use vpn_service_android.Proxy.Calls.{Channel, handshake, payload, queue_of, set_queue}
use vpn_service_android.Proxy.Calls.Accounts.{total, IsProxy, Keeps-trans}
use vpn_service_android.Proxy.Calls.Queueing.{set_queue-Keeps, encrypt_and_queue-Keeps}
use vpn_service_android.Proxy.Handshake.{Config, Client, switch_state, send_greet}
use vpn_service_android.Proxy.Handshake.Moves.{
  Step, greeted, Runs, Runs-refl, Runs-trans, Runs-Keeps, if-Runs, encrypt-Runs, writable-Runs,
  switch-Runs,
}
use vpn_service_android.Proxy.Events.{
  send_segments, queue_fuel, sent_out, send_queue, connected_once, writable_done, on_writable,
}
use vpn_service_android.Proxy.Events.Accounts.{Handles, Runs-Handles, react-Runs, connected-Runs}

-- `send` takes no more than it is given.
abbrev pub TakesGiven : (ℕ → List ℕ → Option ℕ) → Type 0
TakesGiven replies = (i : ℕ) (b : List ℕ) (n : ℕ) → replies i b ≡ some n → n ≤ length b

-- The bytes sent and those left are the bytes that were queued, modulo the width of the count.
record Splits (q : List Segment) (r : List Segment × ℕ) : Type 0 where
  account : u32 (total r.0 + r.1) ≡ u32 (total q)
  well_formed : All IsSegment r.0
  bounded : r.1 < 2 ^ 32

pub used-consume :
    (s : Segment) (n : ℕ) → n ≤ used s → IsSegment s → used (consume s n) + n ≡ used s
unfolding consume used
used-consume s n h v = ground arith

send_segments-Splits :
    (fuel i : ℕ) (replies : ℕ → List ℕ → Option ℕ) (q : List Segment)
    → TakesGiven replies
    → All IsSegment q
    → Splits q (send_segments fuel i replies q)
unfolding send_segments
send_segments-Splits fuel i replies [] takes v = record {
  account = refl;
  well_formed = tt;
  bounded = omega arith;
}
send_segments-Splits zero i replies (s ∷ q) takes v = record {
  account = omega arith;
  well_formed = v;
  bounded = omega arith;
}
send_segments-Splits (suc fuel) i replies (s ∷ q) takes v =
    by_reply (λ xs w. send_segments-Splits fuel (i + 1) replies xs takes w) (replies i (contents s))
      refl
  where
    by_reply :
        ((xs : List Segment) → All IsSegment xs → Splits xs (send_segments fuel (i + 1) replies xs))
        → (r : Option ℕ) → replies i (contents s) ≡ r
        → Splits (s ∷ q) (elim r as (λ _. List Segment × ℕ) [
          | none ↦ (s ∷ q, 0)
          | some n ↦
              let left = consume s n in
              let rest =
                send_segments fuel (i + 1) replies (if leb (used left) 0 then q else left ∷ q) in
              (rest.0, u32 (rest.1 + n))
        ])
    by_reply next none e = record { account = omega arith; well_formed = v; bounded = omega arith }
    by_reply next (some n) e =
        let given : n ≤ used s = omega (arith, takes i (contents s) n e, length-contents s v.0) in
        elim (Bool-cases (leb (used (consume s n)) 0)) [
          | inl over ↦ rw over (
              let r = next q v.1 in
              record {
                account = ground (arith, r.account, used-consume s n given v.0);
                well_formed = r.well_formed;
                bounded = omega arith;
              })
          | inr more ↦ rw more (
              let r = next (consume s n ∷ q) (consume-IsSegment s n v.0, v.1) in
              record {
                account = omega (arith, r.account, used-consume s n given v.0);
                well_formed = r.well_formed;
                bounded = omega arith;
              })
        ]

-- The queue that is left, whose bytes were counted out or none was sent.
left-IsProxy :
    (q : Channel) (xs : List Segment) (sent size : ℕ) (p : Proxy)
    → Splits (queue_of q p) (xs, sent)
    → size ≡ u32 (p.buffered_size + 2 ^ 32 - sent)
    → IsProxy p
    → IsProxy (record (set_queue q xs p) { buffered_size = size })
unfolding set_queue queue_of
left-IsProxy handshake xs sent size p r e v = record {
  account = omega (arith, r, v.account);
  reactor = v.reactor;
  socks5 = r.well_formed;
  out_queue = v.out_queue;
  decrypt_buffer = v.decrypt_buffer;
}
left-IsProxy payload xs sent size p r e v = record {
  account = omega (arith, r, v.account);
  reactor = v.reactor;
  socks5 = v.socks5;
  out_queue = r.well_formed;
  decrypt_buffer = v.decrypt_buffer;
}

-- A queue set leaves the count.
set_queue-size :
    (q : Channel) (xs : List Segment) (p : Proxy)
    → (set_queue q xs p).buffered_size ≡ p.buffered_size
unfolding set_queue
set_queue-size handshake xs p = refl
set_queue-size payload xs p = refl

sent_out-Runs :
    (q : Channel) (r : List Segment × ℕ) (p : Proxy)
    → Splits (queue_of q p) r
    → Runs p (sent_out q r p)
unfolding sent_out
sent_out-Runs q (xs, sent) p r = elim (Bool-cases (ltb 0 sent)) [
  | inl some_sent ↦ rw some_sent (
      Runs-Keeps
        (λ v.
          left-IsProxy q xs sent _ p r (ap (λ n. u32 (n + 2 ^ 32 - sent)) (set_queue-size q xs p))
            v)
        (Keeps-trans (set_queue-Keeps q xs p)
          (record { state = refl; buffer = refl; alive = λ h. h })))
  | inr none_sent ↦ rw none_sent (
      Runs-trans
        (Runs-Keeps
          (λ v. left-IsProxy q xs sent _ p r (set_queue-size q xs p ∙ ground (arith, v.account)) v)
          (set_queue-Keeps q xs p))
        (react-Runs (del_event write) _))
]

queue-IsSegment : (q : Channel) (p : Proxy) → IsProxy p → All IsSegment (queue_of q p)
unfolding queue_of
queue-IsSegment handshake p v = v.socks5
queue-IsSegment payload p v = v.out_queue

send_queue-Runs :
    (q : Channel) (replies : ℕ → List ℕ → Option ℕ) (p : Proxy)
    → TakesGiven replies
    → IsProxy p
    → Runs p (send_queue q replies p)
unfolding send_queue
send_queue-Runs q replies p takes v =
    if-Runs (Queue.empty (queue_of q p)) (react-Runs (del_event write) p) (
      sent_out-Runs q _ p (
        send_segments-Splits (queue_fuel (queue_of q p)) 0 replies (queue_of q p) takes
          (queue-IsSegment q p v)))

module _ (rand : ℕ → ℕ → ℕ → ℕ) (client : Client) (config : Config) where
  writable_done-Runs : (r : Proxy × ℕ) → Runs r.0 (writable_done rand client config r)
  unfolding writable_done
  writable_done-Runs (p, n) = if-Runs (leb n 0) (react-Runs (del_event write) p) (Runs-refl p)

  greeting-Runs :
      (p : Proxy)
      → p.state ≡ init
      → Runs p (switch_state rand client config greet (send_greet rand client config p).0)
  unfolding send_greet
  greeting-Runs p e = Runs-trans (encrypt-Runs rand handshake _ p) (
      switch-Runs rand client config greet _ (
        subst (λ s. Step s greet) (sym ((encrypt_and_queue-Keeps rand handshake _ p).state ∙ e))
          greeted))

  in_init : (s : S5State) → in_state s init ≡ true → s ≡ init
  in_init init h = refl
  in_init greet h = ground arith
  in_init verify h = ground arith
  in_init connect h = ground arith
  in_init trans h = ground arith
  in_init end h = ground arith
  in_init failed h = ground arith

  init_or_later :
      (q r : Proxy)
      → Runs q r
      → Runs q (
          if in_state q.state init
          then switch_state rand client config greet (send_greet rand client config q).0
          else r)
  init_or_later q r other = elim (Bool-cases (in_state q.state init)) [
    | inl first ↦
        subst
          (λ b. Runs q (
            if b
            then switch_state rand client config greet (send_greet rand client config q).0
            else r))
          (sym first) (greeting-Runs q (in_init q.state first))
    | inr later ↦
        subst
          (λ b. Runs q (
            if b
            then switch_state rand client config greet (send_greet rand client config q).0
            else r))
          (sym later) other
  ]

  -- A writable event, when `send` takes no more than it is given, keeps the accounts of the queues
  -- and a tunnel that has ended dead, and moves the handshake only along its steps.
  pub on_writable-Handles :
      (replies : ℕ → List ℕ → Option ℕ) (p : Proxy)
      → TakesGiven replies
      → IsProxy p
      → Handles p (on_writable rand client config replies p)
  unfolding on_writable
  on_writable-Handles replies p takes v =
      let c = connected-Runs rand client config p in
      let q = connected_once rand client config p in
      Runs-Handles (
        Runs-trans c (
          if-Runs (in_state q.state trans)
            (if-Runs (not (Queue.empty q.out_queue))
              (send_queue-Runs payload replies q takes (c.accounts v))
              (Runs-trans (writable-Runs rand client config q) (writable_done-Runs _)))
            (init_or_later q _ (
              if-Runs (Queue.empty q.socks5) (react-Runs (del_event write) q)
                (send_queue-Runs handshake replies q takes (c.accounts v))))))
