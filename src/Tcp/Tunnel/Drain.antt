-- ===== src/Tcp/Tunnel/Drain.antt =====
-- The data for the remote side that the tunnel takes.
use vpn_service_android.Common.{
  ℕ, zero, suc, ◌+◌, ◌-◌, ◌≤◌, ◌≡◌, ◌≢◌, inl, inr, refl, sym, ap, ◌∙◌, List, [], ◌∷◌, ◌++◌, Bool,
  true, false, arith, ltb, leb, Bool-cases, if◌then◌else◌, u32, length, drop, length-drop, All,
  drop-append_le, drop-drop, drop-append,
}
use vpn_service_android.Tcp.Session.{Datagram, Session, traffic_sent, pause_send, emit}
use vpn_service_android.Buffer.Queue
use vpn_service_android.Tcp.Output.Accounts.{sizes, IsSession}
use vpn_service_android.Tcp.Tunnel.{
  Reply, took, refused, broken, consume, drain_reply, drain_forward, queued_bytes,
  on_tunnel_writable,
}

-- The bytes queued, in order, and a queue whose sizes are those of its data.
abbrev pub bytes_of : List Datagram → List ℕ
bytes_of [] = []
bytes_of (d ∷ ds) = d.payload ++ bytes_of ds

abbrev pub IsSized : List Datagram → Type 0
IsSized = All (λ (d : Datagram). d.size ≡ length d.payload)

-- A tunnel that lives through the calls, and takes no more than it is given.
abbrev pub TakesSome : (ℕ → List ℕ → Reply) → Type 0
TakesSome replies =
    ((i : ℕ) (b : List ℕ) → replies i b ≢ broken)
    × ((i : ℕ) (b : List ℕ) (n : ℕ) → replies i b ≡ took n → n ≤ length b)

-- The rest of the queue `q` when `r.1` bytes were taken from its front.
pub record Drained (q : List Datagram) (s : Session) (r : Session × ℕ) : Type 0 where
  pub queue : List Datagram
  pub result : r.0 ≡ record s { forward = queue }
  pub rest : bytes_of queue ≡ drop r.1 (bytes_of q)
  pub account : sizes queue + r.1 ≡ sizes q
  pub sized : IsSized queue

untouched :
    (q : List Datagram) (s : Session) → IsSized q → Drained q s (record s { forward = q }, 0)
untouched q s v = record { queue = q; result = refl; rest = refl; account = omega arith; sized = v }

-- The queue behind a datagram of which `n` bytes were taken.
abbrev taken : ℕ → Datagram → List Datagram → List Datagram
taken n d ds = if leb (consume n d).size 0 then ds else consume n d ∷ ds

consume_taken :
    (n : ℕ) (d : Datagram)
    → n ≤ d.size
    → consume n d ≡ record d { size = d.size - n; payload = drop n d.payload }
unfolding consume
consume_taken n d h = rw (ltb_fact)
  where
    ltb_fact : leb n d.size ≡ true
    ltb_fact = ground arith

taken_rest :
    (n : ℕ) (d : Datagram) (ds : List Datagram)
    → IsSized (d ∷ ds)
    → n ≤ length d.payload
    → IsSized (taken n d ds)
      × (bytes_of (taken n d ds) ≡ drop n (bytes_of (d ∷ ds)))
      × (sizes (taken n d ds) + n ≡ sizes (d ∷ ds))
taken_rest n d ds v h =
    rw (consume_taken n d (omega (arith, v.0))) (elim (Bool-cases (leb (d.size - n) 0)) [
      | inl over ↦ rw over (
        v.1,
        sym (drop-append d.payload (bytes_of ds) n (ground (arith, v.0))),
        ground (arith, v.0),
      )
      | inr more ↦ rw more (
        (omega (arith, v.0, length-drop n d.payload), v.1),
        sym (drop-append_le d.payload (bytes_of ds) n h),
        ground (arith, v.0),
      )
    ])

module _ (room : ℕ) (replies : ℕ → List ℕ → Reply) (takes : TakesSome replies) (s : Session) where
  drain_reply-Drained :
      (r : Reply) (d : Datagram) (ds : List Datagram) (k : List Datagram → Session × ℕ)
      → r ≢ broken
      → ((n : ℕ) → r ≡ took n → n ≤ length d.payload)
      → IsSized (d ∷ ds)
      → ((q : List Datagram) → IsSized q → Drained q s (k q))
      → Drained (d ∷ ds) s (drain_reply room d ds s k r)
  unfolding drain_reply
  drain_reply-Drained refused d ds k alive given v go = untouched (d ∷ ds) s v
  drain_reply-Drained broken d ds k alive given v go = absurd (alive refl)
  drain_reply-Drained (took n) d ds k alive given v go = elim (Bool-cases (leb n 0)) [
    | inl nothing ↦ rw nothing (untouched (d ∷ ds) s v)
    | inr some_bytes ↦ rw some_bytes (
        let t = taken_rest n d ds v (given n refl) in
        let rest = go (taken n d ds) t.0 in
        record {
          queue = rest.queue;
          result = rest.result;
          rest =
              rest.rest
              ∙ ap (drop (k (taken n d ds)).1) t.1
              ∙ drop-drop n (k (taken n d ds)).1 (bytes_of (d ∷ ds))
              ∙ ap (λ m. drop m (bytes_of (d ∷ ds))) (omega arith);
          account = omega (arith, rest.account, t.2);
          sized = rest.sized;
        })
  ]

  drain-Drained :
      (fuel i : ℕ) (q : List Datagram)
      → IsSized q
      → Drained q s (drain_forward fuel room i replies q s)
  unfolding drain_forward
  drain-Drained zero i [] v = untouched [] s v
  drain-Drained zero i (d ∷ ds) v = untouched (d ∷ ds) s v
  drain-Drained (suc fuel) i [] v = untouched [] s v
  drain-Drained (suc fuel) i (d ∷ ds) v =
      drain_reply-Drained (replies i d.payload) d ds _ (takes.0 i d.payload)
        (λ n e. takes.1 i d.payload n e) v (λ q w. drain-Drained fuel (i + 1) q w)

-- What a call of `onTunnelWritable` leaves.
pub record Writes (s : Session) (r : Session × ℕ) : Type 0 where
  pub accounts : IsSession s → IsSession r.0
  pub rest : bytes_of r.0.forward ≡ drop r.1 (bytes_of s.forward)
  pub sized : IsSized r.0.forward

if-Writes :
    (b : Bool) {s : Session} (r t : Session × ℕ)
    → (b ≡ true → Writes s r)
    → (b ≡ false → Writes s t)
    → Writes s (if b then r else t)
if-Writes true r t v w = v refl
if-Writes false r t v w = w refl

paused-Writes : (s : Session) → IsSized s.forward → Writes s (emit pause_send s, 0)
unfolding emit
paused-Writes s v = record {
  accounts = λ w. record {
    back_account = w.back_account;
    forward_account = w.forward_account;
    closed_dead = w.closed_dead;
  };
  rest = refl;
  sized = v;
}

Drained-Writes :
    (s : Session) (r : Session × ℕ)
    → Drained s.forward s r
    → Writes s (
      emit (traffic_sent r.1) (record r.0 {
        total_sent = u32 (r.0.total_sent + r.1);
        forward_size = r.0.forward_size - r.1;
      }),
      r.1,
    )
unfolding emit
Drained-Writes s r d = rw d.result (record {
  accounts = λ w. record {
    back_account = w.back_account;
    forward_account = omega (arith, w.forward_account, d.account);
    closed_dead = w.closed_dead;
  };
  rest = d.rest;
  sized = d.sized;
})

none-Writes :
    (s : Session) (r : Session × ℕ)
    → Drained s.forward s r
    → r.1 ≡ 0
    → Writes s (emit pause_send r.0, r.1)
unfolding emit
none-Writes s r d h = rw d.result (record {
  accounts = λ w. record {
    back_account = w.back_account;
    forward_account = omega (arith, w.forward_account, d.account);
    closed_dead = w.closed_dead;
  };
  rest = d.rest;
  sized = d.sized;
})

-- When a tunnel that stays alive asks for data and takes no more than it is given, the bytes it is
-- said to have taken are those at the front of what was queued for it, none is lost or repeated, and
-- the sizes kept stay those of the queues.
pub on_tunnel_writable-Writes :
    (room : ℕ) (replies : ℕ → List ℕ → Reply) (s : Session)
    → TakesSome replies
    → IsSized s.forward
    → Writes s (on_tunnel_writable room replies s)
unfolding on_tunnel_writable
on_tunnel_writable-Writes room replies s takes v =
    let r = drain_forward (queued_bytes s.forward) room 0 replies s.forward s in
    let d = drain-Drained room replies takes s (queued_bytes s.forward) 0 s.forward v in
    if-Writes (Queue.empty s.forward) _ _ (λ h. paused-Writes s v)
      (λ h.
        if-Writes (ltb 0 r.1) _ _ (λ some_sent. Drained-Writes s r d)
          (λ none_sent. none-Writes s r d (ground arith)))

-- When a tunnel that stays alive asks for data and takes no more than it is given, the bytes that the
-- call reports as sent are those at the front of what was queued, the rest stays in order, and the
-- sizes kept stay those of the queues.
pub on_tunnel_writable_lem :
    (room : ℕ) (replies : ℕ → List ℕ → Reply) (s : Session)
    → TakesSome replies
    → IsSized s.forward
    → IsSession s
    → IsSession (on_tunnel_writable room replies s).0
      × (bytes_of (on_tunnel_writable room replies s).0.forward
          ≡ drop (on_tunnel_writable room replies s).1 (bytes_of s.forward))
on_tunnel_writable_lem room replies s takes sized v =
    let w = on_tunnel_writable-Writes room replies s takes sized in (w.accounts v, w.rest)
