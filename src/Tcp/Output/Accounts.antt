-- ===== src/Tcp/Output/Accounts.antt =====
-- The accounts of a session's two queues, and the end of a closed session, through the functions of
-- the way back.
use vpn_service_android.Common.{
  ℕ, zero, suc, ◌+◌, ◌/◌, ◌≡◌, inl, inr, sym, ap, ◌∙◌, List, [], ◌∷◌, ◌++◌, Bool, true, false,
  arith, ltb, ◌&&◌, ◌||◌, if◌then◌else◌, Bool-cases, Option, none, some,
}
use vpn_service_android.Buffer.Queue
use vpn_service_android.Tcp.Session.{
  State, closed, established, close_wait, is, fin, ack, Datagram, Effect, write_package,
  resume_receive, Session, emit, close, switch_state,
}
use vpn_service_android.Tcp.Output.{
  update_window_size, build_package, reset_connection, pop_acked, Sent, send_limit, flush_sends,
  enqueue_back, push_with, finish_with, flush_levels, flush_back_queue, push_in_back_queue,
  reset_sent, sends_done, then_switch, session_buffer_size,
}
use vpn_service_android.Tcp.Output.Frame.{
  pop_acked-Frame, capacities, pop_acked-capacities, send_queue-capacities,
}

abbrev pub sizes : List Datagram → ℕ
sizes [] = 0
sizes (d ∷ ds) = d.size + sizes ds

-- The two sizes kept are those of the queues, and a session in CLOSED is dead.
pub record IsSession (s : Session) : Type 0 where
  pub back_account : s.back_size ≡ capacities s.back
  pub forward_account : s.forward_size ≡ sizes s.forward
  pub closed_dead : s.state ≡ closed → s.alive ≡ false

pub emit-IsSession : (e : Effect) (s : Session) → IsSession s → IsSession (emit e s)
unfolding emit
emit-IsSession e s v = record {
  back_account = v.back_account;
  forward_account = v.forward_account;
  closed_dead = v.closed_dead;
}

pub switch_state-IsSession : (t : State) (s : Session) → IsSession s → IsSession (switch_state t s)
unfolding switch_state close emit
switch_state-IsSession t s v = ground arith

update-IsSession : (room : ℕ) (s : Session) → IsSession s → IsSession (update_window_size room s)
unfolding update_window_size
update-IsSession room s v = record {
  back_account = v.back_account;
  forward_account = v.forward_account;
  closed_dead = v.closed_dead;
}

reset_sent-IsSession :
    (r : Datagram × Bool) (s : Session) → IsSession s → IsSession (reset_sent r s)
unfolding reset_sent
reset_sent-IsSession (d, true) s v =
    switch_state-IsSession closed _ (emit-IsSession (write_package d) s v)
reset_sent-IsSession (d, false) s v = v

pub reset-IsSession : (room : ℕ) (s : Session) → IsSession s → IsSession (reset_connection room s)
unfolding reset_connection update_window_size
reset-IsSession room s v = reset_sent-IsSession _ _ (record {
  back_account = v.back_account;
  forward_account = v.forward_account;
  closed_dead = v.closed_dead;
})

pub pop_acked-IsSession : (s : Session) → IsSession s → IsSession (pop_acked s.back s)
pop_acked-IsSession s v =
    let f = pop_acked-Frame s.back s in
    record {
      back_account = pop_acked-capacities s.back s v.back_account;
      forward_account = f.forward_size ∙ v.forward_account ∙ ap sizes (sym f.forward);
      closed_dead = λ e. f.alive ∙ v.closed_dead (sym f.state ∙ e);
    }

sends_done-IsSession :
    (room : ℕ) (r : Sent) (s : Session)
    → capacities r.queue ≡ capacities s.back
    → IsSession s
    → IsSession (sends_done room r s).0
unfolding sends_done
sends_done-IsSession room r s e v = elim (Bool-cases r.gap) [
  | inl gap ↦ rw gap (reset-IsSession room _ after)
  | inr no_gap ↦
      rw no_gap
        (elim (Bool-cases (is s.state established && ltb s.back_size (session_buffer_size / 2))) [
          | inl more ↦ rw more (emit-IsSession resume_receive _ after)
          | inr less ↦ rw less after
        ])
]
  where
    after : IsSession (record s { back = r.queue; log = s.log ++ r.writes })
    after = record {
      back_account = v.back_account ∙ sym e;
      forward_account = v.forward_account;
      closed_dead = v.closed_dead;
    }

pub flush_sends-IsSession :
    (room : ℕ) (s : Session) → IsSession s → IsSession (flush_sends room s).0
unfolding flush_sends
flush_sends-IsSession room s v =
    sends_done-IsSession room _ s (send_queue-capacities s.local_next (send_limit s) 0 0 0 s.back) v

capacities-push :
    (q : List Datagram) (d : Datagram) → capacities (q ++ d ∷ []) ≡ capacities q + d.capacity
capacities-push [] d = omega arith
capacities-push (x ∷ q) d = omega (arith, capacities-push q d)

pub enqueue_back-IsSession :
    (flag : ℕ) (payload : List ℕ) (s : Session)
    → IsSession s
    → IsSession (enqueue_back flag payload s)
unfolding enqueue_back Queue.push
enqueue_back-IsSession flag payload s v = record {
  back_account =
      omega (arith, v.back_account, capacities-push s.back (build_package flag payload s));
  forward_account = v.forward_account;
  closed_dead = v.closed_dead;
}

module _ (flush : Session → Session)
    (keep : (s : Session) → IsSession s → IsSession (flush s)) where
  push_with-IsSession :
      (room flag : ℕ) (payload : List ℕ) (s : Session)
      → IsSession s
      → IsSession (push_with flush room flag payload s).0
  unfolding push_with
  push_with-IsSession room flag payload s v = elim (Bool-cases (ltb s.local_seq s.local_next)) [
    | inl late ↦ rw late v
    | inr fine ↦
        rw fine (keep _ (enqueue_back-IsSession flag payload _ (update-IsSession room s v)))
  ]

pub then_switch-IsSession :
    (next : Session → State) (r : Session × Option ℕ)
    → IsSession r.0
    → IsSession (then_switch next r)
unfolding then_switch
then_switch-IsSession next (s, none) v = v
then_switch-IsSession next (s, some n) v = switch_state-IsSession (next s) s v

pub flush_levels-IsSession :
    (level room : ℕ) (s : Session) → IsSession s → IsSession (flush_levels level room s)
unfolding flush_levels finish_with
flush_levels-IsSession zero room s v = v
flush_levels-IsSession (suc level) room s v = elim (Bool-cases ends) [
  | inl yes_ends ↦ rw yes_ends (
      then_switch-IsSession _ _ (
        push_with-IsSession (flush_levels level room) (λ t w. flush_levels-IsSession level room t w)
          room (fin + ack) [] popped (pop_acked-IsSession s v)))
  | inr goes_on ↦ rw goes_on (flush_sends-IsSession room popped (pop_acked-IsSession s v))
]
  where
    popped : Session
    popped = pop_acked s.back s

    ends : Bool
    ends =
        (popped.remote_finished && (is popped.state established || is popped.state close_wait))
        && Queue.empty popped.back

pub flush-IsSession : (room : ℕ) (s : Session) → IsSession s → IsSession (flush_back_queue room s)
unfolding flush_back_queue
flush-IsSession room s v = flush_levels-IsSession 2 room s v

pub push-IsSession :
    (room flag : ℕ) (payload : List ℕ) (s : Session)
    → IsSession s
    → IsSession (push_in_back_queue room flag payload s).0
unfolding push_in_back_queue
push-IsSession room flag payload s v =
    push_with-IsSession (flush_back_queue room) (flush-IsSession room) room flag payload s v

pub if-IsSession :
    (b : Bool) {s t : Session} → IsSession s → IsSession t → IsSession (if b then s else t)
if-IsSession true v w = v
if-IsSession false v w = w

pub if-IsSession_fst {ℓ} :
    {A : Type ℓ} (b : Bool) (s t : Session × A)
    → IsSession s.0
    → IsSession t.0
    → IsSession (if◌then◌else◌ {A = Session × A} b s t).0
if-IsSession_fst true s t v w = v
if-IsSession_fst false s t v w = w
