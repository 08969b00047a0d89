-- ===== src/Tcp/Output/Moves.antt =====
-- The states of a connection through the functions of the way back.
use vpn_service_android.Common.{
  ℕ, zero, suc, ◌/◌, ◌≤◌, ◌≡◌, inl, inr, refl, sym, ◌∙◌, List, [], ◌∷◌, ◌++◌, Bool, true, false,
  arith, ltb, ◌&&◌, if◌then◌else◌, Bool-cases, subst,
}
use vpn_service_android.Buffer.Queue
use vpn_service_android.Tcp.Session.{
  State, listen, syn_rcved, established, fin_wait1, fin_wait2, close_wait, closing, last_ack,
  time_wait, closed, is, Datagram, Effect, write_package, resume_receive, Session, emit, close,
  switch_state,
}
use vpn_service_android.Tcp.Output.{
  update_window_size, build_package, reset_sent, reset_connection, is_acked, pop_acked, Sent,
  sends_done, flush_sends, enqueue_back, flush_levels, session_buffer_size,
}
use vpn_service_android.Tcp.Output.Frame.{pop_acked-Frame, popped_one}

-- The edges of the connection's life, as RFC 793 draws them for the side that is opened passively,
-- and the end by a reset.
pub data Move : State → State → Type 0 where
  syn_received : Move listen syn_rcved
  shaken : Move syn_rcved established
  remote_ends : Move established fin_wait1
  local_ends : Move established close_wait
  remote_follows : Move close_wait last_ack
  fin_acked : Move fin_wait1 fin_wait2
  both_end : Move fin_wait1 closing
  fin_and_ack : Move fin_wait1 time_wait
  local_follows : Move fin_wait2 time_wait
  closing_acked : Move closing time_wait

pub data Reach (s : State) : State → Type 0 where
  here : Reach s s
  next : {t u : State} → Reach s t → Move t u → Reach s u

pub Reach-trans : {s t u : State} → Reach s t → Reach t u → Reach s u
Reach-trans r here = r
Reach-trans r (next q m) = next (Reach-trans r q) m

-- The data on the way to the remote side stays, and a session that lives on was alive, in the same
-- state.
pub record Stays (s t : Session) : Type 0 where
  pub forward : t.forward ≡ s.forward
  pub forward_size : t.forward_size ≡ s.forward_size
  pub alive : t.alive ≡ true → s.alive ≡ true
  pub state : t.alive ≡ true → t.state ≡ s.state

pub Stays-same :
    {s t : Session}
    → t.forward ≡ s.forward
    → t.forward_size ≡ s.forward_size
    → t.alive ≡ s.alive
    → t.state ≡ s.state
    → Stays s t
Stays-same a b c d = record {
  forward = a;
  forward_size = b;
  alive = λ h. sym c ∙ h;
  state = λ h. d;
}

pub Stays-trans : {s t u : Session} → Stays s t → Stays t u → Stays s u
Stays-trans p q = record {
  forward = q.forward ∙ p.forward;
  forward_size = q.forward_size ∙ p.forward_size;
  alive = λ h. p.alive (q.alive h);
  state = λ h. q.state h ∙ p.state (q.alive h);
}

emit-Stays : (e : Effect) (s : Session) → Stays s (emit e s)
unfolding emit
emit-Stays e s = Stays-same refl refl refl refl

-- A session that is moved to CLOSED dies.
pub switch_closed-Stays : (s : Session) → Stays s (switch_state closed s)
unfolding switch_state close emit
switch_closed-Stays s = ground arith

reset_sent-Stays : (r : Datagram × Bool) (s : Session) → Stays s (reset_sent r s)
unfolding reset_sent
reset_sent-Stays (d, true) s = Stays-trans (emit-Stays (write_package d) s) (switch_closed-Stays _)
reset_sent-Stays (d, false) s = Stays-same refl refl refl refl

pub reset-Stays : (room : ℕ) (s : Session) → Stays s (reset_connection room s)
unfolding reset_connection update_window_size
reset-Stays room s = Stays-trans (Stays-same refl refl refl refl) (reset_sent-Stays _ _)

pub if-Stays : (b : Bool) {s t u : Session} → Stays s t → Stays s u → Stays s (if b then t else u)
if-Stays true p q = p
if-Stays false p q = q

pub if-Stays_fst {ℓ} :
    {A : Type ℓ} (b : Bool) {s : Session} (t u : Session × A)
    → Stays s t.0
    → Stays s u.0
    → Stays s (if◌then◌else◌ {A = Session × A} b t u).0
if-Stays_fst true t u p q = p
if-Stays_fst false t u p q = q

pub pop_acked-Stays : (s : Session) → Stays s (pop_acked s.back s)
pop_acked-Stays s =
    let f = pop_acked-Frame s.back s in Stays-same f.forward f.forward_size f.alive f.state

sends_done-Stays : (room : ℕ) (r : Sent) (s : Session) → Stays s (sends_done room r s).0
unfolding sends_done
sends_done-Stays room r s =
    if-Stays_fst r.gap (reset_connection room after, 0) _
      (Stays-trans queued (reset-Stays room after))
      (if-Stays_fst (is s.state established && ltb s.back_size (session_buffer_size / 2))
        (emit resume_receive after, r.sent) (after, r.sent)
        (Stays-trans queued (emit-Stays resume_receive after)) queued)
  where
    after : Session
    after = record s { back = r.queue; log = s.log ++ r.writes }

    queued : Stays s after
    queued = Stays-same refl refl refl refl

pub flush_sends-Stays : (room : ℕ) (s : Session) → Stays s (flush_sends room s).0
unfolding flush_sends
flush_sends-Stays room s = sends_done-Stays room _ s

-- A segment that is neither acknowledged nor sent stays at the end of the queue.
pop_acked-keeps :
    (xs : List Datagram) (d : Datagram) (s : Session)
    → is_acked s.local_next d ≡ false
    → Queue.empty (pop_acked (xs ++ d ∷ []) s).back ≡ false
unfolding pop_acked popped_one emit Queue.empty
pop_acked-keeps [] d s h = rw h
pop_acked-keeps (x ∷ xs) d s h = elim (Bool-cases (is_acked s.local_next x)) [
  | inl gone ↦ rw gone (pop_acked-keeps xs d (popped_one x s) h)
  | inr kept ↦ rw kept
]

pushed_not_acked :
    (flag : ℕ) (payload : List ℕ) (s : Session)
    → s.local_next ≤ s.local_seq
    → is_acked s.local_next (build_package flag payload s) ≡ false
unfolding is_acked build_package
pushed_not_acked flag payload s h = ground arith

-- Behind a push the flush meets the segment pushed, so it ends no connection and needs one level.
pub flush-pushed :
    (level room flag : ℕ) (payload : List ℕ) (s : Session)
    → s.local_next ≤ s.local_seq
    → let q = enqueue_back flag payload s in
      flush_levels (suc level) room q ≡ (flush_sends room (pop_acked q.back q)).0
unfolding flush_levels enqueue_back Queue.push
flush-pushed level room flag payload s h = ground (
  arith,
  pop_acked-keeps s.back (build_package flag payload s) (enqueue_back flag payload s)
      (pushed_not_acked flag payload s h),
)

pub flush_levels-zero : (room : ℕ) (s : Session) → flush_levels zero room s ≡ s
unfolding flush_levels
flush_levels-zero room s = refl

-- A session that lives on was alive, and its state moved along the edges.
pub record Goes (s t : Session) : Type 0 where
  pub alive : t.alive ≡ true → s.alive ≡ true
  pub reach : t.alive ≡ true → Reach s.state t.state

pub Stays-Goes : {s t : Session} → Stays s t → Goes s t
Stays-Goes {s} p = record {
  alive = p.alive;
  reach = λ h. subst (λ x. Reach s.state x) (sym (p.state h)) here;
}

pub Goes-trans : {s t u : Session} → Goes s t → Goes t u → Goes s u
Goes-trans p q = record {
  alive = λ h. p.alive (q.alive h);
  reach = λ h. Reach-trans (p.reach (q.alive h)) (q.reach h);
}

pub if-Goes : (b : Bool) {s t u : Session} → Goes s t → Goes s u → Goes s (if b then t else u)
if-Goes true p q = p
if-Goes false p q = q

pub switch-Goes :
    (t : State) (s : Session) → (s.alive ≡ true → Move s.state t) → Goes s (switch_state t s)
unfolding switch_state close emit
switch-Goes t s m = elim (Bool-cases (is s.state t)) [
  | inl same ↦ rw same (Stays-Goes (Stays-same refl refl refl refl))
  | inr other ↦ rw other (elim (Bool-cases (is t closed)) [
    | inl ends ↦ rw ends (record { alive = ground arith; reach = ground arith })
    | inr lives ↦ rw lives (record { alive = λ h. h; reach = λ h. next here (m h) })
  ])
]
