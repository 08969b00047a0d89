-- ===== src/Tcp/Output/Ends.antt =====
-- The states through a push, and through the flush that may end the connection.
use vpn_service_android.Common.{
  ℕ, zero, suc, ◌+◌, ◌≤◌, ◌≡◌, inl, inr, refl, sym, ap, ◌∙◌, List, [], Bool, true, arith, ltb, ◌&&◌,
  ◌||◌, if◌then◌else◌, Bool-cases, Option, none, some, length, subst,
}
use vpn_service_android.Buffer.Queue
use vpn_service_android.Tcp.Session.{
  State, listen, syn_sent, syn_rcved, established, fin_wait1, fin_wait2, close_wait, closing,
  last_ack, time_wait, closed, code, is, fin, ack, Session,
}
use vpn_service_android.Tcp.Output.{
  update_window_size, pop_acked, flush_sends, enqueue_back, push_with, then_switch, finish_with,
  flush_levels, flush_back_queue, push_in_back_queue,
}
use vpn_service_android.Tcp.Output.Moves.{
  remote_ends, remote_follows, Move, Stays, Stays-same, Stays-trans, pop_acked-Stays,
  flush_sends-Stays, flush-pushed, flush_levels-zero, Goes, Stays-Goes, Goes-trans, switch-Goes,
}

enqueue_back-Stays :
    (room flag : ℕ) (payload : List ℕ) (s : Session)
    → Stays s (enqueue_back flag payload (update_window_size room s))
unfolding enqueue_back update_window_size
enqueue_back-Stays room flag payload s = Stays-same refl refl refl refl

flush_pushed-Stays :
    (level room flag : ℕ) (payload : List ℕ) (s : Session)
    → s.local_next ≤ s.local_seq
    → Stays s (flush_levels level room (enqueue_back flag payload (update_window_size room s)))
unfolding update_window_size
flush_pushed-Stays zero room flag payload s h = zero_level
  where
    zero_level :
        Stays s (flush_levels zero room (enqueue_back flag payload (update_window_size room s)))
    zero_level =
        subst (Stays s) (sym (flush_levels-zero room _)) (enqueue_back-Stays room flag payload s)
flush_pushed-Stays (suc level) room flag payload s h =
    subst (Stays s) (sym (flush-pushed level room flag payload (update_window_size room s) h)) (
      Stays-trans (enqueue_back-Stays room flag payload s)
        (Stays-trans (pop_acked-Stays _) (flush_sends-Stays room _)))

-- A push keeps the state: its flush ends no connection.
pub push_levels-Stays :
    (level room flag : ℕ) (payload : List ℕ) (s : Session)
    → Stays s (push_with (flush_levels level room) room flag payload s).0
unfolding push_with
push_levels-Stays level room flag payload s = elim (Bool-cases (ltb s.local_seq s.local_next)) [
  | inl late ↦ rw late (Stays-same refl refl refl refl)
  | inr fine ↦ rw fine (flush_pushed-Stays level room flag payload s (ground arith))
]

pub then_switch-Goes :
    (target : Session → State) (s : Session) (r : Session × Option ℕ)
    → Stays s r.0
    → (r.0.alive ≡ true → Move r.0.state (target r.0))
    → Goes s (then_switch target r)
unfolding then_switch
then_switch-Goes target s (t, none) p m = Stays-Goes p
then_switch-Goes target s (t, some n) p m = Goes-trans (Stays-Goes p) (switch-Goes (target t) t m)

state_at : ℕ → State
state_at zero = listen
state_at (suc zero) = syn_sent
state_at (suc (suc zero)) = syn_rcved
state_at (suc (suc (suc zero))) = established
state_at (suc (suc (suc (suc zero)))) = fin_wait1
state_at (suc (suc (suc (suc (suc zero))))) = fin_wait2
state_at (suc (suc (suc (suc (suc (suc zero)))))) = close_wait
state_at (suc (suc (suc (suc (suc (suc (suc zero))))))) = closing
state_at (suc (suc (suc (suc (suc (suc (suc (suc zero)))))))) = last_ack
state_at (suc (suc (suc (suc (suc (suc (suc (suc (suc zero))))))))) = time_wait
state_at _ = closed

state_at-code : (s : State) → state_at (code s) ≡ s
unfolding state_at
state_at-code listen = refl
state_at-code syn_sent = refl
state_at-code syn_rcved = refl
state_at-code established = refl
state_at-code fin_wait1 = refl
state_at-code fin_wait2 = refl
state_at-code close_wait = refl
state_at-code closing = refl
state_at-code last_ack = refl
state_at-code time_wait = refl
state_at-code closed = refl

pub state_is : (s t : State) → is s t ≡ true → s ≡ t
state_is s t h =
    let same : code s ≡ code t = ground arith in
    sym (state_at-code s) ∙ ap state_at same ∙ state_at-code t

-- The end that the flush starts, in ESTABLISHED or CLOSE_WAIT.
finish-Goes :
    (level room : ℕ) (s : Session)
    → (is s.state established || is s.state close_wait) ≡ true
    → Goes s (finish_with (flush_levels level room) room s)
unfolding finish_with
finish-Goes level room s h =
    let p = push_levels-Stays level room (fin + ack) [] s in
    then_switch-Goes _ s _ p (λ l. from_state s.state h _ (p.state l))
  where
    from_state :
        (x : State)
        → (is x established || is x close_wait) ≡ true
        → (y : State) → y ≡ x
        → Move y (if is y established then fin_wait1 else last_ack)
    from_state established h y e = rw e remote_ends
    from_state close_wait h y e = rw e remote_follows
    from_state _ h y e = ground arith

pub flush_levels-Goes : (level room : ℕ) (s : Session) → Goes s (flush_levels level room s)
unfolding flush_levels
flush_levels-Goes zero room s = Stays-Goes (Stays-same refl refl refl refl)
flush_levels-Goes (suc level) room s =
    Goes-trans (Stays-Goes (pop_acked-Stays s)) (elim (Bool-cases ends) [
      | inl over ↦
          subst (λ b. Goes popped (if b then ended else flushed)) (sym over)
            (finish-Goes level room popped (ground arith))
      | inr goes_on ↦
          subst (λ b. Goes popped (if b then ended else flushed)) (sym goes_on)
            (Stays-Goes (flush_sends-Stays room popped))
    ])
  where
    popped : Session
    popped = pop_acked s.back s

    ended : Session
    ended = finish_with (flush_levels level room) room popped

    flushed : Session
    flushed = (flush_sends room popped).0

    ends : Bool
    ends =
        (popped.remote_finished && (is popped.state established || is popped.state close_wait))
        && Queue.empty popped.back

pub flush-Goes : (room : ℕ) (s : Session) → Goes s (flush_back_queue room s)
unfolding flush_back_queue
flush-Goes room s = flush_levels-Goes 2 room s

pub push-Stays :
    (room flag : ℕ) (payload : List ℕ) (s : Session)
    → Stays s (push_in_back_queue room flag payload s).0
unfolding push_in_back_queue flush_back_queue
push-Stays room flag payload s = push_levels-Stays 2 room flag payload s

push_levels_fuel :
    (level room flag : ℕ) (payload : List ℕ) (s : Session)
    → push_with (flush_levels (suc level) room) room flag payload s
      ≡ push_with (flush_levels 1 room) room flag payload s
unfolding push_with update_window_size
push_levels_fuel level room flag payload s = elim (Bool-cases (ltb s.local_seq s.local_next)) [
  | inl late ↦ rw late
  | inr fine ↦ rw fine (ap (λ t. (t, some (length payload))) (same_flush (ground arith)))
]
  where
    same_flush :
        s.local_next ≤ s.local_seq
        → flush_levels (suc level) room (enqueue_back flag payload (update_window_size room s))
          ≡ flush_levels 1 room (enqueue_back flag payload (update_window_size room s))
    same_flush h =
        flush-pushed level room flag payload (update_window_size room s) h
        ∙ sym (flush-pushed 0 room flag payload (update_window_size room s) h)

-- The two levels of mutual recursion that `flush_back_queue` is given are enough: the result is the
-- same for any number above.
pub flush_levels_enough :
    (level room : ℕ) (s : Session) → flush_levels (suc (suc level)) room s ≡ flush_back_queue room s
unfolding flush_levels flush_back_queue finish_with
flush_levels_enough level room s =
    rw (push_levels_fuel level room (fin + ack) [] (pop_acked s.back s))
