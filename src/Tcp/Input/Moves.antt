-- ===== src/Tcp/Input/Moves.antt =====
-- The states of a connection through the handling of packets from the tun device.
use vpn_service_android.Common.{
  ℕ, ◌+◌, ◌≡◌, inl, inr, refl, sym, ◌∙◌, subst, List, [], ◌∷◌, Bool, true, false, ltb, ◌==◌, ◌||◌,
  Bool-cases, if◌then◌else◌, length,
}
use vpn_service_android.Packet.Options.{Found, found, absent, running, outside, opt_sack}
use vpn_service_android.Packet.Sequence.{Compared, smaller, equal, greater}
use vpn_service_android.Tcp.Session.{
  State, listen, syn_rcved, established, fin_wait1, fin_wait2, close_wait, closing, last_ack,
  time_wait, closed, is, fin, syn, rst, ack, Session, emit, switch_state,
}
use vpn_service_android.Tcp.Output.{then_switch, push_in_back_queue}
use vpn_service_android.Tcp.Output.Moves.{
  Move, syn_received, shaken, local_ends, fin_acked, both_end, fin_and_ack, local_follows,
  closing_acked, Reach, Goes, Stays-Goes, Goes-trans, if-Goes, switch-Goes, switch_closed-Stays,
}
use vpn_service_android.Tcp.Output.Ends.{then_switch-Goes, state_is, flush-Goes, push-Stays}
use vpn_service_android.Tcp.Input.{
  Packet, packet_has, option_at, is_queued, place_of, enqueue_new, enqueue_by, enqueue_if_need,
  on_sack, sack_found, read_sack, with_found, syn_start, fin_numbers, fin_by_state, advance,
  data_queued, flush_unless, by_flags, syn_options, on_receive_syn, on_receive_rst, ack_then,
  fin_in_wait1, on_receive_fin, handshake_done, receive_data, accept_ack, accept_new, accept_data,
  accept,
}

-- A session of the same life and state.
pub same-Goes : {s t : Session} → t.alive ≡ s.alive → t.state ≡ s.state → Goes s t
same-Goes {s} a b = record {
  alive = λ h. sym a ∙ h;
  reach = λ h. subst (λ x. Reach s.state x) (sym b) Reach.here;
}

pub closed-Goes : (s : Session) → Goes s (switch_state closed s)
closed-Goes s = Stays-Goes (switch_closed-Stays s)

enqueue_new-Goes : (seq : ℕ) (p : Packet) (s : Session) → Goes s (enqueue_new seq p s).0
unfolding enqueue_new emit
enqueue_new-Goes seq p s = elim (Bool-cases (is_queued seq (place_of seq s).after)) [
  | inl queued ↦ rw queued (same-Goes refl refl)
  | inr fresh ↦ rw fresh (same-Goes refl refl)
]

enqueue_by-Goes :
    (c : Compared) (room seq : ℕ) (p : Packet) (s : Session) → Goes s (enqueue_by c room seq p s).0
unfolding enqueue_by
enqueue_by-Goes smaller room seq p s = Stays-Goes (push-Stays room ack [] s)
enqueue_by-Goes equal room seq p s = enqueue_new-Goes seq p s
enqueue_by-Goes greater room seq p s = enqueue_new-Goes seq p s

enqueue-Goes : (room : ℕ) (p : Packet) (s : Session) → Goes s (enqueue_if_need room p s).0
unfolding enqueue_if_need
enqueue-Goes room p s = elim (Bool-cases (length p.payload == 0)) [
  | inl nothing ↦ rw nothing (same-Goes refl refl)
  | inr there ↦ rw there (enqueue_by-Goes _ room _ p s)
]

-- Life and state are equal.
record Same (s t : Session) : Type 0 where
  alive : t.alive ≡ s.alive
  state : t.state ≡ s.state

on_sack-Same : (b : List ℕ) (s : Session) → Same s (on_sack b s)
unfolding on_sack
on_sack-Same [] s = record { alive = refl; state = refl }
on_sack-Same (n ∷ b) s = elim (Bool-cases (n == 10 || n == 18 || n == 26 || n == 34)) [
  | inl blocks ↦ rw blocks (record { alive = refl; state = refl })
  | inr other ↦ rw other (record { alive = refl; state = refl })
]

sack_found-Same : (f : Found) (s : Session) → Same s (sack_found f s)
unfolding sack_found
sack_found-Same (found at) s = on_sack-Same at s
sack_found-Same absent s = record { alive = refl; state = refl }
sack_found-Same running s = record { alive = refl; state = refl }
sack_found-Same outside s = record { alive = refl; state = refl }

if-Same : (b : Bool) {s t u : Session} → Same s t → Same s u → Same s (if b then t else u)
if-Same true p q = p
if-Same false p q = q

read_sack-Same : (p : Packet) (s : Session) → Same s (read_sack p s)
unfolding read_sack
read_sack-Same p s =
    if-Same s.sack (sack_found-Same (option_at opt_sack p) s)
      (record { alive = refl; state = refl })

with_found-Same :
    (set : List ℕ → Session → Session)
    → ((at : List ℕ) (t : Session) → Same t (set at t))
    → (f : Found) (s : Session) → Same s (with_found set f s)
unfolding with_found
with_found-Same set keep (found at) s = keep at s
with_found-Same set keep absent s = record { alive = refl; state = refl }
with_found-Same set keep running s = record { alive = refl; state = refl }
with_found-Same set keep outside s = record { alive = refl; state = refl }

Same-trans : {s t u : Session} → Same s t → Same t u → Same s u
Same-trans p q = record { alive = q.alive ∙ p.alive; state = q.state ∙ p.state }

syn_options-Same : (p : Packet) (s : Session) → Same s (syn_options p s)
unfolding syn_options
syn_options-Same p s =
    Same-trans (with_found-Same _ (λ at t. record { alive = refl; state = refl }) _ s) (
      Same-trans (with_found-Same _ (λ at t. record { alive = refl; state = refl }) _ _)
        (with_found-Same _ (λ at t. record { alive = refl; state = refl }) _ _))

-- A choice by a test that the first branch relies on.
tested-Goes :
    (b : Bool) {s t u : Session} → (b ≡ true → Goes s t) → Goes s u → Goes s (if b then t else u)
tested-Goes true p q = p refl
tested-Goes false p q = q

tested_fst-Goes {ℓ} :
    {A : Type ℓ} (b : Bool) {s : Session} (t u : Session × A)
    → (b ≡ true → Goes s t.0)
    → Goes s u.0
    → Goes s (if◌then◌else◌ {A = Session × A} b t u).0
tested_fst-Goes true t u p q = p refl
tested_fst-Goes false t u p q = q

-- A push, and a change of state along an edge from the state that stood before it.
pushed-Goes :
    (room flag : ℕ) (payload : List ℕ) (target : Session → State) (s : Session)
    → ((y : State) → y ≡ s.state → (t : Session) → Move y (target t))
    → Goes s (then_switch target (push_in_back_queue room flag payload s))
pushed-Goes room flag payload target s m =
    let p = push-Stays room flag payload s in then_switch-Goes target s _ p (λ l. m _ (p.state l) _)

-- An edge from a state that a test has found.
edge : {x y : State} {t : State} → Move x t → y ≡ x → Move y t
edge {t = t} m e = subst (λ z. Move z t) (sym e) m

syn-Goes : (draw room : ℕ) (p : Packet) (s : Session) → Goes s (on_receive_syn draw room p s)
unfolding on_receive_syn syn_start
syn-Goes draw room p s = elim (Bool-cases (is s.state listen)) [
  | inr other ↦ rw other (flush-Goes room s)
  | inl first ↦ rw first (
      Goes-trans (same-Goes (syn_options-Same p s).alive (syn_options-Same p s).state) (
        pushed-Goes room (syn + ack) [] (λ _. syn_rcved) _
          (λ y e t.
            edge syn_received (e ∙ (syn_options-Same p s).state ∙ state_is s.state listen first))))
]

fin_by_state-Goes : (room acked : ℕ) (s : Session) → Goes s (fin_by_state room acked s)
unfolding fin_by_state ack_then fin_in_wait1
fin_by_state-Goes room acked s =
    tested-Goes (is s.state established)
      (λ h.
        pushed-Goes room ack [] (λ _. close_wait) s
          (λ y e t. edge local_ends (e ∙ state_is s.state established h)))
      (tested-Goes (is s.state fin_wait1)
        (λ h.
          pushed-Goes room ack [] _ s
            (λ y e t. in_wait1 (acked == t.local_next) (e ∙ state_is s.state fin_wait1 h)))
        (tested-Goes (is s.state fin_wait2)
          (λ h.
            pushed-Goes room ack [] (λ _. time_wait) s
              (λ y e t. edge local_follows (e ∙ state_is s.state fin_wait2 h)))
          (Stays-Goes (push-Stays room ack [] s))))
  where
    in_wait1 : (b : Bool) {y : State} → y ≡ fin_wait1 → Move y (if b then time_wait else closing)
    in_wait1 true e = edge fin_and_ack e
    in_wait1 false e = edge both_end e

fin-Goes : (room : ℕ) (p : Packet) (s : Session) → Goes s (on_receive_fin room p s)
unfolding on_receive_fin fin_numbers
fin-Goes room p s = Goes-trans (same-Goes refl refl) (fin_by_state-Goes room _ _)

advance-Goes : (r : Session × ℕ) → Goes r.0 (advance r)
unfolding advance
advance-Goes (s, n) = same-Goes refl refl

data_queued-Goes : (room : ℕ) (r : Session × ℕ) → Goes r.0 (data_queued room r).0
unfolding data_queued
data_queued-Goes room (s, n) =
    tested_fst-Goes (ltb 0 n) _ _
      (λ h. Goes-trans (advance-Goes (s, n)) (Stays-Goes (push-Stays room ack [] _)))
      (same-Goes refl refl)

accept_ack-Goes : (room : ℕ) (p : Packet) (s : Session) → Goes s (accept_ack room p s).0
unfolding accept_ack handshake_done receive_data
accept_ack-Goes room p s =
    tested_fst-Goes (is s.state syn_rcved) _ _
      (λ h.
        Goes-trans (switch-Goes established s (λ l. edge shaken (state_is s.state syn_rcved h)))
          (Goes-trans (enqueue-Goes room p _) (advance-Goes _)))
      (tested_fst-Goes (is s.state fin_wait1) _ _
        (λ h. switch-Goes fin_wait2 s (λ l. edge fin_acked (state_is s.state fin_wait1 h)))
        (tested_fst-Goes (is s.state last_ack) _ _ (λ h. closed-Goes s)
          (tested_fst-Goes (is s.state closing) _ _
            (λ h. switch-Goes time_wait s (λ l. edge closing_acked (state_is s.state closing h)))
            (tested_fst-Goes (is s.state established) _ _
              (λ h.
                Goes-trans (same-Goes (read_sack-Same p s).alive (read_sack-Same p s).state)
                  (Goes-trans (enqueue-Goes room p _) (data_queued-Goes room _)))
              (same-Goes refl refl)))))

flush_unless-Goes : (room : ℕ) (r : Session × Bool) → Goes r.0 (flush_unless room r)
unfolding flush_unless
flush_unless-Goes room (s, true) = same-Goes refl refl
flush_unless-Goes room (s, false) = flush-Goes room s

accept_data-Goes : (room : ℕ) (p : Packet) (s : Session) → Goes s (accept_data room p s)
unfolding accept_data accept_new emit
accept_data-Goes room p s =
    if-Goes _
      (Goes-trans (same-Goes refl refl)
        (Goes-trans (accept_ack-Goes room p _) (flush_unless-Goes room _)))
      (if-Goes _ (same-Goes refl refl) (same-Goes refl refl))

-- A packet from the tun device, whatever it holds, never brings a dead session to life, and moves the
-- state of one that stays alive only along the edges of RFC 793.
pub accept-Goes : (now draw room : ℕ) (p : Packet) (s : Session) → Goes s (accept now draw room p s)
unfolding accept by_flags on_receive_rst emit
accept-Goes now draw room p s =
    Goes-trans
      (Goes-trans (same-Goes refl refl) (
        if-Goes (packet_has p syn) (syn-Goes draw room p _) (
          if-Goes (packet_has p fin) (fin-Goes room p _)
            (if-Goes (packet_has p rst) (closed-Goes _) (accept_data-Goes room p _)))))
      (same-Goes refl refl)

-- When a session is alive after a packet from the tun device, whatever the packet holds, it was alive
-- before, and its state has moved along the edges of RFC 793 alone.
pub accept-Reach :
    (now draw room : ℕ) (p : Packet) (s : Session)
    → (accept now draw room p s).alive ≡ true
    → (s.alive ≡ true) × Reach s.state (accept now draw room p s).state
accept-Reach now draw room p s h = let g = accept-Goes now draw room p s in (g.alive h, g.reach h)
