-- ===== src/Tcp/Tunnel/Accounts.antt =====
-- The accounts and the states of a session through what the tunnel calls.
use vpn_service_android.Common.{
  ℕ, zero, suc, ◌+◌, ◌≡◌, refl, List, [], ◌∷◌, Bool, true, false, ltb, leb, if◌then◌else◌, u32,
  Option, none, some, length, take, drop,
}
use vpn_service_android.Tcp.Session.{
  State, listen, syn_sent, syn_rcved, established, fin_wait1, fin_wait2, close_wait, closing,
  last_ack, time_wait, closed, ack, Effect, pause_receive, traffic_recv, Session, emit,
  switch_state,
}
use vpn_service_android.Tcp.Output.{reset_connection, push_in_back_queue, session_buffer_size}
use vpn_service_android.Tcp.Output.Accounts.{
  IsSession, switch_state-IsSession, reset-IsSession, flush-IsSession, push-IsSession,
}
use vpn_service_android.Tcp.Output.Moves.{Goes, Goes-trans, Stays-Goes, reset-Stays, Reach}
use vpn_service_android.Tcp.Output.Ends.{flush-Goes, push-Stays}
use vpn_service_android.Tcp.Input.Accounts.{IsSession-same}
use vpn_service_android.Tcp.Input.Moves.{same-Goes, closed-Goes}
use vpn_service_android.Tcp.Tunnel.{
  ip_payload_size, on_remote_finished, disconnected_in, on_tunnel_disconnected, piece_pushed,
  relay_pieces, relay_data, on_tunnel_data_back,
}

-- A session that keeps its accounts, and whose state moves along the edges while it lives.
pub record Fares (s t : Session) : Type 0 where
  pub accounts : IsSession s → IsSession t
  pub goes : Goes s t

Fares-refl : (s : Session) → Fares s s
Fares-refl s = record { accounts = λ v. v; goes = same-Goes refl refl }

Fares-trans : {s t u : Session} → Fares s t → Fares t u → Fares s u
Fares-trans p q = record {
  accounts = λ v. q.accounts (p.accounts v);
  goes = Goes-trans p.goes q.goes;
}

if-Fares : (b : Bool) {s t u : Session} → Fares s t → Fares s u → Fares s (if b then t else u)
if-Fares true p q = p
if-Fares false p q = q

emit-Fares : (e : Effect) (s : Session) → Fares s (emit e s)
unfolding emit
emit-Fares e s = record {
  accounts = λ v. IsSession-same refl refl refl refl refl refl v;
  goes = same-Goes refl refl;
}

finished-Fares : (room : ℕ) (s : Session) → Fares s (on_remote_finished room s)
unfolding on_remote_finished
finished-Fares room s = record {
  accounts = λ v. flush-IsSession room _ (IsSession-same refl refl refl refl refl refl v);
  goes = Goes-trans (same-Goes refl refl) (flush-Goes room _);
}

closed-Fares : (s : Session) → Fares s (switch_state closed s)
closed-Fares s = record { accounts = λ v. switch_state-IsSession closed s v; goes = closed-Goes s }

reset-Fares : (room : ℕ) (s : Session) → Fares s (reset_connection room s)
reset-Fares room s = record {
  accounts = λ v. reset-IsSession room s v;
  goes = Stays-Goes (reset-Stays room s);
}

disconnected_in-Fares : (x : State) (room : ℕ) (s : Session) → Fares s (disconnected_in x room s)
unfolding disconnected_in
disconnected_in-Fares close_wait room s = finished-Fares room s
disconnected_in-Fares established room s = finished-Fares room s
disconnected_in-Fares time_wait room s = closed-Fares s
disconnected_in-Fares closing room s = closed-Fares s
disconnected_in-Fares fin_wait1 room s = closed-Fares s
disconnected_in-Fares fin_wait2 room s = closed-Fares s
disconnected_in-Fares listen room s = reset-Fares room s
disconnected_in-Fares syn_sent room s = reset-Fares room s
disconnected_in-Fares syn_rcved room s = reset-Fares room s
disconnected_in-Fares last_ack room s = reset-Fares room s
disconnected_in-Fares closed room s = reset-Fares room s

-- The end of the tunnel.
pub on_tunnel_disconnected-Fares :
    (room : ℕ) (s : Session) → Fares s (on_tunnel_disconnected room s)
unfolding on_tunnel_disconnected
on_tunnel_disconnected-Fares room s = disconnected_in-Fares s.state room s

push-Fares :
    (room flag : ℕ) (payload : List ℕ) (s : Session)
    → Fares s (push_in_back_queue room flag payload s).0
push-Fares room flag payload s = record {
  accounts = λ v. push-IsSession room flag payload s v;
  goes = Stays-Goes (push-Stays room flag payload s);
}

piece-Fares :
    (n : ℕ) (k : Session → Session × ℕ) (s : Session) (r : Session × Option ℕ)
    → Fares s r.0
    → ((t : Session) → Fares t (k t).0)
    → Fares s (piece_pushed n k r).0
unfolding piece_pushed
piece-Fares n k s (t, none) f go = f
piece-Fares n k s (t, some m) f go = Fares-trans f (go t)

relay_pieces-Fares :
    (fuel room : ℕ) (input : List ℕ) (s : Session) → Fares s (relay_pieces fuel room input s).0
unfolding relay_pieces
relay_pieces-Fares zero room [] s = Fares-refl s
relay_pieces-Fares zero room (x ∷ xs) s = Fares-refl s
relay_pieces-Fares (suc fuel) room [] s = Fares-refl s
relay_pieces-Fares (suc fuel) room (x ∷ xs) s =
    piece-Fares _ _ s _ (push-Fares room ack (take ip_payload_size (x ∷ xs)) s)
      (λ t. relay_pieces-Fares fuel room (drop ip_payload_size (x ∷ xs)) t)

counted-Fares : (n : ℕ) (s : Session) → Fares s (record s { total_recv = u32 (s.total_recv + n) })
counted-Fares n s = record {
  accounts = λ v. IsSession-same refl refl refl refl refl refl v;
  goes = same-Goes refl refl;
}

relay_data-Fares : (room : ℕ) (input : List ℕ) (s : Session) → Fares s (relay_data room input s)
unfolding relay_data
relay_data-Fares room input s =
    let r = relay_pieces (length input) room input s in
    let counted =
      if ltb 0 r.1
      then emit (traffic_recv r.1) (record r.0 { total_recv = u32 (r.0.total_recv + r.1) })
      else r.0 in
    let fares : Fares s counted = Fares-trans (relay_pieces-Fares (length input) room input s) (
      if-Fares (ltb 0 r.1) (Fares-trans (counted-Fares r.1 r.0) (emit-Fares (traffic_recv r.1) _))
        (Fares-refl r.0)) in
    if-Fares (leb session_buffer_size counted.back_size)
      (Fares-trans fares (emit-Fares pause_receive counted)) fares

-- Data from the remote side, or its end when there are no bytes.
pub on_tunnel_data_back-Fares :
    (now room : ℕ) (input : List ℕ) (s : Session) → Fares s (on_tunnel_data_back now room input s)
unfolding on_tunnel_data_back
on_tunnel_data_back-Fares now room input s =
    Fares-trans
      (if-Fares (leb (length input) 0)
        (Fares-trans (emit-Fares pause_receive s) (finished-Fares room _))
        (relay_data-Fares room input s))
      (record {
        accounts = λ v. IsSession-same refl refl refl refl refl refl v;
        goes = same-Goes refl refl;
      })

-- Data that the tunnel hands back, or its end when there are no bytes, leaves the sizes kept equal to
-- those of the queues, and a session in CLOSED dead.
pub on_tunnel_data_back-IsSession :
    (now room : ℕ) (input : List ℕ) (s : Session)
    → IsSession s
    → IsSession (on_tunnel_data_back now room input s)
on_tunnel_data_back-IsSession now room input s v =
    (on_tunnel_data_back-Fares now room input s).accounts v

-- When a session is alive after the end of its tunnel, it was alive before, and its state has moved
-- along the edges of RFC 793 alone.
pub on_tunnel_disconnected-Reach :
    (room : ℕ) (s : Session)
    → (on_tunnel_disconnected room s).alive ≡ true
    → (s.alive ≡ true) × Reach s.state (on_tunnel_disconnected room s).state
on_tunnel_disconnected-Reach room s h =
    let g = (on_tunnel_disconnected-Fares room s).goes in (g.alive h, g.reach h)
