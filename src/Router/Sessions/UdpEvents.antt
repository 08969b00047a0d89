-- ===== src/Router/Sessions/UdpEvents.antt =====
-- The life of the router's UDP sessions: packets, the handlers of UDPSession, the timer and the purge.
use vpn_service_android.Common.{
  ℕ, zero, suc, ◌≡◌, refl, ap, ◌∙◌, List, [], ◌∷◌, ◌++◌, Option, none, some, Bool, true, false, not,
  arith, if_both, length,
}
use vpn_service_android.Buffer.Segment.{Segment}
use vpn_service_android.Udp.Session.{
  UdpSession, pause_receive, emit, react, close_socket, close, has_closed, on_exception,
  on_periodically_check, on_tunnel_disconnected, timeout,
}
use vpn_service_android.Udp.Events.{
  Sent, send_segments, send_package, answered, on_readable, settle_sent, writable_with, on_writable,
  tunnel_writable_with, on_tunnel_writable, relay_pieces, on_tunnel_data_back,
}
use vpn_service_android.Router.Sessions.{Key, route, clean_dead_sessions}
use vpn_service_android.Router.Sessions.Unique.{
  IsLater, AreDistinct, Reached, start, then_step, routed, changed, cleaned, reached-AreDistinct,
}
use vpn_service_android.Router.Sessions.UdpOps.{UdpPacket, udp_ops}

-- What reaches a session on its own: the reactor's calls, the timer, and the calls of the tunnel, each
-- with what it meets outside.
pub data UdpEvent : Type 0 where
  readable : Option (List ℕ) → UdpEvent
  writable : List (Option ℕ) → UdpEvent
  exception : UdpEvent
  periodic_check : ℕ → UdpEvent
  tunnel_connected : UdpEvent
  tunnel_writable : List (Option ℕ) → UdpEvent
  tunnel_data_back : List ℕ → ℕ → UdpEvent
  tunnel_disconnected : UdpEvent
  closing : UdpEvent

abbrev pub handle : UdpEvent → UdpSession → UdpSession
handle (readable read) s = on_readable read s
handle (writable answers) s = on_writable answers s
handle exception s = on_exception s
handle (periodic_check now) s = on_periodically_check now s
handle tunnel_connected s = s
handle (tunnel_writable answers) s = (on_tunnel_writable answers s).1
handle (tunnel_data_back bytes now) s = on_tunnel_data_back bytes now s
handle tunnel_disconnected s = on_tunnel_disconnected s
handle closing s = close s

-- The handlers set `mAlive` to false, or leave it.
abbrev Fades : UdpSession → UdpSession → Type 0
Fades s t = s.alive ≡ false → t.alive ≡ false

close-Fades : (s t : UdpSession) → Fades t (close s)
unfolding close close_socket emit
close-Fades s t d = ground arith

send_package_alive : (p : Option (List ℕ)) (s : UdpSession) → (send_package p s).alive ≡ s.alive
unfolding send_package emit
send_package_alive none s = refl
send_package_alive (some p) s = refl

answered_alive : (p : Option (List ℕ)) (n : ℕ) (s : UdpSession) → (answered p n s).alive ≡ s.alive
unfolding answered emit
answered_alive none n s = refl
answered_alive (some p) n s = refl

readable-Fades : (read : Option (List ℕ)) (s : UdpSession) → Fades s (on_readable read s)
unfolding on_readable emit
readable-Fades none s d = close-Fades s s d
readable-Fades (some bytes) s d = answered_alive _ _ _ ∙ d

settle_alive : (r : Sent) (s : UdpSession) → (settle_sent r s).alive ≡ s.alive
unfolding settle_sent emit
settle_alive r s = ground arith

writable-Fades :
    (answers : List (Option ℕ)) (q : List Segment) (s : UdpSession)
    → Fades s (writable_with answers q s)
unfolding writable_with react emit
writable-Fades answers [] s d = ground (arith, d)
writable-Fades answers (x ∷ q) s d = settle_alive (send_segments answers (x ∷ q)) s ∙ d

tunnel_writable-Fades :
    (answers : List (Option ℕ)) (q : List Segment) (s : UdpSession)
    → Fades s (tunnel_writable_with answers q s).1
unfolding tunnel_writable_with emit
tunnel_writable-Fades answers [] s d = d
tunnel_writable-Fades answers (x ∷ q) s d = settle_alive (send_segments answers (x ∷ q)) s ∙ d

relay_alive :
    (fuel total : ℕ) (bytes : List ℕ) (s : UdpSession)
    → (relay_pieces fuel total bytes s).alive ≡ s.alive
unfolding relay_pieces emit
relay_alive zero total bytes s = refl
relay_alive (suc fuel) total [] s = refl
relay_alive (suc fuel) total (b ∷ bytes) s = relay_alive fuel total _ _ ∙ send_package_alive _ _

data_back-Fades :
    (bytes : List ℕ) (now : ℕ) (s : UdpSession) → Fades s (on_tunnel_data_back bytes now s)
unfolding on_tunnel_data_back emit
data_back-Fades [] now s d = close-Fades (emit pause_receive s) s d
data_back-Fades (b ∷ bytes) now s d =
    relay_alive (length (b ∷ bytes)) (length (b ∷ bytes)) (b ∷ bytes) s ∙ d

handle-Fades : (e : UdpEvent) (s : UdpSession) → Fades s (handle e s)
unfolding on_writable on_tunnel_writable on_exception on_tunnel_disconnected on_periodically_check
handle-Fades (readable read) s d = readable-Fades read s d
handle-Fades (writable answers) s d = writable-Fades answers s.out_buffer s d
handle-Fades exception s d = close-Fades s s d
handle-Fades (periodic_check now) s d =
    if_both (λ (t : UdpSession). t.alive ≡ false) (timeout now s) (close-Fades s s d) d
handle-Fades tunnel_connected s d = d
handle-Fades (tunnel_writable answers) s d = tunnel_writable-Fades answers s.out_buffer s d
handle-Fades (tunnel_data_back bytes now) s d = data_back-Fades bytes now s d
handle-Fades tunnel_disconnected s d = close-Fades s s d
handle-Fades closing s d = close-Fades s s d

handle-IsLater : (e : UdpEvent) (k : Key) (s : UdpSession) → IsLater udp_ops (k, s) (k, handle e s)
unfolding udp_ops has_closed
handle-IsLater e k s = record {
  same = refl;
  closed = λ c. ap not (handle-Fades e s (dead s.alive c));
}
  where
    dead : (b : Bool) → not b ≡ true → b ≡ false
    dead b h = ground arith

-- A step of the list of UDP sessions: a packet is routed, a handler of one session runs, or the closed
-- sessions are released.
pub data UdpStep : List (Key × UdpSession) → List (Key × UdpSession) → Type 0 where
  packet :
      (k : Key) (p : UdpPacket) (ss : List (Key × UdpSession)) → UdpStep ss (route udp_ops k p ss).1
  event :
      (e : UdpEvent) (k : Key) (s : UdpSession) (before after : List (Key × UdpSession))
      → UdpStep (before ++ (k, s) ∷ after) (before ++ (k, handle e s) ∷ after)
  purge : (ss : List (Key × UdpSession)) → UdpStep ss (clean_dead_sessions udp_ops ss).1

-- The lists that a row of steps leads to, from none.
pub data UdpReached : List (Key × UdpSession) → Type 0 where
  nothing : UdpReached []
  then_udp : (ss ts : List (Key × UdpSession)) → UdpReached ss → UdpStep ss ts → UdpReached ts

UdpStep-Reached :
    (ss ts : List (Key × UdpSession)) → Reached udp_ops ss → UdpStep ss ts → Reached udp_ops ts
UdpStep-Reached ss ts r (packet k p us) = then_step us _ r (routed k p us)
UdpStep-Reached ss ts r (event e k s before after) =
    then_step (before ++ (k, s) ∷ after) _ r
      (changed (k, s) (k, handle e s) before after (handle-IsLater e k s))
UdpStep-Reached ss ts r (purge us) = then_step us _ r (cleaned us)

UdpReached-Reached : (ss : List (Key × UdpSession)) → UdpReached ss → Reached udp_ops ss
UdpReached-Reached ss nothing = start
UdpReached-Reached ss (then_udp us ts r s) = UdpStep-Reached us ts (UdpReached-Reached us r) s

-- In every list of UDP sessions that the router comes to by routing packets, by any of the handlers of
-- its sessions with any answers of the socket, the tunnel and the clock, and by purges, no two
-- sessions that are both live have the same version, addresses and ports.
pub udp_lists-AreDistinct : (ss : List (Key × UdpSession)) → UdpReached ss → AreDistinct udp_ops ss
udp_lists-AreDistinct ss r = reached-AreDistinct udp_ops ss (UdpReached-Reached ss r)
