-- ===== src/Router/Sessions/TcpOps.antt =====
-- The TCP sessions as the router's list holds them: buildSession and `route` with TCPSession, at one time.
use vpn_service_android.Common.{ℕ, ◌≡◌, refl, Option, none, some, Bool, true, false, if◌then◌else◌}
use vpn_service_android.Tcp.Session.{Session, State, has_closed}
use vpn_service_android.Tcp.Input
use vpn_service_android.Tcp.Input.{Packet}
use vpn_service_android.Tcp.Start.{TunnelKind, new_session, init}
use vpn_service_android.Router.Sessions.{Key, SessionOps}

-- A packet, with what its session meets outside: the control strategy, the setting and the tunnel, what
-- the memory of a new session holds, and the random number and the room for `accept`.
pub record TcpPacket : Type 0 where
  pub packet : Packet
  pub proxied : Bool
  pub proxy_ip_ver : ℕ
  pub established : Bool
  pub old_state : State
  pub old_mss : ℕ
  pub draw : ℕ
  pub room : ℕ

abbrev pub started_tcp : Key → Bool × Option TunnelKind × Session → Option (Key × Session)
started_tcp k made = if made.0 then none else some (k, made.2)

unfoldable pub init_tcp : Key → TcpPacket → Option (Key × Session)
init_tcp k p =
    started_tcp k
      (init p.proxied p.proxy_ip_ver p.established p.packet (new_session p.old_state p.old_mss))

pub key-init_tcp : (k : Key) (p : TcpPacket) (s : Key × Session) → init_tcp k p ≡ some s → s.0 ≡ k
unfolding init_tcp
key-init_tcp k p s e =
    by_result
      (init p.proxied p.proxy_ip_ver p.established p.packet (new_session p.old_state p.old_mss)).0
      (init p.proxied p.proxy_ip_ver p.established p.packet (new_session p.old_state p.old_mss)).1
      (init p.proxied p.proxy_ip_ver p.established p.packet (new_session p.old_state p.old_mss)).2 e
  where
    by_result :
        (b : Bool) (o : Option TunnelKind) (u : Session)
        → started_tcp k (b, o, u) ≡ some s
        → s.0 ≡ k
    by_result true o u e = absurd cc
    by_result false o u e = cc

-- `accept` never refuses a packet.
unfoldable pub tcp_ops : ℕ → SessionOps (Key × Session) TcpPacket
unfolding init_tcp
tcp_ops now = record {
  key = λ s. s.0;
  has_closed = λ s. has_closed now s.1;
  init = init_tcp;
  accept = λ k p s. (false, (s.0, Input.accept now p.draw p.room p.packet s.1));
  key-init = key-init_tcp;
  key-accept = λ k p s. refl;
}
