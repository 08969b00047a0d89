-- ===== src/Tcp/Start.antt =====
-- core/TCPSession.cpp, init: a session is set up by the packet that opens its connection.
-- What the settings and the control strategy answer, and whether the tunnel can be established, are
-- arguments.
use vpn_service_android.Common.{
  ℕ, ◌≡◌, refl, [], Option, none, some, Bool, true, false, ◌==◌, if◌then◌else◌,
}
use vpn_service_android.Tcp.Session.{Session, State, listen, syn}
use vpn_service_android.Tcp.Output.Accounts.{IsSession}
use vpn_service_android.Tcp.Input.{Packet, packet_has, accept}
use vpn_service_android.Tcp.Input.Accounts.{accept-IsSession}

-- The tunnel that `init` makes.
pub data TunnelKind : Type 0 where
  socks5_proxy tcp_tunnel : TunnelKind

-- The fields as the constructor leaves them; `state` and `mss` are what the memory holds.
unfoldable pub new_session : State → ℕ → Session
new_session state mss = record {
  alive = false;
  tunnel_alive = false;
  state = state;
  remote_finished = false;
  sack = false;
  forward = [];
  forward_size = 0;
  back = [];
  back_size = 0;
  local_seq = 0;
  local_next = 0;
  local_seq_base = 0;
  remote_next = 0;
  remote_seq_base = 0;
  send_window = 0;
  receive_window = 0;
  window_scale = 0;
  mss = mss;
  total_accept = 0;
  total_back = 0;
  total_recv = 0;
  total_sent = 0;
  last_time = 0;
  log = [];
}

unfoldable pub establish_with : TunnelKind → Bool → Session → Bool × Option TunnelKind × Session
establish_with kind established s =
    if established
    then (false, some kind, record s { alive = true; tunnel_alive = true; state = listen })
    else (true, some kind, s)

-- `init`: whether it fails, the tunnel made, and the session. `proxied` is the bit PROXY of the control
-- strategy, `proxy_ip_ver` the setting.
unfoldable pub init : Bool → ℕ → Bool → Packet → Session → Bool × Option TunnelKind × Session
unfolding establish_with
init proxied proxy_ip_ver established p s =
    if packet_has p syn
    then (if proxied
        then (if proxy_ip_ver == 4
            then establish_with socks5_proxy established s
            else (true, none, s))
        else establish_with tcp_tunnel established s)
    else (true, none, s)

started-IsSession :
    (state : State) (mss : ℕ)
    → IsSession
        (record (new_session state mss) { alive = true; tunnel_alive = true; state = listen })
unfolding new_session
started-IsSession state mss = record {
  back_account = refl;
  forward_account = refl;
  closed_dead = λ e. absurd cc;
}

-- A session that init does not refuse was opened by a SYN; it is alive, listens, has its accounts in
-- order, and keeps them through the packet that opened it, which `route` hands to it next.
pub init-accept-IsSession :
    (proxied : Bool) (ver : ℕ) (established : Bool) (p : Packet) (state : State) (mss : ℕ)
    (now draw room : ℕ)
    → (init proxied ver established p (new_session state mss)).0 ≡ false
    → let s = (init proxied ver established p (new_session state mss)).2 in
      (packet_has p syn ≡ true)
      × (s.alive ≡ true)
      × (s.state ≡ listen)
      × IsSession (accept now draw room p s)
unfolding init establish_with
init-accept-IsSession proxied ver established p state mss now draw room h =
    by_syn (packet_has p syn) refl proxied (ver == 4) established h
  where
    fresh : Session
    fresh = new_session state mss

    ready : Session
    ready = record fresh { alive = true; tunnel_alive = true; state = listen }

    made : TunnelKind → Bool → Bool × Option TunnelKind × Session
    made kind e = if e then (false, some kind, ready) else (true, some kind, fresh)

    outcome : Bool → Bool → Bool → Bool → Bool × Option TunnelKind × Session
    outcome y x v e =
        if y
        then (if x
            then (if v then made socks5_proxy e else (true, none, fresh))
            else made tcp_tunnel e)
        else (true, none, fresh)

    kept : IsSession (accept now draw room p ready)
    kept = accept-IsSession now draw room p ready (started-IsSession state mss)

    by_syn :
        (y : Bool)
        → packet_has p syn ≡ y
        → (x v e : Bool) → (outcome y x v e).0 ≡ false
        → (y ≡ true)
          × ((outcome y x v e).2.alive ≡ true)
          × ((outcome y x v e).2.state ≡ listen)
          × IsSession (accept now draw room p (outcome y x v e).2)
    by_syn false q x v e i = absurd cc
    by_syn true q true true true i = (refl, refl, refl, kept)
    by_syn true q true true false i = absurd cc
    by_syn true q true false e i = absurd cc
    by_syn true q false v true i = (refl, refl, refl, kept)
    by_syn true q false v false i = absurd cc
