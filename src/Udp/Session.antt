-- ===== src/Udp/Session.antt =====
-- core/UDPSession.cpp: the state of a session and what the router and its socket ask of it.
-- The answers of the socket, the clock and the settings are arguments; what is done to the reactor, to
-- the tunnel, to the capture file and to the event dispatcher goes to a log. The names for logging and
-- the time that a reply took are left out. A session is in the IPv4 family, or was refused by
-- Session::initBaseInfo.
pub mod Proxied
use vpn_service_android.Common.{
  ℕ, ◌+◌, List, [], ◌∷◌, ◌++◌, Bool, true, false, ◌&&◌, not, ltb, ◌==◌, if◌then◌else◌, length, u32,
}
use vpn_service_android.Buffer.Segment.{Segment, create, write, write_len}
use vpn_service_android.Udp.Packet.{Endpoints}

-- The bits of `mCtrlType`, of CTRL_TYPE.
pub record Control : Type 0 where
  pub none_bit : Bool
  pub proxy : Bool
  pub block : Bool
  pub capture : Bool

-- `mCtrlType == CTRL_TYPE::PROXY`
unfoldable pub only_proxy : Control → Bool
only_proxy c = c.proxy && (not c.none_bit && (not c.block && not c.capture))

-- `add_nothing` is addEvent on the socket -1, which the reactor refuses; `null_reactor` is a call
-- through `mReactor` when it is NULL.
pub data Effect : Type 0 where
  add_every add_write del_write del_every add_nothing null_reactor closed_socket : Effect
  request_send pause_send pause_receive : Effect
  conn_accept conn_recv conn_sent conn_back : ℕ → Effect
  write_package captured : List ℕ → Effect

-- `reactor` is whether `mReactor` is set, `has_socket` whether `mSocket` is, `tunnel` whether
-- `mTunnel` is.
pub record UdpSession : Type 0 where
  pub alive : Bool
  pub ip_ver : ℕ
  pub ends : Endpoints
  pub control : Control
  pub reactor : Bool
  pub has_socket : Bool
  pub tunnel : Bool
  pub out_buffer : List Segment
  pub total_accept : ℕ
  pub total_back : ℕ
  pub total_recv : ℕ
  pub total_sent : ℕ
  pub last_time : ℕ
  pub log : List Effect

unfoldable pub emit : Effect → UdpSession → UdpSession
emit e s = record s { log = s.log ++ e ∷ [] }

-- A call through `mReactor`.
unfoldable pub react : Effect → UdpSession → UdpSession
unfolding emit
react e s = if s.reactor then emit e s else emit null_reactor s

unfoldable pub add_socket_event : Effect → UdpSession → UdpSession
unfolding react
add_socket_event e s = if s.has_socket then react e s else react add_nothing s

-- SAFE_CLOSE_SOCKET of core/Defines.h
unfoldable pub close_socket : UdpSession → UdpSession
unfolding emit
close_socket s =
    let cut = λ (q : UdpSession). record q { has_socket = false; reactor = false } in
    if s.reactor
    then (if s.has_socket then cut (emit closed_socket (emit del_every s)) else cut s)
    else cut s

unfoldable pub close : UdpSession → UdpSession
unfolding close_socket
close s = close_socket (record s { alive = false })

unfoldable pub has_closed : UdpSession → Bool
has_closed s = not s.alive

-- What connectRemote meets: whether the socket opens, and whether the VPN service lets it out.
pub record Opening : Type 0 where
  pub opened : Bool
  pub protected : Bool

unfoldable pub connect_remote : Opening → UdpSession → Bool × UdpSession
unfolding react
connect_remote o s =
    if o.opened
    then (if o.protected
        then (false, react add_every (record s { has_socket = true }))
        else (true, record s { has_socket = false }))
    else (true, record s { has_socket = false })

-- `init`: whether it fails. `control` is what queryControlStrategy answers, `proxy_ip_ver` the setting,
-- `established` whether the new tunnel's `establish` succeeds.
unfoldable pub init : Control → ℕ → Bool → Opening → UdpSession → Bool × UdpSession
unfolding connect_remote
init control proxy_ip_ver established o s =
    let ready = record s { reactor = true; control = control } in
    let remote = connect_remote o ready in
    let proxied = record ready { tunnel = true } in
    if control.proxy
    then (if proxy_ip_ver == 4
        then (if established then (false, record proxied { alive = true }) else (true, proxied))
        else (true, ready))
    else (if remote.0 then remote else (false, record remote.1 { alive = true }))

-- The packet that `accept` gets: all its bytes, and its data behind the headers. The lengths in the
-- headers agree with the packet, so that the data has a length that is not negative.
pub record Incoming : Type 0 where
  pub packet : List ℕ
  pub payload : List ℕ

-- Telling the tunnel, or the reactor, that there is something to send.
unfoldable pub announce : UdpSession → UdpSession
unfolding emit add_socket_event only_proxy
announce s =
    if only_proxy s.control && s.tunnel then emit request_send s else add_socket_event add_write s

unfoldable pub enqueue : List ℕ → UdpSession → UdpSession
unfolding announce create write write_len
enqueue bytes s =
    let segment = create (length bytes) in
    if write_len segment (length bytes) == length bytes
    then announce (record s { out_buffer = s.out_buffer ++ write segment bytes ∷ [] })
    else s

-- `accept`: whether it refuses. `now` is time(NULL).
unfoldable pub accept : Incoming → ℕ → UdpSession → Bool × UdpSession
unfolding enqueue emit
accept ip now s =
    let len = length ip.payload in
    let counted = record s { total_accept = u32 (s.total_accept + len) } in
    let kept = if s.control.capture then emit (captured ip.packet) counted else counted in
    let queued = enqueue ip.payload (emit (conn_accept len) kept) in
    if s.alive then (false, record queued { last_time = now }) else (true, s)

unfoldable pub timeout : ℕ → UdpSession → Bool
timeout now s = ltb (s.last_time + 120) now

unfoldable pub on_exception : UdpSession → UdpSession
unfolding close
on_exception s = close s

unfoldable pub on_periodically_check : ℕ → UdpSession → UdpSession
unfolding timeout close
on_periodically_check now s = if timeout now s then close s else s

unfoldable pub on_tunnel_disconnected : UdpSession → UdpSession
unfolding close
on_tunnel_disconnected s = close s
