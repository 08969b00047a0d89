-- ===== src/Tunnel.antt =====
-- core/TCPTunnel.cpp: a socket to the remote side that is not proxied.
-- The socket's answers and the clock are arguments; the calls on the reactor and on the client go to a
-- log, so what the client does in its handlers is not part of the tunnel. The wishes for the socket that
-- change nothing in the program (keep-alive, no delay) are left out.
pub mod Alive
use vpn_service_android.Common.{
  ℕ, ◌+◌, ◌*◌, List, [], ◌∷◌, ◌++◌, Option, none, some, Bool, true, false, ◌&&◌, ltb, if◌then◌else◌,
}

pub data Effect : Type 0 where
  add_every add_write add_read del_write del_read del_every closed_socket : Effect
  client_connected client_writable : Effect
  client_disconnected : ℕ → Effect
  client_data_back : List ℕ → Effect

-- `reactor` is whether `mReactor` is set, `has_socket` whether `mSocket` is, `has_addr` whether the
-- remote address is.
pub record Tunnel : Type 0 where
  pub alive : Bool
  pub connected : Bool
  pub has_addr : Bool
  pub has_socket : Bool
  pub reactor : Bool
  pub last_time : ℕ
  pub log : List Effect

-- TIMEOUT
abbrev pub timeout : ℕ
timeout = 25 * 1000

unfoldable pub emit : Effect → Tunnel → Tunnel
emit e t = record t { log = t.log ++ e ∷ [] }

-- What `establish` meets: whether the socket opens, is let out by the VPN service, becomes non-blocking,
-- and whether the connection succeeds or is under way.
pub record Setup : Type 0 where
  pub opened : Bool
  pub protected : Bool
  pub unblocked : Bool
  pub connecting : Bool

unfoldable pub connect_opened : Setup → ℕ → Tunnel → Bool × Tunnel
unfolding emit
connect_opened c now t =
    let open_t = record t { has_socket = true } in
    if c.protected
    then (if c.unblocked && c.connecting
        then (false, record (emit add_every open_t) { alive = true; last_time = now + timeout })
        else (true, open_t))
    else (true, record t { has_socket = false })

-- Whether it fails.
unfoldable pub establish : Setup → ℕ → Tunnel → Bool × Tunnel
unfolding connect_opened
establish c now t =
    if t.alive
    then (true, t)
    else (if t.has_addr
        then (if c.opened then connect_opened c now t else (true, record t { has_socket = false }))
        else (true, t))

-- requestSendData, pauseSendData, pauseReceiveData and resumeReceiveData
unfoldable pub switch_event : Effect → Tunnel → Tunnel
unfolding emit
switch_event e t = if t.has_socket && t.reactor then emit e t else t

unfoldable pub request_send_data : Tunnel → Tunnel
unfolding switch_event
request_send_data t = switch_event add_write t

unfoldable pub pause_send_data : Tunnel → Tunnel
unfolding switch_event
pause_send_data t = switch_event del_write t

unfoldable pub pause_receive_data : Tunnel → Tunnel
unfolding switch_event
pause_receive_data t = switch_event del_read t

unfoldable pub resume_receive_data : Tunnel → Tunnel
unfolding switch_event
resume_receive_data t = switch_event add_read t

-- SAFE_CLOSE_SOCKET of core/Defines.h
unfoldable pub close_socket : Tunnel → Tunnel
unfolding emit
close_socket t =
    let cut = λ (u : Tunnel). record u { has_socket = false; reactor = false } in
    if t.reactor && t.has_socket then cut (emit closed_socket (emit del_every t)) else cut t

unfoldable pub destroy_tunnel : Tunnel → Tunnel
unfolding close_socket
destroy_tunnel t = close_socket (record t { alive = false; connected = false })

-- The answer of `send`: an error with its number, or how much was taken.
pub data Answer : Type 0 where
  failed : ℕ → Answer
  taken : ℕ → Answer

unfoldable pub sent : Answer → ℕ → Tunnel → Option ℕ × Tunnel
unfolding destroy_tunnel emit
sent (failed errno) now t = (none, emit (client_disconnected errno) (destroy_tunnel t))
sent (taken n) now t = (some n, record t { last_time = now + timeout })

-- The number returned; `none` is a negative one.
unfoldable pub send_data : Answer → ℕ → Tunnel → Option ℕ × Tunnel
unfolding sent
send_data a now t = if t.has_socket then sent a now t else (some 0, t)

unfoldable pub connected_once : Tunnel → Tunnel
unfolding emit
connected_once t = if t.connected then t else emit client_connected (record t { connected = true })

-- What `read` gives: an error, and whether it is EINTR or EAGAIN; or bytes, none at the end.
pub data Reading : Type 0 where
  read_failed : Bool → ℕ → Reading
  read_bytes : List ℕ → Reading

unfoldable pub on_readable : Reading → ℕ → Tunnel → Tunnel
unfolding destroy_tunnel emit connected_once
on_readable (read_failed again errno) now t =
    if again then t else emit (client_disconnected errno) (destroy_tunnel t)
on_readable (read_bytes []) now t = emit (client_disconnected 0) (destroy_tunnel t)
on_readable (read_bytes (b ∷ bytes)) now t =
    record (emit (client_data_back (b ∷ bytes)) (connected_once t)) { last_time = now + timeout }

unfoldable pub on_writable : Tunnel → Tunnel
unfolding emit connected_once
on_writable t = emit client_writable (connected_once t)

-- The client is told before the tunnel is destroyed.
unfoldable pub on_exception : ℕ → Tunnel → Tunnel
unfolding emit destroy_tunnel
on_exception error t = destroy_tunnel (emit (client_disconnected error) t)

unfoldable pub on_periodically_check : ℕ → Tunnel → Tunnel
unfolding emit destroy_tunnel
on_periodically_check now t =
    if ltb t.last_time now then emit (client_disconnected 0) (destroy_tunnel t) else t
