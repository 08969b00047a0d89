-- ===== src/Tunnel/Alive.antt =====
-- A TCPTunnel that is alive has its socket and its reactor.
use vpn_service_android.Common.{ℕ, ◌≡◌, [], ◌∷◌, true, false, arith}
use vpn_service_android.Tunnel.{
  Tunnel, Setup, emit, connect_opened, establish, switch_event, close_socket, destroy_tunnel,
  Answer, failed, taken, sent, send_data, connected_once, Reading, read_failed, read_bytes,
  on_readable, on_writable, on_exception, on_periodically_check, Effect,
}

abbrev pub IsTunnel : Tunnel → Type 0
IsTunnel t = t.alive ≡ true → (t.has_socket ≡ true) × (t.reactor ≡ true)

-- A call by the reactor or by the client; `switched` is one of the four that pause and resume.
pub data Call : Type 0 where
  switched : Effect → Call
  sending : Answer → ℕ → Call
  readable : Reading → ℕ → Call
  writable : Call
  exception : ℕ → Call
  periodic : ℕ → Call
  destroyed : Call

unfoldable pub call : Call → Tunnel → Tunnel
unfolding switch_event send_data on_readable on_writable on_exception on_periodically_check
    destroy_tunnel
call (switched e) t = switch_event e t
call (sending a now) t = (send_data a now t).1
call (readable r now) t = on_readable r now t
call writable t = on_writable t
call (exception error) t = on_exception error t
call (periodic now) t = on_periodically_check now t
call destroyed t = destroy_tunnel t

-- An establishment of a tunnel that has its reactor gives a proper tunnel, alive exactly when it does
-- not fail, if it was not alive.
pub establish-IsTunnel :
    (c : Setup) (now : ℕ) (t : Tunnel)
    → t.reactor ≡ true
    → t.alive ≡ false
    → IsTunnel (establish c now t).1
      × ((establish c now t).0 ≡ true → (establish c now t).1.alive ≡ false)
      × ((establish c now t).0 ≡ false → (establish c now t).1.alive ≡ true)
unfolding establish connect_opened emit
establish-IsTunnel c now t r a = (ground arith, ground arith, ground arith)

-- Every call keeps a proper tunnel, and brings none back that was destroyed.
pub call-IsTunnel :
    (c : Call) (t : Tunnel)
    → IsTunnel t
    → IsTunnel (call c t) × (t.alive ≡ false → (call c t).alive ≡ false)
unfolding call switch_event emit sent send_data destroy_tunnel close_socket on_readable
    connected_once on_writable on_exception on_periodically_check
call-IsTunnel (switched e) t v = (ground arith, ground arith)
call-IsTunnel (sending (failed n) now) t v = (ground arith, ground arith)
call-IsTunnel (sending (taken n) now) t v = (ground arith, ground arith)
call-IsTunnel (readable (read_failed b n) now) t v = (ground arith, ground arith)
call-IsTunnel (readable (read_bytes []) now) t v = (ground arith, ground arith)
call-IsTunnel (readable (read_bytes (b ∷ bytes)) now) t v = (ground arith, ground arith)
call-IsTunnel writable t v = (ground arith, ground arith)
call-IsTunnel (exception n) t v = (ground arith, ground arith)
call-IsTunnel (periodic now) t v = (ground arith, ground arith)
call-IsTunnel destroyed t v = (ground arith, ground arith)
