-- ===== src/Proxy/Calls.antt =====
-- core/proxy/Socks5Proxy.cpp, class ITunnel: what a client calls on its tunnel.
pub mod Accounts
pub mod Queueing
use vpn_service_android.Common.{
  ℕ, zero, suc, ◌+◌, ◌-◌, ◌^◌, ◌%◌, ◌<◌, List, [], ◌∷◌, ◌++◌, Bool, true, false, ◌&&◌, not, ltb,
  leb, ◌==◌, if◌then◌else◌, u32, length, take, drop, Option, none, some,
}
use vpn_service_android.Buffer.Segment.{Segment, create}
use vpn_service_android.Buffer.Segment
use vpn_service_android.Buffer.Queue
use vpn_service_android.Cipher.Crypt.{Output, encrypt}
use vpn_service_android.Proxy.State.{
  S5State, trans, end, failed, in_state, share_buffer_size, max_send_buffer, Event, read, write,
  every, Effect, add_event, del_event, client_writable, client_disconnected, Proxy, note, react,
  destroy_tunnel,
}

-- What the calls of the system answer while a tunnel is set up: the descriptor, the call that
-- exempts it from the VPN, the flags, the connection (`errno` being EINPROGRESS counts as good), and
-- the reactor's `addEvent`.
pub record Setup : Type 0 where
  pub has_address : Bool
  pub socket : Bool
  pub protect : Bool
  pub non_block : Bool
  pub connect : Bool
  pub add_event : Bool

-- `establish`, with whether it returns 0.
unfoldable pub establish : Setup → Proxy → Proxy × Bool
unfolding react
establish c p =
    let opened = record p { has_socket = true } in
    if not c.has_address
    then (p, false)
    else if not c.socket
    then (record p { has_socket = false }, false)
    else if not c.protect
    then (record p { has_socket = false }, false)
    else if not c.non_block
    then (opened, false)
    else if not c.connect
    then (opened, false)
    else if not p.reactor
    then (opened, false)
    else if not c.add_event
    then (react (add_event every) opened, false)
    else (record (react (add_event every) opened) { alive = true }, true)

unfoldable pub get_available_buffer_size : Proxy → ℕ
get_available_buffer_size p =
    if not p.alive
    then 0
    else if ltb max_send_buffer p.buffered_size
    then 0
    else max_send_buffer - p.buffered_size

-- The four switches of events, with what they return.
unfoldable pub switch_event : Effect → Proxy → Proxy × ℕ
switch_event e p = if p.alive && in_state p.state trans then (react e p, 1) else (p, 0)

unfoldable pub request_send_data : Proxy → Proxy × ℕ
request_send_data p = switch_event (add_event write) p

unfoldable pub pause_send_data : Proxy → Proxy × ℕ
pause_send_data p = switch_event (del_event write) p

unfoldable pub pause_receive_data : Proxy → Proxy × ℕ
pause_receive_data p = switch_event (del_event read) p

unfoldable pub resume_receive_data : Proxy → Proxy × ℕ
resume_receive_data p = switch_event (add_event read) p

-- The queue that `encryptAndQueue` and `sendQueue` are given.
pub data Channel : Type 0 where
  handshake payload : Channel

unfoldable pub queue_of : Channel → Proxy → List Segment
queue_of handshake p = p.socks5
queue_of payload p = p.out_queue

unfoldable pub set_queue : Channel → List Segment → Proxy → Proxy
set_queue handshake q p = record p { socks5 = q }
set_queue payload q p = record p { out_queue = q }

-- The segment with what `encrypt` wrote.
unfoldable pub wire_segment : List ℕ → Segment
wire_segment out = Segment.write (create (length out)) out

-- A call of the client on the tunnel.
pub data Call : Type 0 where
  send : List ℕ → Call
  request_send pause_send pause_receive resume_receive destroy : Call

-- The draws of `rand()` in an `encrypt` depend on the time: the first argument numbers the calls by
-- the log so far.
module _ (rand : ℕ → ℕ → ℕ → ℕ) where
  -- The bytes that `encrypt` gave are queued, with the bytes it took as the return.
  unfoldable pub queue_output : Channel → ℕ → Output → Proxy → Proxy × ℕ
  queue_output q len o p =
      if ltb 0 (length o.out)
      then (
        (let pushed =
              react (add_event write)
                (set_queue q (Queue.push (queue_of q p) (wire_segment o.out)) p) in
            record pushed { buffered_size = u32 (pushed.buffered_size + length o.out) }),
        len - length o.rest,
      )
      else (p, 0)

  unfoldable pub encrypt_and_queue : Channel → List ℕ → Proxy → Proxy × ℕ
  encrypt_and_queue q input p =
      queue_output q (length input) (encrypt (rand (length p.log)) input share_buffer_size) p

  unfoldable pub send_data : List ℕ → Proxy → Proxy × ℕ
  send_data input p =
      let queued = encrypt_and_queue payload input p in
      if not p.alive
      then (p, 0)
      else if ltb (get_available_buffer_size p) (length input)
      then (p, 0)
      else queued

  unfoldable pub perform : Call → Proxy → Proxy
  perform (send input) p = (send_data input p).0
  perform request_send p = (request_send_data p).0
  perform pause_send p = (pause_send_data p).0
  perform pause_receive p = (pause_receive_data p).0
  perform resume_receive p = (resume_receive_data p).0
  perform destroy p = destroy_tunnel p

  unfoldable pub perform_all : List Call → Proxy → Proxy
  perform_all [] p = p
  perform_all (c ∷ cs) p = perform_all cs (perform c p)
