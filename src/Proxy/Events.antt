-- ===== src/Proxy/Events.antt =====
-- core/proxy/Socks5Proxy.cpp: the events of the socket.
pub mod Loop
pub mod Delivery
pub mod Invariant
pub mod Accounts
pub mod Sending
use vpn_service_android.Common.{
  ℕ, zero, suc, ◌+◌, ◌-◌, ◌^◌, ◌%◌, ◌<◌, List, [], ◌∷◌, ◌++◌, Bool, true, false, ◌&&◌, ◌||◌, not,
  ltb, leb, ◌==◌, if◌then◌else◌, u32, length, take, drop, Option, none, some,
}
use vpn_service_android.Buffer.Segment.{Segment, used, remain, contents, consume, flip}
use vpn_service_android.Buffer.Segment
use vpn_service_android.Buffer.Queue
use vpn_service_android.Cipher.Crypt.{Output, Decrypted, done, stale_bytes, decrypt}
use vpn_service_android.Proxy.State.{
  S5State, init, greet, verify, connect, trans, end, failed, in_state, share_buffer_size, Event,
  write, Effect, del_event, client_connected, client_data_back, Proxy, note, react,
}
use vpn_service_android.Proxy.Calls.{
  Call, Channel, handshake, payload, queue_of, set_queue, perform_all,
}
use vpn_service_android.Proxy.Handshake.{
  Config, Client, writable_called, switch_state, send_greet, greet_back, verify_back, conn_back,
}

-- The loop of `sendQueue`: `replies i b` is what `send` answers to call i, `none` for an error. A
-- round that goes on takes a byte or more, or an empty segment, when the socket takes what it
-- answers. The result is the queue, and the bytes sent.
unfoldable pub send_segments : ℕ → ℕ → (ℕ → List ℕ → Option ℕ) → List Segment → List Segment × ℕ
send_segments fuel i replies [] = ([], 0)
send_segments zero i replies (s ∷ q) = (s ∷ q, 0)
send_segments (suc fuel) i replies (s ∷ q) = elim (replies i (contents s)) [
  | none ↦ (s ∷ q, 0)
  | some n ↦
      let left = consume s n in
      let rest = send_segments fuel (i + 1) replies (if leb (used left) 0 then q else left ∷ q) in
      (rest.0, u32 (rest.1 + n))
]

-- The rounds that are enough: the bytes queued, and one for each segment.
unfoldable pub queue_fuel : List Segment → ℕ
queue_fuel [] = 0
queue_fuel (s ∷ q) = used s + 1 + queue_fuel q

unfoldable pub sent_out : Channel → List Segment × ℕ → Proxy → Proxy
sent_out q (left, sent) p =
    let queued = set_queue q left p in
    if ltb 0 sent
    then record queued { buffered_size = u32 (queued.buffered_size + 2 ^ 32 - sent) }
    else react (del_event write) queued

unfoldable pub send_queue : Channel → (ℕ → List ℕ → Option ℕ) → Proxy → Proxy
send_queue q replies p =
    if Queue.empty (queue_of q p)
    then react (del_event write) p
    else sent_out q (send_segments (queue_fuel (queue_of q p)) 0 replies (queue_of q p)) p

-- What `read` answers: bytes, the end of the stream, or an error, which EINTR and EAGAIN are not.
pub data Reading : Type 0 where
  got : List ℕ → Reading
  at_end again error : Reading

module _ (rand : ℕ → ℕ → ℕ → ℕ) (client : Client) (config : Config) where
  unfoldable pub connected_once : Proxy → Proxy
  unfolding note
  connected_once p =
      let q = note client_connected (record p { connected = true }) in
      if p.connected then p else perform_all rand (client.connected q) q

  -- The bytes of one `decrypt`, by the state.
  unfoldable pub data_back : List ℕ → Proxy → Proxy
  unfolding note
  data_back input p =
      let q =
        note (client_data_back input)
          (record p { payload_data_back = u32 (p.payload_data_back + length input) }) in
      perform_all rand (client.data_back input q) q

  unfoldable pub dispatch_by : S5State → List ℕ → Proxy → Proxy
  dispatch_by init input p = p
  dispatch_by greet input p = greet_back rand client config input p
  dispatch_by verify input p = verify_back rand client config input p
  dispatch_by connect input p = conn_back rand client config input p
  dispatch_by trans input p = data_back input p
  dispatch_by _ input p = switch_state rand client config failed p

  unfoldable pub dispatch : List ℕ → Proxy → Proxy
  dispatch input p = dispatch_by p.state input p

  -- A round of the loop of `onReadable`, on what `decrypt` gives; `none` when the decoder ran over
  -- bytes that are not of the parcel.
  unfoldable pub decrypted : Decrypted → List ℕ → Proxy → (Proxy → Option Proxy) → Option Proxy
  decrypted (stale_bytes _ _) input p continue_with = none
  decrypted (done o) input p continue_with =
      let go_on = continue_with (
        dispatch o.out (record p {
          decrypt_buffer = consume p.decrypt_buffer (length input - length o.rest);
        })) in
      if leb (length o.out) 0 then some p else go_on

  -- The loop, on at most `share_buffer_size` bytes a round. A round that goes on takes a byte or
  -- more, so the bytes in the buffer are enough fuel.
  unfoldable pub decrypt_all : ℕ → Proxy → Option Proxy
  decrypt_all zero p = some p
  decrypt_all (suc fuel) p =
      let input = take share_buffer_size (contents p.decrypt_buffer) in
      decrypted (decrypt input share_buffer_size) input p (decrypt_all fuel)

  unfoldable pub make_room : ℕ → Proxy → Proxy
  make_room n p =
      if ltb (remain p.decrypt_buffer) n
      then record p { decrypt_buffer = flip p.decrypt_buffer }
      else p

  unfoldable pub received : List ℕ → Proxy → Option Proxy
  received input p =
      if ltb (remain p.decrypt_buffer) (length input)
      then some (switch_state rand client config failed p)
      else let buffer = Segment.write p.decrypt_buffer input in
        decrypt_all (used buffer + 1) (record p { decrypt_buffer = buffer })

  unfoldable pub on_readable : Reading → Proxy → Option Proxy
  on_readable (got input) p = received input (make_room (length input) (connected_once p))
  on_readable at_end p = some (switch_state rand client config end p)
  on_readable again p = some p
  on_readable error p = some (switch_state rand client config failed p)

  -- `onTunnelWritable` of the client in `onWritable`.
  unfoldable pub writable_done : Proxy × ℕ → Proxy
  writable_done (p, n) = if leb n 0 then react (del_event write) p else p

  unfoldable pub on_writable : (ℕ → List ℕ → Option ℕ) → Proxy → Proxy
  on_writable replies p =
      let q = connected_once p in
      if in_state q.state trans
      then (if not (Queue.empty q.out_queue)
          then send_queue payload replies q
          else writable_done (writable_called rand client config q))
      else if in_state q.state init
      then switch_state rand client config greet (send_greet rand client config q).0
      else if Queue.empty q.socks5
      then react (del_event write) q
      else send_queue handshake replies q

  unfoldable pub on_exception : Proxy → Proxy
  on_exception p = switch_state rand client config end p
