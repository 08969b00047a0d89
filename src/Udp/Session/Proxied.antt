-- ===== src/Udp/Session/Proxied.antt =====
-- What a UDPSession that goes through the proxy does with a packet.
use vpn_service_android.Common.{
  ℕ, ◌+◌, ◌≤◌, ◌<◌, ◌^◌, ◌≡◌, refl, sym, ap, ap₂, subst, ◌∙◌, List, [], ◌∷◌, ◌++◌, append-nil,
  append_assoc, u32, Bool, true, false, ◌&&◌, ◌||◌, ◌==◌, if◌then◌else◌, length, replicate, take,
  take_all, min, arith,
}
use vpn_service_android.Buffer.Segment.{Segment, create, write, write_len, contents, remain}
use vpn_service_android.Buffer.Segment.Laws.{create-IsSegment, contents-write}
use vpn_service_android.Udp.Events.Sending.{pending}
use vpn_service_android.Udp.Session.{
  null_reactor, connect_remote, Control, only_proxy, Effect, request_send, add_write, add_nothing,
  conn_accept, captured, UdpSession, emit, react, add_socket_event, Opening, init, Incoming,
  announce, enqueue, accept,
}

empty_segment : ℕ → Segment
empty_segment n = record {
  bytes = replicate n 0;
  size = n;
  pos = 0;
  limit = 0;
  mark_pos = 0;
  mark_limit = 0;
}

create_lem : (n : ℕ) → 0 < n → n ≤ 2 ^ 19 → create n ≡ empty_segment n
unfolding create empty_segment
create_lem n p h = ground arith

contents-empty_segment :
    (xs : List ℕ)
    → contents (empty_segment (length xs))
        ++ take (min (length xs) (remain (empty_segment (length xs)))) xs
      ≡ xs
unfolding contents remain empty_segment
contents-empty_segment xs = take_all xs _ (omega arith)

write_len-empty_segment : (n : ℕ) → (write_len (empty_segment n) n == n) ≡ true
unfolding write_len empty_segment
write_len-empty_segment n = ground arith

-- A new segment holds what was written to it.
contents-write-create :
    (xs : List ℕ)
    → 0 < length xs
    → length xs ≤ 2 ^ 19
    → (contents (write (create (length xs)) xs) ≡ xs)
      × ((write_len (create (length xs)) (length xs) == length xs) ≡ true)
contents-write-create xs p h =
    let e = create_lem (length xs) p h in
    (
      contents-write (create (length xs)) xs (create-IsSegment (length xs))
          ∙ ap (λ g. contents g ++ take (min (length xs) (remain g)) xs) e
          ∙ contents-empty_segment xs,
      ap (λ g. write_len g (length xs) == length xs) e ∙ write_len-empty_segment (length xs),
    )

-- What `accept` tells the tunnel or the reactor, for a session through the proxy: any other bit makes
-- it the reactor.
abbrev pub told : Control → Effect
told c = if c.none_bit || (c.block || c.capture) then add_nothing else request_send

told_lem :
    (c : Control) → c.proxy ≡ true → (if only_proxy c then request_send else add_nothing) ≡ told c
unfolding only_proxy
told_lem c p = ground (arith, p)

-- All that `accept` does to the surroundings, for a session through the proxy.
abbrev pub effects : Control → Incoming → List Effect
effects c ip =
    if c.capture
    then captured ip.packet ∷ conn_accept (length ip.payload) ∷ told c ∷ []
    else conn_accept (length ip.payload) ∷ told c ∷ []

proxied : Control → UdpSession → UdpSession
proxied c s = record s { reactor = true; control = c; tunnel = true; alive = true }

init_proxied :
    (c : Control) (o : Opening) (s : UdpSession)
    → c.proxy ≡ true
    → (init c 4 true o s).1 ≡ proxied c s
unfolding init proxied
init_proxied c o s p = ap on_proxy p
  where
    ready : UdpSession
    ready = record s { reactor = true; control = c }

    remote : Bool × UdpSession
    remote = connect_remote o ready

    on_proxy : Bool → UdpSession
    on_proxy b =
        (if b
          then (false, proxied c s)
          else (if remote.0 then remote else (false, record remote.1 { alive = true }))).1

announce_lem :
    (s : UdpSession)
    → s.tunnel ≡ true
    → s.has_socket ≡ false
    → s.reactor ≡ true
    → announce s ≡ emit (if only_proxy s.control then request_send else add_nothing) s
unfolding announce add_socket_event react
announce_lem s t n r = by_bits (only_proxy s.control)
  where
    by_bits :
        (b : Bool)
        → (if b && s.tunnel
            then emit request_send s
            else (if s.has_socket
                then (if s.reactor then emit add_write s else emit null_reactor s)
                else (if s.reactor then emit add_nothing s else emit null_reactor s)))
          ≡ emit (if b then request_send else add_nothing) s
    by_bits b = ground arith

enqueue_lem :
    (xs : List ℕ) (s : UdpSession)
    → 0 < length xs
    → length xs ≤ 2 ^ 19
    → s.tunnel ≡ true
    → s.has_socket ≡ false
    → s.reactor ≡ true
    → enqueue xs s
      ≡ emit
          (if only_proxy s.control then request_send else add_nothing)
          (record s { out_buffer = s.out_buffer ++ write (create (length xs)) xs ∷ [] })
unfolding enqueue
enqueue_lem xs s p l t n r =
    let queued : UdpSession = record s {
      out_buffer = s.out_buffer ++ write (create (length xs)) xs ∷ [];
    } in
    ap (λ b. if b then announce queued else s) (contents-write-create xs p l).1
    ∙ announce_lem queued t n r

pending-append : (q : List Segment) (x : Segment) → pending (q ++ x ∷ []) ≡ pending q ++ contents x
pending-append [] x = append-nil (contents x)
pending-append (y ∷ q) x =
    ap (λ xs. contents y ++ xs) (pending-append q x)
    ∙ sym (append_assoc (contents y) (pending q) (contents x))

accept_proxied :
    (c : Control) (ip : Incoming) (now : ℕ) (s : UdpSession)
    → c.proxy ≡ true
    → s.has_socket ≡ false
    → 0 < length ip.payload
    → length ip.payload ≤ 2 ^ 19
    → ((accept ip now (proxied c s)).1.log ≡ s.log ++ effects c ip)
      × (pending (accept ip now (proxied c s)).1.out_buffer ≡ pending s.out_buffer ++ ip.payload)
unfolding accept proxied emit
accept_proxied c ip now s p n l h = by_capture c.capture
  where
    len : ℕ
    len = length ip.payload

    counted : UdpSession
    counted = record (proxied c s) { total_accept = u32 (s.total_accept + len) }

    before : Bool → UdpSession
    before b = emit (conn_accept len) (if b then emit (captured ip.packet) counted else counted)

    buffered :
        (t : UdpSession)
        → t.tunnel ≡ true
        → t.has_socket ≡ false
        → t.reactor ≡ true
        → t.control ≡ c
        → t.out_buffer ≡ s.out_buffer
        → ((enqueue ip.payload t).log ≡ t.log ++ told c ∷ [])
          × (pending (enqueue ip.payload t).out_buffer ≡ pending s.out_buffer ++ ip.payload)
    buffered t a b d e f =
        let q = enqueue_lem ip.payload t l h a b d in
        (
          ap (λ (u : UdpSession). u.log) q
              ∙ ap (λ k. t.log ++ (if only_proxy k then request_send else add_nothing) ∷ []) e
              ∙ ap (λ k. t.log ++ k ∷ []) (told_lem c p),
          ap (λ (u : UdpSession). pending u.out_buffer) q
              ∙ pending-append t.out_buffer (write (create (length ip.payload)) ip.payload)
              ∙ ap₂ ◌++◌ (ap pending f) (contents-write-create ip.payload l h).0,
        )

    by_capture :
        (b : Bool)
        → ((enqueue ip.payload (before b)).log
            ≡ s.log
              ++ (if b
                  then captured ip.packet ∷ conn_accept len ∷ told c ∷ []
                  else conn_accept len ∷ told c ∷ []))
          × (pending (enqueue ip.payload (before b)).out_buffer
              ≡ pending s.out_buffer ++ ip.payload)
    by_capture true =
        let q = buffered (before true) refl n refl refl refl in
        (
          q.0
              ∙ append_assoc (s.log ++ captured ip.packet ∷ []) (conn_accept len ∷ []) (told c ∷ [])
              ∙ append_assoc s.log (captured ip.packet ∷ []) (conn_accept len ∷ told c ∷ []),
          q.1,
        )
    by_capture false =
        let q = buffered (before false) refl n refl refl refl in
        (q.0 ∙ append_assoc s.log (conn_accept len ∷ []) (told c ∷ []), q.1)

-- A session set up through the proxy takes a packet with data, at most 2 ^ 19 bytes: the data is
-- queued behind what waits, and all that it does besides, in this order, is to capture the packet when
-- the control bits have CAPTURE, to announce the length, and to ask the tunnel to send when they are
-- PROXY alone; with any other bit, such as CAPTURE, the tunnel is not asked at all, and the reactor gets
-- an event for a socket that does not exist.
pub accept_announces :
    (c : Control) (o : Opening) (ip : Incoming) (now : ℕ) (s : UdpSession)
    → c.proxy ≡ true
    → s.has_socket ≡ false
    → 0 < length ip.payload
    → length ip.payload ≤ 2 ^ 19
    → let q = (accept ip now (init c 4 true o s).1).1 in
      (q.log ≡ s.log ++ effects c ip) × (pending q.out_buffer ≡ pending s.out_buffer ++ ip.payload)
accept_announces c o ip now s p n l h =
    subst
      (λ (t : UdpSession).
        ((accept ip now t).1.log ≡ s.log ++ effects c ip)
        × (pending (accept ip now t).1.out_buffer ≡ pending s.out_buffer ++ ip.payload))
      (sym (init_proxied c o s p)) (accept_proxied c ip now s p n l h)
