-- ===== src/Tcp/Session.antt =====
-- core/TCPSession.h: the state of a session, its datagrams, and what it does to its surroundings.
-- The fields for logging and for the capture file are left out; `initBaseInfo` refuses every packet
-- that is not IPv4, so `mIPVer` is 4.
use vpn_service_android.Common.{
  ℕ, ◌-◌, List, [], ◌∷◌, ◌++◌, Bool, false, ◌||◌, ltb, ◌==◌, if◌then◌else◌, bit_and, not,
}

-- TCP_STATE of core/IPAdpt.h
pub data State : Type 0 where
  listen syn_sent syn_rcved established fin_wait1 fin_wait2 close_wait closing last_ack time_wait
        closed :
      State

-- The place of a state in the enumeration, and the test of two states.
abbrev pub code : State → ℕ
code listen = 0
code syn_sent = 1
code syn_rcved = 2
code established = 3
code fin_wait1 = 4
code fin_wait2 = 5
code close_wait = 6
code closing = 7
code last_ack = 8
code time_wait = 9
code closed = 10

abbrev pub is : State → State → Bool
is s t = code s == code t

-- The flags of a header, as macros.
abbrev pub fin : ℕ
fin = 1

abbrev pub syn : ℕ
syn = 2

abbrev pub rst : ℕ
rst = 4

abbrev pub psh : ℕ
psh = 8

abbrev pub ack : ℕ
ack = 16

-- TCPDatagram. `size` is what `size()` gives, `capacity` what `capacity()` gives, and `payload` the
-- data behind the headers; `wire_seq`, `wire_ack` and `window` are the header's fields.
pub record Datagram : Type 0 where
  pub seq : ℕ
  pub ack_seq : ℕ
  pub flag : ℕ
  pub length_field : ℕ
  pub size : ℕ
  pub capacity : ℕ
  pub payload : List ℕ
  pub acked : Bool
  pub retry : ℕ
  pub buffering : Bool
  pub abort : Bool
  pub release_after : Bool
  pub wire_seq : ℕ
  pub wire_ack : ℕ
  pub window : ℕ

unfoldable pub has_flag : Datagram → ℕ → Bool
has_flag d flag = ltb 0 (bit_and d.flag flag)

-- What a handler does to its surroundings, in the order of the calls: to the tunnel, to the event
-- dispatcher, and to the queue of the router.
pub data Effect : Type 0 where
  keep_alive request_send pause_send pause_receive resume_receive destroy_tunnel : Effect
  conn_state : State → Effect
  traffic_accept traffic_sent traffic_recv : ℕ → Effect
  write_package : Datagram → Effect
  released : Datagram → Effect

-- `alive` is mAlive, `tunnel_alive` what the tunnel's `isAlive()` answers.
pub record Session : Type 0 where
  pub alive : Bool
  pub tunnel_alive : Bool
  pub state : State
  pub remote_finished : Bool
  pub sack : Bool
  pub forward : List Datagram
  pub forward_size : ℕ
  pub back : List Datagram
  pub back_size : ℕ
  pub local_seq : ℕ
  pub local_next : ℕ
  pub local_seq_base : ℕ
  pub remote_next : ℕ
  pub remote_seq_base : ℕ
  pub send_window : ℕ
  pub receive_window : ℕ
  pub window_scale : ℕ
  pub mss : ℕ
  pub total_accept : ℕ
  pub total_back : ℕ
  pub total_recv : ℕ
  pub total_sent : ℕ
  pub last_time : ℕ
  pub log : List Effect

unfoldable pub emit : Effect → Session → Session
emit e s = record s { log = s.log ++ e ∷ [] }

-- `close()`; the tunnel is there since `init`.
unfoldable pub close : Session → Session
unfolding emit
close s = emit destroy_tunnel (record s { alive = false; tunnel_alive = false })

unfoldable pub switch_state : State → Session → Session
unfolding emit close
switch_state t s =
    if is s.state t
    then s
    else let moved = record s { state = t } in
      emit (conn_state t) (if is t closed then close moved else moved)

-- `timeout()` and `hasClosed()`, where `now` is `time(NULL)`.
unfoldable pub timeout : ℕ → Session → Bool
timeout now s = ltb (if is s.state established then 3600 else 10) (now - s.last_time)

unfoldable pub has_closed : ℕ → Session → Bool
unfolding timeout
has_closed now s = not s.alive || timeout now s
