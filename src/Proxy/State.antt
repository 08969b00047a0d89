-- ===== src/Proxy/State.antt =====
-- core/proxy/Socks5Proxy.h and the setters of Socks5Proxy.cpp: the state of a proxied connection.
-- The reactor, the socket and the settings are outside: what is done to the reactor and to the client
-- goes to a log, the settings read are arguments. The tags for logging are left out.
use vpn_service_android.Common.{
  ℕ, ◌^◌, ◌*◌, List, [], ◌∷◌, ◌++◌, Bool, false, ◌==◌, if◌then◌else◌, take,
}
use vpn_service_android.Buffer.Segment.{Segment, create}
use vpn_service_android.Cipher.Coder.{max_parcel_size}

-- The constants S_... of the class Socks5.
pub data S5State : Type 0 where
  init greet verify connect trans end failed : S5State

abbrev pub code : S5State → ℕ
code init = 0
code greet = 1
code verify = 2
code connect = 3
code trans = 4
code end = 5
code failed = 6

abbrev pub in_state : S5State → S5State → Bool
in_state s t = code s == code t

abbrev pub verify_none : ℕ
verify_none = 0

abbrev pub verify_account : ℕ
verify_account = 2

abbrev pub share_buffer_size : ℕ
share_buffer_size = max_parcel_size

abbrev pub max_send_buffer : ℕ
max_send_buffer = 2 ^ 18

-- IReactor::EVENT
pub data Event : Type 0 where
  read write every : Event

-- The calls to the reactor and to the client. `null_reactor` is a call through `mReactor` when it is
-- NULL.
pub data Effect : Type 0 where
  add_event del_event : Event → Effect
  null_reactor closed_socket client_connected client_writable client_disconnected : Effect
  client_data_back : List ℕ → Effect

-- `reactor` is whether `mReactor` is set, `open` whether `mSocket` is.
pub record Proxy : Type 0 where
  pub alive : Bool
  pub connected : Bool
  pub state : S5State
  pub protocol_tcp : Bool
  pub dest_ip_ver : ℕ
  pub dest_addr : List ℕ
  pub dest_port : List ℕ
  pub payload_data_back : ℕ
  pub buffered_size : ℕ
  pub socks5 : List Segment
  pub out_queue : List Segment
  pub decrypt_buffer : Segment
  pub reactor : Bool
  pub has_socket : Bool
  pub log : List Effect

unfoldable pub create_proxy : Bool → Proxy
create_proxy reactor = record {
  alive = false;
  connected = false;
  state = init;
  protocol_tcp = false;
  dest_ip_ver = 0;
  dest_addr = [];
  dest_port = [];
  payload_data_back = 0;
  buffered_size = 0;
  socks5 = [];
  out_queue = [];
  decrypt_buffer = create (max_parcel_size * 4);
  reactor = reactor;
  has_socket = false;
  log = [];
}

-- The address and the port are kept as the bytes in memory; `addr` holds what the pointer shows.
unfoldable pub set_dest_addr : ℕ → List ℕ → List ℕ → Proxy → Proxy
set_dest_addr ipver addr port p = record p {
  dest_addr = if ipver == 4 then take 4 addr else take 16 addr;
  dest_port = port;
  dest_ip_ver = ipver;
}

unfoldable pub set_protocol : Bool → Proxy → Proxy
set_protocol tcp p = record p { protocol_tcp = tcp }

unfoldable pub note : Effect → Proxy → Proxy
note e p = record p { log = p.log ++ e ∷ [] }

-- A call through `mReactor`.
unfoldable pub react : Effect → Proxy → Proxy
unfolding note
react e p = if p.reactor then note e p else note null_reactor p

-- SAFE_CLOSE_SOCKET of core/Defines.h
unfoldable pub safe_close_socket : Proxy → Proxy
unfolding note
safe_close_socket p =
    let cut = λ (q : Proxy). record q { has_socket = false; reactor = false } in
    if p.reactor
    then (if p.has_socket then cut (note closed_socket (note (del_event every) p)) else cut p)
    else cut p

unfoldable pub destroy_tunnel : Proxy → Proxy
unfolding safe_close_socket
destroy_tunnel p = safe_close_socket (record p { connected = false; alive = false })
