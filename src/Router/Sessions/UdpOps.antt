-- ===== src/Router/Sessions/UdpOps.antt =====
-- The UDP sessions as the router's list holds them: buildSession and `route` with UDPSession.
-- Addresses and ports of the key are numbers as a little-endian machine reads them from the packet.
use vpn_service_android.Common.{
  ℕ, ◌/◌, ◌%◌, ◌^◌, ◌≡◌, refl, [], Option, none, some, Bool, true, false, if◌then◌else◌,
}
use vpn_service_android.Udp.Packet.{Ip4, Port}
use vpn_service_android.Udp.Session
use vpn_service_android.Udp.Session.{Control, UdpSession, Opening, Incoming, has_closed}
use vpn_service_android.Router.Sessions.{Key, SessionOps}

-- A packet, with what its session meets outside.
pub record UdpPacket : Type 0 where
  pub ip : Incoming
  pub control : Control
  pub proxy_ip_ver : ℕ
  pub established : Bool
  pub opening : Opening
  pub now : ℕ

abbrev pub address_of : ℕ → Ip4
address_of n = record {
  byte0 = n % 256;
  byte1 = n / 256 % 256;
  byte2 = n / 2 ^ 16 % 256;
  byte3 = n / 2 ^ 24 % 256;
}

abbrev pub port_of : ℕ → Port
port_of n = record { high = n % 256; low = n / 256 % 256 }

-- A session behind initBaseInfo.
unfoldable pub base_session : Key → UdpSession
base_session k = record {
  alive = false;
  ip_ver = k.ip_ver;
  ends = record {
    dest_addr = address_of k.dest_addr;
    src_addr = address_of k.src_addr;
    dest_port = port_of k.dest_port;
    src_port = port_of k.src_port;
  };
  control = record { none_bit = false; proxy = false; block = false; capture = false };
  reactor = false;
  has_socket = false;
  tunnel = false;
  out_buffer = [];
  total_accept = 0;
  total_back = 0;
  total_recv = 0;
  total_sent = 0;
  last_time = 0;
  log = [];
}

abbrev pub started : Key → Bool × UdpSession → Option (Key × UdpSession)
started k made = if made.0 then none else some (k, made.1)

unfoldable pub init_session : Key → UdpPacket → Option (Key × UdpSession)
unfolding base_session
init_session k p =
    started k (Session.init p.control p.proxy_ip_ver p.established p.opening (base_session k))

pub key-init_session :
    (k : Key) (p : UdpPacket) (s : Key × UdpSession) → init_session k p ≡ some s → s.0 ≡ k
unfolding init_session
key-init_session k p s e =
    by_result (Session.init p.control p.proxy_ip_ver p.established p.opening (base_session k)).0
      (Session.init p.control p.proxy_ip_ver p.established p.opening (base_session k)).1 e
  where
    by_result : (b : Bool) (u : UdpSession) → started k (b, u) ≡ some s → s.0 ≡ k
    by_result true u e = absurd cc
    by_result false u e = cc

unfoldable pub udp_ops : SessionOps (Key × UdpSession) UdpPacket
unfolding init_session
udp_ops = record {
  key = λ s. s.0;
  has_closed = λ s. has_closed s.1;
  init = init_session;
  accept = λ k p s. ((Session.accept p.ip p.now s.1).0, (s.0, (Session.accept p.ip p.now s.1).1));
  key-init = key-init_session;
  key-accept = λ k p s. refl;
}
