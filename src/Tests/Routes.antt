-- ===== src/Tests/Routes.antt =====
-- core/Router with UDP sessions, and with two packages of which one is aborted.
use vpn_service_android.Common.{ℕ, ◌≡◌, refl, subst, List, [], ◌∷◌, ◌++◌, some, Bool, true, false}
use vpn_service_android.Buffer.Segment.{create, write}
use vpn_service_android.Buffer.Segment.Laws.{IsSegment, create-IsSegment, write-IsSegment}
use vpn_service_android.Udp.Session
use vpn_service_android.Udp.Session.{UdpSession}
use vpn_service_android.Router.Sessions.{
  Key, route, find_session, find_in, route_found, build_session, route_new,
}
use vpn_service_android.Router.Sessions.Unique.{AreDistinct}
use vpn_service_android.Router.Sessions.UdpEvents
use vpn_service_android.Router.Sessions.UdpEvents.{
  periodic_check, handle, UdpReached, nothing, then_udp, udp_lists-AreDistinct,
}
use vpn_service_android.Router.Sessions.UdpOps.{UdpPacket, udp_ops, base_session}
use vpn_service_android.Router.Writing.{Package, Outlet, on_writable}
use vpn_service_android.Router.Writing.Order.{live_bytes, ArePackages, on_writable_order}

abbrev key_of : ℕ → Key
key_of port = record {
  ip_ver = 4;
  src_addr = 33554442;
  dest_addr = 134744072;
  src_port = port;
  dest_port = 13568;
}

abbrev query : UdpPacket
query = record {
  ip = record { packet = 69 ∷ 0 ∷ []; payload = 1 ∷ 2 ∷ [] };
  control = record { none_bit = true; proxy = false; block = false; capture = false };
  proxy_ip_ver = 0;
  established = false;
  opening = record { opened = true; protected = true };
  now = 9;
}

abbrev once : List (Key × UdpSession)
once = (route udp_ops (key_of 1) query []).1

abbrev first : Key × UdpSession
first = head_or once
  where
    head_or : List (Key × UdpSession) → Key × UdpSession
    head_or [] = (key_of 1, base_session (key_of 1))
    head_or (s ∷ ss) = s

-- The session is timed out by a check, and the next packet with its key gets a new one.
one_session : once ≡ first ∷ []
unfolding route find_session find_in route_found build_session route_new udp_ops Session.init
one_session = refl

abbrev checked : List (Key × UdpSession)
checked = (first.0, handle (periodic_check 500) first.1) ∷ []

abbrev again : List (Key × UdpSession)
again = (route udp_ops (key_of 1) query checked).1

reached_once : UdpReached once
reached_once = then_udp [] once nothing (UdpEvents.packet (key_of 1) query [])

udp_lists-AreDistinct_example : AreDistinct udp_ops again
udp_lists-AreDistinct_example = udp_lists-AreDistinct again (
    then_udp checked again
      (then_udp (first ∷ []) checked (subst UdpReached one_session reached_once)
        (UdpEvents.event (periodic_check 500) first.0 first.1 [] []))
      (UdpEvents.packet (key_of 1) query checked))

abbrev item : Bool → Package
item aborted = record {
  segment = write (create 2) (1 ∷ 2 ∷ []);
  buffering = true;
  abort = aborted;
  release_after = false;
}

abbrev two_packages : Outlet
two_packages = record {
  packages = item true ∷ item false ∷ [];
  given_back = [];
  released = [];
  log = [];
}

item-IsSegment : IsSegment (write (create 2) (1 ∷ 2 ∷ []))
item-IsSegment = write-IsSegment (create 2) (1 ∷ 2 ∷ []) (create-IsSegment 2)

on_writable_order_example :
    let w = on_writable (some 1 ∷ some 5 ∷ []) two_packages in
    (w.bytes ++ live_bytes w.outlet.packages ≡ live_bytes two_packages.packages)
    × ArePackages w.outlet.packages
on_writable_order_example =
    on_writable_order (some 1 ∷ some 5 ∷ []) two_packages (item-IsSegment, (item-IsSegment, tt))
