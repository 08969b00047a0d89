-- ===== src/Tests/Proxies.antt =====
-- core/proxy on a tunnel that has finished its handshake, with a client that calls nothing.
use vpn_service_android.Common.{
  ℕ, ◌+◌, ◌≡◌, refl, ap, List, [], ◌∷◌, ◌++◌, arith, length, min, true, Option, some,
}
use vpn_service_android.Buffer.Segment.{create, contents, used}
use vpn_service_android.Buffer.Segment.Laws.{create-IsSegment}
use vpn_service_android.Cipher.Crypt.Stream.{wire}
use vpn_service_android.Proxy.State.{trans, end, Proxy}
use vpn_service_android.Proxy.Calls.Accounts.{IsProxy}
use vpn_service_android.Proxy.Handshake.{
  Config, Client, switch_state, contain_verify, verify_methods,
}
use vpn_service_android.Proxy.Handshake.Methods.{offers, contain_verify_lem}
use vpn_service_android.Proxy.Handshake.Moves.{Reach, Ended}
use vpn_service_android.Proxy.Events.{got, at_end, on_readable, on_writable, decrypt_all}
use vpn_service_android.Proxy.Events.Sending.{TakesGiven}
use vpn_service_android.Proxy.Events.Loop.{decrypt_all_fuel}
use vpn_service_android.Proxy.Events.Delivery.{Delivers, on_readable-Delivers}
use vpn_service_android.Proxy.Events.Invariant.{on_readable_lem, on_writable_lem}
use vpn_service_android.Tests.Coding.{hello, cut, waits, Fits-hello, hello_short}

abbrev draw : ℕ → ℕ → ℕ → ℕ
draw n i j = n + i + j

abbrev idle : Client
idle = record {
  connected = λ p. [];
  writable = λ p. ([], 0);
  data_back = λ b p. [];
  disconnected = λ p. [];
}

abbrev account_only : Config
account_only = record {
  verify_methods = 0xffffff02;
  username = some (117 ∷ []);
  password = some (112 ∷ []);
}

abbrev ready : Proxy
ready = record {
  alive = true;
  connected = true;
  state = trans;
  protocol_tcp = true;
  dest_ip_ver = 4;
  dest_addr = 10 ∷ 0 ∷ 0 ∷ 1 ∷ [];
  dest_port = 0 ∷ 80 ∷ [];
  payload_data_back = 0;
  buffered_size = 0;
  socks5 = [];
  out_queue = [];
  decrypt_buffer = create 32768;
  reactor = true;
  has_socket = true;
  log = [];
}

ready-IsProxy : IsProxy ready
ready-IsProxy = record {
  account = refl;
  reactor = λ h. refl;
  socks5 = tt;
  out_queue = tt;
  decrypt_buffer = create-IsSegment 32768;
}

ready-Ended : Ended ready
ready-Ended h = ground arith

abbrev some_bytes : ℕ → List ℕ → Option ℕ
some_bytes i b = some (min 100 (length b))

some_bytes-TakesGiven : TakesGiven some_bytes
some_bytes-TakesGiven i b n e = ground arith

on_writable_lem_example :
    IsProxy (on_writable draw idle account_only some_bytes ready)
    × Ended (on_writable draw idle account_only some_bytes ready)
    × Reach trans (on_writable draw idle account_only some_bytes ready).state
on_writable_lem_example =
    on_writable_lem draw idle account_only some_bytes ready some_bytes-TakesGiven ready-IsProxy
      ready-Ended

empty_buffer : contents (create 32768) ≡ []
unfolding create contents
empty_buffer = ground arith

size_32768 : (create 32768).size ≡ 32768
unfolding create
size_32768 = refl

on_readable-Delivers_example :
    Delivers draw idle account_only ready
      (104 ∷ 105 ∷ [])
      cut
      (on_readable draw idle account_only (got (wire 8192 (hello ∷ []) ++ cut)) ready)
on_readable-Delivers_example =
    on_readable-Delivers draw idle account_only 8192 (wire 8192 (hello ∷ []) ++ cut) ready hello []
      cut refl refl (create-IsSegment 32768) size_32768 (Fits-hello, tt)
      (ap (λ xs. xs ++ (wire 8192 (hello ∷ []) ++ cut)) empty_buffer) waits
      (omega (arith, hello_short))

-- The proxy closes the connection.
abbrev gone : Proxy
gone = switch_state draw idle account_only end ready

closes : on_readable draw idle account_only at_end ready ≡ some gone
unfolding on_readable
closes = refl

on_readable_lem_example : IsProxy gone × Ended gone × Reach trans gone.state
on_readable_lem_example =
    on_readable_lem draw idle account_only at_end ready gone closes ready-IsProxy ready-Ended

decrypt_all_fuel_example :
    decrypt_all draw idle account_only (used (create 32768) + 1 + 7) ready
    ≡ decrypt_all draw idle account_only (used (create 32768) + 1) ready
decrypt_all_fuel_example = decrypt_all_fuel draw idle account_only 7 ready (create-IsSegment 32768)

contain_verify_lem_example :
    contain_verify 4 0xffffff02 2 ≡ offers (verify_methods 4 4 0xffffff02) 2
contain_verify_lem_example = contain_verify_lem 0xffffff02 2 (λ e. omega (arith, e))
