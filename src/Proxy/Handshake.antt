-- ===== src/Proxy/Handshake.antt =====
-- core/proxy/Socks5Proxy.cpp: the greeting, the account and the request of SOCKS5, and the answers.
pub mod Methods
pub mod Moves
use vpn_service_android.Common.{
  ℕ, zero, suc, ◌+◌, ◌-◌, ◌^◌, ◌%◌, ◌/◌, ◌*◌, ◌<◌, List, [], ◌∷◌, ◌++◌, Bool, true, false, ◌&&◌,
  ◌||◌, not, ltb, leb, ◌==◌, if◌then◌else◌, u8, bit_and, ◌>>>◌, length, take, drop, Option, none,
  some,
}
use vpn_service_android.Buffer.Segment.{Segment, create}
use vpn_service_android.Buffer.Segment
use vpn_service_android.Proxy.State.{
  S5State, init, greet, verify, connect, trans, end, failed, in_state, verify_none, verify_account,
  Effect, client_writable, client_disconnected, Proxy, note, destroy_tunnel,
}
use vpn_service_android.Proxy.Calls.{Call, handshake, encrypt_and_queue, perform_all}

-- The settings read: SK_SOCKS5_VERIFY_METHOD, SK_SOCKS5_USERNAME and SK_SOCKS5_PASSWORD.
pub record Config : Type 0 where
  pub verify_methods : ℕ
  pub username : Option (List ℕ)
  pub password : Option (List ℕ)

-- The client of a tunnel: what it calls on the tunnel in each of its handlers, and what
-- `onTunnelWritable` returns. A client of core is a TCPSession or a UDPSession.
pub record Client : Type 0 where
  pub connected : Proxy → List Call
  pub writable : Proxy → List Call × ℕ
  pub data_back : List ℕ → Proxy → List Call
  pub disconnected : Proxy → List Call

-- The loop of `containS5Verify`, `left` bytes before its end.
unfoldable pub contain_verify : ℕ → ℕ → ℕ → Bool
contain_verify zero vfms m = false
contain_verify (suc left) vfms m =
    if bit_and vfms 0xff == m then true else contain_verify left (vfms >>> 8) m

-- The loop of `getS5VerifyMethods`, `left` bytes and `room` places before its end.
unfoldable pub verify_methods : ℕ → ℕ → ℕ → List ℕ
verify_methods zero room vfms = []
verify_methods (suc left) zero vfms = []
verify_methods (suc left) (suc room) vfms =
    if bit_and vfms 0xff == 0xff
    then verify_methods left (suc room) (vfms >>> 8)
    else bit_and vfms 0xff ∷ verify_methods left room (vfms >>> 8)

module _ (rand : ℕ → ℕ → ℕ → ℕ) (client : Client) (config : Config) where
  unfoldable pub writable_called : Proxy → Proxy × ℕ
  unfolding note
  writable_called p =
      let q = note client_writable p in
      let (calls, n) = client.writable q in (perform_all rand calls q, n)

  -- The end of a proxied connection: the client is told, and the tunnel destroyed.
  unfoldable pub disconnect : Proxy → Proxy
  unfolding note
  disconnect p =
      let q = note client_disconnected p in
      destroy_tunnel (perform_all rand (client.disconnected q) q)

  unfoldable pub entered : S5State → Proxy → Proxy
  entered trans p = (writable_called p).0
  entered failed p = disconnect p
  entered end p = disconnect p
  entered _ p = p

  unfoldable pub switch_state : S5State → Proxy → Proxy
  switch_state t p = if in_state p.state t then p else entered t (record p { state = t })

  -- What a segment of `size` bytes holds of the bytes written one after another.
  unfoldable pub message : ℕ → List ℕ → List ℕ
  message size b = Segment.contents (Segment.write (create size) b)

  unfoldable pub send_greet : Proxy → Proxy × ℕ
  send_greet p =
      let methods = verify_methods 4 4 config.verify_methods in
      encrypt_and_queue rand handshake (message 64 (5 ∷ length methods ∷ methods)) p

  unfoldable pub connect_request : Proxy → List ℕ
  connect_request p =
      5
      ∷ (if p.protocol_tcp then 1 else 3)
      ∷ 0
      ∷ (if p.dest_ip_ver == 4 then 1 else 4)
      ∷ (p.dest_addr ++ p.dest_port)

  unfoldable pub send_connect : Proxy → Proxy × ℕ
  send_connect p = encrypt_and_queue rand handshake (message 32 (connect_request p)) p

  -- The lengths are of type uint8_t.
  unfoldable pub account_request : List ℕ → List ℕ → List ℕ
  account_request user password =
      let user_len = u8 (length user) in
      let password_len = u8 (length password) in
      message (user_len + password_len + 10)
        (5 ∷ user_len ∷ (take user_len user ++ password_len ∷ take password_len password))

  -- `sendS5Account`, on the two settings read.
  unfoldable pub account_by : Option (List ℕ) → Option (List ℕ) → Proxy → Proxy × ℕ
  account_by (some user) (some password) p =
      encrypt_and_queue rand handshake (account_request user password) p
  account_by _ _ p = (p, 1)

  unfoldable pub send_account : Proxy → Proxy × ℕ
  send_account p = account_by config.username config.password p

  -- `sendS5Connect()` and the change of state behind it, whatever it returns.
  unfoldable pub go_connect : Proxy → Proxy
  go_connect p = switch_state connect (send_connect p).0

  -- The account sent, on what `sendS5Account()` gives.
  unfoldable pub account_sent : Proxy × ℕ → Proxy
  account_sent (p, r) = if ltb 0 r then switch_state verify p else switch_state failed p

  -- A method that the settings hold.
  unfoldable pub method_chosen : ℕ → Proxy → Proxy
  method_chosen m p =
      if m == verify_none
      then go_connect p
      else if m == verify_account
      then account_sent (send_account p)
      else p

  unfoldable pub greet_back : List ℕ → Proxy → Proxy
  greet_back (ver ∷ m ∷ []) p =
      if ver == 5 && contain_verify 4 config.verify_methods m
      then method_chosen m p
      else switch_state failed p
  greet_back _ p = switch_state failed p

  unfoldable pub verify_back : List ℕ → Proxy → Proxy
  verify_back (ver ∷ status ∷ []) p =
      if not (ver == 5)
      then switch_state failed p
      else if not (status == 0)
      then switch_state failed p
      else go_connect p
  verify_back _ p = switch_state failed p

  -- The address in the answer is only logged.
  unfoldable pub conn_back : List ℕ → Proxy → Proxy
  conn_back (ver ∷ status ∷ reserved ∷ addr_type ∷ more) p =
      if not (ver == 5)
      then switch_state failed p
      else if not (status == 0)
      then switch_state failed p
      else switch_state trans p
  conn_back _ p = switch_state failed p
