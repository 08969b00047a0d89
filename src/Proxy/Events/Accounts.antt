-- ===== src/Proxy/Events/Accounts.antt =====
-- The accounts, the end and the steps through the events of the socket.
use vpn_service_android.Common.{
  ℕ, zero, suc, ◌+◌, ◌-◌, ◌≡◌, refl, List, Bool, true, false, ltb, leb, inl, inr, Bool-cases,
  if◌then◌else◌, Option, none, some, length, u32,
}
use vpn_service_android.Buffer.Segment.{Segment, used, remain, contents, consume, flip}
use vpn_service_android.Buffer.Segment
use vpn_service_android.Buffer.Segment.Laws.{
  IsSegment, consume-IsSegment, write-IsSegment, flip-IsSegment,
}
use vpn_service_android.Cipher.Crypt.{Decrypted, done, stale_bytes}
use vpn_service_android.Proxy.State.{
  S5State, init, greet, verify, connect, trans, end, failed, Effect, client_connected,
  client_data_back, Proxy, react,
}
use vpn_service_android.Proxy.Calls.Accounts.{IsProxy, react-IsProxy, react-Keeps}
use vpn_service_android.Proxy.Handshake.{Config, Client, switch_state}
use vpn_service_android.Proxy.Handshake.Moves.{
  ends, Reach, here, Reach-trans, Ended, Runs, Runs-refl, Runs-trans, Runs-Keeps, if-Runs,
  called-Runs, switch-Runs, fail-Runs, greet_back-Runs, verify_back-Runs, conn_back-Runs,
}
use vpn_service_android.Proxy.Events.{
  Reading, got, at_end, again, error, connected_once, data_back, dispatch, dispatch_by, decrypted,
  decrypt_all, make_room, received, on_readable,
}

-- What an event may do, where the buffer may change.
pub record Handles (p q : Proxy) : Type 0 where
  pub accounts : IsProxy p → IsProxy q
  pub ended : Ended p → Ended q
  pub reach : Reach p.state q.state

pub Runs-Handles : {p q : Proxy} → Runs p q → Handles p q
Runs-Handles r = record { accounts = r.accounts; ended = r.ended; reach = r.reach }

Handles-trans : {p q r : Proxy} → Handles p q → Handles q r → Handles p r
Handles-trans a b = record {
  accounts = λ v. b.accounts (a.accounts v);
  ended = λ e. b.ended (a.ended e);
  reach = Reach-trans a.reach b.reach;
}

-- A handler that returns, which it does unless the decoder runs over bytes that are not there.
abbrev pub HandlesIf : Proxy → Option Proxy → Type 0
HandlesIf p none = Unit
HandlesIf p (some q) = Handles p q

HandlesIf-trans : {p q : Proxy} (r : Option Proxy) → Handles p q → HandlesIf q r → HandlesIf p r
HandlesIf-trans none a b = tt
HandlesIf-trans (some r) a b = Handles-trans a b

pub react-Runs : (e : Effect) (p : Proxy) → Runs p (react e p)
react-Runs e p = Runs-Keeps (λ v. react-IsProxy e p v) (react-Keeps e p)

-- Another buffer that is well formed.
buffered-Handles :
    (p : Proxy) (b : Segment)
    → (IsSegment p.decrypt_buffer → IsSegment b)
    → Handles p (record p { decrypt_buffer = b })
buffered-Handles p b keep = record {
  accounts = λ v. record {
    account = v.account;
    reactor = v.reactor;
    socks5 = v.socks5;
    out_queue = v.out_queue;
    decrypt_buffer = keep v.decrypt_buffer;
  };
  ended = λ e. e;
  reach = here;
}

module _ (rand : ℕ → ℕ → ℕ → ℕ) (client : Client) (config : Config) where
  pub connected-Runs : (p : Proxy) → Runs p (connected_once rand client config p)
  unfolding connected_once
  connected-Runs p = if-Runs p.connected (Runs-refl p) (
      Runs-trans
        (Runs-Keeps {p = p} {q = record p { connected = true }}
          (λ v. record {
            account = v.account;
            reactor = v.reactor;
            socks5 = v.socks5;
            out_queue = v.out_queue;
            decrypt_buffer = v.decrypt_buffer;
          })
          (record { state = refl; buffer = refl; alive = λ h. h }))
        (called-Runs rand client_connected _ (record p { connected = true })))

  pub data_back-Runs : (input : List ℕ) (p : Proxy) → Runs p (data_back rand client config input p)
  unfolding data_back
  data_back-Runs input p =
      let q = record p { payload_data_back = u32 (p.payload_data_back + length input) } in
      Runs-trans
        (Runs-Keeps {p = p} {q = q}
          (λ v. record {
            account = v.account;
            reactor = v.reactor;
            socks5 = v.socks5;
            out_queue = v.out_queue;
            decrypt_buffer = v.decrypt_buffer;
          })
          (record { state = refl; buffer = refl; alive = λ h. h }))
        (called-Runs rand (client_data_back input) _ q)

  dispatch_by-Runs :
      (s : S5State) (input : List ℕ) (p : Proxy)
      → p.state ≡ s
      → Runs p (dispatch_by rand client config s input p)
  unfolding dispatch_by
  dispatch_by-Runs init input p e = Runs-refl p
  dispatch_by-Runs greet input p e = greet_back-Runs rand client config input p e
  dispatch_by-Runs verify input p e = verify_back-Runs rand client config input p e
  dispatch_by-Runs connect input p e = conn_back-Runs rand client config input p e
  dispatch_by-Runs trans input p e = data_back-Runs input p
  dispatch_by-Runs end input p e = fail-Runs rand client config p
  dispatch_by-Runs failed input p e = fail-Runs rand client config p

  pub dispatch-Runs : (input : List ℕ) (p : Proxy) → Runs p (dispatch rand client config input p)
  unfolding dispatch
  dispatch-Runs input p = dispatch_by-Runs p.state input p refl

  if-HandlesIf :
      (b : Bool) (p : Proxy) (q r : Option Proxy)
      → HandlesIf p q
      → HandlesIf p r
      → HandlesIf p (if b then q else r)
  if-HandlesIf true p q r v w = v
  if-HandlesIf false p q r v w = w

  decrypted-Handles :
      (d : Decrypted) (input : List ℕ) (p : Proxy) (k : Proxy → Option Proxy)
      → ((q : Proxy) → HandlesIf q (k q))
      → HandlesIf p (decrypted rand client config d input p k)
  unfolding decrypted
  decrypted-Handles (stale_bytes o r) input p k next = tt
  decrypted-Handles (done o) input p k next =
      let taken = consume p.decrypt_buffer (length input - length o.rest) in
      let q = record p { decrypt_buffer = taken } in
      if-HandlesIf (leb (length o.out) 0) p (some p) (k (dispatch rand client config o.out q))
        (Runs-Handles (Runs-refl p))
        (HandlesIf-trans (k (dispatch rand client config o.out q))
          (Handles-trans
            (buffered-Handles p taken
              (λ v. consume-IsSegment p.decrypt_buffer (length input - length o.rest) v))
            (Runs-Handles (dispatch-Runs o.out q)))
          (next (dispatch rand client config o.out q)))

  decrypt_all-Handles : (fuel : ℕ) (p : Proxy) → HandlesIf p (decrypt_all rand client config fuel p)
  unfolding decrypt_all
  decrypt_all-Handles zero p = Runs-Handles (Runs-refl p)
  decrypt_all-Handles (suc fuel) p =
      decrypted-Handles _ _ p (decrypt_all rand client config fuel)
        (λ q. decrypt_all-Handles fuel q)

  make_room-Handles : (n : ℕ) (p : Proxy) → Handles p (make_room rand client config n p)
  unfolding make_room
  make_room-Handles n p = elim (Bool-cases (ltb (remain p.decrypt_buffer) n)) [
    | inl short ↦
        rw short
          (buffered-Handles p (flip p.decrypt_buffer) (λ v. flip-IsSegment p.decrypt_buffer v))
    | inr fine ↦ rw fine (Runs-Handles (Runs-refl p))
  ]

  received-Handles :
      (input : List ℕ) (p : Proxy) → HandlesIf p (received rand client config input p)
  unfolding received
  received-Handles input p =
      let buffer = Segment.write p.decrypt_buffer input in
      if-HandlesIf (ltb (remain p.decrypt_buffer) (length input)) p
        (some (switch_state rand client config failed p))
        (decrypt_all rand client config (used buffer + 1) (record p { decrypt_buffer = buffer }))
        (Runs-Handles (fail-Runs rand client config p))
        (HandlesIf-trans
          (decrypt_all rand client config (used buffer + 1) (record p { decrypt_buffer = buffer }))
          (buffered-Handles p buffer (λ v. write-IsSegment p.decrypt_buffer input v))
          (decrypt_all-Handles (used buffer + 1) (record p { decrypt_buffer = buffer })))

  -- Whatever the proxy sends, and whatever the client does in its handlers, a readable event keeps
  -- the accounts of the queues and a tunnel that has ended dead, and moves the handshake only along
  -- its steps.
  pub on_readable-Handles :
      (r : Reading) (p : Proxy) → HandlesIf p (on_readable rand client config r p)
  unfolding on_readable
  on_readable-Handles (got input) p =
      HandlesIf-trans
        (received rand client config input
          (make_room rand client config (length input) (connected_once rand client config p)))
        (Handles-trans (Runs-Handles (connected-Runs p)) (make_room-Handles (length input) _))
        (received-Handles input _)
  on_readable-Handles at_end p = Runs-Handles (switch-Runs rand client config end p (ends p.state))
  on_readable-Handles again p = Runs-Handles (Runs-refl p)
  on_readable-Handles error p = Runs-Handles (fail-Runs rand client config p)
