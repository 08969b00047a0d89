-- ===== src/Proxy/Handshake/Moves.antt =====
-- The states of the handshake, and the accounts, through the answers of the proxy.
use vpn_service_android.Common.{
  ℕ, ◌≡◌, refl, sym, ◌∙◌, subst, List, [], ◌∷◌, Bool, true, false, arith, ◌==◌, ◌&&◌, not, ltb, ◌⊎◌,
  if◌then◌else◌, Option, none, some,
}
use vpn_service_android.Proxy.State.{
  S5State, init, greet, verify, connect, trans, end, failed, in_state, verify_none, verify_account,
  Effect, client_writable, client_disconnected, Proxy, note,
}
use vpn_service_android.Proxy.Calls.{Call, Channel, handshake, encrypt_and_queue, perform_all}
use vpn_service_android.Proxy.Calls.Accounts.{
  IsProxy, Keeps, Keeps-refl, Keeps-trans, note-IsProxy, note-Keeps, destroy-dead, destroy-Keeps,
  destroy-IsProxy,
}
use vpn_service_android.Proxy.Calls.Queueing.{
  encrypt_and_queue-IsProxy, encrypt_and_queue-Keeps, perform_all-IsProxy, perform_all-Keeps,
}
use vpn_service_android.Proxy.Handshake.{
  Config, Client, contain_verify, writable_called, disconnect, entered, switch_state, send_connect,
  send_account, account_by, go_connect, account_sent, method_chosen, greet_back, verify_back,
  conn_back,
}

-- A step of the handshake of RFC 1928, or an end.
pub data Step : S5State → S5State → Type 0 where
  greeted : Step init greet
  no_account : Step greet connect
  account : Step greet verify
  verified : Step verify connect
  connected : Step connect trans
  fails : (s : S5State) → Step s failed
  ends : (s : S5State) → Step s end

pub data Reach (s : S5State) : S5State → Type 0 where
  here : Reach s s
  next : {t u : S5State} → Reach s t → Step t u → Reach s u

pub Reach-trans : {s t u : S5State} → Reach s t → Reach t u → Reach s u
Reach-trans r here = r
Reach-trans r (next q m) = next (Reach-trans r q) m

-- A tunnel whose handshake has failed, or whose connection has ended, is dead.
abbrev pub Ended : Proxy → Type 0
Ended p = p.state ≡ end ⊎ p.state ≡ failed → p.alive ≡ false

-- What an answer may do: it keeps the accounts, the end and the buffer, and moves along the steps.
pub record Runs (p q : Proxy) : Type 0 where
  pub accounts : IsProxy p → IsProxy q
  pub ended : Ended p → Ended q
  pub reach : Reach p.state q.state
  pub buffer : q.decrypt_buffer ≡ p.decrypt_buffer

pub Runs-refl : (p : Proxy) → Runs p p
Runs-refl p = record { accounts = λ v. v; ended = λ e. e; reach = here; buffer = refl }

pub Runs-trans : {p q r : Proxy} → Runs p q → Runs q r → Runs p r
Runs-trans a b = record {
  accounts = λ v. b.accounts (a.accounts v);
  ended = λ e. b.ended (a.ended e);
  reach = Reach-trans a.reach b.reach;
  buffer = b.buffer ∙ a.buffer;
}

pub Runs-Keeps : {p q : Proxy} → (IsProxy p → IsProxy q) → Keeps p q → Runs p q
Runs-Keeps {p} {q} accounts k = record {
  accounts = accounts;
  ended = λ e h. still_dead q.alive refl (e (subst (λ s. s ≡ end ⊎ s ≡ failed) k.state h));
  reach = subst (λ s. Reach p.state s) (sym k.state) here;
  buffer = k.buffer;
}
  where
    still_dead : (b : Bool) → q.alive ≡ b → p.alive ≡ false → q.alive ≡ false
    still_dead true e dead = ground (arith, k.alive e)
    still_dead false e dead = e

pub if-Runs : (b : Bool) {p q r : Proxy} → Runs p q → Runs p r → Runs p (if b then q else r)
if-Runs true v w = v
if-Runs false v w = w

module _ (rand : ℕ → ℕ → ℕ → ℕ) where
  pub encrypt-Runs :
      (q : Channel) (input : List ℕ) (p : Proxy) → Runs p (encrypt_and_queue rand q input p).0
  encrypt-Runs q input p =
      Runs-Keeps (λ v. encrypt_and_queue-IsProxy rand q input p v)
        (encrypt_and_queue-Keeps rand q input p)

  -- A call of the client, noted, and what the client does in it.
  pub called-Runs :
      (e : Effect) (cs : List Call) (p : Proxy) → Runs p (perform_all rand cs (note e p))
  called-Runs e cs p =
      Runs-Keeps (λ v. perform_all-IsProxy rand cs _ (note-IsProxy e p v))
        (Keeps-trans (note-Keeps e p) (perform_all-Keeps rand cs _))

-- A change of the state alone, to one that is no end.
moved-Runs :
    (p : Proxy) (t : S5State)
    → Step p.state t
    → (t ≡ end ⊎ t ≡ failed → p.alive ≡ false)
    → Runs p (record p { state = t })
moved-Runs p t step live = record {
  accounts = λ v. record {
    account = v.account;
    reactor = v.reactor;
    socks5 = v.socks5;
    out_queue = v.out_queue;
    decrypt_buffer = v.decrypt_buffer;
  };
  ended = λ e. live;
  reach = next here step;
  buffer = refl;
}

-- The accounts and the way, but not yet the end.
record Passes (p q : Proxy) : Type 0 where
  accounts : IsProxy p → IsProxy q
  reach : Reach p.state q.state

moved-Passes : (p : Proxy) (t : S5State) → Step p.state t → Passes p (record p { state = t })
moved-Passes p t step = record {
  accounts = λ v. record {
    account = v.account;
    reactor = v.reactor;
    socks5 = v.socks5;
    out_queue = v.out_queue;
    decrypt_buffer = v.decrypt_buffer;
  };
  reach = next here step;
}

module _ (rand : ℕ → ℕ → ℕ → ℕ) (client : Client) (config : Config) where
  pub writable-Runs : (p : Proxy) → Runs p (writable_called rand client config p).0
  unfolding writable_called
  writable-Runs p = called-Runs rand client_writable _ p

  -- The end tells the client and destroys the tunnel.
  ended-Runs :
      (p : Proxy) (t : S5State)
      → Step p.state t
      → Runs p (disconnect rand client config (record p { state = t }))
  unfolding disconnect
  ended-Runs p t step =
      let m = moved-Passes p t step in
      let r =
        called-Runs rand client_disconnected
          (client.disconnected (note client_disconnected (record p { state = t })))
          (record p { state = t }) in
      record {
        accounts = λ v. destroy-IsProxy _ (r.accounts (m.accounts v));
        ended = λ e h. destroy-dead _;
        reach =
            subst (λ s. Reach p.state s) (sym (destroy-Keeps _).state)
              (Reach-trans m.reach r.reach);
        buffer = (destroy-Keeps _).buffer ∙ r.buffer;
      }

  entered-Runs :
      (p : Proxy) (t : S5State)
      → Step p.state t
      → Runs p (entered rand client config t (record p { state = t }))
  unfolding entered
  entered-Runs p init step = moved-Runs p init step (ground arith)
  entered-Runs p greet step = moved-Runs p greet step (ground arith)
  entered-Runs p verify step = moved-Runs p verify step (ground arith)
  entered-Runs p connect step = moved-Runs p connect step (ground arith)
  entered-Runs p trans step =
      Runs-trans (moved-Runs p trans step (ground arith))
        (writable-Runs (record p { state = trans }))
  entered-Runs p end step = ended-Runs p end step
  entered-Runs p failed step = ended-Runs p failed step

  pub switch-Runs :
      (t : S5State) (p : Proxy) → Step p.state t → Runs p (switch_state rand client config t p)
  unfolding switch_state
  switch-Runs t p step = if-Runs (in_state p.state t) (Runs-refl p) (entered-Runs p t step)

  pub fail-Runs : (p : Proxy) → Runs p (switch_state rand client config failed p)
  fail-Runs p = switch-Runs failed p (fails p.state)

  go_connect-Runs : (p : Proxy) → Step p.state connect → Runs p (go_connect rand client config p)
  unfolding go_connect send_connect
  go_connect-Runs p step = Runs-trans (encrypt-Runs rand handshake _ p) (
      switch-Runs connect _
        (subst (λ s. Step s connect) (sym (encrypt_and_queue-Keeps rand handshake _ p).state) step))

  account_sent-Runs :
      (r : Proxy × ℕ) → Step r.0.state verify → Runs r.0 (account_sent rand client config r)
  unfolding account_sent
  account_sent-Runs (p, n) step = if-Runs (ltb 0 n) (switch-Runs verify p step) (fail-Runs p)

  account_by-Keeps :
      (u w : Option (List ℕ)) (p : Proxy) → Keeps p (account_by rand client config u w p).0
  unfolding account_by
  account_by-Keeps (some u) (some w) p = encrypt_and_queue-Keeps rand handshake _ p
  account_by-Keeps (some u) none p = Keeps-refl p
  account_by-Keeps none w p = Keeps-refl p

  account_by-IsProxy :
      (u w : Option (List ℕ)) (p : Proxy)
      → IsProxy p
      → IsProxy (account_by rand client config u w p).0
  unfolding account_by
  account_by-IsProxy (some u) (some w) p v = encrypt_and_queue-IsProxy rand handshake _ p v
  account_by-IsProxy (some u) none p v = v
  account_by-IsProxy none w p v = v

  chosen-Runs :
      (m : ℕ) (p : Proxy) → p.state ≡ greet → Runs p (method_chosen rand client config m p)
  unfolding method_chosen send_account
  chosen-Runs m p e =
      let kept = account_by-Keeps config.username config.password p in
      if-Runs (m == verify_none)
        (go_connect-Runs p (subst (λ s. Step s connect) (sym e) no_account))
        (if-Runs (m == verify_account)
          (Runs-trans
            (Runs-Keeps (λ v. account_by-IsProxy config.username config.password p v) kept)
            (account_sent-Runs (account_by rand client config config.username config.password p)
              (subst (λ s. Step s verify) (sym (kept.state ∙ e)) account)))
          (Runs-refl p))

  pub greet_back-Runs :
      (input : List ℕ) (p : Proxy)
      → p.state ≡ greet
      → Runs p (greet_back rand client config input p)
  unfolding greet_back
  greet_back-Runs (ver ∷ m ∷ []) p e =
      if-Runs (ver == 5 && contain_verify 4 config.verify_methods m) (chosen-Runs m p e)
        (fail-Runs p)
  greet_back-Runs [] p e = fail-Runs p
  greet_back-Runs (ver ∷ []) p e = fail-Runs p
  greet_back-Runs (ver ∷ m ∷ x ∷ xs) p e = fail-Runs p

  pub verify_back-Runs :
      (input : List ℕ) (p : Proxy)
      → p.state ≡ verify
      → Runs p (verify_back rand client config input p)
  unfolding verify_back
  verify_back-Runs (ver ∷ status ∷ []) p e = if-Runs (not (ver == 5)) (fail-Runs p) (
      if-Runs (not (status == 0)) (fail-Runs p)
        (go_connect-Runs p (subst (λ s. Step s connect) (sym e) verified)))
  verify_back-Runs [] p e = fail-Runs p
  verify_back-Runs (ver ∷ []) p e = fail-Runs p
  verify_back-Runs (ver ∷ m ∷ x ∷ xs) p e = fail-Runs p

  pub conn_back-Runs :
      (input : List ℕ) (p : Proxy)
      → p.state ≡ connect
      → Runs p (conn_back rand client config input p)
  unfolding conn_back
  conn_back-Runs (ver ∷ status ∷ reserved ∷ addr_type ∷ more) p e =
      if-Runs (not (ver == 5)) (fail-Runs p) (
        if-Runs (not (status == 0)) (fail-Runs p)
          (switch-Runs trans p (subst (λ s. Step s trans) (sym e) connected)))
  conn_back-Runs [] p e = fail-Runs p
  conn_back-Runs (a ∷ []) p e = fail-Runs p
  conn_back-Runs (a ∷ b ∷ []) p e = fail-Runs p
  conn_back-Runs (a ∷ b ∷ c ∷ []) p e = fail-Runs p
