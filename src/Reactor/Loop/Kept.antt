-- ===== src/Reactor/Loop/Kept.antt =====
-- What the handlers called by EpollReactor keep: they free no stub, whatever calls they make.
use vpn_service_android.Common.{
  ℕ, ◌≡◌, refl, sym, subst, List, [], ◌∷◌, ◌++◌, map, Option, none, some, Bool, true, false, ◌==◌,
  if◌then◌else◌, All, arith,
}
use vpn_service_android.Reactor.{
  Listener, command, client, Stub, Kind, readable, writable, exception, check, Callback, Reactor,
}
use vpn_service_android.Reactor.Table.{find}
use vpn_service_android.Reactor.Table.Laws.{IsOrdered, find-Above}
use vpn_service_android.Reactor.Calls.{Call}
use vpn_service_android.Reactor.Calls.Kept.{Keeps, refl-Keeps, trans-Keeps, calls-Keeps, is_live}
use vpn_service_android.Reactor.Calls.Invariant.{IsReactor, fd_of}
use vpn_service_android.Reactor.Loop.{
  Ready, read_command, own_event, answer, invoke, call_listener, call_stub, touched, call_if,
  dispatch_known, dispatch_listened, dispatch_stub, dispatch_one, dispatch_event, check_each,
  addresses, dispatch_check,
}

pub other-Keeps :
    (r : Reactor) (w : Bool) (pipe : List ℕ) (log : List Callback)
    → IsReactor r
    → Keeps r (record r { working = w; pipe = pipe; log = log })
other-Keeps r w pipe log v = record {
  valid = record {
    ordered = v.ordered;
    tabled = v.tabled;
    waits = v.waits;
    recent = v.recent;
    owned = v.owned;
  };
  fault = refl;
  has_epoll = refl;
  live = λ a h. h;
  deleted = λ a h. h;
}

read_command-Keeps : (xs : List ℕ) (r : Reactor) → IsReactor r → Keeps r (read_command xs r)
unfolding read_command
read_command-Keeps [] r v = refl-Keeps r v
read_command-Keeps (c ∷ rest) r v = other-Keeps r (if c == 1 then false else r.working) rest r.log v

pub live_cases : (o : Option Stub) → is_live o ≡ true → (s : Stub) × (o ≡ some s)
live_cases none h = absurd (cc)
live_cases (some s) h = (s, refl)

-- Every stub reported is allocated.
abbrev pub AllLive : Reactor → List ℕ → Type 0
AllLive r xs = All (λ a. is_live (r.heap a) ≡ true) xs

abbrev pub stubs : List Ready → List ℕ
stubs es = map (λ e. e.stub) es

module _ (handlers : List Callback → List Call) where
  own_event-Keeps : (k : Kind) (r : Reactor) → IsReactor r → Keeps r (own_event handlers k r)
  unfolding own_event
  own_event-Keeps readable r v = read_command-Keeps r.pipe r v
  own_event-Keeps writable r v = refl-Keeps r v
  own_event-Keeps exception r v = refl-Keeps r v
  own_event-Keeps check r v = refl-Keeps r v

  answer-Keeps :
      (k : Kind) (l : Listener) (r : Reactor) → IsReactor r → Keeps r (answer handlers k l r)
  unfolding answer
  answer-Keeps k command r v = own_event-Keeps k r v
  answer-Keeps k (client n) r v = calls-Keeps (handlers r.log) r v

  call_listener-Keeps :
      (l : Option Listener) (s : Stub) (k : Kind) (r : Reactor)
      → IsReactor r
      → Keeps r (call_listener handlers l s k r)
  unfolding call_listener invoke
  call_listener-Keeps none s k r v = refl-Keeps r v
  call_listener-Keeps (some l) s k r v =
      let called = r.log ++ record { kind = k; fd = s.fd; to = l; tag = s.tag } ∷ [] in
      let logged = other-Keeps r r.working r.pipe called v in
      trans-Keeps r (record r { log = called }) _ logged
        (answer-Keeps k l (record r { log = called }) logged.valid)

  pub call_if-Keeps :
      (b : Bool) (k : Kind) (a : ℕ) (r : Reactor)
      → IsReactor r
      → is_live (r.heap a) ≡ true
      → Keeps r (call_if handlers b k a r)
  unfolding call_if call_stub touched
  call_if-Keeps b k a r v h = let (s, e) = live_cases (r.heap a) h in by_test b s e
    where
      by_test : (b : Bool) (s : Stub) → r.heap a ≡ some s → Keeps r (call_if handlers b k a r)
      by_test true s e =
          subst (λ o. Keeps r (call_stub handlers o k r)) (sym e)
            (call_listener-Keeps s.listener s k r v)
      by_test false s e = subst (λ o. Keeps r (touched handlers o r)) (sym e) (refl-Keeps r v)

  dispatch_known-Keeps :
      (e : Ready) (r : Reactor)
      → IsReactor r
      → is_live (r.heap e.stub) ≡ true
      → Keeps r (dispatch_known handlers e r)
  unfolding dispatch_known
  dispatch_known-Keeps e r v h =
      let q = call_if handlers e.can_read readable e.stub r in
      let p = call_if handlers e.can_write writable e.stub q in
      let one = call_if-Keeps e.can_read readable e.stub r v h in
      let two = call_if-Keeps e.can_write writable e.stub q one.valid (one.live e.stub h) in
      let both = trans-Keeps r q p one two in
      trans-Keeps r p _ both
        (call_if-Keeps e.broken exception e.stub p both.valid (both.live e.stub h))

  pub dispatch_one-Keeps :
      (e : Ready) (r : Reactor)
      → IsReactor r
      → is_live (r.heap e.stub) ≡ true
      → Keeps r (dispatch_one handlers e r)
  unfolding dispatch_one dispatch_stub dispatch_listened
  dispatch_one-Keeps e r v h =
      let (s, found) = live_cases (r.heap e.stub) h in
      subst (λ o. Keeps r (dispatch_stub handlers o e r)) (sym found) (by_listener s.listener)
    where
      by_listener : (l : Option Listener) → Keeps r (dispatch_listened handlers l e r)
      by_listener none = refl-Keeps r v
      by_listener (some l) = dispatch_known-Keeps e r v h

  pub live_later : (r q : Reactor) (xs : List ℕ) → Keeps r q → AllLive r xs → AllLive q xs
  live_later r q [] k h = tt
  live_later r q (a ∷ xs) k h = (k.live a h.0, live_later r q xs k h.1)

  pub dispatch_event-Keeps :
      (es : List Ready) (r : Reactor)
      → IsReactor r
      → AllLive r (stubs es)
      → Keeps r (dispatch_event handlers es r)
  unfolding dispatch_event
  dispatch_event-Keeps [] r v h = refl-Keeps r v
  dispatch_event-Keeps (e ∷ es) r v h =
      let q = dispatch_one handlers e r in
      let one = dispatch_one-Keeps e r v h.0 in
      trans-Keeps r q _ one
        (dispatch_event-Keeps es q one.valid (live_later r q (stubs es) one h.1))

  check_each-Keeps :
      (xs : List ℕ) (r : Reactor) → IsReactor r → AllLive r xs → Keeps r (check_each handlers xs r)
  unfolding check_each
  check_each-Keeps [] r v h = refl-Keeps r v
  check_each-Keeps (a ∷ xs) r v h =
      let q = call_if handlers true check a r in
      let one = call_if-Keeps true check a r v h.0 in
      trans-Keeps r q _ one (check_each-Keeps xs q one.valid (live_later r q xs one h.1))

  tabled_live :
      (r : Reactor) (t : List (ℕ × ℕ))
      → IsOrdered t
      → ((fd a : ℕ) → find fd t ≡ some a → is_live (r.heap a) ≡ true)
      → AllLive r (addresses t)
  unfolding find
  tabled_live r [] o f = tt
  tabled_live r ((k, a) ∷ t) o f =
      (f k a (ground arith), tabled_live r t o.1 (λ fd b e. f fd b (in_tail fd b e)))
    where
      in_tail : (fd b : ℕ) → find fd t ≡ some b → find fd ((k, a) ∷ t) ≡ some b
      in_tail fd b e = ground (arith, find-Above k t o.0)

  pub table_live : (r : Reactor) → IsReactor r → AllLive r (addresses r.table)
  table_live r v =
      tabled_live r r.table v.ordered (λ fd a e. fd_live (r.heap a) fd (v.tabled fd a e).0)
    where
      fd_live : (o : Option Stub) (fd : ℕ) → fd_of o ≡ some fd → is_live o ≡ true
      fd_live o fd e = ground arith

  pub dispatch_check-Keeps : (r : Reactor) → IsReactor r → Keeps r (dispatch_check handlers r)
  unfolding dispatch_check
  dispatch_check-Keeps r v = check_each-Keeps (addresses r.table) r v (table_live r v)
