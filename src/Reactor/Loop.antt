-- ===== src/Reactor/Loop.antt =====
-- reactor/EpollReactor.cpp: dispatchEvent, dispatchCheck, cleanDeletedEvents, start, and the handler of
-- the command pipe.
pub mod Kept
pub mod Safety
pub mod Silence
pub mod Tracks
pub mod Rounds
pub mod Ending
use vpn_service_android.Common.{
  ℕ, zero, suc, ◌+◌, List, [], ◌∷◌, ◌++◌, map, Option, none, some, Bool, true, false, ◌==◌, ltb,
  not, if◌then◌else◌,
}
use vpn_service_android.Reactor.{
  Events, Listener, command, client, Stub, Kind, readable, writable, exception, check, Callback,
  Reactor, Status, success, failure, faulted,
}
use vpn_service_android.Reactor.Table.{store, free_all}
use vpn_service_android.Reactor.Calls.{Call, calls, add_event}

-- CHECK_PERIOD
abbrev pub check_period : ℕ
check_period = 10

-- An answer of epoll_wait for one stub; the bits that the code tests together are one field.
pub record Ready : Type 0 where
  pub stub : ℕ
  pub can_read : Bool
  pub can_write : Bool
  pub broken : Bool

-- What epoll_wait answers: EINTR or EINPROGRESS, another error, or events, with the time behind them.
pub data Wait : Type 0 where
  interrupted bad : Wait
  reported : List Ready → ℕ → Wait

-- The command pipe: a byte 1 stops the loop; when there is nothing to read the call ends.
unfoldable pub read_command : List ℕ → Reactor → Reactor
read_command [] r = r
read_command (c ∷ rest) r = record r { pipe = rest; working = if c == 1 then false else r.working }

abbrev pub addresses : List (ℕ × ℕ) → List ℕ
addresses t = map (λ e. e.1) t

module _ (handlers : List Callback → List Call) where
  unfoldable pub own_event : Kind → Reactor → Reactor
  unfolding read_command
  own_event readable r = read_command r.pipe r
  own_event writable r = r
  own_event exception r = r
  own_event check r = r

  unfoldable pub answer : Kind → Listener → Reactor → Reactor
  unfolding own_event calls
  answer kind command r = own_event kind r
  answer kind (client n) r = (calls (handlers r.log) r).1

  unfoldable pub invoke : Kind → Listener → ℕ → ℕ → Reactor → Reactor
  unfolding answer
  invoke kind l fd tag r =
      answer kind l
        (record r { log = r.log ++ record { kind = kind; fd = fd; to = l; tag = tag } ∷ [] })

  unfoldable pub call_listener : Option Listener → Stub → Kind → Reactor → Reactor
  unfolding invoke
  call_listener none s kind r = r
  call_listener (some l) s kind r = invoke kind l s.fd s.tag r

  unfoldable pub call_stub : Option Stub → Kind → Reactor → Reactor
  unfolding call_listener faulted
  call_stub none kind r = faulted r
  call_stub (some s) kind r = call_listener s.listener s kind r

  unfoldable pub touched : Option Stub → Reactor → Reactor
  unfolding faulted
  touched none r = faulted r
  touched (some s) r = r

  -- `if (stub->listener && ...)`: the stub is read before the bits are tested.
  unfoldable pub call_if : Bool → Kind → ℕ → Reactor → Reactor
  unfolding call_stub touched
  call_if true kind a r = call_stub (r.heap a) kind r
  call_if false kind a r = touched (r.heap a) r

  -- The three tests for one event.
  unfoldable pub dispatch_known : Ready → Reactor → Reactor
  unfolding call_if
  dispatch_known e r =
      let after_read = call_if e.can_read readable e.stub r in
      let after_write = call_if e.can_write writable e.stub after_read in
      call_if e.broken exception e.stub after_write

  unfoldable pub dispatch_listened : Option Listener → Ready → Reactor → Reactor
  unfolding dispatch_known
  dispatch_listened none e r = r
  dispatch_listened (some l) e r = dispatch_known e r

  unfoldable pub dispatch_stub : Option Stub → Ready → Reactor → Reactor
  unfolding dispatch_listened faulted
  dispatch_stub none e r = faulted r
  dispatch_stub (some s) e r = dispatch_listened s.listener e r

  unfoldable pub dispatch_one : Ready → Reactor → Reactor
  unfolding dispatch_stub
  dispatch_one e r = dispatch_stub (r.heap e.stub) e r

  unfoldable pub dispatch_event : List Ready → Reactor → Reactor
  unfolding dispatch_one
  dispatch_event [] r = r
  dispatch_event (e ∷ es) r = dispatch_event es (dispatch_one e r)

  unfoldable pub check_each : List ℕ → Reactor → Reactor
  unfolding call_if
  check_each [] r = r
  check_each (a ∷ xs) r = check_each xs (call_if true check a r)

  -- The stubs are copied before the first handler is called.
  unfoldable pub dispatch_check : Reactor → Reactor
  unfolding check_each
  dispatch_check r = check_each (addresses r.table) r

  unfoldable pub clean_deleted_events : Reactor → Reactor
  unfolding free_all
  clean_deleted_events r = record r { heap = free_all r.deleted r.heap; deleted = [] }

  -- One round of the loop behind a successful epoll_wait, and the time of the last check.
  unfoldable pub round : List Ready → ℕ → ℕ → Reactor → ℕ × Reactor
  unfolding dispatch_event dispatch_check clean_deleted_events
  round ready now last r =
      let dispatched = dispatch_event ready r in
      if ltb (last + check_period) now
      then (now, clean_deleted_events (dispatch_check dispatched))
      else (last, clean_deleted_events dispatched)

  -- The loop over the answers of epoll_wait; whether it has ended, and the reactor.
  unfoldable pub loop : List Wait → ℕ → Reactor → Bool × Reactor
  unfolding round
  loop [] last r = (not r.working, r)
  loop (interrupted ∷ ws) last r = if r.working then loop ws last r else (true, r)
  loop (bad ∷ ws) last r = (true, r)
  loop (reported es now ∷ ws) last r =
      if r.working
      then (let (checked, after) = round es now last r in loop ws checked after)
      else (true, r)

  unfoldable pub start : List Wait → ℕ → Reactor → Status × Bool × Reactor
  unfolding loop
  start ws now r =
      if r.working
      then (failure, true, r)
      else (let ran = loop ws now (record r { working = true }) in (success, ran.0, ran.1))

-- The fields before anything is added, and the constructor with a pipe that is read at `fd`, when
-- epoll accepts it.
abbrev pub no_stubs : Reactor
no_stubs = record {
  has_epoll = true;
  working = false;
  heap = λ a. none;
  fresh = 0;
  table = [];
  deleted = [];
  pipe = [];
  log = [];
  fault = false;
}

unfoldable pub create_reactor : ℕ → Reactor
unfolding add_event
create_reactor fd =
    let reads : Events = record { read = true; write = false; error = false } in
    (add_event (some fd) reads (some command) 0 true no_stubs).1

-- The destructor's walk over the table; `ok` is whether epoll_ctl removes the descriptor.
unfoldable pub destroy : (ℕ → Bool) → List (ℕ × ℕ) → Reactor → Reactor
unfolding store
destroy ok [] r = record r { table = [] }
destroy ok ((fd, a) ∷ t) r =
    let freed = destroy ok t (record r { heap = store r.heap a none }) in
    let kept = destroy ok t r in
    if ok fd then freed else record kept { table = (fd, a) ∷ kept.table }
