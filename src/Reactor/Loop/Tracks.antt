-- ===== src/Reactor/Loop/Tracks.antt =====
-- Callbacks of EpollReactor leave the stub of the command pipe in place, and lose no stop.
use vpn_service_android.Common.{
  ℕ, ◌≡◌, ◌∙◌, ap, List, [], ◌∷◌, ◌++◌, Option, none, some, Bool, true, false, ◌==◌, if◌then◌else◌,
  All, arith, inl, inr, ◌⊎◌,
}
use vpn_service_android.Reactor.{
  Listener, command, client, Stub, Kind, readable, writable, exception, check, Callback, Reactor,
}
use vpn_service_android.Reactor.Table.{find}
use vpn_service_android.Reactor.Calls.{Call, calls, call}
use vpn_service_android.Reactor.Calls.Kept.{call-Keeps, is_live}
use vpn_service_android.Reactor.Calls.Invariant.{IsReactor}
use vpn_service_android.Reactor.Calls.Spared.{asks_stop, Spares, call-IsSpared}
use vpn_service_android.Reactor.Loop.Kept.{other-Keeps}
use vpn_service_android.Reactor.Loop.{
  read_command, own_event, answer, invoke, call_listener, call_stub, touched, call_if,
}

abbrev pub listener_of : Option Stub → Option Listener
listener_of none = none
listener_of (some s) = s.listener

-- The loop has been told to end, or is to be told by the command pipe.
abbrev pub Stops : Reactor → Type 0
Stops r = (r.working ≡ false) ⊎ (asks_stop r.pipe ≡ true)

-- The stub at `a` is that of the command pipe `fd`.
pub record IsCommand (fd a : ℕ) (r : Reactor) : Type 0 where
  pub valid : IsReactor r
  pub place : find fd r.table ≡ some a
  pub listens : listener_of (r.heap a) ≡ some command

-- It stays so, and a stop is not lost.
pub record Tracks (fd a : ℕ) (r q : Reactor) : Type 0 where
  pub here : IsCommand fd a q
  pub stops : Stops r → Stops q
  pub off : r.working ≡ false → q.working ≡ false

pub refl-Tracks : (fd a : ℕ) (r : Reactor) → IsCommand fd a r → Tracks fd a r r
refl-Tracks fd a r h = record { here = h; stops = λ s. s; off = λ s. s }

pub trans-Tracks :
    (fd a : ℕ) (r q p : Reactor) → Tracks fd a r q → Tracks fd a q p → Tracks fd a r p
trans-Tracks fd a r q p f g = record {
  here = g.here;
  stops = λ h. g.stops (f.stops h);
  off = λ h. g.off (f.off h);
}

keeps_stop :
    (r q : Reactor)
    → q.working ≡ r.working
    → (asks_stop r.pipe ≡ true → asks_stop q.pipe ≡ true)
    → Stops r
    → Stops q
keeps_stop r q w p (inl e) = inl (w ∙ e)
keeps_stop r q w p (inr e) = inr (p e)

call-Tracks :
    (fd a : ℕ) (c : Call) (r : Reactor)
    → IsCommand fd a r
    → Spares fd c
    → Tracks fd a r (call c r).1
call-Tracks fd a c r h n =
    let kept = call-Keeps c r h.valid in
    let spared = call-IsSpared fd a c r h.valid h.place n in
    record {
      here = record {
        valid = kept.valid;
        place = spared.place;
        listens = ap listener_of spared.stub ∙ h.listens;
      };
      stops = keeps_stop r (call c r).1 spared.working spared.pipe;
      off = λ e. spared.working ∙ e;
    }

calls-Tracks :
    (fd a : ℕ) (cs : List Call) (r : Reactor)
    → IsCommand fd a r
    → All (Spares fd) cs
    → Tracks fd a r (calls cs r).1
unfolding calls
calls-Tracks fd a [] r h n = refl-Tracks fd a r h
calls-Tracks fd a (c ∷ cs) r h n =
    let one = call-Tracks fd a c r h n.0 in
    trans-Tracks fd a r (call c r).1 (calls cs (call c r).1).1 one
      (calls-Tracks fd a cs (call c r).1 one.here n.1)

pub other-IsCommand :
    (fd a : ℕ) (r : Reactor) (w : Bool) (pipe : List ℕ) (log : List Callback)
    → IsCommand fd a r
    → IsCommand fd a (record r { working = w; pipe = pipe; log = log })
other-IsCommand fd a r w pipe log h = record {
  valid = (other-Keeps r w pipe log h.valid).valid;
  place = h.place;
  listens = h.listens;
}

-- Reading the pipe ends the loop when a stop waits.
read_command_off :
    (xs : List ℕ) (r : Reactor) → asks_stop xs ≡ true → (read_command xs r).working ≡ false
unfolding read_command
read_command_off [] r h = absurd cc
read_command_off (c ∷ rest) r h = ground arith

read_command_stays :
    (xs : List ℕ) (r : Reactor) → r.working ≡ false → (read_command xs r).working ≡ false
unfolding read_command
read_command_stays [] r h = h
read_command_stays (c ∷ rest) r h = ground arith

read_command_ended : (r : Reactor) → Stops r → (read_command r.pipe r).working ≡ false
read_command_ended r (inl e) = read_command_stays r.pipe r e
read_command_ended r (inr e) = read_command_off r.pipe r e

read_command-Tracks :
    (fd a : ℕ) (r : Reactor) → IsCommand fd a r → Tracks fd a r (read_command r.pipe r)
unfolding read_command
read_command-Tracks fd a r h = record {
  here = here_of r.pipe;
  stops = λ s. inl (read_command_ended r s);
  off = read_command_stays r.pipe r;
}
  where
    here_of : (xs : List ℕ) → IsCommand fd a (read_command xs r)
    here_of [] = h
    here_of (c ∷ rest) = other-IsCommand fd a r (if c == 1 then false else r.working) rest r.log h

module _ (handlers : List Callback → List Call) (fd a : ℕ)
    (spares : (log : List Callback) → All (Spares fd) (handlers log)) where
  answer-Tracks :
      (k : Kind) (l : Listener) (r : Reactor)
      → IsCommand fd a r
      → Tracks fd a r (answer handlers k l r)
  unfolding answer own_event
  answer-Tracks readable command r h = read_command-Tracks fd a r h
  answer-Tracks writable command r h = refl-Tracks fd a r h
  answer-Tracks exception command r h = refl-Tracks fd a r h
  answer-Tracks check command r h = refl-Tracks fd a r h
  answer-Tracks k (client n) r h = calls-Tracks fd a (handlers r.log) r h (spares r.log)

  logged : Kind → Listener → ℕ → ℕ → Reactor → Reactor
  logged k l d tag r = record r {
    log = r.log ++ record { kind = k; fd = d; to = l; tag = tag } ∷ [];
  }

  invoke-Tracks :
      (k : Kind) (l : Listener) (d tag : ℕ) (r : Reactor)
      → IsCommand fd a r
      → Tracks fd a r (invoke handlers k l d tag r)
  unfolding invoke logged
  invoke-Tracks k l d tag r h =
      let q = logged k l d tag r in
      let here = other-IsCommand fd a r r.working r.pipe q.log h in
      let after = answer-Tracks k l q here in
      record { here = after.here; stops = λ s. after.stops s; off = λ e. after.off e }

  call_listener-Tracks :
      (l : Option Listener) (s : Stub) (k : Kind) (r : Reactor)
      → IsCommand fd a r
      → Tracks fd a r (call_listener handlers l s k r)
  unfolding call_listener
  call_listener-Tracks none s k r h = refl-Tracks fd a r h
  call_listener-Tracks (some l) s k r h = invoke-Tracks k l s.fd s.tag r h

  by_stub-Tracks :
      (o : Option Stub) (k : Kind) (r : Reactor)
      → IsCommand fd a r
      → is_live o ≡ true
      → Tracks fd a r (call_stub handlers o k r) × Tracks fd a r (touched handlers o r)
  unfolding call_stub touched
  by_stub-Tracks none k r h n = absurd cc
  by_stub-Tracks (some s) k r h n = (call_listener-Tracks s.listener s k r h, refl-Tracks fd a r h)

  pub call_if-Tracks :
      (b : Bool) (k : Kind) (c : ℕ) (r : Reactor)
      → IsCommand fd a r
      → is_live (r.heap c) ≡ true
      → Tracks fd a r (call_if handlers b k c r)
  unfolding call_if
  call_if-Tracks true k c r h n = (by_stub-Tracks (r.heap c) k r h n).0
  call_if-Tracks false k c r h n = (by_stub-Tracks (r.heap c) k r h n).1

  -- The command pipe is readable and a stop waits.
  pub call_if_off :
      (r : Reactor)
      → IsCommand fd a r
      → Stops r
      → (call_if handlers true readable a r).working ≡ false
  unfolding call_if call_stub call_listener invoke answer own_event logged
  call_if_off r h s = by_stub (r.heap a) h.listens
    where
      by_listener :
          (t : Stub) (l : Option Listener)
          → l ≡ some command
          → (call_listener handlers l t readable r).working ≡ false
      by_listener t none e = absurd cc
      by_listener t (some (client n)) e = absurd cc
      by_listener t (some command) e = read_command_ended (logged readable command t.fd t.tag r) s

      by_stub :
          (o : Option Stub)
          → listener_of o ≡ some command
          → (call_stub handlers o readable r).working ≡ false
      by_stub none e = absurd cc
      by_stub (some t) e = by_listener t t.listener e
