-- ===== src/Router/Sessions.antt =====
-- core/Session.cpp and the lists of core/Router.cpp: finding, building, routing to and purging sessions.
-- A list of pointers to sessions is a list of sessions; a session found is the split of the list at its
-- place. TCP and UDP sessions share the code, so their own operations are a record. Connection events for the user interface are left out.
pub mod Unique
pub mod UdpOps
pub mod UdpEvents
pub mod TcpOps
use vpn_service_android.Common.{
  ℕ, suc, ◌+◌, ◌≡◌, List, [], ◌∷◌, ◌++◌, Option, none, some, Bool, true, false, ◌==◌, ◌&&◌, not,
  if◌then◌else◌,
}

-- The five fields that tell two sessions apart, as numbers in network order.
pub record Key : Type 0 where
  pub ip_ver : ℕ
  pub src_addr : ℕ
  pub dest_addr : ℕ
  pub src_port : ℕ
  pub dest_port : ℕ

abbrev pub same_key : Key → Key → Bool
same_key j k =
    j.ip_ver == k.ip_ver
    && (j.src_addr == k.src_addr
        && (j.dest_addr == k.dest_addr && (j.src_port == k.src_port && j.dest_port == k.dest_port)))

-- What a class derived from Session does at one moment: UDPSession::hasClosed looks at the session alone,
-- but TCPSession::hasClosed also at the clock, so the TCP sessions have a record of this kind for each
-- time. `init` is behind initBaseInfo, which sets the key; `accept`
-- says whether it refuses. `P` is the rest of a packet.
pub record SessionOps (S P : Type 0) : Type 0 where
  pub key : S → Key
  pub has_closed : S → Bool
  pub init : Key → P → Option S
  pub accept : Key → P → S → Bool × S
  pub key-init : (k : Key) (p : P) (s : S) → init k p ≡ some s → key s ≡ k
  pub key-accept : (k : Key) (p : P) (s : S) → key (accept k p s).1 ≡ key s

module _ {S P : Type 0} (ops : SessionOps S P) where
  -- A place in the list: the sessions before it, the one at it, and those behind.
  pub record Place : Type 0 where
    pub before : List S
    pub session : S
    pub after : List S

  unfoldable pub step_over : S → Option Place → Option Place
  step_over s none = none
  step_over s (some p) =
      some (record { before = s ∷ p.before; session = p.session; after = p.after })

  unfoldable pub is_of : Key → S → Bool
  is_of k s = not (ops.has_closed s) && same_key (ops.key s) k

  unfoldable pub find_in : Key → List S → Option Place
  unfolding step_over is_of
  find_in k [] = none
  find_in k (s ∷ ss) =
      let rest = step_over s (find_in k ss) in
      if is_of k s then some (record { before = []; session = s; after = ss }) else rest

  -- Only IPv4 packets are looked up, or get a session.
  unfoldable pub find_session : Key → List S → Option Place
  unfolding find_in
  find_session k ss = if k.ip_ver == 4 then find_in k ss else none

  unfoldable pub build_session : Key → P → Option S
  build_session k p = if k.ip_ver == 4 then ops.init k p else none

  -- `route`: whether the packet was accepted, and the list.
  unfoldable pub route_new : Key → P → Option S → List S → Bool × List S
  route_new k p none ss = (false, ss)
  route_new k p (some s) ss =
      let accepted = ops.accept k p s in (not accepted.0, ss ++ accepted.1 ∷ [])

  unfoldable pub route_found : Key → P → Option Place → List S → Bool × List S
  unfolding route_new build_session
  route_found k p none ss = route_new k p (build_session k p) ss
  route_found k p (some at) ss =
      let accepted = ops.accept k p at.session in
      (not accepted.0, at.before ++ accepted.1 ∷ at.after)

  unfoldable pub route : Key → P → List S → Bool × List S
  unfolding route_found find_session
  route k p ss = route_found k p (find_session k ss) ss

  -- cleanDeadSessions on one list: how many were released, and the list.
  unfoldable pub clean_dead_sessions : List S → ℕ × List S
  clean_dead_sessions [] = (0, [])
  clean_dead_sessions (s ∷ ss) =
      let rest = clean_dead_sessions ss in
      if ops.has_closed s then (suc rest.0, rest.1) else (rest.0, s ∷ rest.1)
