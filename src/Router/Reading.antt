-- ===== src/Router/Reading.antt =====
-- core/Router.cpp, onReadable, onPeriodicallyCheck and releaseSessions: a packet from the tunnel device
-- goes to the list of its protocol, and both lists are purged together.
use vpn_service_android.Common.{ℕ, ◌+◌, List, [], Option, none, some, ◌==◌, if◌then◌else◌, if_both}
use vpn_service_android.Router.Sessions.{Key, SessionOps, route, clean_dead_sessions}
use vpn_service_android.Router.Sessions.Unique.{routed, cleaned, Reached, then_step}

-- PROTO
abbrev pub udp_protocol : ℕ
udp_protocol = 17

abbrev pub tcp_protocol : ℕ
tcp_protocol = 6

-- A packet as the header shows it.
pub record Arrival (P : Type 0) : Type 0 where
  pub protocol : ℕ
  pub key : Key
  pub packet : P

-- The clock decides whether a TCP session has closed, so those have a record for each time.
module _ {U T P : Type 0} (udp : SessionOps U P) (tcp : ℕ → SessionOps T P) where
  pub record Lists : Type 0 where
    pub udp_sessions : List U
    pub tcp_sessions : List T

  unfoldable pub route_by : ℕ → Arrival P → Lists → Lists
  unfolding route
  route_by now a l =
      if a.protocol == udp_protocol
      then record l { udp_sessions = (route udp a.key a.packet l.udp_sessions).1 }
      else (if a.protocol == tcp_protocol
          then record l { tcp_sessions = (route (tcp now) a.key a.packet l.tcp_sessions).1 }
          else l)

  -- `read` may fail. `now` is `time(NULL)`.
  unfoldable pub on_readable : ℕ → Option (Arrival P) → Lists → Lists
  unfolding route_by
  on_readable now none l = l
  on_readable now (some a) l = route_by now a l

  -- cleanDeadSessions of both lists: how many were released.
  unfoldable pub clean_both : ℕ → Lists → ℕ × Lists
  unfolding clean_dead_sessions
  clean_both now l =
      let u = clean_dead_sessions udp l.udp_sessions in
      let t = clean_dead_sessions (tcp now) l.tcp_sessions in
      (u.0 + t.0, record { udp_sessions = u.1; tcp_sessions = t.1 })

  unfoldable pub on_periodically_check : ℕ → Lists → Lists
  unfolding clean_both
  on_periodically_check now l = (clean_both now l).1

  unfoldable pub release_sessions : Lists → Lists
  release_sessions l = record { udp_sessions = []; tcp_sessions = [] }

  -- The router's own handlers stay within the steps of the list of UDP sessions.
  pub on_readable-Reached :
      (now : ℕ) (a : Option (Arrival P)) (l : Lists)
      → Reached udp l.udp_sessions
      → Reached udp (on_readable now a l).udp_sessions
  unfolding on_readable route_by
  on_readable-Reached now none l r = r
  on_readable-Reached now (some a) l r =
      if_both (λ (m : Lists). Reached udp m.udp_sessions) (a.protocol == udp_protocol)
        (then_step l.udp_sessions _ r (routed a.key a.packet l.udp_sessions))
        (if_both (λ (m : Lists). Reached udp m.udp_sessions) (a.protocol == tcp_protocol) r r)

  pub on_periodically_check-Reached :
      (now : ℕ) (l : Lists)
      → Reached udp l.udp_sessions
      → Reached udp (on_periodically_check now l).udp_sessions
  unfolding on_periodically_check clean_both
  on_periodically_check-Reached now l r = then_step l.udp_sessions _ r (cleaned l.udp_sessions)
