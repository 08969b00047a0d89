-- ===== src/Reactor.antt =====
-- reactor/EpollReactor.cpp and IReactor.h: the table of handlers of one epoll descriptor, the stubs it
-- allocates, and the loop that dispatches events to handlers.
-- The answers of epoll_ctl, epoll_wait, time and write are arguments. What a client's handler does is
-- the row of calls it makes on the reactor, a function `handlers` of all callbacks so far.
pub mod Table
pub mod Calls
pub mod Loop
use vpn_service_android.Common.{
  ℕ, zero, suc, List, [], ◌∷◌, ◌++◌, Option, none, some, Bool, true, false, ◌&&◌, ◌||◌, not,
  if◌then◌else◌,
}

-- A set of the constants of IReactor::EVENT.
pub record Events : Type 0 where
  pub read : Bool
  pub write : Bool
  pub error : Bool

unfoldable pub union : Events → Events → Events
union e f = record {
  read = e.read || f.read;
  write = e.write || f.write;
  error = e.error || f.error;
}

-- events & (~removed)
unfoldable pub minus : Events → Events → Events
minus e f = record {
  read = e.read && not f.read;
  write = e.write && not f.write;
  error = e.error && not f.error;
}

unfoldable pub no_events : Events → Bool
no_events e = not (e.read || (e.write || e.error))

-- The interest given to epoll: EPOLLIN and EPOLLOUT.
pub record Mask : Type 0 where
  pub epoll_in : Bool
  pub epoll_out : Bool

unfoldable pub convert_event : Events → Mask
convert_event e = record { epoll_in = e.read; epoll_out = e.write }

-- (mask & wanted) == wanted
unfoldable pub covers : Mask → Mask → Bool
covers m w = (m.epoll_in || not w.epoll_in) && (m.epoll_out || not w.epoll_out)

-- A handler: the reactor itself for its command pipe, or a client's object.
pub data Listener : Type 0 where
  command : Listener
  client : ℕ → Listener

-- The epoll_event that a stub owns is its field `mask`.
pub record Stub : Type 0 where
  pub events : Events
  pub mask : Mask
  pub fd : ℕ
  pub listener : Option Listener
  pub tag : ℕ

pub data Kind : Type 0 where
  readable writable exception check : Kind

pub record Callback : Type 0 where
  pub kind : Kind
  pub fd : ℕ
  pub to : Listener
  pub tag : ℕ

-- `has_epoll` is mEpollFD >= 0; `pipe` is what the command pipe holds; `fault` is whether a stub was
-- used that is not allocated.
pub record Reactor : Type 0 where
  pub has_epoll : Bool
  pub working : Bool
  pub heap : ℕ → Option Stub
  pub fresh : ℕ
  pub table : List (ℕ × ℕ)
  pub deleted : List ℕ
  pub pipe : List ℕ
  pub log : List Callback
  pub fault : Bool

-- What a call returns: 0, -1 and 1.
pub data Status : Type 0 where
  success refused failure : Status

unfoldable pub faulted : Reactor → Reactor
faulted r = record r { fault = true }
