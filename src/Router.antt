-- ===== src/Router.antt =====
-- core/Router.cpp and core/Session.cpp: the lists of sessions, and the queue of packages for the tunnel
-- device.
pub mod Sessions
pub mod Reading
pub mod Writing
pub mod Lifecycle
