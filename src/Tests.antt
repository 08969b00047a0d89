-- ===== src/Tests.antt =====
-- The theorems applied to concrete inputs, by component.
pub mod Coding
mod Queues
mod Packets
mod Sessions
mod Proxies
mod Reactors
mod Datagrams
mod Routes
mod Dispatchers
