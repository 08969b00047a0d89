-- ===== src/Udp.antt =====
-- core/UDPSession.cpp: the sessions of UDP.
pub mod Packet
pub mod Session
pub mod Events
