-- ===== src/Tcp.antt =====
-- core/TCPSession.cpp and core/TCPSession.h: the TCP session between the tun device and a tunnel.
pub mod Session
pub mod Output
pub mod Input
pub mod Tunnel
pub mod Start
