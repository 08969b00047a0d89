-- ===== src/Proxy.antt =====
-- core/proxy: the client side of SOCKS5, over the cipher.
pub mod State
pub mod Calls
pub mod Handshake
pub mod Events
