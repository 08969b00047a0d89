-- ===== src/Packet.antt =====
-- core/IPAdpt.cpp and utils/Utils.cpp: what the sessions read from packets and how they compare
-- sequence numbers.
pub mod Header
pub mod Options
pub mod Sequence
pub mod Checksum
