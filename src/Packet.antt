-- ===== src/Packet.antt =====
-- The packet decoder: src/packet_decoder.cpp and src/include/packet_decoder.hpp.
pub mod Types
pub mod Link
pub mod Network
pub mod Transport
pub mod Decoder
pub mod Fuel
pub mod Bounds
pub mod Prefix
pub mod Examples
