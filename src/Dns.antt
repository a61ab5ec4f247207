-- ===== src/Dns.antt =====
-- DNS: src/dns_tcp_framer.cpp with src/include/dns_tcp_framer.hpp, and the decoder of
-- src/dns_decoder.cpp with src/include/dns_decoder.hpp.
pub mod Framer
pub mod Status
pub mod Decoder
pub mod Examples
