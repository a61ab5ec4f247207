-- ===== src/Pcap.antt =====
-- The PCAP writer: src/pcap_writer.cpp and src/include/pcap_writer.hpp.
pub mod Writer
pub mod Examples
