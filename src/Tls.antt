-- ===== src/Tls.antt =====
-- The TLS record layer: src/include/tls_reader.hpp, src/include/tls_record.hpp, src/tls_record.cpp.
pub mod Reader
pub mod Record
pub mod Handshake
pub mod Examples
