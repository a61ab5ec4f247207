-- ===== src/Tcp.antt =====
-- TCP stream reconstruction: src/tcp_reassembly.cpp and src/include/tcp_reassembly.hpp.
pub mod Types
pub mod Status
pub mod Key
pub mod Sequence
pub mod Overlay
pub mod Emit
pub mod Finish
pub mod Provenance
pub mod Reassembler
pub mod Examples
