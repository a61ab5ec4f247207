-- ===== src/Tls/Handshake.antt =====
-- The hello parsers of src/tls_handshake.cpp with src/include/tls_handshake.hpp. The result `none` is a
-- failed PQ_ASSERT.
pub mod Types
pub mod Lists
pub mod Extensions
pub mod Hello
pub mod Examples
