-- ===== src/Headers.antt =====
-- HPACK header fields, src/dependencies/hpack/header.h and header.cpp (RFC 7541).
pub mod Static
pub mod Table
pub mod Decoder
pub mod Encoder
mod Tests
