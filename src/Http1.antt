-- ===== src/Http1.antt =====
-- HTTP/1, src/http1 (RFC 7230).
mod Tests
pub mod Lines
pub mod Transport
pub mod Server
pub mod Client
pub mod Upgrade
pub mod Dispatch
pub mod ClientSource
