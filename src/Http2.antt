-- ===== src/Http2.antt =====
-- HTTP/2, src/http2 (RFC 7540).
mod Tests
pub mod FrameType
pub mod Frame
pub mod Settings
pub mod FlowControl
pub mod HeadersFrame
pub mod Stream
pub mod Transport
