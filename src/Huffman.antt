-- ===== src/Huffman.antt =====
-- The HPACK string codec, src/dependencies/hpack/huffy (RFC 7541, 5.2 and Appendix B).
pub mod Reader
pub mod Tables
pub mod Codes
pub mod Decode
pub mod Encode
mod Tests
pub mod StringDecode
