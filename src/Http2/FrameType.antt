-- ===== src/Http2/FrameType.antt =====
-- The codes of `enum class FrameType`, src/http2/Frame.h. DATA is called `content` here.
use shitty.Prelude.{ℕ}

abbrev pub content : ℕ
content = 0x00

abbrev pub headers : ℕ
headers = 0x01

abbrev pub rst_stream : ℕ
rst_stream = 0x03

abbrev pub settings : ℕ
settings = 0x04

abbrev pub ping : ℕ
ping = 0x06

abbrev pub window_update : ℕ
window_update = 0x08
