-- ===== src/Http2/Frame.antt =====
-- Frame headers, src/http2/Frame.h and Frame.cpp. A `StreamBuf` is the list of its octets (`Buffers`
-- has its storage). Whether `char` is signed is up to the platform, so it is a parameter of reading.
pub mod RoundTrip
use shitty.Prelude.{
  ℕ, ◌<◌, ◌+◌, ◌-◌, ◌*◌, ◌/◌, ◌%◌, ◌^◌, bit_and, bit_or, ltb, ◌==◌, if◌then◌else◌, Bool, true,
  false, ◌&&◌,
}
use shitty.Prelude.{
  List, [], ◌∷◌, ◌++◌, Option, none, some, length, drop, get_or, Result, ok, thrown, runtime_error,
  ◌>>=◌,
}
use shitty.Http2.FrameType
use shitty.Bits.Bytes.{u8, u32, widen, word24, word32}

abbrev pub header_octets : ℕ
header_octets = 9

pub record FrameHeader : Type 0 where
  pub length : ℕ
  pub type : ℕ
  pub flags : ℕ
  pub reserved : ℕ
  pub stream_id : ℕ

-- The fields' widths.
pub record IsHeader (h : FrameHeader) : Type 0 where
  pub length_fits : h.length < 2 ^ 24
  pub type_fits : h.type < 2 ^ 8
  pub flags_fit : h.flags < 2 ^ 8
  pub reserved_fits : h.reserved < 2
  pub stream_fits : h.stream_id < 2 ^ 31

abbrev pub new_header : ℕ → FrameHeader
new_header type = record { length = 0; type = type; flags = 0; reserved = 0; stream_id = 0 }

-- Bit `i` of the flags, and the flags with that bit set.
abbrev pub flag : ℕ → FrameHeader → Bool
flag i h = h.flags / 2 ^ i % 2 == 1

abbrev pub set_flag : ℕ → FrameHeader → FrameHeader
set_flag i h = record h { flags = bit_or h.flags (2 ^ i) }

-- The octets that `writeTo` appends.
unfoldable pub write_header : FrameHeader → List ℕ
write_header h =
    let reserved_and_stream_id = bit_or (u32 (h.reserved * 2 ^ 31)) h.stream_id in
    u8 (h.length / 2 ^ 16)
    ∷ u8 (h.length / 2 ^ 8)
    ∷ u8 h.length
    ∷ u8 h.type
    ∷ u8 h.flags
    ∷ u8 (reserved_and_stream_id / 2 ^ 24)
    ∷ u8 (reserved_and_stream_id / 2 ^ 16)
    ∷ u8 (reserved_and_stream_id / 2 ^ 8)
    ∷ u8 reserved_and_stream_id
    ∷ []

-- A header, in front of the octets behind it.
pub record ReadHeader : Type 0 where
  pub header : FrameHeader
  pub left : List ℕ

module _ (char_is_signed : Bool) where
  -- The header of nine octets or more.
  unfoldable pub header_of : List ℕ → FrameHeader
  header_of input =
      let at : ℕ → ℕ = λ i. widen char_is_signed (get_or input i 0) in
      let reserved_and_stream_id = word32 (at 5) (at 6) (at 7) (at 8) in
      record {
        length = word24 (at 0) (at 1) (at 2) % 2 ^ 24;
        type = get_or input 3 0;
        flags = get_or input 4 0;
        reserved = reserved_and_stream_id / 2 ^ 31;
        stream_id = bit_and reserved_and_stream_id 0x7fffffff;
      }

  unfoldable pub read_header : List ℕ → Result ReadHeader
  read_header input =
      if ltb (length input) header_octets
      then thrown runtime_error
      else ok (record { header = header_of input; left = drop header_octets input })

  unfoldable pub try_read_header : List ℕ → Result (Option ReadHeader)
  try_read_header input =
      if ltb (length input) header_octets then ok none else (read_header input >>= λ r. ok (some r))

abbrev pub is_settings_ack : FrameHeader → Bool
is_settings_ack h = h.type == FrameType.settings && flag 0 h

abbrev pub is_ping_ack : FrameHeader → Bool
is_ping_ack h = h.type == FrameType.ping && flag 0 h
