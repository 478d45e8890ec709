-- ===== src/Http2/HeadersFrame.antt =====
-- HEADERS frames, src/http2/HeadersFrame.h, and the flags of DATA frames, src/http2/DataFrame.h.
use shitty.Prelude.{
  ℕ, ◌+◌, ◌-◌, ◌%◌, ◌^◌, ltb, ◌==◌, if◌then◌else◌, not, Bool, ◌||◌, List, [], ◌++◌, length, Result,
  ok, thrown, runtime_error,
}
use shitty.Bits.Bytes.{u32}
use shitty.Http2.FrameType
use shitty.Http2.Frame.{FrameHeader, new_header, flag, set_flag, write_header}

-- The fields of a priority are not written to the frame.
pub record HeadersFrame : Type 0 where
  pub frame_header : FrameHeader
  pub weight : ℕ
  pub header_block_fragment : List ℕ
  pub padding : List ℕ

-- The flags without bit `i`.
abbrev pub clear_flag : ℕ → FrameHeader → FrameHeader
clear_flag i h = if flag i h then record h { flags = h.flags - 2 ^ i } else h

abbrev pub put_flag : ℕ → Bool → FrameHeader → FrameHeader
put_flag i value h = if value then set_flag i h else clear_flag i h

abbrev pub frame_length : List ℕ → List ℕ → ℕ
frame_length fragment padding = u32 (length fragment + length padding)

unfoldable pub new_headers_frame : ℕ → HeadersFrame
new_headers_frame stream_id = record {
  frame_header =
      set_flag 2 (record (new_header FrameType.headers) { stream_id = stream_id % 2 ^ 31 });
  weight = 15;
  header_block_fragment = [];
  padding = [];
}

unfoldable pub set_end_stream : Bool → HeadersFrame → HeadersFrame
set_end_stream value f = record f { frame_header = put_flag 0 value f.frame_header }

unfoldable pub set_header_block_fragment : List ℕ → HeadersFrame → HeadersFrame
set_header_block_fragment fragment f = record f {
  header_block_fragment = fragment;
  frame_header = record f.frame_header { length = frame_length fragment f.padding % 2 ^ 24 };
}

unfoldable pub set_padding : List ℕ → HeadersFrame → HeadersFrame
set_padding padding f =
    let padded = put_flag 3 (not (length padding == 0)) f.frame_header in
    record f {
      padding = padding;
      frame_header = record padded {
        length = frame_length f.header_block_fragment padding % 2 ^ 24;
      };
    }

unfoldable pub set_weight : ℕ → HeadersFrame → Result HeadersFrame
set_weight new_weight f =
    if ltb new_weight 1 || ltb 256 new_weight
    then thrown runtime_error
    else ok (record f { weight = new_weight - 1 })

unfoldable pub write_headers_frame : HeadersFrame → List ℕ
write_headers_frame f = write_header f.frame_header ++ f.header_block_fragment ++ f.padding

-- `DataFrame::isPadded`
abbrev pub is_padded_data : FrameHeader → Bool
is_padded_data h = flag 0 h
