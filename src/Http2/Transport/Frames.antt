-- ===== src/Http2/Transport/Frames.antt =====
-- The loop that reads frames, `receiveFrames` of src/http2/ServerTransport.cpp, and `onInput`.
use shitty.Prelude.{ℕ, zero, suc, ltb, ◌==◌, if◌then◌else◌, Bool, true, false, not, ◌&&◌}
use shitty.Prelude.{
  List, [], ◌∷◌, length, take, drop, Option, none, some, Result, ok, thrown, runtime_error, ◌>>=◌,
}
use shitty.Buffers.Queue.{dequeue}
use shitty.Http2.FrameType
use shitty.Http2.Frame.{FrameHeader, header_octets, read_header}
use shitty.Http2.Transport.{ServerTransport, Behind}
use shitty.Http2.Transport.Handlers.{
  unchanged, receive_data, receive_headers, receive_ping, receive_reset_stream, receive_settings,
  receive_window_update,
}

-- `CLIENT_PREFACE` of src/http2/Protocol.h.
abbrev pub client_preface : List ℕ
client_preface =
    0x50 ∷ 0x52 ∷ 0x49 ∷ 0x20 ∷ 0x2a ∷ 0x20 ∷ 0x48 ∷ 0x54 ∷ 0x54 ∷ 0x50 ∷ 0x2f ∷ 0x32 ∷ 0x2e ∷ 0x30
    ∷ 0x0d ∷ 0x0a ∷ 0x0d ∷ 0x0a ∷ 0x53 ∷ 0x4d ∷ 0x0d ∷ 0x0a ∷ 0x0d ∷ 0x0a ∷ []

-- `memcmp(...) == 0`
abbrev pub same_octets : List ℕ → List ℕ → Bool
same_octets [] [] = true
same_octets [] (y ∷ ys) = false
same_octets (x ∷ xs) [] = false
same_octets (x ∷ xs) (y ∷ ys) = x == y && same_octets xs ys

-- What `receiveFrame` returns: whether there may be another frame, and the state.
pub record Received : Type 0 where
  pub more : Bool
  pub behind : Behind

module _ (char_is_signed : Bool) where
  -- The `switch` of `processFrameBody`.
  unfoldable pub receive_body : FrameHeader → ServerTransport → List ℕ → Result Behind
  receive_body header s input =
      if header.type == FrameType.content
      then receive_data header s input
      else if header.type == FrameType.headers
      then receive_headers header s input
      else if header.type == FrameType.ping
      then receive_ping header s input
      else if header.type == FrameType.rst_stream
      then receive_reset_stream header s input
      else if header.type == FrameType.settings
      then receive_settings char_is_signed header s input
      else if header.type == FrameType.window_update
      then receive_window_update header s input
      else unchanged s input

  unfoldable pub process_frame_body : FrameHeader → ServerTransport → List ℕ → Result Behind
  process_frame_body header s input =
      if ltb (length input) header.length
      then unchanged s input
      else (receive_body header s input >>= λ behind. dequeue behind.input header.length >>= λ rest.
          ok (record {
            transport = record behind.transport { current_frame_header = none };
            input = rest;
          }))

  unfoldable pub receive_frame_header : ServerTransport → List ℕ → Result Behind
  receive_frame_header s input =
      if ltb (length input) header_octets
      then unchanged s input
      else (read_header char_is_signed input >>= λ r. ok (record {
        transport = record s { current_frame_header = some r.header };
        input = r.left;
      }))

  -- A header that has been read: its body, where it is complete.
  unfoldable pub receive_frame_body : FrameHeader → ServerTransport → List ℕ → Result Received
  receive_frame_body header s input =
      if ltb (length input) header.length
      then ok (record { more = false; behind = record { transport = s; input = input } })
      else (process_frame_body header s input >>= λ behind.
          ok (record { more = true; behind = behind }))

  abbrev pub with_header : Behind → Result Received
  with_header behind = elim behind.transport.current_frame_header [
    | none ↦ ok (record { more = false; behind = behind })
    | some header ↦ receive_frame_body header behind.transport behind.input
  ]

  unfoldable pub receive_frame : ServerTransport → List ℕ → Result Received
  receive_frame s input = elim s.current_frame_header [
    | none ↦ (receive_frame_header s input >>= with_header)
    | some header ↦ receive_frame_body header s input
  ]

  -- On fuel: `none` is a run that has used it up.
  unfoldable pub receive_frames : ℕ → ServerTransport → List ℕ → Option (Result Behind)
  receive_frames zero s input = none
  receive_frames (suc fuel) s input = elim (receive_frame s input) [
    | thrown e ↦ some (thrown e)
    | ok r ↦ elim (r.more && not (length r.behind.input == 0)) [
      | true ↦ receive_frames fuel r.behind.transport r.behind.input
      | false ↦ some (ok r.behind)
    ]
  ]

  -- Behind a first call, where it returns.
  abbrev pub then_frames : ℕ → Option (Result Behind) → Option (Result Behind)
  then_frames fuel none = none
  then_frames fuel (some (thrown e)) = some (thrown e)
  then_frames fuel (some (ok b)) = receive_frames fuel b.transport b.input

  unfoldable pub receive_preface : ℕ → ServerTransport → List ℕ → Option (Result Behind)
  receive_preface fuel s input =
      if ltb (length input) 24
      then some (unchanged s input)
      else if not (same_octets (take 24 input) client_preface)
      then some (thrown runtime_error)
      else receive_frames fuel (record s { preface_received = true }) (drop 24 input)

  unfoldable pub on_input : ℕ → ServerTransport → List ℕ → Option (Result Behind)
  on_input fuel s input =
      if s.preface_received
      then receive_frames fuel s input
      else then_frames fuel (receive_preface fuel s input)
