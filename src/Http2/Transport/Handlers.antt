-- ===== src/Http2/Transport/Handlers.antt =====
-- The handlers of the frames' types. Each is called where the buffer holds the body of its frame.
use shitty.Prelude.{ℕ, ◌-◌, bit_and, ltb, ◌==◌, if◌then◌else◌, Bool, true, false, not, ◌||◌}
use shitty.Prelude.{List, [], ◌∷◌, ◌++◌, length, take, get_or, none, some, ℤ, to_int32, to_uint32}
use shitty.Prelude.{
  Result, ok, thrown, runtime_error, logic_error, assert_failed, undefined_behaviour, ◌>>=◌,
}
use shitty.Bits.Bytes.{word32}
use shitty.Buffers.Queue.{dequeue}
use shitty.Http2.FrameType
use shitty.Http2.Frame.{
  FrameHeader, new_header, set_flag, write_header, is_settings_ack, is_ping_ack,
}
use shitty.Http2.Settings.{value, initial_window_size, create_from_buffer}
use shitty.Http2.FlowControl.{add_window_size}
use shitty.Http2.HeadersFrame.{is_padded_data}
use shitty.Http2.Stream.{
  StreamState, opened, half_closed_local, ServerStream, new_server_stream, add_window,
  subtract_window,
}
use shitty.Headers.Table as Hpack
use shitty.Headers.Decoder.{Parsed, parse_headers}
use shitty.Messages.{Header, Message, add}
use shitty.Http2.Transport.{
  ServerTransport, Behind, send, find_stream, put_stream, get_stream, dispatch, end_stream,
  ack_settings,
}

abbrev pub unchanged : ServerTransport → List ℕ → Result Behind
unchanged s input = ok (record { transport = s; input = input })

unfoldable pub send_ping_response : ServerTransport → List ℕ → ServerTransport
send_ping_response s octets = send s (
    write_header (record (set_flag 0 (new_header FrameType.ping)) { length = length octets })
    ++ octets)

unfoldable pub receive_ping : FrameHeader → ServerTransport → List ℕ → Result Behind
receive_ping header s input =
    if is_ping_ack header
    then unchanged s input
    else if not (header.stream_id == 0)
    then thrown runtime_error
    else if not (header.length == 8)
    then thrown runtime_error
    else if ltb (length input) 8
    then unchanged s input
    else (dequeue input 8 >>= λ rest. unchanged (send_ping_response s (take 8 input)) rest)

-- The error code of the frame is read, and not used.
unfoldable pub receive_reset_stream : FrameHeader → ServerTransport → List ℕ → Result Behind
receive_reset_stream header s input =
    if not (header.length == 4)
    then thrown runtime_error
    else if header.stream_id == 0
    then thrown runtime_error
    else unchanged (end_stream s header.stream_id) input

unfoldable pub read_window_size : List ℕ → ℕ
read_window_size input =
    bit_and (word32 (get_or input 0 0) (get_or input 1 0) (get_or input 2 0) (get_or input 3 0))
      0x7fffffff

unfoldable pub add_connection_window_size : ServerTransport → ℤ → Result ServerTransport
add_connection_window_size s increment = add_window_size (to_int32 s.window_size) increment >>= λ w.
    ok (record s { window_size = to_uint32 w; window_update_received = true })

unfoldable pub add_stream_window_size : ServerTransport → ℕ → ℤ → Result ServerTransport
add_stream_window_size s id increment = elim (find_stream s.streams id) [
  | none ↦ ok s
  | some stream ↦
      (add_window stream increment >>= λ stream.
      ok (record s { streams = put_stream s.streams stream }))
]

unfoldable pub receive_window_update : FrameHeader → ServerTransport → List ℕ → Result Behind
receive_window_update header s input =
    let window_size = to_int32 (read_window_size input) in
    if not (header.length == 4)
    then thrown runtime_error
    else if header.stream_id == 0
    then (add_connection_window_size s window_size >>= λ s. unchanged s input)
    else (add_stream_window_size s header.stream_id window_size >>= λ s. unchanged s input)

-- A platform's `char` has a sign, or has none.
module _ (char_is_signed : Bool) where
  unfoldable pub receive_settings : FrameHeader → ServerTransport → List ℕ → Result Behind
  receive_settings header s input =
      if is_settings_ack header
      then unchanged s input
      else (create_from_buffer char_is_signed (take header.length input) >>= λ settings.
          unchanged
            (ack_settings (record s {
              peer_settings = settings;
              window_size =
                  if s.window_update_received
                  then s.window_size
                  else value settings initial_window_size;
            }))
            input)

abbrev pub add_all : List Header → List Hpack.Header → List Header
add_all headers [] = headers
add_all headers (h ∷ hs) = add_all (add headers h.name h.value) hs

-- The stream of a frame, which is made where there is none.
unfoldable pub stream_for : ServerTransport → ℕ → Result ServerStream
stream_for s id = elim (find_stream s.streams id) [
  | none ↦ new_server_stream id
  | some stream ↦ ok stream
]

-- As many units of fuel as there are octets are enough for `parse_headers`.
abbrev pub parse_block : Hpack.DynamicTable → List ℕ → Parsed
parse_block t block = elim (parse_headers (length block) t block) [
  | none ↦ record { headers = thrown logic_error; dtable = t }
  | some parsed ↦ parsed
]

unfoldable pub receive_headers : FrameHeader → ServerTransport → List ℕ → Result Behind
receive_headers header s input =
    let parsed = parse_block s.dtable (take header.length input) in
    if ltb (length input) header.length
    then thrown assert_failed
    else (parsed.headers >>= λ headers. stream_for s header.stream_id >>= λ stream.
        let request : Message = record stream.request {
          headers = add_all stream.request.headers headers;
        } in
        let stream : ServerStream = record stream { request = request } in
        let s : ServerTransport = record s {
          dtable = parsed.dtable;
          streams = put_stream s.streams stream;
        } in
        unchanged (end_stream (dispatch s stream) stream.id) input)

-- The octets of a DATA frame that are not padding, as far as the code looks, and the buffer behind the
-- padding's length. A length beyond the octets in the buffer is undefined behaviour.
unfoldable pub data_octets : FrameHeader → List ℕ → Result (List ℕ × List ℕ)
data_octets header [] =
    if is_padded_data header
    then thrown runtime_error
    else if ltb 0 header.length
    then thrown undefined_behaviour
    else ok ([], [])
data_octets header (pad_length ∷ input) =
    if is_padded_data header
    then if header.length == 0 || ltb header.length pad_length
      then thrown runtime_error
      else if ltb (length input) (header.length - pad_length)
      then thrown undefined_behaviour
      else ok (take (header.length - pad_length) input, input)
    else if ltb (length (pad_length ∷ input)) header.length
    then thrown undefined_behaviour
    else ok (take header.length (pad_length ∷ input), pad_length ∷ input)

abbrev pub may_receive_data : StreamState → Bool
may_receive_data opened = true
may_receive_data half_closed_local = true
may_receive_data _ = false

unfoldable pub receive_data : FrameHeader → ServerTransport → List ℕ → Result Behind
receive_data header s input =
    if header.stream_id == 0
    then thrown runtime_error
    else (get_stream s header.stream_id >>= λ stream.
        if not (may_receive_data stream.state)
        then thrown runtime_error
        else (subtract_window stream header.length >>= λ stream.
            data_octets header input >>= λ (octets, rest).
            let request : Message = record stream.request {
              body = stream.request.body ++ octets;
            } in
            let stream : ServerStream = record stream { request = request } in
            let s : ServerTransport = record s { streams = put_stream s.streams stream } in
            unchanged (end_stream (dispatch s stream) stream.id) rest))
