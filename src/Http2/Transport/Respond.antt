-- ===== src/Http2/Transport/Respond.antt =====
-- Settings are acknowledged, and a request's headers are answered at once.
use shitty.Prelude.{
  ℕ, ◌-◌, ◌/◌, ◌%◌, ◌^◌, ◌≤◌, ◌<◌, ◌≡◌, refl, sym, ap, arith, inl, inr, bit_or, ltb, ◌==◌, ==_iff,
  if◌then◌else◌, Bool, true, false, Bool-cases, Option-cases,
}
use shitty.Prelude.{
  List, [], ◌∷◌, ◌++◌, length, take, drop, Option, none, some, pos, ok, length-take, length-append,
  take-append, drop-append,
}
use native.Mathlib.Nat.{mod-eq_of_lt}
use shitty.Bits.{or_disjoint}
use shitty.Bits.Bytes.{u8}
use shitty.Headers.Table as Hpack
use shitty.Headers.Decoder.{Parsed, parse_headers}
use shitty.Messages.{Message, new_message}
use shitty.Http2.FrameType
use shitty.Http2.Frame.{FrameHeader, write_header, flag}
use shitty.Http2.Settings.{Settings, IsSettings, value, initial_window_size, write_settings}
use shitty.Http2.Settings.RoundTrip.{create_from_buffer-write_settings, length-write_settings}
use shitty.Http2.HeadersFrame.{
  new_headers_frame, set_header_block_fragment, set_end_stream, write_headers_frame,
}
use shitty.Http2.Stream.{ServerStream, idle, new_server_stream, send_response, on_request}
use shitty.Http2.Transport.{
  ServerTransport, ack_settings, find_stream, erase_stream, put_stream, dispatch, end_stream,
}
use shitty.Http2.Transport.Handlers.{
  add_all, receive_settings, receive_headers, stream_for, parse_block,
}
use shitty.Http2.Transport.Frames.{receive_body, process_frame_body}

-- Where `char` has no sign: a SETTINGS frame with the settings of a peer. They are stored, the window is the
-- peer's unless it was updated before, and an acknowledgement is sent.
pub process_frame_body-settings :
    (h : FrameHeader) (s : ServerTransport) (p : Settings) (rest : List ℕ)
    → h.type ≡ FrameType.settings
    → flag 0 h ≡ false
    → h.length ≡ 36
    → IsSettings p
    → process_frame_body false h s (write_settings p ++ rest)
      ≡ ok (record {
        transport = record s {
          peer_settings = p;
          window_size =
              if s.window_update_received then s.window_size else value p initial_window_size;
          sent = s.sent ++ (0 ∷ 0 ∷ 0 ∷ 4 ∷ 1 ∷ 0 ∷ 0 ∷ 0 ∷ 0 ∷ []) ∷ [];
          current_frame_header = none;
        };
        input = rest;
      })
unfolding process_frame_body receive_body receive_settings ack_settings write_header
process_frame_body-settings h s p rest type ack size w =
    let long = length-write_settings p w in
    let both = length-append (write_settings p) rest in
    let enough : ltb (length (write_settings p ++ rest)) 36 ≡ false = ground (arith, long, both) in
    rw
      (
        type,
        ack,
        size,
        enough,
        take-append 36 (write_settings p) rest (sym long),
        create_from_buffer-write_settings p w,
        enough,
        drop-append 36 (write_settings p) rest (sym long),
      )
      refl

-- The response to a request on a stream: HEADERS of one octet, index 8 of the static table, with the flags
-- END_STREAM and END_HEADERS.
abbrev pub response : ℕ → List ℕ
response id =
    0 ∷ 0 ∷ 1 ∷ 1 ∷ 5 ∷ u8 (id / 2 ^ 24) ∷ u8 (id / 2 ^ 16) ∷ u8 (id / 2 ^ 8) ∷ u8 id ∷ 0x88 ∷ []

send_response-octets :
    (stream : ServerStream) → stream.id < 2 ^ 31 → send_response stream ≡ response stream.id
unfolding send_response write_headers_frame set_end_stream set_header_block_fragment
    new_headers_frame write_header
send_response-octets stream h =
    let id : stream.id % 2 ^ 31 ≡ stream.id = mod-eq_of_lt h in
    let word : bit_or 0 stream.id ≡ stream.id = omega (arith, or_disjoint 31 0 stream.id h) in
    rw (id, word) refl

erase_stream-erase_stream :
    (streams : List ServerStream) (id : ℕ)
    → erase_stream (erase_stream streams id) id ≡ erase_stream streams id
unfolding erase_stream
erase_stream-erase_stream [] id = refl
erase_stream-erase_stream (stream ∷ streams) id = elim (Bool-cases (stream.id == id)) [
  | inl e ↦ rw e (erase_stream-erase_stream streams id)
  | inr e ↦
      rw (e, e) (ap (λ (t : List ServerStream). stream ∷ t) (erase_stream-erase_stream streams id))
]

erase_stream-put_stream :
    (streams : List ServerStream) (stream : ServerStream)
    → erase_stream (put_stream streams stream) stream.id ≡ erase_stream streams stream.id
unfolding put_stream erase_stream
erase_stream-put_stream streams stream =
    let same : (stream.id == stream.id) ≡ true = ground arith in
    rw same (erase_stream-erase_stream streams stream.id)

-- A stream that was found, or made, has the id that was asked for.
abbrev HasId : ℕ → Option ServerStream → Type 0
HasId id none = Unit
HasId id (some stream) = stream.id ≡ id

find_stream-HasId : (streams : List ServerStream) (id : ℕ) → HasId id (find_stream streams id)
unfolding find_stream
find_stream-HasId [] id = tt
find_stream-HasId (stream ∷ streams) id = elim (Bool-cases (stream.id == id)) [
  | inl e ↦ let same : stream.id ≡ id = (==_iff stream.id id).0 e in rw e same
  | inr e ↦ rw e (find_stream-HasId streams id)
]

stream_for-id :
    (s : ServerTransport) (id : ℕ)
    → id < 2 ^ 31
    → (stream : ServerStream) × (stream_for s id ≡ ok stream) × (stream.id ≡ id)
unfolding stream_for new_server_stream
stream_for-id s id h = elim (Option-cases (find_stream s.streams id)) [
  | inl e ↦
      let small : ltb (2 ^ 31 - 1) id ≡ false = ground (arith, h) in
      (
        record { id = id; window_size = pos 65535; state = idle; request = new_message },
        rw (e, stream_for) (rw small refl),
        refl,
      )
  | inr (stream, e) ↦ (stream, rw (e, stream_for) refl, rw e at (find_stream-HasId s.streams id))
]

parse_block-eq :
    (t : Hpack.DynamicTable) (block : List ℕ) (n : ℕ) (p : Parsed)
    → length block ≡ n
    → parse_headers n t block ≡ some p
    → parse_block t block ≡ p
parse_block-eq t block n p size e =
    let e' : parse_headers (length block) t block ≡ some p = rw size e in rw (e', parse_block) refl

answered :
    (s : ServerTransport) (t : Hpack.DynamicTable) (stream : ServerStream)
    → stream.id < 2 ^ 31
    → end_stream
        (dispatch (record s { dtable = t; streams = put_stream s.streams stream }) stream)
        stream.id
      ≡ record s {
        dtable = t;
        streams = erase_stream s.streams stream.id;
        sent = s.sent ++ response stream.id ∷ [];
      }
unfolding end_stream dispatch on_request
answered s t stream h =
    rw (send_response-octets stream h, erase_stream-put_stream s.streams stream) refl

-- A HEADERS frame of a stream with an id of 31 bits, whose block is in the buffer and is decoded: a response
-- is sent on its stream, which ends; the decoder's table is kept, and the block is taken off the buffer. No
-- flag of the frame makes a difference, END_HEADERS and END_STREAM included.
pub process_frame_body-headers :
    (c : Bool) (h : FrameHeader) (s : ServerTransport) (input : List ℕ)
    (headers : List Hpack.Header) (t : Hpack.DynamicTable)
    → h.type ≡ FrameType.headers
    → h.stream_id < 2 ^ 31
    → h.length ≤ length input
    → parse_headers h.length s.dtable (take h.length input)
      ≡ some (record { headers = ok headers; dtable = t })
    → process_frame_body c h s input
      ≡ ok (record {
        transport = record s {
          dtable = t;
          streams = erase_stream s.streams h.stream_id;
          sent = s.sent ++ response h.stream_id ∷ [];
          current_frame_header = none;
        };
        input = drop h.length input;
      })
unfolding process_frame_body receive_body receive_headers
process_frame_body-headers c h s input headers t type small enough parsed =
    let long : ltb (length input) h.length ≡ false = ground (arith, enough) in
    let size : length (take h.length input) ≡ h.length =
      omega (arith, length-take h.length input, enough) in
    let (stream, found, id) = stream_for-id s h.stream_id small in
    let request : Message = record stream.request {
      headers = add_all stream.request.headers headers;
    } in
    let asked : ServerStream = record stream { request = request } in
    let small' : asked.id < 2 ^ 31 = omega (arith, id, small) in
    let block =
      parse_block-eq s.dtable (take h.length input) h.length
        (record { headers = ok headers; dtable = t }) size parsed in
    rw (type, long, block) ((rw found (rw (answered s t asked small', long) (rw id refl))))
