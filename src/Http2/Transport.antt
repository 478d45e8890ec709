-- ===== src/Http2/Transport.antt =====
-- The state of a connection, src/http2/ServerTransport.cpp, and the handlers of its frames. A handler has
-- the octets of the buffer, and returns those it leaves there. No code catches an exception of a handler: it
-- ends the program.
pub mod Handlers
pub mod Frames
pub mod Invariant
pub mod Shorter
pub mod Ends
pub mod Reach
pub mod Exchange
pub mod Respond
use shitty.Prelude.{
  ℕ, ◌+◌, ◌-◌, ◌%◌, ◌^◌, bit_and, ltb, ◌==◌, if◌then◌else◌, Bool, true, false, not, ◌&&◌, ◌||◌,
}
use shitty.Prelude.{
  List, [], ◌∷◌, ◌++◌, length, take, drop, get_or, Option, none, some, ℤ, pos, to_int32, to_uint32,
}
use shitty.Prelude.{
  Result, ok, thrown, runtime_error, logic_error, length_error, assert_failed, undefined_behaviour,
  ◌>>=◌,
}
use shitty.Bits.Bytes.{word32}
use shitty.Buffers.Queue.{dequeue}
use shitty.Http2.FrameType
use shitty.Http2.Frame.{
  FrameHeader, header_octets, new_header, set_flag, write_header, is_settings_ack, is_ping_ack,
  header_of,
}
use shitty.Http2.Settings.{
  Settings, default_settings, value, set_value, enable_push, initial_window_size,
  create_from_buffer,
}
use shitty.Http2.FlowControl.{add_window_size}
use shitty.Http2.HeadersFrame.{is_padded_data}
use shitty.Http2.Stream.{
  StreamState, idle, opened, half_closed_local, ServerStream, new_server_stream, add_window,
  subtract_window, on_request,
}
use shitty.Headers.Table as Hpack
use shitty.Headers.Decoder.{Parsed, parse_headers}
use shitty.Messages.{Header, Message, Request, get, add, method_name, path_name}

-- `sent` has what was handed to `Connection::send`, the latest last.
pub record ServerTransport : Type 0 where
  pub local_settings : Settings
  pub peer_settings : Settings
  pub dtable : Hpack.DynamicTable
  pub streams : List ServerStream
  pub current_frame_header : Option FrameHeader
  pub window_size : ℕ
  pub preface_received : Bool
  pub window_update_received : Bool
  pub sent : List (List ℕ)

-- The transport behind a call, and the octets left in the buffer.
pub record Behind : Type 0 where
  pub transport : ServerTransport
  pub input : List ℕ

abbrev pub send : ServerTransport → List ℕ → ServerTransport
send s octets = record s { sent = s.sent ++ octets ∷ [] }

-- `streams_`, by the streams' ids.
unfoldable pub find_stream : List ServerStream → ℕ → Option ServerStream
find_stream [] id = none
find_stream (stream ∷ streams) id =
    let rest = find_stream streams id in if stream.id == id then some stream else rest

unfoldable pub erase_stream : List ServerStream → ℕ → List ServerStream
erase_stream [] id = []
erase_stream (stream ∷ streams) id =
    let rest = erase_stream streams id in if stream.id == id then rest else stream ∷ rest

unfoldable pub put_stream : List ServerStream → ServerStream → List ServerStream
put_stream streams stream = stream ∷ erase_stream streams stream.id

unfoldable pub get_stream : ServerTransport → ℕ → Result ServerStream
get_stream s id = elim (find_stream s.streams id) [
  | none ↦ thrown runtime_error
  | some stream ↦ ok stream
]

-- The bodies of "dispatch" and "endStream": the request is moved out of its stream, which ends.
unfoldable pub dispatch : ServerTransport → ServerStream → ServerTransport
dispatch s stream =
    let headers = stream.request.headers in
    let request : Request = record {
      method = (get headers method_name).value;
      path = (get headers path_name).value;
      message = stream.request;
    } in
    send s (on_request stream request)

unfoldable pub end_stream : ServerTransport → ℕ → ServerTransport
end_stream s id = record s { streams = erase_stream s.streams id }

unfoldable pub ack_settings : ServerTransport → ServerTransport
ack_settings s = send s (write_header (set_flag 0 (new_header FrameType.settings)))

-- `writeFrame`: the length field is the length of the octets.
unfoldable pub write_frame : ServerTransport → FrameHeader → List ℕ → ServerTransport
write_frame s header octets =
    send s (write_header (record header { length = length octets % 2 ^ 24 }) ++ octets)

-- `sendPreface`, and the constructor without the settings of an upgrade.
unfoldable pub send_preface : ServerTransport → ServerTransport
send_preface s = send s (0 ∷ 0 ∷ 0 ∷ 4 ∷ 0 ∷ 0 ∷ 0 ∷ 0 ∷ 0 ∷ [])

unfoldable pub initialize : Settings → Result ServerTransport
initialize peer_settings = new_server_stream 1 >>= λ stream. ok (
    send_preface (record {
      local_settings = set_value default_settings enable_push 0;
      peer_settings = peer_settings;
      dtable = Hpack.initial_table;
      streams = stream ∷ [];
      current_frame_header = none;
      window_size = 65535;
      preface_received = false;
      window_update_received = false;
      sent = [];
    }))

-- The settings of an upgrade, with the decoder of base64, which is not part of the repository: the size
-- that it computes from the length, and the octets, or none where they are malformed.
module _ (char_is_signed : Bool) (decoded_size_nopad : ℕ → ℕ)
    (decode : List ℕ → Option (List ℕ)) where
  unfoldable pub decode_base64_settings : List ℕ → Result Settings
  decode_base64_settings b64encoded =
      if ltb 128 (decoded_size_nopad (length b64encoded))
      then thrown runtime_error
      else elim (decode b64encoded) [
        | none ↦ thrown runtime_error
        | some decoded ↦
            create_from_buffer char_is_signed
              (take (decoded_size_nopad (length b64encoded)) decoded)
      ]

  unfoldable pub new_server_transport : Option Header → Result ServerTransport
  new_server_transport none = initialize default_settings
  new_server_transport (some http2_settings) =
      decode_base64_settings http2_settings.value >>= λ settings. initialize settings
