-- ===== src/Http2/Tests.antt =====
-- Frames, settings and windows of a connection.
use shitty.Prelude.{
  ℕ, ◌-◌, ◌^◌, ◌≡◌, refl, arith, false, ltb, if◌then◌else◌, List, [], ◌∷◌, ◌++◌, length, take, drop,
  none, some, Result, ok, thrown, runtime_error, length_error,
}
use shitty.Prelude.{pos}
use shitty.Headers.Table as Hpack
use shitty.Headers.Decoder.{parse_headers}
use shitty.Http2.Frame.{FrameHeader, IsHeader, write_header}
use shitty.Http2.Settings.{
  IsSettings, default_settings, write_settings, create_from_buffer, value, initial_window_size,
}
use shitty.Http2.Settings.RoundTrip.{create_from_buffer-write_settings}
use shitty.Http2.Stream.{ServerStream, idle, new_server_stream}
use shitty.Http2.Transport.{ServerTransport, Behind, initialize, send_preface, send, erase_stream}
use shitty.Http2.Transport.Frames.{receive_body, process_frame_body, receive_frame, on_input}
use shitty.Http2.Transport.Ends.{on_input_total}
use shitty.Http2.Transport.Invariant.{IsServer}
use shitty.Http2.Transport.Reach.{made, Reach-IsServer, Reach-receive_body}
use shitty.Http2.Transport.Exchange.{receive_frame-write_header, process_frame_body-ping, answer}
use shitty.Http2.Transport.Respond.{
  process_frame_body-settings, process_frame_body-headers, response,
}
use shitty.Messages.{new_message}

-- A PING.
abbrev a_header : FrameHeader
a_header = record { length = 8; type = 6; flags = 0; reserved = 0; stream_id = 0 }

a_header-IsHeader : IsHeader a_header
a_header-IsHeader = record {
  length_fits = omega arith;
  type_fits = omega arith;
  flags_fit = omega arith;
  reserved_fits = omega arith;
  stream_fits = omega arith;
}

default_settings-IsSettings : IsSettings default_settings
default_settings-IsSettings = record { count = refl; fit = omega arith }

create_from_buffer-write_settings_example :
    create_from_buffer false (write_settings default_settings) ≡ ok default_settings
create_from_buffer-write_settings_example =
    create_from_buffer-write_settings default_settings default_settings-IsSettings

-- A transport behind its preface, with stream 1.
abbrev a_stream : ServerStream
a_stream = record { id = 1; window_size = pos 65535; state = idle; request = new_message }

abbrev a_transport : ServerTransport
a_transport = record {
  local_settings = record { values = 4096 ∷ 0 ∷ (2 ^ 32 - 1) ∷ 65535 ∷ 16384 ∷ (2 ^ 32 - 1) ∷ [] };
  peer_settings = default_settings;
  dtable = Hpack.initial_table;
  streams = a_stream ∷ [];
  current_frame_header = none;
  window_size = 65535;
  preface_received = false;
  window_update_received = false;
  sent = (0 ∷ 0 ∷ 0 ∷ 4 ∷ 0 ∷ 0 ∷ 0 ∷ 0 ∷ 0 ∷ []) ∷ [];
}

initialize_run : initialize default_settings ≡ ok a_transport
unfolding initialize send_preface new_server_stream
initialize_run = refl

on_input_total_example :
    (r : Result Behind) × (on_input false 5 a_transport (1 ∷ 2 ∷ 3 ∷ []) ≡ some r)
on_input_total_example = on_input_total false 5 a_transport (1 ∷ 2 ∷ 3 ∷ []) (omega arith)

Reach-IsServer_example : IsServer a_transport
Reach-IsServer_example = Reach-IsServer false (made default_settings initialize_run)

-- One octet of DATA for stream 1.
abbrev data_header : FrameHeader
data_header = record { length = 1; type = 0; flags = 1; reserved = 0; stream_id = 1 }

Reach-receive_body_example :
    receive_body false data_header a_transport (7 ∷ []) ≡ thrown runtime_error
Reach-receive_body_example =
    Reach-receive_body false data_header (7 ∷ []) (made default_settings initialize_run) refl

receive_frame-write_header_example :
    receive_frame false a_transport (write_header a_header ++ 1 ∷ [])
    ≡ receive_frame false (record a_transport { current_frame_header = some a_header }) (1 ∷ [])
receive_frame-write_header_example =
    receive_frame-write_header a_transport a_header (1 ∷ []) refl a_header-IsHeader

abbrev eight_octets : List ℕ
eight_octets = 1 ∷ 2 ∷ 3 ∷ 4 ∷ 5 ∷ 6 ∷ 7 ∷ 8 ∷ []

-- With nothing behind it, a PING ends in an exception.
process_frame_body-ping_example : process_frame_body false a_header a_transport eight_octets ≡ (
    if ltb (length eight_octets) 16
    then thrown length_error
    else ok (record {
      transport = record (send a_transport (answer (take 8 eight_octets))) {
        current_frame_header = none;
      };
      input = drop 16 eight_octets;
    }))
process_frame_body-ping_example =
    process_frame_body-ping false a_header a_transport eight_octets refl refl refl refl
      (omega arith)

abbrev settings_header : FrameHeader
settings_header = record { length = 36; type = 4; flags = 0; reserved = 0; stream_id = 0 }

process_frame_body-settings_example :
    process_frame_body false settings_header a_transport (write_settings default_settings ++ [])
    ≡ ok (record {
      transport = record a_transport {
        peer_settings = default_settings;
        window_size = if false then 65535 else value default_settings initial_window_size;
        sent = a_transport.sent ++ (0 ∷ 0 ∷ 0 ∷ 4 ∷ 1 ∷ 0 ∷ 0 ∷ 0 ∷ 0 ∷ []) ∷ [];
        current_frame_header = none;
      };
      input = [];
    })
process_frame_body-settings_example =
    process_frame_body-settings settings_header a_transport default_settings [] refl refl refl
      default_settings-IsSettings

-- A block without headers, on stream 3.
abbrev empty_block : FrameHeader
empty_block = record { length = 0; type = 1; flags = 5; reserved = 0; stream_id = 3 }

empty_block_run :
    parse_headers 0 Hpack.initial_table []
    ≡ some (record { headers = ok []; dtable = Hpack.initial_table })
unfolding parse_headers
empty_block_run = refl

process_frame_body-headers_example :
    process_frame_body false empty_block a_transport (9 ∷ [])
    ≡ ok (record {
      transport = record a_transport {
        dtable = Hpack.initial_table;
        streams = erase_stream a_transport.streams 3;
        sent = a_transport.sent ++ response 3 ∷ [];
        current_frame_header = none;
      };
      input = 9 ∷ [];
    })
process_frame_body-headers_example =
    process_frame_body-headers false empty_block a_transport (9 ∷ []) [] Hpack.initial_table refl
      (omega arith) (omega arith) empty_block_run
