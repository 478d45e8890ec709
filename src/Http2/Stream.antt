-- ===== src/Http2/Stream.antt =====
-- Streams, src/http2/ServerStream.h and ServerStream.cpp. A stream's pointer to its transport is left
-- out: the octets that the stream writes to the transport are a result.
use shitty.Prelude.{
  ℕ, ◌^◌, ◌-◌, ltb, if◌then◌else◌, true, List, [], ◌∷◌, ℤ, pos, Result, ok, thrown, runtime_error,
  ◌>>=◌,
}
use shitty.Http2.FlowControl.{add_window_size, subtract_window_size}
use shitty.Http2.HeadersFrame.{
  new_headers_frame, set_header_block_fragment, set_end_stream, write_headers_frame,
}
use shitty.Messages.{Message, Request, new_message}

pub data StreamState : Type 0 where
  idle : StreamState
  reserved_local : StreamState
  reserved_remote : StreamState
  opened : StreamState
  half_closed_local : StreamState
  half_closed_remote : StreamState
  closed : StreamState

pub record ServerStream : Type 0 where
  pub id : ℕ
  pub window_size : ℤ
  pub state : StreamState
  pub request : Message

unfoldable pub new_server_stream : ℕ → Result ServerStream
new_server_stream id =
    if ltb (2 ^ 31 - 1) id
    then thrown runtime_error
    else ok (record { id = id; window_size = pos 65535; state = idle; request = new_message })

unfoldable pub add_window : ServerStream → ℤ → Result ServerStream
add_window stream increment =
    add_window_size stream.window_size increment >>= λ w. ok (record stream { window_size = w })

unfoldable pub subtract_window : ServerStream → ℕ → Result ServerStream
subtract_window stream adjustment = subtract_window_size stream.window_size adjustment >>= λ w.
    ok (record stream { window_size = w })

-- What `sendResponse` writes: ":status: 200", which is index 8 of the static table.
unfoldable pub send_response : ServerStream → List ℕ
send_response stream =
    write_headers_frame
      (set_end_stream true (set_header_block_fragment (0x88 ∷ []) (new_headers_frame stream.id)))

unfoldable pub on_request : ServerStream → Request → List ℕ
on_request stream request = send_response stream
