-- ===== src/Http2/Transport/Invariant.antt =====
-- What every handler keeps: streams are idle, and the windows are in the range of their types.
use shitty.Prelude.{
  ℕ, ◌-◌, ◌^◌, ◌<◌, ◌≡◌, refl, arith, inl, inr, ltb, ◌==◌, if◌then◌else◌, Bool, true, false, not,
  Bool-cases, Option-cases, get_or,
}
use shitty.Prelude.{
  List, [], ◌∷◌, length, take, Option, none, some, All, ℤ, IsInt32, to_int32, to_int32-IsInt32,
  to_uint32_bound, Result, ok, thrown, runtime_error, ◌>>=◌, AllOk, AllOk->>=, AllOk-if, AllOk-any,
}
use shitty.Bits.{and_low}
use shitty.Bits.Bytes.{word32}
use shitty.Http2.Frame.{FrameHeader, is_ping_ack, is_settings_ack}
use shitty.Http2.Settings.{IsSettings, value, initial_window_size, create_from_buffer}
use shitty.Http2.Settings.Fit.{create_from_buffer-IsSettings, value-bound}
use shitty.Http2.FlowControl.{add_window_size}
use shitty.Http2.FlowControl.Bounds.{add_window_size-eq}
use shitty.Http2.Stream.{idle, ServerStream, new_server_stream, add_window}
use shitty.Buffers.Queue.{dequeue}
use shitty.Http2.Transport.{
  ServerTransport, Behind, find_stream, erase_stream, put_stream, get_stream, dispatch, end_stream,
  ack_settings,
}
use shitty.Http2.Transport.Handlers.{
  receive_ping, send_ping_response, receive_reset_stream, read_window_size,
  add_connection_window_size, add_stream_window_size, receive_window_update, receive_settings,
  stream_for, parse_block, receive_headers, receive_data,
}

pub record IsIdle (stream : ServerStream) : Type 0 where
  pub state : stream.state ≡ idle
  pub window : IsInt32 stream.window_size

pub record IsServer (s : ServerTransport) : Type 0 where
  pub streams : All IsIdle s.streams
  pub window : s.window_size < 2 ^ 32

abbrev pub Keeps : Result Behind → Type 0
Keeps m = AllOk (λ b. IsServer b.transport) m

-- The map of streams.
erase_stream-All :
    (streams : List ServerStream) (id : ℕ)
    → All IsIdle streams
    → All IsIdle (erase_stream streams id)
unfolding erase_stream
erase_stream-All [] id h = tt
erase_stream-All (stream ∷ streams) id (h, hs) = elim (Bool-cases (stream.id == id)) [
  | inl e ↦ rw e (erase_stream-All streams id hs)
  | inr e ↦ rw e (h, erase_stream-All streams id hs)
]

put_stream-All :
    (streams : List ServerStream) (stream : ServerStream)
    → All IsIdle streams
    → IsIdle stream
    → All IsIdle (put_stream streams stream)
unfolding put_stream
put_stream-All streams stream hs h = (h, erase_stream-All streams stream.id hs)

abbrev Found : Option ServerStream → Type 0
Found none = Unit
Found (some stream) = IsIdle stream

find_stream-Found :
    (streams : List ServerStream) (id : ℕ) → All IsIdle streams → Found (find_stream streams id)
unfolding find_stream
find_stream-Found [] id h = tt
find_stream-Found (stream ∷ streams) id (h, hs) = elim (Bool-cases (stream.id == id)) [
  | inl e ↦ rw e h
  | inr e ↦ rw e (find_stream-Found streams id hs)
]

pub new_server_stream-IsIdle : (id : ℕ) → AllOk IsIdle (new_server_stream id)
unfolding new_server_stream
new_server_stream-IsIdle id =
    AllOk-if _ (ltb (2 ^ 31 - 1) id) _ _ tt (record { state = refl; window = omega arith })

add_window-IsIdle :
    (stream : ServerStream) (increment : ℤ)
    → IsIdle stream
    → IsInt32 increment
    → AllOk IsIdle (add_window stream increment)
unfolding add_window
add_window-IsIdle stream increment h fits =
    AllOk->>= IsInt32 _ (add_window_size stream.window_size increment) _
      ((add_window_size-eq stream.window_size increment h.window fits).1)
      (λ w k. record { state = h.state; window = k })

end_stream-IsServer : (s : ServerTransport) (id : ℕ) → IsServer s → IsServer (end_stream s id)
unfolding end_stream
end_stream-IsServer s id h = record {
  streams = erase_stream-All s.streams id h.streams;
  window = h.window;
}

-- The handlers.
pub receive_ping-Keeps :
    (h : FrameHeader) (s : ServerTransport) (input : List ℕ)
    → IsServer s
    → Keeps (receive_ping h s input)
unfolding receive_ping send_ping_response
receive_ping-Keeps h s input w = AllOk-if _ (is_ping_ack h) _ _ w (
    AllOk-if _ (not (h.stream_id == 0)) _ _ tt (
      AllOk-if _ (not (h.length == 8)) _ _ tt (
        AllOk-if _ (ltb (length input) 8) _ _ w (
          AllOk->>= (λ _. Unit {0}) _ (dequeue input 8) _ (AllOk-any _ _ (λ _. tt))
            (λ rest _. record { streams = w.streams; window = w.window })))))

pub receive_reset_stream-Keeps :
    (h : FrameHeader) (s : ServerTransport) (input : List ℕ)
    → IsServer s
    → Keeps (receive_reset_stream h s input)
unfolding receive_reset_stream
receive_reset_stream-Keeps h s input w =
    AllOk-if _ (not (h.length == 4)) _ _ tt
      (AllOk-if _ (h.stream_id == 0) _ _ tt (end_stream-IsServer s h.stream_id w))

-- An increment has 31 bits.
read_window_size-bound : (input : List ℕ) → read_window_size input < 2 ^ 31
unfolding read_window_size
read_window_size-bound input =
    let word = word32 (get_or input 0 0) (get_or input 1 0) (get_or input 2 0) (get_or input 3 0) in
    omega (arith, and_low 31 word)

add_connection_window_size-IsServer :
    (s : ServerTransport) (increment : ℤ)
    → IsServer s
    → IsInt32 increment
    → AllOk IsServer (add_connection_window_size s increment)
unfolding add_connection_window_size
add_connection_window_size-IsServer s increment h fits =
    let window : IsInt32 (to_int32 s.window_size) = to_int32-IsInt32 s.window_size h.window in
    AllOk->>= IsInt32 _ (add_window_size (to_int32 s.window_size) increment) _
      ((add_window_size-eq (to_int32 s.window_size) increment window fits).1)
      (λ w k. record { streams = h.streams; window = to_uint32_bound w k })

abbrev Added : Option ServerStream → ServerTransport → ℤ → Result ServerTransport
Added o s increment = elim o [
  | none ↦ ok s
  | some stream ↦
      (add_window stream increment >>= λ stream.
      ok (record s { streams = put_stream s.streams stream }))
]

Added-IsServer :
    (o : Option ServerStream) (s : ServerTransport) (increment : ℤ)
    → Found o
    → IsServer s
    → IsInt32 increment
    → AllOk IsServer (Added o s increment)
Added-IsServer none s increment f h fits = h
Added-IsServer (some stream) s increment f h fits =
    AllOk->>= IsIdle _ (add_window stream increment) _ (add_window-IsIdle stream increment f fits)
      (λ stream k. record {
        streams = put_stream-All s.streams stream h.streams k;
        window = h.window;
      })

pub receive_window_update-Keeps :
    (h : FrameHeader) (s : ServerTransport) (input : List ℕ)
    → IsServer s
    → Keeps (receive_window_update h s input)
unfolding receive_window_update add_stream_window_size
receive_window_update-Keeps h s input w =
    let bound = read_window_size-bound input in
    let increment = to_int32 (read_window_size input) in
    let fits : IsInt32 increment = to_int32-IsInt32 (read_window_size input) (omega arith) in
    AllOk-if _ (not (h.length == 4)) _ _ tt (
      AllOk-if _ (h.stream_id == 0) _ _
        (AllOk->>= IsServer _ (add_connection_window_size s increment) _
          (add_connection_window_size-IsServer s increment w fits) (λ s' k. k))
        (AllOk->>= IsServer _ (Added (find_stream s.streams h.stream_id) s increment) _
          (Added-IsServer (find_stream s.streams h.stream_id) s increment
            (find_stream-Found s.streams h.stream_id w.streams) w fits)
          (λ s' k. k)))

pub receive_settings-Keeps :
    (c : Bool) (h : FrameHeader) (s : ServerTransport) (input : List ℕ)
    → IsServer s
    → Keeps (receive_settings c h s input)
unfolding receive_settings ack_settings
receive_settings-Keeps c h s input w = AllOk-if _ (is_settings_ack h) _ _ w (
    AllOk->>= IsSettings _ (create_from_buffer c (take h.length input)) _
      (create_from_buffer-IsSettings c (take h.length input))
      (λ settings fits. record {
        streams = w.streams;
        window =
            if-bound s.window_update_received s.window_size (value settings initial_window_size)
              w.window (value-bound settings initial_window_size fits);
      }))
  where
    if-bound : (b : Bool) (x y : ℕ) → x < 2 ^ 32 → y < 2 ^ 32 → (if b then x else y) < 2 ^ 32
    if-bound true x y h k = h
    if-bound false x y h k = k

For : Option ServerStream → ℕ → Result ServerStream
For o id = elim o [ none ↦ new_server_stream id | some stream ↦ ok stream ]

For-IsIdle : (o : Option ServerStream) (id : ℕ) → Found o → AllOk IsIdle (For o id)
unfolding For
For-IsIdle none id h = new_server_stream-IsIdle id
For-IsIdle (some stream) id h = h

pub receive_headers-Keeps :
    (h : FrameHeader) (s : ServerTransport) (input : List ℕ)
    → IsServer s
    → Keeps (receive_headers h s input)
unfolding receive_headers stream_for dispatch For
receive_headers-Keeps h s input w = AllOk-if _ (ltb (length input) h.length) _ _ tt (
    AllOk->>= (λ _. Unit {0}) _ (parse_block s.dtable (take h.length input)).headers _
      (AllOk-any _ _ (λ _. tt))
      (λ headers _.
        AllOk->>= IsIdle _ (For (find_stream s.streams h.stream_id) h.stream_id) _
          (For-IsIdle (find_stream s.streams h.stream_id) h.stream_id
            (find_stream-Found s.streams h.stream_id w.streams))
          (λ stream k. end_stream-IsServer _ _ (record {
            streams =
                put_stream-All s.streams _ w.streams
                  (record { state = k.state; window = k.window });
            window = w.window;
          }))))

-- No stream of the transport takes data: whatever the frame's stream, `receiveData` throws.
pub receive_data-refused :
    (h : FrameHeader) (s : ServerTransport) (input : List ℕ)
    → IsServer s
    → receive_data h s input ≡ thrown runtime_error
unfolding receive_data get_stream
receive_data-refused h s input w = elim (Bool-cases (h.stream_id == 0)) [
  | inl e ↦ rw e refl
  | inr e ↦ elim (Option-cases (find_stream s.streams h.stream_id)) [
    | inl missing ↦ rw e (rw (missing, get_stream) refl)
    | inr (stream, found) ↦
        let idle = rw found at (find_stream-Found s.streams h.stream_id w.streams) in
        rw e (rw (found, get_stream) (rw idle.state refl))
  ]
]
