-- ===== src/Http2/Transport/Shorter.antt =====
-- Reading a frame takes octets off the buffer, so that the loop of `receiveFrames` ends.
use shitty.Prelude.{
  ℕ, ◌+◌, ◌-◌, ◌≤◌, ◌≡◌, refl, arith, inl, inr, ltb, ◌==◌, ◌||◌, Bool, true, not, Bool-cases,
}
use shitty.Prelude.{
  List, [], ◌∷◌, length, take, drop, none, to_int32, Result, length-drop, AllOk, AllOk->>=,
  AllOk-if, AllOk-any,
}
use shitty.Buffers.Queue.{dequeue}
use shitty.Http2.FrameType
use shitty.Http2.Frame.{FrameHeader, is_ping_ack, is_settings_ack}
use shitty.Http2.HeadersFrame.{is_padded_data}
use shitty.Http2.Settings.{create_from_buffer}
use shitty.Http2.Stream.{subtract_window}
use shitty.Http2.Transport.{ServerTransport, Behind, get_stream}
use shitty.Http2.Transport.Handlers.{
  receive_ping, receive_reset_stream, read_window_size, add_connection_window_size,
  add_stream_window_size, receive_window_update, receive_settings, stream_for, parse_block,
  receive_headers, data_octets, receive_data, may_receive_data,
}
use shitty.Http2.Transport.Frames.{Received, receive_body, process_frame_body, receive_frame_body}

-- A call that leaves at most so many octets.
abbrev pub Leaves : ℕ → Result Behind → Type 0
Leaves size m = AllOk (λ b. length b.input ≤ size) m

dequeue-left :
    (input : List ℕ) (n : ℕ)
    → AllOk (λ (rest : List ℕ). length rest + n ≤ length input) (dequeue input n)
dequeue-left input n = elim (Bool-cases (ltb (length input) n)) [
  | inl e ↦ rw e tt
  | inr e ↦
      let size = length-drop n input in
      let left : length (drop n input) + n ≤ length input = grind (arith, e, size) in rw e left
]

data_octets-left :
    (h : FrameHeader) (input : List ℕ)
    → AllOk (λ ((octets, rest) : List ℕ × List ℕ). length rest ≤ length input) (data_octets h input)
unfolding data_octets
data_octets-left h [] =
    AllOk-if _ (is_padded_data h) _ _ tt (AllOk-if _ (ltb 0 h.length) _ _ tt (omega arith))
data_octets-left h (p ∷ input) =
    AllOk-if _ (is_padded_data h) _ _
      (AllOk-if _ (h.length == 0 || ltb h.length p) _ _ tt
        (AllOk-if _ (ltb (length input) (h.length - p)) _ _ tt (omega arith)))
      (AllOk-if _ (ltb (length (p ∷ input)) h.length) _ _ tt (omega arith))

module _ (c : Bool) (h : FrameHeader) (s : ServerTransport) (input : List ℕ) where
  same : length input ≤ length input
  same = omega arith

  receive_data-left : Leaves (length input) (receive_data h s input)
  unfolding receive_data
  receive_data-left = AllOk-if _ (h.stream_id == 0) _ _ tt (
      AllOk->>= (λ _. Unit {0}) _ (get_stream s h.stream_id) _ (AllOk-any _ _ (λ _. tt))
        (λ stream _. AllOk-if _ (not (may_receive_data stream.state)) _ _ tt (
          AllOk->>= (λ _. Unit {0}) _ (subtract_window stream h.length) _ (AllOk-any _ _ (λ _. tt))
            (λ stream _.
              AllOk->>= (λ ((octets, rest) : List ℕ × List ℕ). length rest ≤ length input) _
                (data_octets h input) _ (data_octets-left h input) (λ (octets, rest) k. k)))))

  receive_headers-left : Leaves (length input) (receive_headers h s input)
  unfolding receive_headers
  receive_headers-left = AllOk-if _ (ltb (length input) h.length) _ _ tt (
      AllOk->>= (λ _. Unit {0}) _ (parse_block s.dtable (take h.length input)).headers _
        (AllOk-any _ _ (λ _. tt))
        (λ headers _.
          AllOk->>= (λ _. Unit {0}) _ (stream_for s h.stream_id) _ (AllOk-any _ _ (λ _. tt))
            (λ stream _. same)))

  receive_ping-left : Leaves (length input) (receive_ping h s input)
  unfolding receive_ping
  receive_ping-left = AllOk-if _ (is_ping_ack h) _ _ same (
      AllOk-if _ (not (h.stream_id == 0)) _ _ tt (
        AllOk-if _ (not (h.length == 8)) _ _ tt (
          AllOk-if _ (ltb (length input) 8) _ _ same (
            AllOk->>= (λ (rest : List ℕ). length rest + 8 ≤ length input) _ (dequeue input 8) _
              (dequeue-left input 8) (λ rest k. omega (arith, k))))))

  receive_reset_stream-left : Leaves (length input) (receive_reset_stream h s input)
  unfolding receive_reset_stream
  receive_reset_stream-left =
      AllOk-if _ (not (h.length == 4)) _ _ tt (AllOk-if _ (h.stream_id == 0) _ _ tt same)

  receive_settings-left : Leaves (length input) (receive_settings c h s input)
  unfolding receive_settings
  receive_settings-left = AllOk-if _ (is_settings_ack h) _ _ same (
      AllOk->>= (λ _. Unit {0}) _ (create_from_buffer c (take h.length input)) _
        (AllOk-any _ _ (λ _. tt)) (λ settings _. same))

  receive_window_update-left : Leaves (length input) (receive_window_update h s input)
  unfolding receive_window_update
  receive_window_update-left = AllOk-if _ (not (h.length == 4)) _ _ tt (
      AllOk-if _ (h.stream_id == 0) _ _
        (AllOk->>= (λ _. Unit {0}) _
          (add_connection_window_size s (to_int32 (read_window_size input))) _
          (AllOk-any _ _ (λ _. tt)) (λ s' _. same))
        (AllOk->>= (λ _. Unit {0}) _
          (add_stream_window_size s h.stream_id (to_int32 (read_window_size input))) _
          (AllOk-any _ _ (λ _. tt)) (λ s' _. same)))

  receive_body-left : Leaves (length input) (receive_body c h s input)
  unfolding receive_body
  receive_body-left = AllOk-if _ (h.type == FrameType.content) _ _ receive_data-left (
      AllOk-if _ (h.type == FrameType.headers) _ _ receive_headers-left (
        AllOk-if _ (h.type == FrameType.ping) _ _ receive_ping-left (
          AllOk-if _ (h.type == FrameType.rst_stream) _ _ receive_reset_stream-left (
            AllOk-if _ (h.type == FrameType.settings) _ _ receive_settings-left (
              AllOk-if _ (h.type == FrameType.window_update) _ _ receive_window_update-left
                same)))))

-- What a pass leaves: no header, where it asks for another pass, or else any.
abbrev pub Passed : ℕ → Received → Type 0
Passed size r =
    (length r.behind.input ≤ size)
    × (r.more ≡ true → r.behind.transport.current_frame_header ≡ none)

pub receive_frame_body-Passed :
    (c : Bool) (h : FrameHeader) (s : ServerTransport) (input : List ℕ)
    → AllOk (Passed (length input)) (receive_frame_body c h s input)
unfolding receive_frame_body process_frame_body
receive_frame_body-Passed c h s input = elim (Bool-cases (ltb (length input) h.length)) [
  | inl e ↦ rw e (omega arith, λ more. ground arith)
  | inr e ↦ rw e (
      AllOk->>= (λ b. (length b.input ≤ length input) × (b.transport.current_frame_header ≡ none)) _
        _ _
        (AllOk->>= (λ b. length b.input ≤ length input) _ (receive_body c h s input) _
          (receive_body-left c h s input)
          (λ b k.
            AllOk->>= (λ (rest : List ℕ). length rest + h.length ≤ length b.input) _
              (dequeue b.input h.length) _ (dequeue-left b.input h.length)
              (λ rest k'. (omega (arith, k, k'), refl))))
        (λ b (k, e'). (k, λ _. e')))
]
