-- ===== src/Http2/Transport/Reach.antt =====
-- The states that a connection's transport can come to, and what holds in all of them.
use shitty.Prelude.{
  ℕ, zero, suc, ◌≡◌, arith, inl, inr, ltb, ◌==◌, ◌&&◌, Bool, true, not, Bool-cases, Option-cases,
  Result-cases,
}
use shitty.Prelude.{
  List, length, take, drop, Option, none, some, Result, ok, thrown, runtime_error, AllOk, AllOk->>=,
  AllOk-if, AllOk-any,
}
use shitty.Buffers.Queue.{dequeue}
use shitty.Messages.{Request}
use shitty.Http2.FrameType
use shitty.Http2.Frame.{FrameHeader, read_header, header_octets}
use shitty.Http2.Settings.{Settings}
use shitty.Http2.Stream.{ServerStream, new_server_stream, on_request}
use shitty.Http2.Transport.{ServerTransport, Behind, initialize, send_preface, send}
use shitty.Http2.Transport.Frames.{
  Received, receive_body, process_frame_body, receive_frame_header, receive_frame_body, with_header,
  receive_frame, receive_frames, then_frames, receive_preface, on_input, same_octets,
  client_preface,
}
use shitty.Http2.Transport.Invariant.{
  IsServer, Keeps, new_server_stream-IsIdle, receive_data-refused, receive_headers-Keeps,
  receive_ping-Keeps, receive_reset_stream-Keeps, receive_settings-Keeps,
  receive_window_update-Keeps,
}

module _ (c : Bool) where
  receive_body-Keeps :
      (h : FrameHeader) (s : ServerTransport) (input : List ℕ)
      → IsServer s
      → Keeps (receive_body c h s input)
  unfolding receive_body
  receive_body-Keeps h s input w =
      AllOk-if _ (h.type == FrameType.content) _ _ (rw (receive_data-refused h s input w) tt) (
        AllOk-if _ (h.type == FrameType.headers) _ _ (receive_headers-Keeps h s input w) (
          AllOk-if _ (h.type == FrameType.ping) _ _ (receive_ping-Keeps h s input w) (
            AllOk-if _ (h.type == FrameType.rst_stream) _ _ (receive_reset_stream-Keeps h s input w)
              (AllOk-if _ (h.type == FrameType.settings) _ _ (receive_settings-Keeps c h s input w)
                (AllOk-if _ (h.type == FrameType.window_update) _ _
                  (receive_window_update-Keeps h s input w) w)))))

  abbrev KeepsFrame : Result Received → Type 0
  KeepsFrame m = AllOk (λ r. IsServer r.behind.transport) m

  receive_frame_body-Keeps :
      (h : FrameHeader) (s : ServerTransport) (input : List ℕ)
      → IsServer s
      → KeepsFrame (receive_frame_body c h s input)
  unfolding receive_frame_body process_frame_body
  receive_frame_body-Keeps h s input w = AllOk-if _ (ltb (length input) h.length) _ _ w (
      AllOk->>= (λ b. IsServer b.transport) _ (process_frame_body c h s input) _
        (AllOk-if _ (ltb (length input) h.length) _ _ w (
          AllOk->>= (λ b. IsServer b.transport) _ (receive_body c h s input) _
            (receive_body-Keeps h s input w)
            (λ b k.
              AllOk->>= (λ _. Unit {0}) _ (dequeue b.input h.length) _ (AllOk-any _ _ (λ _. tt))
                (λ rest _. record { streams = k.streams; window = k.window }))))
        (λ b k. k))

  with_header-Keeps : (b : Behind) → IsServer b.transport → KeepsFrame (with_header c b)
  with_header-Keeps b w = elim (Option-cases b.transport.current_frame_header) [
    | inl e ↦ simp (e, with_header) w
    | inr (h, e) ↦ simp (e, with_header) (receive_frame_body-Keeps h b.transport b.input w)
  ]

  receive_frame_header-Keeps :
      (s : ServerTransport) (input : List ℕ) → IsServer s → Keeps (receive_frame_header c s input)
  unfolding receive_frame_header
  receive_frame_header-Keeps s input w = AllOk-if _ (ltb (length input) header_octets) _ _ w (
      AllOk->>= (λ _. Unit {0}) _ (read_header c input) _ (AllOk-any _ _ (λ _. tt))
        (λ r _. record { streams = w.streams; window = w.window }))

  receive_frame-Keeps :
      (s : ServerTransport) (input : List ℕ) → IsServer s → KeepsFrame (receive_frame c s input)
  unfolding receive_frame
  receive_frame-Keeps s input w = elim (Option-cases s.current_frame_header) [
    | inl e ↦
        simp (e, receive_frame)
          (AllOk->>= (λ b. IsServer b.transport) _ (receive_frame_header c s input) _
            (receive_frame_header-Keeps s input w) (λ b k. with_header-Keeps b k))
    | inr (h, e) ↦ simp (e, receive_frame) (receive_frame_body-Keeps h s input w)
  ]

  -- A run that returned.
  abbrev Returns : Option (Result Behind) → Type 0
  Returns none = Unit
  Returns (some m) = Keeps m

  receive_frames-Keeps :
      (fuel : ℕ) (s : ServerTransport) (input : List ℕ)
      → IsServer s
      → Returns (receive_frames c fuel s input)
  unfolding receive_frames
  receive_frames-Keeps zero s input w = tt
  receive_frames-Keeps (suc fuel) s input w =
      let kept = receive_frame-Keeps s input w in
      elim (Result-cases (receive_frame c s input)) [
        | inr (e, failed) ↦ rw (failed, receive_frames) tt
        | inl (r, got) ↦
            let k = rw got at kept in
            elim (Bool-cases (r.more && not (length r.behind.input == 0))) [
              | inl more ↦
                  rw (got, receive_frames)
                    (rw more (receive_frames-Keeps fuel r.behind.transport r.behind.input k))
              | inr stop ↦ rw (got, receive_frames) (rw stop k)
            ]
      ]

  then_frames-Keeps :
      (fuel : ℕ) (o : Option (Result Behind)) → Returns o → Returns (then_frames c fuel o)
  then_frames-Keeps fuel none w = tt
  then_frames-Keeps fuel (some (thrown e)) w = tt
  then_frames-Keeps fuel (some (ok b)) w = receive_frames-Keeps fuel b.transport b.input w

  receive_preface-Keeps :
      (fuel : ℕ) (s : ServerTransport) (input : List ℕ)
      → IsServer s
      → Returns (receive_preface c fuel s input)
  unfolding receive_preface
  receive_preface-Keeps fuel s input w = elim (Bool-cases (ltb (length input) 24)) [
    | inl few ↦ rw few w
    | inr enough ↦ elim (Bool-cases (same_octets (take 24 input) client_preface)) [
      | inr other ↦ rw (enough, other) tt
      | inl same ↦
          rw (enough, same)
            (receive_frames-Keeps fuel (record s { preface_received = true }) (drop 24 input)
              (record { streams = w.streams; window = w.window }))
    ]
  ]

  on_input-Keeps :
      (fuel : ℕ) (s : ServerTransport) (input : List ℕ)
      → IsServer s
      → Returns (on_input c fuel s input)
  unfolding on_input
  on_input-Keeps fuel s input w = elim (Bool-cases s.preface_received) [
    | inl e ↦ simp e (receive_frames-Keeps fuel s input w)
    | inr e ↦ simp e (
        then_frames-Keeps fuel (receive_preface c fuel s input)
          (receive_preface-Keeps fuel s input w))
  ]

  -- A transport is made with some settings of the peer's, takes input, and responds to the request of an
  -- upgrade on one of its streams.
  pub data Reach : ServerTransport → Type 0 where
    made : (settings : Settings) {s : ServerTransport} → initialize settings ≡ ok s → Reach s
    took :
        {s : ServerTransport} (fuel : ℕ) (input : List ℕ) (b : Behind)
        → Reach s
        → on_input c fuel s input ≡ some (ok b)
        → Reach b.transport
    responded :
        {s : ServerTransport} (stream : ServerStream) (request : Request)
        → Reach s
        → Reach (send s (on_request stream request))

initialize-IsServer : (settings : Settings) → AllOk IsServer (initialize settings)
unfolding initialize send_preface
initialize-IsServer settings =
    AllOk->>= _ _ (new_server_stream 1) _ (new_server_stream-IsIdle 1)
      (λ stream k. record { streams = (k, tt); window = omega arith })

-- Streams are idle in every state that can be reached, the windows of streams are 32-bit integers, and the
-- connection's window is a number of 32 bits.
pub Reach-IsServer : (c : Bool) {s : ServerTransport} → Reach c s → IsServer s
Reach-IsServer c (made settings e) = rw e at (initialize-IsServer settings)
Reach-IsServer c (took {s = s} fuel input b r e) =
    rw e at (on_input-Keeps c fuel s input (Reach-IsServer c r))
Reach-IsServer c (responded stream request r) =
    let w = Reach-IsServer c r in record { streams = w.streams; window = w.window }

-- In every state that can be reached, a DATA frame, of any stream, size and flags, throws a runtime_error.
pub Reach-receive_body :
    (c : Bool) {s : ServerTransport} (h : FrameHeader) (input : List ℕ)
    → Reach c s
    → h.type ≡ FrameType.content
    → receive_body c h s input ≡ thrown runtime_error
unfolding receive_body
Reach-receive_body c {s = s} h input r e =
    let is_data : (h.type == FrameType.content) ≡ true = ground (arith, e) in
    rw is_data (receive_data-refused h s input (Reach-IsServer c r))
