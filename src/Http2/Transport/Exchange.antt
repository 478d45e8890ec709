-- ===== src/Http2/Transport/Exchange.antt =====
-- What a frame makes the transport send, and what it leaves.
use shitty.Prelude.{
  ℕ, ◌≤◌, ◌≡◌, refl, ◌∙◌, arith, inl, inr, ltb, if◌then◌else◌, Bool, false, Bool-cases,
}
use shitty.Prelude.{
  List, ◌∷◌, ◌++◌, length, take, drop, none, some, ok, thrown, length_error, length-drop,
  length-take, drop-drop, ◌>>=◌,
}
use shitty.Http2.FrameType
use shitty.Http2.Frame.{FrameHeader, IsHeader, header_octets, write_header, flag}
use shitty.Http2.Frame.RoundTrip.{read_header-write_header}
use shitty.Http2.Transport.{ServerTransport, send}
use shitty.Http2.Transport.Handlers.{receive_ping, send_ping_response}
use shitty.Http2.Transport.Frames.{
  receive_body, process_frame_body, receive_frame_header, with_header, receive_frame,
}

receive_frame-fresh :
    (c : Bool) (s : ServerTransport) (input : List ℕ)
    → s.current_frame_header ≡ none
    → receive_frame c s input ≡ (receive_frame_header c s input >>= with_header c)
unfolding receive_frame
receive_frame-fresh c s input e = simp (e, receive_frame) refl

-- Where `char` has no sign and no header waits, a written header, with anything behind it, is read as if
-- it had been read before and what is behind it came now.
pub receive_frame-write_header :
    (s : ServerTransport) (h : FrameHeader) (behind : List ℕ)
    → s.current_frame_header ≡ none
    → IsHeader h
    → receive_frame false s (write_header h ++ behind)
      ≡ receive_frame false (record s { current_frame_header = some h }) behind
unfolding receive_frame_header
receive_frame-write_header s h behind fresh w =
    let long : ltb (length (write_header h ++ behind)) header_octets ≡ false =
      unfold write_header in ground arith in
    receive_frame-fresh false s (write_header h ++ behind) fresh
    ∙ rw (long, read_header-write_header h behind w) (unfold receive_frame in refl)

-- A PING's answer: the same octets, acknowledged, on stream 0.
abbrev pub answer : List ℕ → List ℕ
answer octets = 0 ∷ 0 ∷ 8 ∷ 6 ∷ 1 ∷ 0 ∷ 0 ∷ 0 ∷ 0 ∷ octets

send_ping_response-answer :
    (s : ServerTransport) (octets : List ℕ)
    → length octets ≡ 8
    → send_ping_response s octets ≡ send s (answer octets)
unfolding send_ping_response write_header
send_ping_response-answer s octets size = rw size refl

-- A PING that is not acknowledged, on stream 0, with its eight octets in the buffer: they are sent back,
-- and sixteen octets are taken off the buffer, or length_error is thrown where there are fewer.
pub process_frame_body-ping :
    (c : Bool) (h : FrameHeader) (s : ServerTransport) (input : List ℕ)
    → h.type ≡ FrameType.ping
    → flag 0 h ≡ false
    → h.stream_id ≡ 0
    → h.length ≡ 8
    → 8 ≤ length input
    → process_frame_body c h s input ≡ (
        if ltb (length input) 16
        then thrown length_error
        else ok (record {
          transport = record (send s (answer (take 8 input))) { current_frame_header = none };
          input = drop 16 input;
        }))
unfolding process_frame_body receive_body receive_ping
process_frame_body-ping c h s input type ack stream size enough =
    let at_least : ltb (length input) 8 ≡ false = ground (arith, enough) in
    let eight : length (take 8 input) ≡ 8 = omega (arith, length-take 8 input, enough) in
    let fewer : ltb (length (drop 8 input)) 8 ≡ ltb (length input) 16 =
      ground (arith, length-drop 8 input, enough) in
    rw
      (
        type,
        ack,
        stream,
        size,
        at_least,
        fewer,
        drop-drop 8 8 input,
        send_ping_response-answer s (take 8 input) eight,
      )
      (elim (Bool-cases (ltb (length input) 16)) [
        | inl few ↦ rw few refl
        | inr many ↦ rw many refl
      ])
