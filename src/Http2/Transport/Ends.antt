-- ===== src/Http2/Transport/Ends.antt =====
-- `onInput` ends: each pass of the loop reads a header, or ends one that was read before.
use shitty.Prelude.{
  ℕ, zero, suc, ◌+◌, ◌≤◌, ◌<◌, ◌≡◌, refl, arith, inl, inr, ltb, ◌==◌, ◌&&◌, Bool, true, not,
  Bool-cases, Option-cases, Result-cases,
}
use shitty.Prelude.{
  List, length, take, drop, Option, none, some, Result, ok, thrown, runtime_error, length-drop,
  AllOk, AllOk->>=, AllOk-map,
}
use shitty.Http2.Frame.{FrameHeader, read_header, header_octets}
use shitty.Http2.Transport.{ServerTransport, Behind}
use shitty.Http2.Transport.Handlers.{unchanged}
use shitty.Http2.Transport.Frames.{
  Received, receive_frame_header, receive_frame_body, with_header, receive_frame, receive_frames,
  then_frames, receive_preface, on_input, same_octets, client_preface,
}
use shitty.Http2.Transport.Shorter.{Passed, receive_frame_body-Passed}

abbrev pending : Option FrameHeader → ℕ
pending none = 0
pending (some h) = 1

-- The octets left, and one more where a header waits for its body.
abbrev pub work : ServerTransport → List ℕ → ℕ
work s input = length input + pending s.current_frame_header

-- A pass: fewer octets of work where it asks for another, and no more octets in any case.
abbrev Less : ℕ → ℕ → Received → Type 0
Less size before r =
    (length r.behind.input ≤ size)
    × (r.more ≡ true → work r.behind.transport r.behind.input < before)

Less-Passed :
    (size before : ℕ) (size' : ℕ) (r : Received)
    → size' < before
    → size' ≤ size
    → Passed size' r
    → Less size before r
Less-Passed size before size' r h k (left, cleared) =
    (omega arith, λ more. rw (cleared more) (omega arith))

body-Less :
    (c : Bool) (header : FrameHeader) (s : ServerTransport) (input : List ℕ) (size before : ℕ)
    → length input < before
    → length input ≤ size
    → AllOk (Less size before) (receive_frame_body c header s input)
body-Less c header s input size before h k =
    AllOk-map (Passed (length input)) _ (receive_frame_body c header s input)
      (receive_frame_body-Passed c header s input)
      (λ r passed. Less-Passed size before (length input) r h k passed)

-- The header of a frame takes nine octets.
abbrev HeaderRead : ℕ → Behind → Type 0
HeaderRead size b =
    (length b.input ≤ size) × (pending b.transport.current_frame_header + length b.input ≤ size)

receive_frame_header-HeaderRead :
    (c : Bool) (s : ServerTransport) (input : List ℕ)
    → s.current_frame_header ≡ none
    → AllOk (HeaderRead (length input)) (receive_frame_header c s input)
unfolding receive_frame_header read_header
receive_frame_header-HeaderRead c s input fresh =
    elim (Bool-cases (ltb (length input) header_octets)) [
      | inl e ↦ rw (e, fresh) (omega arith, omega arith)
      | inr e ↦
          let size = length-drop header_octets input in
          let fewer : length (drop header_octets input) + 1 ≤ length input =
            grind (arith, e, size) in
          rw e (omega (arith, fewer), omega (arith, fewer))
    ]

with_header-Less :
    (c : Bool) (b : Behind) (size before : ℕ)
    → HeaderRead size b
    → size ≤ before
    → AllOk (Less size before) (with_header c b)
with_header-Less c b size before (left, h) k =
    elim (Option-cases b.transport.current_frame_header) [
      | inl e ↦ rw (e, with_header) (left, λ more. ground arith)
      | inr (header, e) ↦
          let h' = rw e at h in
          rw (e, with_header)
            (body-Less c header b.transport b.input size before (omega (arith, h', k)) left)
    ]

receive_frame-Less :
    (c : Bool) (s : ServerTransport) (input : List ℕ)
    → AllOk (Less (length input) (work s input)) (receive_frame c s input)
unfolding receive_frame
receive_frame-Less c s input = elim (Option-cases s.current_frame_header) [
  | inl e ↦
      rw (e, receive_frame)
        (AllOk->>= (HeaderRead (length input)) _ (receive_frame_header c s input) _
          (receive_frame_header-HeaderRead c s input e)
          (λ b read. with_header-Less c b (length input) (length input + 0) read (omega arith)))
  | inr (header, e) ↦
      rw (e, receive_frame)
        (body-Less c header s input (length input) (length input + 1) (omega arith) (omega arith))
]

-- A run that ends, and leaves at most so many octets.
abbrev pub Ends : ℕ → Option (Result Behind) → Type 0
Ends size o = (r : Result Behind) × (o ≡ some r) × AllOk (λ b. length b.input ≤ size) r

pub receive_frames-Ends :
    (c : Bool) (fuel : ℕ) (s : ServerTransport) (input : List ℕ)
    → work s input < fuel
    → Ends (length input) (receive_frames c fuel s input)
unfolding receive_frames
receive_frames-Ends c zero s input h = absurd (omega arith)
receive_frames-Ends c (suc fuel) s input h =
    let less = receive_frame-Less c s input in
    elim (Result-cases (receive_frame c s input)) [
      | inr (e, failed) ↦ (thrown e, rw (failed, receive_frames) refl, tt)
      | inl (r, got) ↦
          let (few, next) = rw got at less in
          elim (Bool-cases (r.more && not (length r.behind.input == 0))) [
            | inr stop ↦ (ok r.behind, rw (got, receive_frames) (rw stop refl), few)
            | inl more ↦
                let another : r.more ≡ true = ground (arith, more) in
                let (r', ended, left) =
                  receive_frames-Ends c fuel r.behind.transport r.behind.input
                    (omega (arith, next another, h)) in
                (
                  r',
                  rw (got, receive_frames) (rw more ended),
                  AllOk-map (λ b. length b.input ≤ length r.behind.input) _ r' left
                      (λ b k. omega (arith, k, few)),
                )
          ]
    ]

work-bound : (s : ServerTransport) (input : List ℕ) → work s input ≤ length input + 1
work-bound s input = elim (Option-cases s.current_frame_header) [
  | inl e ↦ rw e (omega arith)
  | inr (header, e) ↦ rw e (omega arith)
]

receive_preface-Ends :
    (c : Bool) (fuel : ℕ) (s : ServerTransport) (input : List ℕ)
    → length input + 2 ≤ fuel
    → Ends (length input) (receive_preface c fuel s input)
unfolding receive_preface
receive_preface-Ends c fuel s input h = elim (Bool-cases (ltb (length input) 24)) [
  | inl few ↦ (unchanged s input, rw few refl, omega arith)
  | inr enough ↦ elim (Bool-cases (same_octets (take 24 input) client_preface)) [
    | inr other ↦ (thrown runtime_error, rw (enough, other) refl, tt)
    | inl same ↦
        let size = length-drop 24 input in
        let s' : ServerTransport = record s { preface_received = true } in
        let (r, ended, left) =
          receive_frames-Ends c fuel s' (drop 24 input)
            (omega (arith, work-bound s' (drop 24 input), h, size)) in
        (
          r,
          rw (enough, same) ended,
          AllOk-map (λ b. length b.input ≤ length (drop 24 input)) _ r left
              (λ b k. omega (arith, k, size)),
        )
  ]
]

-- With as much fuel as there are octets in the buffer, and two, `onInput` returns or throws.
pub on_input_total :
    (c : Bool) (fuel : ℕ) (s : ServerTransport) (input : List ℕ)
    → length input + 2 ≤ fuel
    → (r : Result Behind) × (on_input c fuel s input ≡ some r)
unfolding on_input
on_input_total c fuel s input h = elim (Bool-cases s.preface_received) [
  | inl e ↦
      let (r, ended, left) =
        receive_frames-Ends c fuel s input (omega (arith, work-bound s input, h)) in
      (r, simp e ended)
  | inr e ↦
      let (r, ended, left) = receive_preface-Ends c fuel s input h in
      let (r', ended') = then_frames_total r left in (r', simp e (simp ended ended'))
]
  where
    then_frames_total :
        (r : Result Behind)
        → AllOk (λ b. length b.input ≤ length input) r
        → (r' : Result Behind) × (then_frames c fuel (some r) ≡ some r')
    then_frames_total (thrown e) left = (thrown e, refl)
    then_frames_total (ok b) left =
        let (r, ended, _) =
          receive_frames-Ends c fuel b.transport b.input
            (omega (arith, work-bound b.transport b.input, h, left)) in
        (r, ended)
