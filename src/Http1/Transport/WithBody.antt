-- ===== src/Http1/Transport/WithBody.antt =====
-- A message with a body is read in two calls of onInput.
use shitty.Prelude.{ℕ, suc, ◌+◌, ◌≡◌, refl, ◌∙◌, arith, ◌==◌, ltb, Bool, true, false}
use shitty.Prelude.{
  List, [], ◌∷◌, ◌++◌, length, All, some, pos, Result, ok, length-append, append_assoc,
}
use shitty.Text.{ascii_lower}
use shitty.Messages.{Header, add}
use shitty.Messages.Laws.{gathered}
use shitty.Http1.Lines.{crlf, render_header, render_headers, get_content_length}
use shitty.Http1.Lines.RoundTrip.{Without}
use shitty.Http1.Transport.{
  IncomingMessage, handle_message, reset_incoming_message, mark_headers_complete, finish,
  process_line, process_input, on_input, awaits_body,
}
use shitty.Http1.Transport.Reading.{
  IsField, between, message_of, in_headers, process_input-line, process_input-header, on_input-next,
  on_input-last, render_headers-some, Ended,
}
use shitty.Http1.Transport.Body.{with_body, in_body, process_input-body}

-- The name of the last header, and one unit of fuel more for each header.
abbrev pub last_of : List ℕ → List Header → List ℕ
last_of last [] = last
last_of last (h ∷ hs) = last_of (ascii_lower h.name) hs

abbrev pub passes : List Header → ℕ → ℕ
passes [] fuel = fuel
passes (h ∷ hs) fuel = suc (passes hs fuel)

pub passes_lem : (hs : List Header) (fuel : ℕ) → passes hs fuel ≡ length hs + fuel
passes_lem [] fuel = omega arith
passes_lem (h ∷ hs) fuel = omega (arith, passes_lem hs fuel)

module _ (end_of_headers : List Header → Result (Unit {0}))
    (handle : IncomingMessage → Result Bool) where
  render_headers-append_some :
      (hs : List Header) (rest : List ℕ) → (length (render_headers hs ++ rest) == 0) ≡ false
  render_headers-append_some hs rest =
      let some_octets = render_headers-some end_of_headers handle hs in
      grind (arith, length-append (render_headers hs) rest, some_octets)

  -- The headers are read one by one, up to the empty line.
  pub on_input-headers :
      (hs : List Header) (handled : List IncomingMessage) (closed : Bool) (first_line last : List ℕ)
      (headers : List Header) (fuel : ℕ) (rest : List ℕ)
      → All IsField hs
      → on_input end_of_headers handle
          (passes hs (suc fuel))
          (in_headers handled closed first_line last headers)
          (render_headers hs ++ rest)
        ≡ on_input end_of_headers handle
            (suc fuel)
            (in_headers handled closed first_line (last_of last hs) (gathered headers hs))
            (crlf ++ rest)
  unfolding render_headers
  on_input-headers [] handled closed first_line last headers fuel rest w = refl
  on_input-headers (h ∷ hs) handled closed first_line last headers fuel rest (field, w) =
      let input = append_assoc (render_header h) (render_headers hs) rest in
      rw input (
        on_input-next end_of_headers handle (passes hs (suc fuel))
          (in_headers handled closed first_line last headers)
          (render_header h ++ (render_headers hs ++ rest)) _
          (process_input-header end_of_headers handle handled closed first_line last headers h
            (render_headers hs ++ rest) field)
          (rw (render_headers-append_some hs rest) refl) refl
        ∙ on_input-headers hs handled closed first_line (ascii_lower h.name)
            (add headers (ascii_lower h.name) h.value) fuel rest w)

  -- The empty line, where the headers announced a body: the transport waits for it, and the loop ends.
  process_input-end_waits :
      (handled : List IncomingMessage) (closed : Bool) (first_line last : List ℕ)
      (headers : List Header) (n : ℕ) (rest : List ℕ)
      → get_content_length headers ≡ ok (pos (suc n))
      → end_of_headers headers ≡ ok tt
      → process_input end_of_headers handle
          (in_headers handled closed first_line last headers)
          (crlf ++ rest)
        ≡ ok (record {
          continues = false;
          transport =
              in_body
                (in_headers handled closed first_line last headers)
                (message_of first_line headers)
                (suc n);
          input = rest;
        })
  unfolding process_line mark_headers_complete finish awaits_body
  process_input-end_waits handled closed first_line last headers n rest size hook =
      let t = in_headers handled closed first_line last headers in
      let not_whole : (0 == suc n) ≡ false = ground arith in
      process_input-line end_of_headers handle t [] rest refl tt ∙ rw (size, hook, not_whole) refl

  -- Between two messages, a message that announces a body, its first line on a line and its headers as
  -- `renderHeaders` writes them, each fit for a line, with any octets behind them. If the Content-Length that is found
  -- among those headers is not zero and the subclass accepts them, onInput, with fuel for the lines, reads the
  -- headers, and returns with the octets behind them still in the buffer, the whole body among them.
  pub on_input-leaves_body :
      (handled : List IncomingMessage) (closed : Bool) (first_line : List ℕ) (hs : List Header)
      (n fuel : ℕ) (rest : List ℕ)
      → Without b'\n' first_line
      → All IsField hs
      → get_content_length (gathered [] hs) ≡ ok (pos (suc n))
      → end_of_headers (gathered [] hs) ≡ ok tt
      → on_input end_of_headers handle
          (suc (passes hs (suc fuel)))
          (between handled closed)
          (first_line ++ crlf ++ (render_headers hs ++ rest))
        ≡ some (
            ok (record {
              continues = false;
              transport =
                  in_body
                    (in_headers handled closed first_line (last_of [] hs) (gathered [] hs))
                    (message_of first_line (gathered [] hs))
                    (suc n);
              input = rest;
            }))
  unfolding awaits_body
  on_input-leaves_body handled closed first_line hs n fuel rest line w size hook =
      on_input-next end_of_headers handle (passes hs (suc fuel)) (between handled closed)
        (first_line ++ crlf ++ (render_headers hs ++ rest)) _
        (process_input-line end_of_headers handle (between handled closed) first_line
          (render_headers hs ++ rest) refl line)
        (rw (render_headers-append_some hs rest) refl) refl
      ∙ on_input-headers hs handled closed first_line [] [] fuel rest w
      ∙ on_input-last end_of_headers handle fuel
          (in_headers handled closed first_line (last_of [] hs) (gathered [] hs)) (crlf ++ rest) _
          (process_input-end_waits handled closed first_line (last_of [] hs) (gathered [] hs) n rest
            size hook)
          refl

  -- The whole body in the next call completes the message.
  pub on_input-takes_body :
      (handled : List IncomingMessage) (closed : Bool) (first_line last : List ℕ)
      (headers : List Header) (n fuel : ℕ) (body : List ℕ)
      → length body ≡ suc n
      → handle (with_body (message_of first_line headers) body) ≡ ok true
      → on_input end_of_headers handle
          (suc fuel)
          (in_body
            (in_headers handled closed first_line last headers)
            (message_of first_line headers)
            (suc n))
          body
        ≡ some (
            ok (
              Ended end_of_headers handle handled closed
                (with_body (message_of first_line headers) body)))
  unfolding finish handle_message reset_incoming_message
  on_input-takes_body handled closed first_line last headers n fuel body size given =
      let t = in_headers handled closed first_line last headers in
      let m = message_of first_line headers in
      let not_whole : (0 == suc n) ≡ false = ground arith in
      let some_octets : (length body == 0) ≡ false = ground (arith, size) in
      let enough : ltb (length body) (suc n) ≡ false = ground (arith, size) in
      let whole : (length body == suc n) ≡ true = ground (arith, size) in
      on_input-last end_of_headers handle fuel (in_body t m (suc n)) body _
        (process_input-body end_of_headers handle t m (suc n) body some_octets not_whole
          ∙ rw (enough, whole, given) refl)
        refl
