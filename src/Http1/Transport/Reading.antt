-- ===== src/Http1/Transport/Reading.antt =====
-- A message without a body is read as it was written.
use shitty.Prelude.{ℕ, suc, ◌+◌, ◌≡◌, refl, ◌∙◌, arith, ◌==◌, ◌&&◌, ◌||◌, Bool, true, false, not}
use shitty.Prelude.{
  List, [], ◌∷◌, ◌++◌, length, All, none, some, pos, Result, ok, length-append, append_assoc, ◌>>=◌,
}
use shitty.Text.{is_lws, ascii_lower}
use shitty.Text.Trim.{Plain}
use shitty.Messages.{Header, add, get, connection_name, close_value}
use shitty.Messages.Laws.{gathered}
use shitty.Http1.Lines.{crlf, render_header, render_headers, get_content_length}
use shitty.Http1.Lines.RoundTrip.{Without}
use shitty.Http1.Transport.{
  IncomingMessage, Transport, Processed, equal_octets, header_line, handle_message,
  reset_incoming_message, mark_headers_complete, finish, process_line, process_text,
  process_next_line, process_input, on_input, awaits_body,
}
use shitty.Http1.Transport.Headers.{get_line-crlf, header_line-render, Without-append}

-- A string that begins with no blank.
abbrev pub BeginsPlain : List ℕ → Type 0
BeginsPlain [] = ⊥
BeginsPlain (c ∷ s) = is_lws c ≡ false

-- A header that fits on a line.
pub record IsField (h : Header) : Type 0 where
  pub begins : BeginsPlain h.name
  pub no_colon : Without b':' h.name
  pub name_line : Without b'\n' h.name
  pub value_plain : Plain h.value
  pub value_line : Without b'\n' h.value

-- Between two messages, and in the headers of one.
abbrev pub between : List IncomingMessage → Bool → Transport
between handled closed = record {
  incoming_message = none;
  last_header = [];
  message_headers_complete = false;
  expected_body_length = pos 0;
  handled = handled;
  replaced = false;
  closed = closed;
}

abbrev pub message_of : List ℕ → List Header → IncomingMessage
message_of first_line headers = record {
  first_line = first_line;
  message = record { body = []; headers = headers };
}

abbrev pub in_headers : List IncomingMessage → Bool → List ℕ → List ℕ → List Header → Transport
in_headers handled closed first_line last headers = record (between handled closed) {
  incoming_message = some (message_of first_line headers);
  last_header = last;
}

module _ (end_of_headers : List Header → Result (Unit {0}))
    (handle : IncomingMessage → Result Bool) where
  process_line-header :
      (t : Transport) (m : IncomingMessage) (name rest left : List ℕ)
      → BeginsPlain name
      → process_line end_of_headers handle t m (name ++ rest) left ≡ (
          header_line t m (name ++ rest) >>= λ t.
          ok (record { continues = true; transport = t; input = left }))
  unfolding process_line
  process_line-header t m [] rest left h = elim h [ ]
  process_line-header t m (c ∷ name) rest left h = rw h refl

  pub process_input-line :
      (t : Transport) (text rest : List ℕ)
      → awaits_body t ≡ none
      → Without b'\n' text
      → process_input end_of_headers handle t (text ++ crlf ++ rest)
        ≡ process_text end_of_headers handle t (record { text = text; left = rest })
  unfolding process_input process_next_line
  process_input-line t text rest idle h =
      let some_octets : (length (text ++ crlf ++ rest) == 0) ≡ false =
        grind (arith, length-append (text ++ crlf) rest, length-append text crlf) in
      rw some_octets
        (rw (idle, process_input) (rw (get_line-crlf text rest h, process_next_line) refl))

  -- A header is added to the message.
  pub process_input-header :
      (handled : List IncomingMessage) (closed : Bool) (first_line last : List ℕ)
      (headers : List Header) (h : Header) (rest : List ℕ)
      → IsField h
      → process_input end_of_headers handle
          (in_headers handled closed first_line last headers)
          (render_header h ++ rest)
        ≡ ok (record {
          continues = true;
          transport =
              in_headers handled closed first_line
                (ascii_lower h.name)
                (add headers (ascii_lower h.name) h.value);
          input = rest;
        })
  unfolding awaits_body
  process_input-header handled closed first_line last headers h rest w =
      let t = in_headers handled closed first_line last headers in
      let text = h.name ++ b':' ∷ b' ' ∷ h.value in
      let one_line : Without b'\n' text =
        Without-append b'\n' h.name (b':' ∷ b' ' ∷ h.value) w.name_line
          (ground arith, (ground arith, w.value_line)) in
      let input : render_header h ++ rest ≡ text ++ crlf ++ rest = simp append_assoc refl in
      rw input (
        process_input-line t text rest refl one_line
        ∙ process_line-header t (message_of first_line headers) h.name (b':' ∷ b' ' ∷ h.value) rest
            w.begins
        ∙ rw
            (header_line-render t (message_of first_line headers) h.name h.value w.no_colon
              w.value_plain)
            refl)

  -- A pass of the loop that asks for another.
  pub on_input-next :
      (fuel : ℕ) (t : Transport) (input : List ℕ) (p : Processed)
      → process_input end_of_headers handle t input ≡ ok p
      → (p.continues && not (length p.input == 0)) ≡ true
      → p.transport.replaced ≡ false
      → on_input end_of_headers handle (suc fuel) t input
        ≡ on_input end_of_headers handle fuel p.transport p.input
  unfolding on_input
  on_input-next fuel t input p e more here = rw (e, on_input) (rw more (simp here refl))

  pub on_input-last :
      (fuel : ℕ) (t : Transport) (input : List ℕ) (p : Processed)
      → process_input end_of_headers handle t input ≡ ok p
      → (p.continues && not (length p.input == 0)) ≡ false
      → on_input end_of_headers handle (suc fuel) t input ≡ some (ok p)
  unfolding on_input
  on_input-last fuel t input p e stop = rw (e, on_input) (rw stop refl)

  -- The rest of a message, from one of its headers on, to the end of its headers.
  abbrev pub Ended : List IncomingMessage → Bool → IncomingMessage → Processed
  Ended handled closed m = record {
    continues = true;
    transport =
        between (handled ++ m ∷ [])
          (closed || equal_octets (get m.message.headers connection_name).value close_value);
    input = [];
  }

  pub render_headers-some : (hs : List Header) → (length (render_headers hs) == 0) ≡ false
  unfolding render_headers
  render_headers-some [] = refl
  render_headers-some (h ∷ hs) = grind (
    arith,
    length-append (render_header h) (render_headers hs),
    length-append (h.name ++ (b':' ∷ b' ' ∷ []) ++ h.value) crlf,
  )

  process_input-end :
      (handled : List IncomingMessage) (closed : Bool) (first_line last : List ℕ)
      (headers : List Header)
      → get_content_length headers ≡ ok (pos 0)
      → end_of_headers headers ≡ ok tt
      → handle (message_of first_line headers) ≡ ok true
      → process_input end_of_headers handle (in_headers handled closed first_line last headers) crlf
        ≡ ok (Ended handled closed (message_of first_line headers))
  unfolding process_line mark_headers_complete finish handle_message reset_incoming_message
      awaits_body
  process_input-end handled closed first_line last headers size hook given =
      let t = in_headers handled closed first_line last headers in
      process_input-line t [] [] refl tt ∙ rw (size, hook, given) refl

  rest_of_message :
      (hs : List Header) (handled : List IncomingMessage) (closed : Bool) (first_line last : List ℕ)
      (headers : List Header)
      → All IsField hs
      → get_content_length (gathered headers hs) ≡ ok (pos 0)
      → end_of_headers (gathered headers hs) ≡ ok tt
      → handle (message_of first_line (gathered headers hs)) ≡ ok true
      → on_input end_of_headers handle
          (suc (length hs))
          (in_headers handled closed first_line last headers)
          (render_headers hs)
        ≡ some (ok (Ended handled closed (message_of first_line (gathered headers hs))))
  unfolding render_headers
  rest_of_message [] handled closed first_line last headers w size hook given =
      on_input-last 0 (in_headers handled closed first_line last headers) crlf _
        (process_input-end handled closed first_line last headers size hook given) refl
  rest_of_message (h ∷ hs) handled closed first_line last headers (field, w) size hook given =
      on_input-next (suc (length hs)) (in_headers handled closed first_line last headers)
        (render_header h ++ render_headers hs) _
        (process_input-header handled closed first_line last headers h (render_headers hs) field)
        (rw (render_headers-some hs) refl) refl
      ∙ rest_of_message hs handled closed first_line (ascii_lower h.name)
          (add headers (ascii_lower h.name) h.value) w size hook given

  -- Between two messages: a message in the buffer, its first line on a line, its headers as
  -- `renderHeaders` writes them. If each header fits on a line, with a name that begins with no blank and has no
  -- colon, and a value that neither begins nor ends with a blank, and if the headers announce no body and
  -- the subclass accepts the message, then `onInput`, with two more units of fuel than there are headers, gives it to
  -- the subclass, its headers added one by one with their names in lower case, and comes to stand between two
  -- messages, with nothing left in the buffer.
  pub on_input-render :
      (handled : List IncomingMessage) (closed : Bool) (first_line : List ℕ) (hs : List Header)
      → Without b'\n' first_line
      → All IsField hs
      → get_content_length (gathered [] hs) ≡ ok (pos 0)
      → end_of_headers (gathered [] hs) ≡ ok tt
      → handle (message_of first_line (gathered [] hs)) ≡ ok true
      → on_input end_of_headers handle
          (2 + length hs)
          (between handled closed)
          (first_line ++ crlf ++ render_headers hs)
        ≡ some (ok (Ended handled closed (message_of first_line (gathered [] hs))))
  unfolding awaits_body
  on_input-render handled closed first_line hs line w size hook given =
      let fuel : 2 + length hs ≡ suc (suc (length hs)) = omega arith in
      rw fuel (
        on_input-next (suc (length hs)) (between handled closed)
          (first_line ++ crlf ++ render_headers hs) _
          (process_input-line (between handled closed) first_line (render_headers hs) refl line)
          (rw (render_headers-some hs) refl) refl
        ∙ rest_of_message hs handled closed first_line [] [] w size hook given)
