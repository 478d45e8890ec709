-- ===== src/Http1/Client/Receives.antt =====
-- What one side sends, the other receives.
use shitty.Prelude.{
  ℕ, suc, ◌+◌, ◌/◌, ◌%◌, ◌<◌, ◌≤◌, ◌^◌, ◌≡◌, refl, ap, ◌∙◌, arith, ltb, ◌||◌, Bool, true, false,
}
use shitty.Prelude.{List, [], ◌∷◌, ◌++◌, length, All, some, pos, Result, ok, append_assoc}
use shitty.Text.Trim.{Plain}
use shitty.Messages.{Header, Message, Response}
use shitty.Messages.Laws.{gathered}
use shitty.Http1.Lines.{crlf, http_1_1, sunglasses, render_headers, status_line, get_content_length}
use shitty.Http1.Lines.RoundTrip.{Without, parse_status_line-status_line}
use shitty.Http1.Transport.{IncomingMessage, Processed, on_input}
use shitty.Http1.Transport.Reading.{IsField, between, in_headers, message_of, Ended}
use shitty.Http1.Transport.Body.{in_body}
use shitty.Http1.Transport.WithBody.{last_of, passes_lem, on_input-leaves_body, on_input-takes_body}
use shitty.Http1.Server.{send_message, send_response}
use shitty.Http1.Server.Fields.{Announces, outgoing, outgoing-All, outgoing-get_content_length}
use shitty.Http1.Client.{response_of, handle, handle_incoming_message, on_end_of_message_headers}

-- A message as it is received: with the headers that were added, and all names in lower case.
abbrev pub received : List ℕ → List ℕ → Message → IncomingMessage
received now first_line message = record {
  first_line = first_line;
  message = record { body = message.body; headers = gathered [] (outgoing now message) };
}

-- What may be sent: a date and headers that fit on lines, no Content-Length but the body's, and a body that is not
-- empty.
pub record IsSendable (now : List ℕ) (message : Message) : Type 0 where
  pub date_plain : Plain now
  pub date_line : Without b'\n' now
  pub fields : All IsField message.headers
  pub announced : Announces message
  pub some_body : (n : ℕ) × (length message.body ≡ suc n)
  pub small_body : length message.body < 2 ^ 63

module _ (end_of_headers : List Header → Result (Unit {0}))
    (handle : IncomingMessage → Result Bool) where
  pub on_input-send_message :
      (handled : List IncomingMessage) (closed : Bool) (now first_line : List ℕ) (message : Message)
      (fuel : ℕ)
      → IsSendable now message
      → Without b'\n' first_line
      → end_of_headers (gathered [] (outgoing now message)) ≡ ok tt
      → handle (received now first_line message) ≡ ok true
      → (waiting : Processed) × (on_input end_of_headers handle
            (suc (length (outgoing now message) + suc fuel))
            (between handled closed)
            (send_message now first_line message)
          ≡ some (ok waiting))
        × (waiting.transport.handled ≡ handled)
        × (waiting.input ≡ message.body)
        × (on_input end_of_headers handle (suc fuel) waiting.transport waiting.input
            ≡ some
                (ok (Ended end_of_headers handle handled closed (received now first_line message))))
  unfolding send_message
  on_input-send_message handled closed now first_line message fuel s line hook given =
      let hs = outgoing now message in
      let (n, size) = s.some_body in
      let announced : get_content_length (gathered [] hs) ≡ ok (pos (suc n)) =
        outgoing-get_content_length now message s.announced s.small_body
        ∙ ap (λ (k : ℕ). ok (pos k)) size in
      let fields = outgoing-All now message s.date_plain s.date_line s.fields in
      let input = append_assoc (first_line ++ crlf) (render_headers hs) message.body in
      let first =
        on_input-leaves_body end_of_headers handle handled closed first_line hs n fuel message.body
          line fields announced hook in
      let waiting : Processed = record {
        continues = false;
        transport =
            in_body (in_headers handled closed first_line (last_of [] hs) (gathered [] hs))
              (message_of first_line (gathered [] hs)) (suc n);
        input = message.body;
      } in
      (
        waiting,
        rw (input, ← passes_lem hs (suc fuel)) first,
        refl,
        refl,
        on_input-takes_body end_of_headers handle handled closed first_line (last_of [] hs)
            (gathered [] hs) n fuel message.body size given,
      )

abbrev status_text : ℕ → List ℕ
status_text code =
    http_1_1
    ++ b' ' ∷ ((b'0' + code / 100) ∷ (b'0' + code / 10 % 10) ∷ (b'0' + code % 10) ∷ [])
    ++ b' ' ∷ sunglasses

status_line-eq : (code : ℕ) → 100 ≤ code → code ≤ 599 → status_line code ≡ ok (status_text code)
unfolding status_line
status_line-eq code lo hi =
    let known : (ltb code 100 || ltb 599 code) ≡ false = ground (arith, lo, hi) in rw known refl

status_text-Without : (code : ℕ) → Without b'\n' (status_text code)
status_text-Without code = ground arith

response_of-received :
    (now : List ℕ) (r : Response)
    → 100 ≤ r.status_code
    → r.status_code ≤ 599
    → response_of (received now (status_text r.status_code) r.message)
      ≡ ok (record {
        status_code = r.status_code;
        message = record { body = r.message.body; headers = gathered [] (outgoing now r.message) };
      })
unfolding response_of
response_of-received now r lo hi =
    let parsed =
      rw (status_line-eq r.status_code lo hi) at
        (parse_status_line-status_line r.status_code lo hi) in
    rw parsed refl

-- The server sends the response, and a client that has a handler and is between two messages gives the handler,
-- at the second call of onInput on those octets, a response with that code, that body, and the headers that were
-- sent, added one by one with their names in lower case.
abbrev pub Delivers : List ℕ → Response → List IncomingMessage → Bool → ℕ → Type 0
Delivers now r handled closed fuel =
    (octets : List ℕ) × (waiting : Processed) × (done : Processed) × (m : IncomingMessage)
    × (send_response now r ≡ ok octets)
    × (on_input on_end_of_message_headers (handle_incoming_message true)
          (suc (length (outgoing now r.message) + suc fuel)) (between handled closed) octets
        ≡ some (ok waiting))
    × (waiting.transport.handled ≡ handled)
    × (on_input on_end_of_message_headers (handle_incoming_message true) (suc fuel)
          waiting.transport waiting.input
        ≡ some (ok done))
    × (done.transport.handled ≡ handled ++ m ∷ [])
    × (response_of m
        ≡ ok (record {
          status_code = r.status_code;
          message = record {
            body = r.message.body;
            headers = gathered [] (outgoing now r.message);
          };
        }))

-- A response with a code from 100 to 599 and a body that is not empty, whose date and headers fit on lines, and
-- which has no Content-Length but its body's, is sent, and delivered to the client's handler in two calls of onInput.
pub send_response-response_of :
    (now : List ℕ) (r : Response) (handled : List IncomingMessage) (closed : Bool) (fuel : ℕ)
    → IsSendable now r.message
    → 100 ≤ r.status_code
    → r.status_code ≤ 599
    → Delivers now r handled closed fuel
unfolding send_response
send_response-response_of now r handled closed fuel s lo hi =
    let read = response_of-received now r lo hi in
    let given : handle_incoming_message true (received now (status_text r.status_code) r.message)
        ≡ ok true =
      unfold handle_incoming_message handle in rw read refl in
    let (waiting, first, none_yet, left, second) =
      on_input-send_message on_end_of_message_headers (handle_incoming_message true) handled closed
        now (status_text r.status_code) r.message fuel s (status_text-Without r.status_code) refl
        given in
    (
      send_message now (status_text r.status_code) r.message,
      waiting,
      _,
      received now (status_text r.status_code) r.message,
      rw (status_line-eq r.status_code lo hi) refl,
      first,
      none_yet,
      second,
      refl,
      read,
    )
