-- ===== src/Http1/Dispatch/Answers/Arrives.antt =====
-- A request from a client reaches the server's handlers.
use shitty.Prelude.{ℕ, ◌+◌, ◌≡◌, refl, ap, ◌∙◌, arith, Bool, true, false}
use shitty.Prelude.{
  List, [], ◌∷◌, ◌++◌, length, All, Option, none, some, pos, Result, ok, append-nil, ◌>>=◌,
}
use shitty.Text.{case_insensitive_equal}
use shitty.Text.Trim.{Plain}
use shitty.Messages.{Header, Message, Request, Response, find, content_length_name}
use shitty.Messages.Laws.{gathered, find-gathered_absent, absent-HasValue, get-none}
use shitty.Http1.Lines.{crlf, render_headers, http_1_1, request_line}
use shitty.Http1.Lines.RoundTrip.{Without, parse_request_line-request_line}
use shitty.Http1.Transport.{IncomingMessage, equal_octets, on_input}
use shitty.Http1.Transport.Headers.{Without-append}
use shitty.Http1.Transport.Reading.{IsField, between, message_of, Ended, on_input-render}
use shitty.Http1.Server.{
  to_string, send_message, on_end_of_message_headers, expect_name, upgrade_lower,
}
use shitty.Http1.Server.Fields.{
  outgoing, outgoing-All, outgoing-get_content_length, outgoing-find_other,
}
use shitty.Http1.Dispatch.{Outcome, still_here, request_of, handle_incoming_message}
use shitty.Routes.{Route}

-- A request without a body that may be sent and asks neither for an upgrade nor for a "100 Continue".
pub record IsPlainRequest (now : List ℕ) (req : Request) : Type 0 where
  pub date_plain : Plain now
  pub date_line : Without b'\n' now
  pub method_word : Without b' ' req.method
  pub method_line : Without b'\n' req.method
  pub path_word : Without b' ' req.path
  pub path_line : Without b'\n' req.path
  pub fields : All IsField req.message.headers
  pub no_body : req.message.body ≡ []
  pub no_length : find req.message.headers content_length_name ≡ none
  pub no_upgrade : find req.message.headers upgrade_lower ≡ none
  pub no_expect : find req.message.headers expect_name ≡ none

-- The request as the server's handlers get it.
abbrev pub arrived : List ℕ → Request → Request
arrived now req = record req {
  message = record { body = []; headers = gathered [] (outgoing now req.message) };
}

absent-arrived :
    (now : List ℕ) (message : Message) (name : List ℕ)
    → find (outgoing now message) name ≡ none
    → find (gathered [] (outgoing now message)) name ≡ none
absent-arrived now message name absent =
    find-gathered_absent (outgoing now message) [] name (unfold find in refl) absent

pub no_upgrade-arrived :
    (now : List ℕ) (req : Request)
    → IsPlainRequest now req
    → find (gathered [] (outgoing now req.message)) upgrade_lower ≡ none
unfolding case_insensitive_equal
no_upgrade-arrived now req w =
    absent-arrived now req.message upgrade_lower
      (outgoing-find_other now req.message upgrade_lower refl refl refl ∙ w.no_upgrade)

pub no_expect-arrived :
    (now : List ℕ) (req : Request)
    → IsPlainRequest now req
    → find (gathered [] (outgoing now req.message)) expect_name ≡ none
unfolding case_insensitive_equal
no_expect-arrived now req w =
    absent-arrived now req.message expect_name
      (outgoing-find_other now req.message expect_name refl refl refl ∙ w.no_expect)

request_line-Without :
    (method path : List ℕ)
    → Without b'\n' method
    → Without b'\n' path
    → Without b'\n' (request_line method path)
unfolding request_line
request_line-Without method path m p =
    Without-append b'\n' (method ++ b' ' ∷ path) (b' ' ∷ http_1_1)
      (Without-append b'\n' method (b' ' ∷ path) m (ground arith, p)) (ground arith)

abbrev pub message_in : List ℕ → Request → IncomingMessage
message_in now req =
    message_of (request_line req.method req.path) (gathered [] (outgoing now req.message))

pub request_of-arrived :
    (now : List ℕ) (req : Request)
    → IsPlainRequest now req
    → request_of (message_in now req) ≡ ok (arrived now req)
unfolding request_of
request_of-arrived now req w =
    rw (parse_request_line-request_line req.method req.path w.method_word w.path_word) refl

send_message-bare :
    (now first_line : List ℕ) (message : Message)
    → message.body ≡ []
    → send_message now first_line message
      ≡ first_line ++ crlf ++ render_headers (outgoing now message)
unfolding send_message
send_message-bare now first_line message bare =
    let head = first_line ++ crlf ++ render_headers (outgoing now message) in
    ap (λ (b : List ℕ). head ++ b) bare ∙ append-nil head

module _ (now : List ℕ) (char_is_signed : Bool) (decoded_size_nopad : ℕ → ℕ)
    (decode : List ℕ → Option (List ℕ)) (routes : List (Route (List Response))) where
  -- What the server's transport overrides.
  abbrev pub server_headers : List Header → Result (Unit {0})
  server_headers headers = on_end_of_message_headers now headers >>= λ _. ok tt

  abbrev pub server_message : IncomingMessage → Result Outcome
  server_message m = handle_incoming_message now char_is_signed decoded_size_nopad decode routes m

  abbrev pub server_handle : IncomingMessage → Result Bool
  server_handle m = server_message m >>= λ outcome. ok (still_here outcome)

  server_headers-arrived :
      (req : Request)
      → IsPlainRequest now req
      → server_headers (gathered [] (outgoing now req.message)) ≡ ok tt
  unfolding on_end_of_message_headers equal_octets
  server_headers-arrived req w =
      rw
        (get-none (gathered [] (outgoing now req.message)) expect_name
          (no_expect-arrived now req w))
        refl

  -- The request in the server's buffer, with what follows it for the server.
  pub on_input-request :
      (req : Request)
      → IsPlainRequest now req
      → server_handle (message_in now req) ≡ ok true
      → on_input server_headers server_handle
          (2 + length (outgoing now req.message))
          (between [] false)
          (send_message now (request_line req.method req.path) req.message)
        ≡ some (ok (Ended server_headers server_handle [] false (message_in now req)))
  on_input-request req w given =
      let no_octets : length req.message.body ≡ 0 = rw w.no_body refl in
      let no_length =
        outgoing-get_content_length now req.message
          (absent-HasValue req.message.headers content_length_name
            (to_string (length req.message.body)) w.no_length)
          (omega (arith, no_octets)) in
      rw (send_message-bare now (request_line req.method req.path) req.message w.no_body) (
        on_input-render server_headers server_handle [] false (request_line req.method req.path)
          (outgoing now req.message)
          (request_line-Without req.method req.path w.method_line w.path_line)
          (outgoing-All now req.message w.date_plain w.date_line w.fields)
          (no_length ∙ ap (λ (k : ℕ). ok (pos k)) no_octets) (server_headers-arrived req w) given)
