-- ===== src/Http1/Dispatch/Answers/Exchange.antt =====
-- A request from a client to a server and back.
use shitty.Prelude.{
  ℕ, suc, ◌+◌, ◌<◌, ◌≤◌, ◌^◌, ◌≡◌, refl, ◌∙◌, inl, inr, Bool-cases, Bool, true, false,
}
use shitty.Prelude.{List, [], ◌∷◌, ◌++◌, length, All, Option, some, ok}
use shitty.Text.{case_insensitive_equal}
use shitty.Text.Trim.{Plain}
use shitty.Messages.{Header, Request, Response, content_length_name, remove, set}
use shitty.Messages.Laws.{gathered, add-All}
use shitty.Http1.Lines.{request_line}
use shitty.Http1.Lines.RoundTrip.{Without}
use shitty.Http1.Transport.{IncomingMessage, Processed, on_input}
use shitty.Http1.Transport.Reading.{IsField, between, Ended}
use shitty.Http1.Server.{to_string, send_message, send_response}
use shitty.Http1.Server.Fields.{content_length-IsField, outgoing}
use shitty.Http1.Client.{send_request}
use shitty.Http1.Client
use shitty.Http1.Client.Receives.{IsSendable, send_response-response_of}
use shitty.Http1.Dispatch.{answered, handle_incoming_message}
use shitty.Http1.Dispatch.Answers.{on_request-static}
use shitty.Routes.{Route, starts_with, static_responder, add_standard_headers}
use shitty.Routes.Laws.{Passes, add_standard_headers-Announces}
use shitty.Http1.Dispatch.Answers.Arrives.{
  IsPlainRequest, arrived, message_in, no_upgrade-arrived, request_of-arrived, server_headers,
  server_message, server_handle, on_input-request,
}

remove-All : (hs : List Header) (name : List ℕ) → All IsField hs → All IsField (remove hs name)
unfolding remove
remove-All [] name w = tt
remove-All (h ∷ hs) name (f, w) = elim (Bool-cases (case_insensitive_equal h.name name)) [
  | inl gone ↦ rw gone (remove-All hs name w)
  | inr kept ↦ rw kept (f, remove-All hs name w)
]

-- A response whose static responder may send it.
pub record IsStatic (now : List ℕ) (response : Response) : Type 0 where
  pub date_plain : Plain now
  pub date_line : Without b'\n' now
  pub fields : All IsField response.message.headers
  pub some_body : (n : ℕ) × (length response.message.body ≡ suc n)
  pub small_body : length response.message.body < 2 ^ 63
  pub code_low : 100 ≤ response.status_code
  pub code_high : response.status_code ≤ 599

add_standard_headers-IsSendable :
    (now : List ℕ) (response : Response)
    → IsStatic now response
    → IsSendable now (add_standard_headers response).message
unfolding add_standard_headers set
add_standard_headers-IsSendable now response w = record {
  date_plain = w.date_plain;
  date_line = w.date_line;
  fields =
      add-All IsField (remove response.message.headers content_length_name) content_length_name
        (to_string (length response.message.body))
        (remove-All response.message.headers content_length_name w.fields)
        (content_length-IsField (length response.message.body));
  announced = add_standard_headers-Announces response;
  some_body = w.some_body;
  small_body = w.small_body;
}

module _ (now : List ℕ) (char_is_signed : Bool) (decoded_size_nopad : ℕ → ℕ)
    (decode : List ℕ → Option (List ℕ)) (before after : List (Route (List Response)))
    (path : List ℕ) (response : Response) where
  abbrev pub with_route : List (Route (List Response))
  with_route = before ++ record { path = path; handler = static_responder response } ∷ after

  server_message-static :
      (req : Request) (octets : List ℕ)
      → IsPlainRequest now req
      → All (Passes (arrived now req)) before
      → starts_with req.path path ≡ true
      → send_response now (add_standard_headers response) ≡ ok octets
      → server_message now char_is_signed decoded_size_nopad decode with_route (message_in now req)
        ≡ ok (answered (octets ∷ []))
  unfolding handle_incoming_message
  server_message-static req octets w passed fits sent =
      let here =
        on_request-static now char_is_signed decoded_size_nopad decode before after path response
          (arrived now req) (no_upgrade-arrived now req w) passed fits in
      rw (request_of-arrived now req w) (here ∙ rw sent refl)

  -- In one call of onInput the server gets the request and answers with some octets alone; in two calls the client
  -- gets from these a response with the code and the body of the route's.
  abbrev pub Exchanged : Request → ℕ → Type 0
  Exchanged req fuel =
      (octets : List ℕ) × (at_server : Processed) × (m : IncomingMessage) × (reply : List ℕ)
      × (waiting : Processed) × (at_client : Processed) × (n : IncomingMessage) × (headers : List
          Header)
      × (send_request now true req ≡ ok octets)
      × (on_input (server_headers now char_is_signed decoded_size_nopad decode with_route)
            (server_handle now char_is_signed decoded_size_nopad decode with_route)
            (2 + length (outgoing now req.message)) (between [] false) octets
          ≡ some (ok at_server))
      × (at_server.transport.handled ≡ m ∷ [])
      × (server_message now char_is_signed decoded_size_nopad decode with_route m
          ≡ ok (answered (reply ∷ [])))
      × (on_input Client.on_end_of_message_headers (Client.handle_incoming_message true)
            (suc (length (outgoing now (add_standard_headers response).message) + suc fuel))
            (between [] false) reply
          ≡ some (ok waiting))
      × (on_input Client.on_end_of_message_headers (Client.handle_incoming_message true) (suc fuel)
            waiting.transport waiting.input
          ≡ some (ok at_client))
      × (at_client.transport.handled ≡ n ∷ [])
      × (Client.response_of n
          ≡ ok (record {
            status_code = response.status_code;
            message = record { body = response.message.body; headers = headers };
          }))

  -- A client with a handler sends a request without a body, which asks for no upgrade and no "100 Continue", to a
  -- server whose first route that fits its path always gives the same response, with a body and a code from
  -- 100 to 599; the date and all headers fit on lines. In one call of onInput the server gets the request and
  -- answers it with some octets alone; in two calls of onInput on these the client gets one message, a response with
  -- the code and the body of the route's.
  pub exchange :
      (req : Request) (fuel : ℕ)
      → IsPlainRequest now req
      → IsStatic now response
      → All (Passes (arrived now req)) before
      → starts_with req.path path ≡ true
      → Exchanged req fuel
  unfolding send_request add_standard_headers
  exchange req fuel w static passed fits =
      let standard = add_standard_headers response in
      let (reply, waiting, at_client, n, sent, first, none_yet, second, given, read) =
        send_response-response_of now standard [] false fuel
          (add_standard_headers-IsSendable now response static) static.code_low static.code_high in
      let answers = server_message-static req reply w passed fits sent in
      (
        send_message now (request_line req.method req.path) req.message,
        Ended (server_headers now char_is_signed decoded_size_nopad decode with_route)
            (server_handle now char_is_signed decoded_size_nopad decode with_route) [] false
            (message_in now req),
        message_in now req,
        reply,
        waiting,
        at_client,
        n,
        gathered [] (outgoing now standard.message),
        refl,
        on_input-request now char_is_signed decoded_size_nopad decode with_route req w
            (rw answers refl),
        refl,
        answers,
        first,
        second,
        given,
        read,
      )
