-- ===== src/Http1/Dispatch/Answers/Unrouted.antt =====
-- What a server does with a request that no route fits, src/Routes.cpp and src/http1/ServerTransport.cpp.
use shitty.Prelude.{ℕ, ◌+◌, ◌≡◌, refl, Bool, true, false}
use shitty.Prelude.{List, [], ◌∷◌, length, All, Option, none, some, ok}
use shitty.Messages.{Request, Response}
use shitty.Messages.Laws.{gathered, get-none}
use shitty.Http1.Lines.{request_line}
use shitty.Http1.Transport.{IncomingMessage, Processed, equal_octets, on_input}
use shitty.Http1.Transport.Reading.{between, Ended}
use shitty.Http1.Server.{send_message, on_end_of_message_headers, expect_name}
use shitty.Http1.Server.Fields.{outgoing}
use shitty.Http1.Client.{send_request}
use shitty.Http1.Dispatch.{answered, handle_incoming_message}
use shitty.Http1.Dispatch.Answers.{on_request-unanswered}
use shitty.Http1.Dispatch.Answers.Arrives.{
  IsPlainRequest, arrived, message_in, no_upgrade-arrived, no_expect-arrived, request_of-arrived,
  server_headers, server_message, server_handle, on_input-request,
}
use shitty.Routes.{Route}
use shitty.Routes.Laws.{Passes}

module _ (now : List ℕ) (char_is_signed : Bool) (decoded_size_nopad : ℕ → ℕ)
    (decode : List ℕ → Option (List ℕ)) (routes : List (Route (List Response))) where
  no_continue :
      (req : Request)
      → IsPlainRequest now req
      → on_end_of_message_headers now (gathered [] (outgoing now req.message)) ≡ ok []
  unfolding on_end_of_message_headers equal_octets
  no_continue req w =
      rw
        (get-none (gathered [] (outgoing now req.message)) expect_name
          (no_expect-arrived now req w))
        refl

  no_answer :
      (req : Request)
      → IsPlainRequest now req
      → All (Passes (arrived now req)) routes
      → server_message now char_is_signed decoded_size_nopad decode routes (message_in now req)
        ≡ ok (answered [])
  unfolding handle_incoming_message
  no_answer req w passed = rw (request_of-arrived now req w) (
      on_request-unanswered now char_is_signed decoded_size_nopad decode routes (arrived now req)
        (no_upgrade-arrived now req w) passed)

  -- The client's octets are read to the last, as one message; neither at the end of its headers nor at its end
  -- is there anything to send.
  abbrev pub Unanswered : Request → Type 0
  Unanswered req =
      (octets : List ℕ) × (at_server : Processed) × (m : IncomingMessage) × (send_request now true
          req
        ≡ ok octets)
      × (on_input (server_headers now char_is_signed decoded_size_nopad decode routes)
            (server_handle now char_is_signed decoded_size_nopad decode routes)
            (2 + length (outgoing now req.message)) (between [] false) octets
          ≡ some (ok at_server))
      × (at_server.input ≡ [])
      × (at_server.transport.incoming_message ≡ none)
      × (at_server.transport.handled ≡ m ∷ [])
      × (on_end_of_message_headers now m.message.headers ≡ ok [])
      × (server_message now char_is_signed decoded_size_nopad decode routes m ≡ ok (answered []))

  -- A client with a handler sends a request without a body, whose date and headers fit on lines, with neither
  -- an Upgrade nor an Expect header, to a server none of whose routes fits its path. The server reads all its octets
  -- as one message, which it handles without an exception, and sends nothing, neither at the end of the headers nor at
  -- the end of the message: no "404 Not Found".
  pub send_request-Unanswered :
      (req : Request)
      → IsPlainRequest now req
      → All (Passes (arrived now req)) routes
      → Unanswered req
  unfolding send_request
  send_request-Unanswered req w passed =
      let silent = no_answer req w passed in
      (
        send_message now (request_line req.method req.path) req.message,
        Ended (server_headers now char_is_signed decoded_size_nopad decode routes)
            (server_handle now char_is_signed decoded_size_nopad decode routes) [] false
            (message_in now req),
        message_in now req,
        refl,
        on_input-request now char_is_signed decoded_size_nopad decode routes req w (rw silent refl),
        refl,
        refl,
        refl,
        no_continue req w,
        silent,
      )
