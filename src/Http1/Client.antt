-- ===== src/Http1/Client.antt =====
-- The client's transport, src/http1/ClientTransport.cpp: what it sends and what it gives its handler. The handler is
-- there or not; what it does with a response is the caller's.
pub mod Receives
use shitty.Prelude.{
  Bool, true, false, if◌then◌else◌, List, ℕ, Result, ok, thrown, invalid_argument,
  bad_function_call, ◌>>=◌,
}
use shitty.Messages.{Header, Request, Response}
use shitty.Http1.Lines.{request_line, parse_status_line}
use shitty.Http1.Server.{send_message}
use shitty.Http1.Transport.{IncomingMessage}

unfoldable pub send_request : List ℕ → Bool → Request → Result (List ℕ)
send_request now has_handler req =
    if has_handler
    then ok (send_message now (request_line req.method req.path) req.message)
    else thrown invalid_argument

-- The response that the handler is called with.
unfoldable pub response_of : IncomingMessage → Result Response
response_of msg = parse_status_line msg.first_line >>= λ status_line.
    ok (record { status_code = status_line.code; message = msg.message })

-- An empty `std::function` throws where it is called.
unfoldable pub handle : Bool → Response → Result Bool
handle has_handler resp = if has_handler then ok true else thrown bad_function_call

unfoldable pub handle_incoming_message : Bool → IncomingMessage → Result Bool
handle_incoming_message has_handler msg = response_of msg >>= handle has_handler

-- The client's transport does nothing at the end of the headers.
abbrev pub on_end_of_message_headers : List Header → Result (Unit {0})
on_end_of_message_headers headers = ok tt
