-- ===== src/Http1/Dispatch.antt =====
-- What the server's HTTP/1 transport does with a message, src/http1/ServerTransport.cpp: an upgrade, or what the
-- handlers of the routes answer.
mod Tests
pub mod Answers
use shitty.Prelude.{
  ℕ, Bool, true, false, List, [], ◌∷◌, ◌++◌, Option, none, some, Result, ok, thrown, ◌>>=◌,
}
use shitty.Messages.{Message, Request, Response}
use shitty.Http1.Lines.{parse_request_line}
use shitty.Http1.Transport.{IncomingMessage}
use shitty.Http1.Server.{send_response}
use shitty.Http1.Upgrade.{Upgraded, try_upgrade}
use shitty.Routes.{Route, dispatch}

-- The messages that are sent, in their order.
pub data Outcome : Type 0 where
  answered : List (List ℕ) → Outcome
  upgraded : Upgraded → Outcome

unfoldable pub request_of : IncomingMessage → Result Request
request_of msg = parse_request_line msg.first_line >>= λ line.
    ok (record { method = line.method; path = line.path; message = msg.message })

module _ (now : List ℕ) where
  unfoldable pub send_all : List Response → Result (List (List ℕ))
  send_all [] = ok []
  send_all (r ∷ responses) =
      send_response now r >>= λ octets. send_all responses >>= λ rest. ok (octets ∷ rest)

  unfoldable pub answer : List (Route (List Response)) → Request → Result Outcome
  answer routes request = elim (dispatch routes request) [
    | none ↦ ok (answered [])
    | some responses ↦ send_all responses >>= λ messages. ok (answered messages)
  ]

  module _ (char_is_signed : Bool) (decoded_size_nopad : ℕ → ℕ) (decode : List ℕ → Option (List ℕ))
      (routes : List (Route (List Response))) where
    unfoldable pub on_request : Request → Result Outcome
    on_request request = try_upgrade now char_is_signed decoded_size_nopad decode request >>= λ u.
        elim u [ some new ↦ ok (upgraded new) | none ↦ answer routes request ]

    unfoldable pub handle_incoming_message : IncomingMessage → Result Outcome
    handle_incoming_message msg = request_of msg >>= on_request

abbrev pub still_here : Outcome → Bool
still_here (answered messages) = true
still_here (upgraded new) = false
