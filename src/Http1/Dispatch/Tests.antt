-- ===== src/Http1/Dispatch/Tests.antt =====
-- One client, one server and one route.
use shitty.Prelude.{
  if◌then◌else◌, ℕ, ◌*◌, ◌/◌, ◌≡◌, refl, arith, true, false, List, [], ◌∷◌, Option, none, some,
}
use shitty.Messages.{Request, Response, new_message, find}
use shitty.Http1.Client.Receives.{IsSendable, Delivers, send_response-response_of}
use shitty.Http1.Dispatch.Answers.Arrives.{IsPlainRequest}
use shitty.Http1.Dispatch.Answers.Exchange.{IsStatic, Exchanged, exchange}
use shitty.Http1.Dispatch.Answers.Unrouted.{Unanswered, send_request-Unanswered}
use shitty.Routes.{Route, starts_with, static_responder, dispatch, add_handler}
use shitty.Routes.Laws.{dispatch-add_handler}

nothing : (name : List ℕ) → find [] name ≡ none
unfolding find
nothing name = refl

-- A date, "GET /b", and 200 with "ok".
abbrev today : List ℕ
today = b'D' ∷ []

abbrev slash_b : List ℕ
slash_b = b'/' ∷ b'b' ∷ []

abbrev slash_a : List ℕ
slash_a = b'/' ∷ b'a' ∷ []

abbrev get_b : Request
get_b = record { method = b'G' ∷ b'E' ∷ b'T' ∷ []; path = slash_b; message = new_message }

abbrev ok_response : Response
ok_response = record {
  status_code = 200;
  message = record { body = b'o' ∷ b'k' ∷ []; headers = [] };
}

abbrev some_size : ℕ → ℕ
some_size n = n * 3 / 4

abbrev same : List ℕ → Option (List ℕ)
same s = some s

get_b-IsPlainRequest : IsPlainRequest today get_b
get_b-IsPlainRequest = record {
  date_plain = (refl, refl);
  date_line = ground arith;
  method_word = ground arith;
  method_line = ground arith;
  path_word = ground arith;
  path_line = ground arith;
  fields = tt;
  no_body = refl;
  no_length = nothing _;
  no_upgrade = nothing _;
  no_expect = nothing _;
}

ok_response-IsStatic : IsStatic today ok_response
ok_response-IsStatic = record {
  date_plain = (refl, refl);
  date_line = ground arith;
  fields = tt;
  some_body = (1, refl);
  small_body = omega arith;
  code_low = omega arith;
  code_high = omega arith;
}

fits_b : starts_with slash_b slash_b ≡ true
unfolding starts_with
fits_b = refl

passes_a : starts_with slash_b slash_a ≡ false
unfolding starts_with
passes_a = refl

abbrev route_a : Route (List Response)
route_a = record { path = slash_a; handler = static_responder ok_response }

exchange_example : Exchanged today true some_size same (route_a ∷ []) [] slash_b ok_response get_b 0
exchange_example =
    exchange today true some_size same (route_a ∷ []) [] slash_b ok_response get_b 0
      get_b-IsPlainRequest ok_response-IsStatic (passes_a, tt) fits_b

ok_response-IsSendable : IsSendable today ok_response.message
ok_response-IsSendable = record {
  date_plain = (refl, refl);
  date_line = ground arith;
  fields = tt;
  announced = tt;
  some_body = (1, refl);
  small_body = omega arith;
}

send_response-response_of_example : Delivers today ok_response [] false 0
send_response-response_of_example =
    send_response-response_of today ok_response [] false 0 ok_response-IsSendable (omega arith)
      (omega arith)

send_request-Unanswered_example : Unanswered today true some_size same (route_a ∷ []) get_b
send_request-Unanswered_example =
    send_request-Unanswered today true some_size same (route_a ∷ []) get_b get_b-IsPlainRequest
      (passes_a, tt)

dispatch-add_handler_example :
    dispatch (add_handler (route_a ∷ []) slash_b (static_responder ok_response)) get_b
    ≡ elim (dispatch (route_a ∷ []) get_b) [
      | some a ↦ some a
      | none ↦
          if starts_with slash_b slash_b then some (static_responder ok_response get_b) else none
    ]
dispatch-add_handler_example =
    dispatch-add_handler (route_a ∷ []) slash_b (static_responder ok_response) get_b
