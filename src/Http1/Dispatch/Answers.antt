-- ===== src/Http1/Dispatch/Answers.antt =====
-- Which requests are answered, and how.
pub mod Arrives
pub mod Exchange
pub mod Unrouted
use shitty.Prelude.{
  ℕ, ◌≡◌, refl, sym, ◌∙◌, Bool, true, false, if◌then◌else◌, List, [], ◌∷◌, ◌++◌, All, Option, none,
  some, Result, ok, thrown, Result-cases, inl, inr, ◌>>=◌,
}
use shitty.Messages.{Header, Request, Response, find, get}
use shitty.Messages.Laws.{get-none}
use shitty.Http1.Transport.{equal_octets}
use shitty.Http1.Server.{send_response, upgrade_lower}
use shitty.Http1.Upgrade.{try_upgrade}
use shitty.Http1.Dispatch.{Outcome, answered, send_all, answer, on_request}
use shitty.Routes.{Route, starts_with, static_responder, add_standard_headers}
use shitty.Routes.Laws.{Passes, dispatch-first, dispatch-none}

send_all-one :
    (now : List ℕ) (r : Response)
    → (send_all now (r ∷ []) >>= λ messages. ok (answered messages))
      ≡ (send_response now r >>= λ octets. ok (answered (octets ∷ [])))
unfolding send_all
send_all-one now r = elim (Result-cases (send_response now r)) [
  | inl (octets, e) ↦ rw e refl
  | inr (x, e) ↦ rw e refl
]

module _ (now : List ℕ) (char_is_signed : Bool) (decoded_size_nopad : ℕ → ℕ)
    (decode : List ℕ → Option (List ℕ)) where
  try_upgrade-none :
      (request : Request)
      → find request.message.headers upgrade_lower ≡ none
      → try_upgrade now char_is_signed decoded_size_nopad decode request ≡ ok none
  unfolding try_upgrade equal_octets
  try_upgrade-none request absent = rw (get-none request.message.headers upgrade_lower absent) refl

  -- A request without an Upgrade header that no route fits gets no answer of theirs.
  pub on_request-unanswered :
      (routes : List (Route (List Response))) (request : Request)
      → find request.message.headers upgrade_lower ≡ none
      → All (Passes request) routes
      → on_request now char_is_signed decoded_size_nopad decode routes request ≡ ok (answered [])
  unfolding on_request answer
  on_request-unanswered routes request absent w =
      rw (try_upgrade-none request absent) (rw (dispatch-none routes request w, answer) refl)

  -- One whose first fitting route is static is answered by that route's response.
  pub on_request-static :
      (before after : List (Route (List Response))) (path : List ℕ) (response : Response)
      (request : Request)
      → find request.message.headers upgrade_lower ≡ none
      → All (Passes request) before
      → starts_with request.path path ≡ true
      → on_request now char_is_signed decoded_size_nopad decode
          (before ++ record { path = path; handler = static_responder response } ∷ after)
          request
        ≡ (send_response now (add_standard_headers response) >>= λ octets.
            ok (answered (octets ∷ [])))
  unfolding on_request answer static_responder
  on_request-static before after path response request absent w fits =
      let route : Route (List Response) = record {
        path = path;
        handler = static_responder response;
      } in
      rw (try_upgrade-none request absent) (
        rw (dispatch-first before after route request w fits, answer)
          (send_all-one now (add_standard_headers response)))
