-- ===== src/Routes/Laws.antt =====
-- Which requests a route gets.
use shitty.Prelude.{
  ℕ, ◌≡◌, refl, arith, inl, inr, ◌==◌, if◌then◌else◌, true, false, Bool-cases, List, [], ◌∷◌, ◌++◌,
  length, All, none, some,
}
use shitty.Messages.{Header, Request, Response, content_length_name, remove, set}
use shitty.Messages.Laws.{HasValue, add-All}
use shitty.Text.{case_insensitive_equal}
use shitty.Http1.Server.{to_string}
use shitty.Http1.Server.Fields.{Announces}
use shitty.Routes.{Route, starts_with, dispatch, add_handler, add_standard_headers}

pub starts_with-append : (path s : List ℕ) → starts_with (path ++ s) path ≡ true
unfolding starts_with
starts_with-append [] s = refl
starts_with-append (p ∷ path) s =
    let same : (p == p) ≡ true = ground arith in rw (same, starts_with-append path s) refl

module _ {ℓ} {A : Type ℓ} where
  abbrev pub Passes : Request → Route A → Type 0
  Passes request route = starts_with request.path route.path ≡ false

  -- The routes in front of the first that fits are passed, and those behind it are not looked at; a request that no
  -- route fits gets none.
  pub dispatch-first :
      (before after : List (Route A)) (route : Route A) (request : Request)
      → All (Passes request) before
      → starts_with request.path route.path ≡ true
      → dispatch (before ++ route ∷ after) request ≡ some (route.handler request)
  unfolding dispatch
  dispatch-first [] after route request w fits = rw fits refl
  dispatch-first (r ∷ before) after route request (passed, w) fits =
      rw passed (dispatch-first before after route request w fits)

  pub dispatch-none :
      (handlers : List (Route A)) (request : Request)
      → All (Passes request) handlers
      → dispatch handlers request ≡ none
  unfolding dispatch
  dispatch-none [] request w = refl
  dispatch-none (r ∷ handlers) request (passed, w) = rw passed (dispatch-none handlers request w)

  -- Behind addHandler, a request that a route there was fits is dispatched as before; one that all of them pass
  -- reaches the new handler if its path starts with the new path, and else none.
  pub dispatch-add_handler :
      (handlers : List (Route A)) (path : List ℕ) (handler : Request → A) (request : Request)
      → dispatch (add_handler handlers path handler) request ≡ elim (dispatch handlers request) [
        | some a ↦ some a
        | none ↦ if starts_with request.path path then some (handler request) else none
      ]
  unfolding dispatch add_handler
  dispatch-add_handler [] path handler request = refl
  dispatch-add_handler (r ∷ handlers) path handler request =
      elim (Bool-cases (starts_with request.path r.path)) [
        | inl fits ↦ rw fits refl
        | inr passed ↦ rw (passed, dispatch-add_handler handlers path handler request) refl
      ]

remove-HasValue :
    (hs : List Header) (name value : List ℕ) → All (HasValue name value) (remove hs name)
unfolding remove
remove-HasValue [] name value = tt
remove-HasValue (h ∷ hs) name value = elim (Bool-cases (case_insensitive_equal h.name name)) [
  | inl gone ↦ rw gone (remove-HasValue hs name value)
  | inr kept ↦
      let other : HasValue name value h = λ hit. absurd (cc) in
      rw kept (other, remove-HasValue hs name value)
]

-- The response of a static responder announces its body, whatever Content-Length it was given.
pub add_standard_headers-Announces : (r : Response) → Announces (add_standard_headers r).message
unfolding add_standard_headers set
add_standard_headers-Announces r =
    let size = to_string (length r.message.body) in
    add-All (HasValue content_length_name size) (remove r.message.headers content_length_name)
      content_length_name size (remove-HasValue r.message.headers content_length_name size)
      (λ _. refl)
