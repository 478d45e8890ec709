-- ===== src/Routes.antt =====
-- Which handler gets a request, src/Routes.cpp and Server::addRoute of src/Server.cpp, and the handler that always
-- gives the same response, src/StaticResponder.cpp. A handler is a function of the request; what it yields is a
-- parameter.
pub mod Laws
use shitty.Prelude.{
  ℕ, ◌==◌, ◌&&◌, if◌then◌else◌, Bool, true, false, List, [], ◌∷◌, ◌++◌, length, Option, none, some,
}
use shitty.Messages.{Request, Response, set, content_length_name}
use shitty.Http1.Server.{to_string}

pub record Route {ℓ} (A : Type ℓ) : Type ℓ where
  pub path : List ℕ
  pub handler : Request → A

unfoldable pub starts_with : List ℕ → List ℕ → Bool
starts_with s [] = true
starts_with [] (p ∷ path) = false
starts_with (c ∷ s) (p ∷ path) = c == p && starts_with s path

module _ {ℓ} {A : Type ℓ} where
  unfoldable pub add_handler : List (Route A) → List ℕ → (Request → A) → List (Route A)
  add_handler handlers path handler = handlers ++ record { path = path; handler = handler } ∷ []

  -- The first handler whose path the request's path starts with is called; without one, none is.
  unfoldable pub dispatch : List (Route A) → Request → Option A
  dispatch [] request = none
  dispatch (route ∷ handlers) request =
      let rest = dispatch handlers request in
      if starts_with request.path route.path then some (route.handler request) else rest

-- `addStandardHeaders`, called by the constructor.
unfoldable pub add_standard_headers : Response → Response
add_standard_headers response = record response {
  message = record response.message {
    headers =
        set response.message.headers content_length_name (to_string (length response.message.body));
  };
}

-- The responses that the handler gives to its responder.
unfoldable pub static_responder : Response → Request → List Response
static_responder response request = add_standard_headers response ∷ []

unfoldable pub add_route :
    List (Route (List Response)) → List ℕ → Response → List (Route (List Response))
add_route routes path response = add_handler routes path (static_responder response)
