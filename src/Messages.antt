-- ===== src/Messages.antt =====
-- `Headers`, src/Headers.h and src/Headers.cpp, `Message` and `Request`. As libstdc++'s `unordered_multimap` does,
-- a list of headers keeps those of one name side by side, the newest first, so that `find` gives the newest. The
-- order of headers of different names is the library's; here it is that of the first of each name.
mod Tests
pub mod Laws
use shitty.Prelude.{ℕ, if◌then◌else◌, List, [], ◌∷◌, Option, none, some}
use shitty.Text.{case_insensitive_equal}

pub record Header : Type 0 where
  pub name : List ℕ
  pub value : List ℕ

abbrev pub no_header : Header
no_header = record { name = []; value = [] }

unfoldable pub find : List Header → List ℕ → Option Header
find [] name = none
find (h ∷ headers) name =
    let rest = find headers name in if case_insensitive_equal h.name name then some h else rest

unfoldable pub get : List Header → List ℕ → Header
get headers name = elim (find headers name) [ none ↦ no_header | some h ↦ h ]

unfoldable pub add : List Header → List ℕ → List ℕ → List Header
add [] name value = record { name = name; value = value } ∷ []
add (h ∷ headers) name value =
    let rest = add headers name value in
    let new : Header = record { name = name; value = value } in
    if case_insensitive_equal h.name name then new ∷ h ∷ headers else h ∷ rest

unfoldable pub remove : List Header → List ℕ → List Header
remove [] name = []
remove (h ∷ headers) name =
    let rest = remove headers name in if case_insensitive_equal h.name name then rest else h ∷ rest

unfoldable pub set : List Header → List ℕ → List ℕ → List Header
set headers name value = add (remove headers name) name value

pub record Message : Type 0 where
  pub body : List ℕ
  pub headers : List Header

abbrev pub new_message : Message
new_message = record { body = []; headers = [] }

pub record Request : Type 0 where
  pub method : List ℕ
  pub path : List ℕ
  pub message : Message

pub record Response : Type 0 where
  pub status_code : ℕ
  pub message : Message

-- Names of headers.
abbrev pub method_name : List ℕ
method_name = b':' ∷ b'm' ∷ b'e' ∷ b't' ∷ b'h' ∷ b'o' ∷ b'd' ∷ []

abbrev pub path_name : List ℕ
path_name = b':' ∷ b'p' ∷ b'a' ∷ b't' ∷ b'h' ∷ []

abbrev pub content_length_name : List ℕ
content_length_name =
    b'c' ∷ b'o' ∷ b'n' ∷ b't' ∷ b'e' ∷ b'n' ∷ b't' ∷ b'-' ∷ b'l' ∷ b'e' ∷ b'n' ∷ b'g' ∷ b't' ∷ b'h'
    ∷ []

abbrev pub transfer_encoding_name : List ℕ
transfer_encoding_name =
    b't' ∷ b'r' ∷ b'a' ∷ b'n' ∷ b's' ∷ b'f' ∷ b'e' ∷ b'r' ∷ b'-' ∷ b'e' ∷ b'n' ∷ b'c' ∷ b'o' ∷ b'd'
    ∷ b'i' ∷ b'n' ∷ b'g' ∷ []

abbrev pub connection_name : List ℕ
connection_name = b'c' ∷ b'o' ∷ b'n' ∷ b'n' ∷ b'e' ∷ b'c' ∷ b't' ∷ b'i' ∷ b'o' ∷ b'n' ∷ []

abbrev pub close_value : List ℕ
close_value = b'c' ∷ b'l' ∷ b'o' ∷ b's' ∷ b'e' ∷ []
