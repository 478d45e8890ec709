-- ===== src/Http1/ClientSource.antt =====
-- The transports to a backend that are kept for further requests, src/http1/ClientTransportSource.cpp. A connection and
-- the transport that it owns have one number. What the system makes of `socket` and `connect` is a parameter:
-- the number of a new connection, or an error.
mod Tests
pub mod Kept
use shitty.Prelude.{
  ℕ, ◌==◌, if◌then◌else◌, Bool, true, false, not, ◌||◌, List, [], ◌∷◌, Result, ok, thrown,
  runtime_error, logic_error, ◌>>=◌,
}

-- The top of the stack is the head of the list. `has_handler` says which transports have a handler.
pub record Source : Type 0 where
  pub spare_connections : List ℕ
  pub in_use_connections : List ℕ
  pub has_handler : ℕ → Bool

abbrev pub new_source : Source
new_source = record { spare_connections = []; in_use_connections = []; has_handler = λ t. false }

abbrev pub put_handler : Bool → ℕ → (ℕ → Bool) → ℕ → Bool
put_handler value t handlers u = if u == t then value else handlers u

unfoldable pub contains : List ℕ → ℕ → Bool
contains [] t = false
contains (u ∷ ts) t = u == t || contains ts t

unfoldable pub erase : List ℕ → ℕ → List ℕ
erase [] t = []
erase (u ∷ ts) t = let rest = erase ts t in if u == t then ts else u ∷ rest

-- `try_emplace`: a key that is there keeps its connection.
abbrev pub try_emplace : List ℕ → ℕ → List ℕ
try_emplace ts t = if contains ts t then ts else t ∷ ts

-- The transport that a call returns, and the source behind it.
pub record Got : Type 0 where
  pub transport : ℕ
  pub source : Source

abbrev pub in_use : Source → ℕ → Got
in_use s t = record {
  transport = t;
  source = record s {
    in_use_connections = try_emplace s.in_use_connections t;
    has_handler = put_handler true t s.has_handler;
  };
}

unfoldable pub get_transport : Source → Result ℕ → Result Got
get_transport s new_connection = elim s.spare_connections [
  | [] ↦ new_connection >>= λ t. ok (in_use s t)
  | t ∷ spare ↦ ok (in_use (record s { spare_connections = spare }) t)
]

unfoldable pub put_transport : Source → ℕ → Result Source
put_transport s t =
    if contains s.in_use_connections t
    then ok (record {
      spare_connections = t ∷ s.spare_connections;
      in_use_connections = erase s.in_use_connections t;
      has_handler = put_handler false t s.has_handler;
    })
    else thrown logic_error
