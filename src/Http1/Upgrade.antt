-- ===== src/Http1/Upgrade.antt =====
-- Upgrades of a connection, src/http1/UpgradeRegistry.cpp, HTTP2Upgrader.cpp and `tryUpgrade` of ServerTransport.cpp.
-- `HTTP2Upgrader::server_` is a null pointer: the reference that is made of it is kept by the new transport, whose
-- code never uses it, and has no part in the model.
mod Tests
pub mod Confirmed
use shitty.Prelude.{
  ℕ, ◌==◌, if◌then◌else◌, Bool, true, false, List, [], ◌∷◌, ◌++◌, Option, none, some, Result, ok,
  thrown, ◌>>=◌,
}
use shitty.Messages.{Header, Message, Request, get, remove}
use shitty.Http1.Transport.{equal_octets}
use shitty.Http1.Server.{is_no_header, upgrade_lower, upgrade_name, confirm_upgrade}
use shitty.Http2.Stream.{on_request}
use shitty.Http2.Transport.{ServerTransport, send, get_stream, new_server_transport}

-- The classes that implement `Upgrader`.
pub data Upgrader : Type 0 where
  http2_upgrader : Upgrader

pub record Upgrade : Type 0 where
  pub token : List ℕ
  pub upgrader : Upgrader

unfoldable pub get_upgrader : List Upgrade → List ℕ → Option Upgrader
get_upgrader [] token = none
get_upgrader (u ∷ upgrades) token =
    let rest = get_upgrader upgrades token in
    if equal_octets u.token token then some u.upgrader else rest

-- `try_emplace`: a token that is registered keeps its upgrader.
unfoldable pub add_upgrader : List Upgrade → List ℕ → Upgrader → List Upgrade
add_upgrader upgrades token upgrader = elim (get_upgrader upgrades token) [
  | some u ↦ upgrades
  | none ↦ record { token = token; upgrader = upgrader } ∷ upgrades
]

-- "h2c"
abbrev pub h2c : List ℕ
h2c = b'h' ∷ b'2' ∷ b'c' ∷ []

unfoldable pub static_upgrades : List Upgrade
static_upgrades = add_upgrader [] h2c http2_upgrader

-- "HTTP2-Settings"
abbrev pub http2_settings_name : List ℕ
http2_settings_name =
    b'H' ∷ b'T' ∷ b'T' ∷ b'P' ∷ b'2' ∷ b'-' ∷ b'S' ∷ b'e' ∷ b't' ∷ b't' ∷ b'i' ∷ b'n' ∷ b'g' ∷ b's'
    ∷ []

-- What is sent over HTTP/1, and the transport that takes over, with what it has sent.
pub record Upgraded : Type 0 where
  pub confirmation : List ℕ
  pub transport : ServerTransport

-- The request becomes that of stream 1.
unfoldable pub upgrade : ServerTransport → Request → Result ServerTransport
upgrade new_transport request =
    get_stream new_transport 1 >>= λ stream. ok (send new_transport (on_request stream request))

abbrev pub without_upgrade : Request → Request
without_upgrade request = record request {
  message = record request.message { headers = remove request.message.headers upgrade_name };
}

module _ (now : List ℕ) (char_is_signed : Bool) (decoded_size_nopad : ℕ → ℕ)
    (decode : List ℕ → Option (List ℕ)) where
  unfoldable pub upgrader_upgrade : Upgrader → Request → Result ServerTransport
  upgrader_upgrade http2_upgrader request =
      new_server_transport char_is_signed decoded_size_nopad decode
        (some (get request.message.headers http2_settings_name))

  -- The confirmation is sent first, then the new transport is made.
  unfoldable pub confirm_and_upgrade : Upgrader → List ℕ → Request → Result (Option Upgraded)
  confirm_and_upgrade upgrader token request = confirm_upgrade now token >>= λ confirmation.
      upgrader_upgrade upgrader request >>= λ transport.
      upgrade transport (without_upgrade request) >>= λ transport.
      ok (some (record { confirmation = confirmation; transport = transport }))

  unfoldable pub try_upgrade : Request → Result (Option Upgraded)
  try_upgrade request =
      let upgrade_header = get request.message.headers upgrade_lower in
      if is_no_header upgrade_header
      then ok none
      else elim (get_upgrader static_upgrades upgrade_header.value) [
        | none ↦ ok none
        | some upgrader ↦ confirm_and_upgrade upgrader upgrade_header.value request
      ]
