-- ===== src/Http1/Server.antt =====
-- What a server sends over HTTP/1: src/http1/ServerTransport.cpp, the sending part of src/http1/Transport.cpp, and
-- src/Stream.cpp. `Date::now()` is a parameter.
pub mod Numbers
pub mod Fields
use shitty.Prelude.{
  ℕ, zero, suc, ◌+◌, ◌/◌, ◌%◌, ltb, ◌==◌, if◌then◌else◌, Bool, true, false, not, ◌&&◌, List, [],
  ◌∷◌, ◌++◌, length, Option, none, some, Result, ok, thrown, ◌>>=◌,
}
use shitty.Messages.{
  Header, Message, Response, new_message, find, get, add, set, content_length_name,
}
use shitty.Http1.Lines.{crlf, render_headers, status_line}
use shitty.Http1.Transport.{equal_octets}

-- `std::to_string`: the last digit, behind the digits of the tenth part, which has less than the number on fuel.
unfoldable pub digits_of : ℕ → ℕ → List ℕ
digits_of zero n = []
digits_of (suc fuel) n =
    let rest = digits_of fuel (n / 10) in
    if ltb n 10 then (b'0' + n) ∷ [] else rest ++ (b'0' + n % 10) ∷ []

unfoldable pub to_string : ℕ → List ℕ
to_string n = digits_of (suc n) n

abbrev pub date_name : List ℕ
date_name = b'd' ∷ b'a' ∷ b't' ∷ b'e' ∷ []

abbrev pub server_name : List ℕ
server_name = b's' ∷ b'e' ∷ b'r' ∷ b'v' ∷ b'e' ∷ b'r' ∷ []

abbrev pub product : List ℕ
product = b'S' ∷ b'h' ∷ b'i' ∷ b't' ∷ b't' ∷ b'y' ∷ []

abbrev pub expect_name : List ℕ
expect_name = b'e' ∷ b'x' ∷ b'p' ∷ b'e' ∷ b'c' ∷ b't' ∷ []

abbrev pub connection_title : List ℕ
connection_title = b'C' ∷ b'o' ∷ b'n' ∷ b'n' ∷ b'e' ∷ b'c' ∷ b't' ∷ b'i' ∷ b'o' ∷ b'n' ∷ []

abbrev pub upgrade_name : List ℕ
upgrade_name = b'U' ∷ b'p' ∷ b'g' ∷ b'r' ∷ b'a' ∷ b'd' ∷ b'e' ∷ []

-- "upgrade", as it is looked for.
abbrev pub upgrade_lower : List ℕ
upgrade_lower = b'u' ∷ b'p' ∷ b'g' ∷ b'r' ∷ b'a' ∷ b'd' ∷ b'e' ∷ []

abbrev pub is_no_header : Header → Bool
is_no_header h = equal_octets h.name [] && equal_octets h.value []

abbrev pub continue_value : List ℕ
continue_value =
    b'1' ∷ b'0' ∷ b'0' ∷ b'-' ∷ b'c' ∷ b'o' ∷ b'n' ∷ b't' ∷ b'i' ∷ b'n' ∷ b'u' ∷ b'e' ∷ []

abbrev pub expectation_failed : List ℕ
expectation_failed =
    b'E' ∷ b'x' ∷ b'p' ∷ b'e' ∷ b'c' ∷ b't' ∷ b'a' ∷ b't' ∷ b'i' ∷ b'o' ∷ b'n' ∷ b' ' ∷ b'F' ∷ b'a'
    ∷ b'i' ∷ b'l' ∷ b'e' ∷ b'd' ∷ b'.' ∷ b'\n' ∷ []

-- A header that is added where there is none of its name.
abbrev pub add_missing : List Header → List ℕ → List ℕ → List Header
add_missing headers name value = elim (find headers name) [
  | none ↦ add headers name value
  | some h ↦ headers
]

unfoldable pub set_content_length : List Header → ℕ → List Header
set_content_length headers content_length =
    add_missing headers content_length_name (to_string content_length)

module _ (now : List ℕ) where
  unfoldable pub set_general_server_headers : List Header → List Header
  set_general_server_headers headers =
      add_missing (add_missing headers date_name now) server_name product

  -- The octets that are sent.
  unfoldable pub send_headers : List ℕ → List Header → List ℕ
  send_headers first_line headers =
      first_line ++ crlf ++ render_headers (set_general_server_headers headers)

  unfoldable pub send_message : List ℕ → Message → List ℕ
  send_message first_line message =
      let outgoing_headers =
        set_content_length (set_general_server_headers message.headers) (length message.body) in
      first_line ++ crlf ++ render_headers outgoing_headers ++ message.body

  unfoldable pub send_response : Response → Result (List ℕ)
  send_response response =
      status_line response.status_code >>= λ line. ok (send_message line response.message)

  unfoldable pub handle_expect : List ℕ → Result (List ℕ)
  handle_expect value =
      if not (equal_octets value continue_value)
      then send_response (record {
        status_code = 417;
        message = record { body = expectation_failed; headers = [] };
      })
      else send_response (record { status_code = 100; message = new_message })

  -- What is sent at the end of a message's headers, or nothing.
  unfoldable pub on_end_of_message_headers : List Header → Result (List ℕ)
  on_end_of_message_headers headers =
      let expect = get headers expect_name in
      if is_no_header expect then ok [] else handle_expect expect.value

  unfoldable pub confirm_upgrade : List ℕ → Result (List ℕ)
  confirm_upgrade token = status_line 101 >>= λ line.
      ok (send_headers line (set (add [] connection_title upgrade_name) upgrade_name token))
