-- ===== src/Http1/Transport.antt =====
-- A connection's HTTP/1 transport, src/http1/Transport.cpp: messages are read from a buffer, line by line.
-- What the subclasses override is a parameter: `end_of_headers` is `onEndOfMessageHeaders`, and `handle`
-- is `handleIncomingMessage`, which says whether the connection still has this transport behind it.
pub mod Ends
pub mod Headers
pub mod Reading
pub mod Body
pub mod WithBody
use shitty.Prelude.{
  ℕ, zero, suc, ◌+◌, max, ltb, ◌==◌, if◌then◌else◌, Bool, true, false, not, ◌&&◌, ◌||◌,
}
use shitty.Prelude.{
  List, [], ◌∷◌, ◌++◌, length, take, drop, get_or, Option, none, some, ℤ, pos, negsuc, Result, ok,
  thrown, runtime_error, logic_error, undefined_behaviour, ◌>>=◌,
}
use shitty.Buffers.Queue.{dequeue}
use shitty.Text.{ascii_lower, trim_lws, case_insensitive_equal}
use shitty.Messages.{Header, Message, new_message, get, add, find, connection_name, close_value}
use shitty.Http1.Lines.{Line, index_of, get_line, get_content_length}

pub record IncomingMessage : Type 0 where
  pub first_line : List ℕ
  pub message : Message

-- `handled` has the messages that were given to `handleIncomingMessage`; `replaced` says that the
-- transport was destroyed by an upgrade, `closed` that it closed its connection.
pub record Transport : Type 0 where
  pub incoming_message : Option IncomingMessage
  pub last_header : List ℕ
  pub message_headers_complete : Bool
  pub expected_body_length : ℤ
  pub handled : List IncomingMessage
  pub replaced : Bool
  pub closed : Bool

-- What a call leaves: whether there may be more to process, the transport, and the octets in the buffer.
pub record Processed : Type 0 where
  pub continues : Bool
  pub transport : Transport
  pub input : List ℕ

abbrev pub is_body_complete : IncomingMessage → ℤ → Bool
is_body_complete m (pos n) = length m.message.body == n
is_body_complete m (negsuc n) = false

unfoldable pub header_line : Transport → IncomingMessage → List ℕ → Result Transport
header_line t m line = elim (index_of b':' line) [
  | none ↦ thrown runtime_error
  | some colon ↦
      let start_of_value =
        if ltb (colon + 1) (length line) && get_or line (colon + 1) 0 == b' '
        then colon + 1
        else colon in
      let name = ascii_lower (take colon line) in
      let value = trim_lws (drop start_of_value line) in
      let headers = add m.message.headers name value in
      ok (record t {
        last_header = name;
        incoming_message = some (record m { message = record m.message { headers = headers } });
      })
]

-- The line is appended to the value of the header that is found first.
unfoldable pub append_to : List Header → List ℕ → List ℕ → List Header
append_to [] name line = []
append_to (h ∷ headers) name line =
    let rest = append_to headers name line in
    if case_insensitive_equal h.name name
    then record h { value = h.value ++ line } ∷ headers
    else h ∷ rest

unfoldable pub header_continuation : Transport → IncomingMessage → List ℕ → Result Transport
header_continuation t m line =
    if length t.last_header == 0
    then thrown runtime_error
    else elim (find m.message.headers t.last_header) [
      | none ↦ thrown logic_error
      | some h ↦
          let headers = append_to m.message.headers t.last_header line in
          ok (record t {
            incoming_message = some (record m { message = record m.message { headers = headers } });
          })
    ]

-- Where the buffer has fewer octets than `len`, `std::string(input_buf.data(), len)` reads behind them, which is
-- undefined behaviour, before `advance` could throw.
unfoldable pub read_content : IncomingMessage → ℕ → List ℕ → Result (IncomingMessage × List ℕ)
read_content m expected input =
    let len = max (length input) expected in
    let body = m.message.body ++ take len input in
    if ltb (length input) len
    then thrown undefined_behaviour
    else ok (record m { message = record m.message { body = body } }, drop len input)

unfoldable pub read_body : IncomingMessage → ℤ → List ℕ → Result (IncomingMessage × List ℕ)
read_body m (pos n) input = read_content m n input
read_body m (negsuc n) input = thrown runtime_error

unfoldable pub reset_incoming_message : Transport → Transport
reset_incoming_message t = record t {
  incoming_message = none;
  last_header = [];
  message_headers_complete = false;
  expected_body_length = pos 0;
}

unfoldable pub equal_octets : List ℕ → List ℕ → Bool
equal_octets [] [] = true
equal_octets [] (y ∷ ys) = false
equal_octets (x ∷ xs) [] = false
equal_octets (x ∷ xs) (y ∷ ys) = x == y && equal_octets xs ys

-- `incoming_message_ && message_headers_complete_ && !isMessageComplete()`
unfoldable pub awaits_body : Transport → Option IncomingMessage
awaits_body t = elim t.incoming_message [
  | none ↦ none
  | some m ↦
      if t.message_headers_complete && not (is_body_complete m t.expected_body_length)
      then some m
      else none
]

-- The first line of a message.
abbrev pub begin_message : Transport → Line → Processed
begin_message t line = record {
  continues = true;
  transport = record t {
    message_headers_complete = false;
    incoming_message = some (record { first_line = line.text; message = new_message });
  };
  input = line.left;
}

module _ (end_of_headers : List Header → Result (Unit {0}))
    (handle : IncomingMessage → Result Bool) where
  unfoldable pub handle_message : Transport → IncomingMessage → Result Transport
  handle_message t m =
      let has_connection_close =
        equal_octets (get m.message.headers connection_name).value close_value in
      let given = record t { handled = t.handled ++ m ∷ [] } in
      handle m >>= λ still_here.
      if not still_here
      then ok (record given { replaced = true })
      else ok (record (reset_incoming_message given) { closed = t.closed || has_connection_close })

  -- The length of the body, and what the subclass does about the headers.
  unfoldable pub mark_headers_complete : Transport → IncomingMessage → Result Transport
  mark_headers_complete t m = get_content_length m.message.headers >>= λ expected.
      end_of_headers m.message.headers >>= λ _.
      ok (record t { message_headers_complete = true; expected_body_length = expected })

  -- `if (isMessageComplete()) { handleMessage(); return true; } return false;`
  unfoldable pub finish : Transport → IncomingMessage → List ℕ → Result Processed
  finish t m input =
      if is_body_complete m t.expected_body_length
      then (handle_message t m >>= λ t.
          ok (record { continues = true; transport = t; input = input }))
      else ok (record { continues = false; transport = t; input = input })

  -- A line of a message that has begun, and the octets behind it.
  unfoldable pub process_line : Transport → IncomingMessage → List ℕ → List ℕ → Result Processed
  process_line t m [] left = mark_headers_complete t m >>= λ t. finish t m left
  process_line t m (c ∷ line) left =
      if c == b' ' || c == b'\t'
      then (header_continuation t m (c ∷ line) >>= λ t.
          ok (record { continues = true; transport = t; input = left }))
      else (header_line t m (c ∷ line) >>= λ t.
          ok (record { continues = true; transport = t; input = left }))

  abbrev pub process_text : Transport → Line → Result Processed
  process_text t line = elim t.incoming_message [
    | none ↦ ok (begin_message t line)
    | some m ↦ process_line t m line.text line.left
  ]

  unfoldable pub process_next_line : Transport → List ℕ → Result Processed
  process_next_line t input = elim (get_line input) [
    | none ↦ ok (record { continues = false; transport = t; input = input })
    | some line ↦ process_text t line
  ]

  unfoldable pub process_body : Transport → IncomingMessage → List ℕ → Result Processed
  process_body t m input = read_body m t.expected_body_length input >>= λ (m, rest).
      finish (record t { incoming_message = some m }) m rest

  unfoldable pub process_input : Transport → List ℕ → Result Processed
  process_input t input =
      if length input == 0
      then ok (record { continues = false; transport = t; input = input })
      else elim (awaits_body t) [
        | none ↦ process_next_line t input
        | some m ↦ process_body t m input
      ]

  -- The loop of `onInput`, on fuel: `none` is a run that has used it up. Behind an upgrade, its next pass is on
  -- a transport that was destroyed.
  unfoldable pub on_input : ℕ → Transport → List ℕ → Option (Result Processed)
  on_input zero t input = none
  on_input (suc fuel) t input = elim (process_input t input) [
    | thrown e ↦ some (thrown e)
    | ok p ↦ elim (p.continues && not (length p.input == 0)) [
      | false ↦ some (ok p)
      | true ↦
          if p.transport.replaced
          then some (thrown undefined_behaviour)
          else on_input fuel p.transport p.input
    ]
  ]
