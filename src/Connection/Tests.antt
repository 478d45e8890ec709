-- ===== src/Connection/Tests.antt =====
-- A connection that the system takes three octets of.
use shitty.Prelude.{ℕ, ◌≡◌, refl, arith, false, true, List, [], ◌∷◌, ◌++◌, length, ok, AllOk}
use shitty.Connection.{took, would_block, Connection, send, on_poll_out}
use shitty.Connection.Polling.{IsQuiet, send-IsQuiet}
use shitty.Connection.Order.{all_octets, send-octets}
use shitty.Prelude.{suc, ◌<◌, not, Option, none, some, Result, thrown, undefined_behaviour, ◌>>=◌}
use shitty.Http1.Transport.{Transport, Processed, on_input}
use shitty.Http1.Transport.Reading.{between}
use shitty.Buffers.{StreamBuf, tailroom, grow}
use shitty.Buffers.Queue.{IsBuffer, contents}
use shitty.Connection.Reading.{ready, Taken, on_poll_in, grow-tailroom}
use shitty.Connection.Reading.Feeds.{Fed, on_poll_in-Fed}

abbrev a_connection : Connection
a_connection = record {
  outgoing = [];
  wire = 9 ∷ [];
  is_open = true;
  polls_out = false;
  answers = took 3 ∷ would_block ∷ [];
}

abbrev a_message : List ℕ
a_message = 1 ∷ 2 ∷ 3 ∷ []

send-octets_example :
    (d : Connection) × (send a_connection a_message (length a_message) ≡ ok d)
    × (all_octets d ≡ all_octets a_connection ++ a_message)
send-octets_example =
    send-octets a_connection 1 (2 ∷ 3 ∷ []) (λ _. (took 3, would_block ∷ [], refl, omega arith))

-- The system takes nothing.
abbrev blocked : Connection
blocked = record a_connection { polls_out = false; answers = would_block ∷ [] }

send-IsQuiet_example :
    AllOk IsQuiet (send blocked a_message (length a_message)) × IsQuiet (on_poll_out blocked)
send-IsQuiet_example = send-IsQuiet blocked a_message (length a_message) refl

-- The HTTP/1 transport on a buffer: onInput of a subclass that accepts all messages.
abbrev http1_input : Transport → StreamBuf → Result (Taken Transport)
http1_input t b =
    elim (on_input (λ _. ok tt) (λ _. ok true) (suc (length (contents b))) t (contents b)) [
      | none ↦ thrown undefined_behaviour
      | some r ↦ r >>= λ p. ok (record {
        transport = p.transport;
        buf = record { in_use = length p.input; buf = p.input };
        is_open = not p.transport.closed;
      })
    ]

http1_input-IsBuffer :
    (t : Transport) (b : StreamBuf)
    → IsBuffer b
    → AllOk (λ (r : Taken Transport). IsBuffer r.buf) (http1_input t b)
http1_input-IsBuffer t b v = buffered (on_input (λ _. ok tt) (λ _. ok true) _ t (contents b))
  where
    buffered :
        (o : Option (Result Processed))
        → AllOk
            (λ (r : Taken Transport). IsBuffer r.buf)
            (elim o [
              | none ↦ thrown undefined_behaviour
              | some r ↦ r >>= λ p. ok (record {
                transport = p.transport;
                buf = record { in_use = length p.input; buf = p.input };
                is_open = not p.transport.closed;
              })
            ])
    buffered none = tt
    buffered (some (ok p)) = record { fits = omega arith }
    buffered (some (thrown e)) = tt

abbrev empty_buffer : StreamBuf
empty_buffer = record { in_use = 0; buf = [] }

-- "GET" and two ends of lines, in two reads.
abbrev a_request : List ℕ
a_request = b'G' ∷ b'E' ∷ b'T' ∷ b'\r' ∷ b'\n' ∷ b'\r' ∷ b'\n' ∷ []

on_poll_in-Fed_example :
    Fed http1_input
      (between [] false)
      []
      a_request
      (ready 5 ∷ ready 5 ∷ [])
      (on_poll_in http1_input (between [] false) empty_buffer a_request (ready 5 ∷ ready 5 ∷ []))
on_poll_in-Fed_example =
    on_poll_in-Fed http1_input (between [] false) empty_buffer a_request (ready 5 ∷ ready 5 ∷ [])
      http1_input-IsBuffer (record { fits = omega arith })

grow-tailroom_example : 0 < tailroom (grow empty_buffer)
grow-tailroom_example = grow-tailroom empty_buffer (record { fits = omega arith }) (omega arith)
