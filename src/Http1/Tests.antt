-- ===== src/Http1/Tests.antt =====
-- Lines and messages of a few octets.
use shitty.Prelude.{
  ℕ, ◌+◌, ◌≡◌, refl, arith, Bool, true, false, List, [], ◌∷◌, ◌++◌, length, some, pos, Result, ok,
}
use shitty.Messages.{Header, add, find}
use shitty.Messages.Laws.{gathered}
use shitty.Text.{case_insensitive_equal, ascii_lower}
use shitty.Http1.Lines.{crlf, render_headers, get_content_length}
use shitty.Http1.Transport.{IncomingMessage, Processed, on_input}
use shitty.Http1.Transport.Ends.{on_input_returns}
use shitty.Http1.Transport.Reading.{IsField, between, message_of, Ended, on_input-render}
use shitty.Http1.Transport.Body.{in_body}
use shitty.Messages.{content_length_name}
use shitty.Http1.Lines.{stoul, skip_space, digits}
use shitty.Http1.Transport.Reading.{in_headers}
use shitty.Http1.Transport.WithBody.{passes, last_of, on_input-leaves_body}

abbrev get_method : List ℕ
get_method = b'G' ∷ b'E' ∷ b'T' ∷ []

-- A subclass that accepts all.
abbrev no_hook : List Header → Result (Unit {0})
no_hook headers = ok tt

abbrev accept : IncomingMessage → Result Bool
accept m = ok true

on_input_returns_example :
    (r : Result Processed) × (on_input no_hook accept 4
        (between [] false)
        (b'G' ∷ b'\r' ∷ b'\n' ∷ [])
      ≡ some r)
on_input_returns_example =
    on_input_returns no_hook accept 4 (between [] false) (b'G' ∷ b'\r' ∷ b'\n' ∷ []) (omega arith)

-- "A: b"
abbrev a_field : Header
a_field = record { name = b'A' ∷ []; value = b'b' ∷ [] }

a_field-IsField : IsField a_field
a_field-IsField = record {
  begins = refl;
  no_colon = ground arith;
  name_line = ground arith;
  value_plain = (refl, refl);
  value_line = ground arith;
}

no_body : get_content_length (gathered [] (a_field ∷ [])) ≡ ok (pos 0)
unfolding get_content_length add find case_insensitive_equal ascii_lower
no_body = refl

on_input-render_example :
    on_input no_hook accept
      (2 + length (a_field ∷ []))
      (between [] false)
      (get_method ++ crlf ++ render_headers (a_field ∷ []))
    ≡ some (ok (Ended no_hook accept [] false (message_of get_method (gathered [] (a_field ∷ [])))))
on_input-render_example =
    on_input-render no_hook accept [] false get_method (a_field ∷ []) (ground arith)
      (a_field-IsField, tt) no_body refl refl

abbrev two_octets : List ℕ
two_octets = 1 ∷ 2 ∷ []

-- "content-length: 2"
abbrev length_field : Header
length_field = record { name = content_length_name; value = b'2' ∷ [] }

length_field-IsField : IsField length_field
length_field-IsField = record {
  begins = refl;
  no_colon = ground arith;
  name_line = ground arith;
  value_plain = (refl, refl);
  value_line = ground arith;
}

two_announced : get_content_length (gathered [] (length_field ∷ [])) ≡ ok (pos 2)
unfolding get_content_length add find case_insensitive_equal ascii_lower stoul skip_space digits
two_announced = refl

on_input-leaves_body_example :
    on_input no_hook accept
      (2 + passes (length_field ∷ []) 0)
      (between [] false)
      (get_method ++ crlf ++ (render_headers (length_field ∷ []) ++ two_octets))
    ≡ some (
        ok (record {
          continues = false;
          transport =
              in_body
                (in_headers [] false get_method
                  (last_of [] (length_field ∷ []))
                  (gathered [] (length_field ∷ [])))
                (message_of get_method (gathered [] (length_field ∷ [])))
                2;
          input = two_octets;
        }))
on_input-leaves_body_example =
    on_input-leaves_body no_hook accept [] false get_method (length_field ∷ []) 1 0 two_octets
      (ground arith) (length_field-IsField, tt) two_announced refl
