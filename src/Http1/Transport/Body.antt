-- ===== src/Http1/Transport/Body.antt =====
-- How a body with a Content-Length is read.
use shitty.Prelude.{
  ℕ, ◌≤◌, ◌≡◌, refl, arith, inl, inr, max, ltb, ◌==◌, if◌then◌else◌, Bool, true, false, Bool-cases,
}
use shitty.Prelude.{
  List, [], ◌++◌, length, take_all, drop_all, some, pos, Result, ok, thrown, undefined_behaviour,
  ◌>>=◌,
}
use shitty.Messages.{Header}
use shitty.Http1.Transport.{
  IncomingMessage, Transport, awaits_body, read_content, read_body, process_body, process_input,
  finish, handle_message,
}

abbrev pub with_body : IncomingMessage → List ℕ → IncomingMessage
with_body m octets = record m { message = record m.message { body = m.message.body ++ octets } }

-- The transport of a message whose headers are complete and announced a body of so many octets.
abbrev pub in_body : Transport → IncomingMessage → ℕ → Transport
in_body t m n = record t {
  incoming_message = some m;
  message_headers_complete = true;
  expected_body_length = pos n;
}

read_content-eq :
    (m : IncomingMessage) (n : ℕ) (input : List ℕ)
    → read_content m n input
      ≡ (if ltb (length input) n then thrown undefined_behaviour else ok (with_body m input, []))
unfolding read_content
read_content-eq m n input = elim (Bool-cases (ltb (length input) n)) [
  | inl few ↦
      let beyond : ltb (length input) (max (length input) n) ≡ true = grind (arith, few) in
      rw (few, beyond) refl
  | inr enough ↦
      let within : ltb (length input) (max (length input) n) ≡ false = grind (arith, enough) in
      let long : length input ≤ max (length input) n = omega arith in
      rw
        (
          enough,
          within,
          take_all (max (length input) n) input long,
          drop_all (max (length input) n) input long,
        )
        refl
]

module _ (end_of_headers : List Header → Result (Unit {0}))
    (handle : IncomingMessage → Result Bool) where
  pub process_input-body :
      (t : Transport) (m : IncomingMessage) (n : ℕ) (input : List ℕ)
      → (length input == 0) ≡ false
      → (length m.message.body == n) ≡ false
      → process_input end_of_headers handle (in_body t m n) input ≡ (
          if ltb (length input) n
          then thrown undefined_behaviour
          else (if length (m.message.body ++ input) == n
              then (handle_message end_of_headers handle
                    (in_body t (with_body m input) n)
                    (with_body m input)
                  >>= λ t'. ok (record { continues = true; transport = t'; input = [] }))
              else ok (record {
                continues = false;
                transport = in_body t (with_body m input) n;
                input = [];
              })))
  unfolding process_input process_body read_body awaits_body finish
  process_input-body t m n input some_octets incomplete = elim (Bool-cases (ltb (length input) n)) [
    | inl few ↦ rw (some_octets, incomplete, read_content-eq m n input, few) refl
    | inr enough ↦ rw (some_octets, incomplete, read_content-eq m n input, enough) refl
  ]
