-- ===== src/Http1/Transport/Ends.antt =====
-- Each pass of `onInput` that asks for another takes octets off the buffer, so that the loop ends.
use shitty.Prelude.{
  ℕ, zero, suc, ◌+◌, ◌<◌, ◌≡◌, refl, arith, inl, inr, max, ltb, ◌==◌, ◌&&◌, ◌||◌, Bool, true, false,
  not, Bool-cases, Option-cases, Result-cases,
}
use shitty.Prelude.{
  List, [], ◌∷◌, length, drop, Option, none, some, ℤ, pos, negsuc, Result, ok, thrown,
  undefined_behaviour, length-drop, AllOk, AllOk->>=, AllOk-if, AllOk-any,
}
use shitty.Messages.{Header}
use shitty.Http1.Lines.{Line, index_of, find_end_of_line, get_line}
use shitty.Http1.Transport.{
  IncomingMessage, Transport, Processed, is_body_complete, header_line, header_continuation,
  read_content, read_body, awaits_body, handle_message, mark_headers_complete, finish, process_line,
  process_text, process_next_line, process_body, process_input, on_input,
}

-- A line is taken with its newline.
abbrev Shorter : ℕ → Option Line → Type 0
Shorter size none = Unit
Shorter size (some line) = length line.left < size

get_line-Shorter :
    (input : List ℕ) → (length input == 0) ≡ false → Shorter (length input) (get_line input)
unfolding get_line find_end_of_line
get_line-Shorter input h = elim (Option-cases (index_of b'\n' input)) [
  | inl e ↦
      let missing : find_end_of_line input ≡ none = rw (e, find_end_of_line) refl in
      rw (missing, get_line, Shorter) tt
  | inr (i, e) ↦
      let size = length-drop (i + 1) input in
      let fewer : length (drop (i + 1) input) < length input = grind (arith, h, size) in
      let found : find_end_of_line input ≡ some (i + 1) = rw (e, find_end_of_line) refl in
      rw (found, get_line, Shorter) fewer
]

-- A pass that leaves fewer octets.
abbrev Less : ℕ → Result Processed → Type 0
Less size m = AllOk (λ p. p.continues ≡ true → length p.input < size) m

module _ (end_of_headers : List Header → Result (Unit {0}))
    (handle : IncomingMessage → Result Bool) where
  finish-Less :
      (t : Transport) (m : IncomingMessage) (input : List ℕ) (size : ℕ)
      → length input < size
      → Less size (finish end_of_headers handle t m input)
  unfolding finish
  finish-Less t m input size h =
      AllOk-if _ (is_body_complete m t.expected_body_length) _ _
        (AllOk->>= (λ _. Unit {0}) _ (handle_message end_of_headers handle t m) _
          (AllOk-any _ _ (λ _. tt)) (λ t' _ _. h))
        (λ more. ground arith)

  process_line-Less :
      (t : Transport) (m : IncomingMessage) (line left : List ℕ) (size : ℕ)
      → length left < size
      → Less size (process_line end_of_headers handle t m line left)
  unfolding process_line
  process_line-Less t m [] left size h =
      AllOk->>= (λ _. Unit {0}) _ (mark_headers_complete end_of_headers handle t m) _
        (AllOk-any _ _ (λ _. tt)) (λ t' _. finish-Less t' m left size h)
  process_line-Less t m (c ∷ line) left size h =
      AllOk-if _ (c == b' ' || c == b'\t') _ _
        (AllOk->>= (λ _. Unit {0}) _ (header_continuation t m (c ∷ line)) _
          (AllOk-any _ _ (λ _. tt)) (λ t' _ _. h))
        (AllOk->>= (λ _. Unit {0}) _ (header_line t m (c ∷ line)) _ (AllOk-any _ _ (λ _. tt))
          (λ t' _ _. h))

  process_text-Less :
      (t : Transport) (line : Line) (size : ℕ)
      → length line.left < size
      → Less size (process_text end_of_headers handle t line)
  process_text-Less t line size h = elim (Option-cases t.incoming_message) [
    | inl e ↦ simp (e, process_text) (λ _. h)
    | inr (m, e) ↦ simp (e, process_text) (process_line-Less t m line.text line.left size h)
  ]

  process_next_line-Less :
      (t : Transport) (input : List ℕ)
      → (length input == 0) ≡ false
      → Less (length input) (process_next_line end_of_headers handle t input)
  unfolding process_next_line
  process_next_line-Less t input h =
      let shorter = get_line-Shorter input h in
      elim (Option-cases (get_line input)) [
        | inl e ↦ rw (e, process_next_line) (λ more. ground arith)
        | inr (line, e) ↦
            rw (e, process_next_line) (process_text-Less t line (length input) (rw e at shorter))
      ]

  read_body-left :
      (m : IncomingMessage) (n : ℤ) (input : List ℕ)
      → (length input == 0) ≡ false
      → AllOk
          (λ ((m, rest) : IncomingMessage × List ℕ). length rest < length input)
          (read_body m n input)
  unfolding read_body read_content
  read_body-left m (negsuc n) input h = tt
  read_body-left m (pos n) input h =
      let size = length-drop (max (length input) n) input in
      let fewer : length (drop (max (length input) n) input) < length input =
        grind (arith, h, size) in
      elim (Bool-cases (ltb (length input) (max (length input) n))) [
        | inl e ↦ rw e tt
        | inr e ↦ rw e fewer
      ]

  process_body-Less :
      (t : Transport) (m : IncomingMessage) (input : List ℕ)
      → (length input == 0) ≡ false
      → Less (length input) (process_body end_of_headers handle t m input)
  unfolding process_body
  process_body-Less t m input h =
      AllOk->>= (λ ((m, rest) : IncomingMessage × List ℕ). length rest < length input) _
        (read_body m t.expected_body_length input) _
        (read_body-left m t.expected_body_length input h)
        (λ (m', rest) k.
          finish-Less (record t { incoming_message = some m' }) m' rest (length input) k)

  process_input-Less :
      (t : Transport) (input : List ℕ)
      → Less (length input) (process_input end_of_headers handle t input)
  unfolding process_input
  process_input-Less t input = elim (Bool-cases (length input == 0)) [
    | inl e ↦ rw e (λ more. ground arith)
    | inr e ↦ elim (Option-cases (awaits_body t)) [
      | inl none_waits ↦ rw e (rw (none_waits, process_input) (process_next_line-Less t input e))
      | inr (m, waits) ↦ rw e (rw (waits, process_input) (process_body-Less t m input e))
    ]
  ]

  -- With more fuel than there are octets in the buffer, `onInput` ends, in any state and whatever the subclass does:
  -- it returns, throws, or comes to undefined behaviour, where a body's octets are read from behind those in the
  -- buffer or where the transport was replaced.
  pub on_input_returns :
      (fuel : ℕ) (t : Transport) (input : List ℕ)
      → length input < fuel
      → (r : Result Processed) × (on_input end_of_headers handle fuel t input ≡ some r)
  unfolding on_input
  on_input_returns zero t input h = absurd (omega arith)
  on_input_returns (suc fuel) t input h =
      let less = process_input-Less t input in
      elim (Result-cases (process_input end_of_headers handle t input)) [
        | inr (e, failed) ↦ (thrown e, rw (failed, on_input) refl)
        | inl (p, got) ↦
            let next = rw got at less in
            elim (Bool-cases (p.continues && not (length p.input == 0))) [
              | inr stop ↦ (ok p, rw (got, on_input) (rw stop refl))
              | inl more ↦
                  let another : p.continues ≡ true = ground (arith, more) in
                  let (r, ended) =
                    on_input_returns fuel p.transport p.input (omega (arith, next another, h)) in
                  elim (Bool-cases p.transport.replaced) [
                    | inl gone ↦
                        (thrown undefined_behaviour, rw (got, on_input) (rw more (simp gone refl)))
                    | inr here ↦ (r, rw (got, on_input) (rw more (simp here ended)))
                  ]
            ]
      ]
