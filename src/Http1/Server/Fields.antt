-- ===== src/Http1/Server/Fields.antt =====
-- The headers that are sent: each fits on a line, and the length of the body is among them.
use shitty.Prelude.{ℕ, ◌-◌, ◌^◌, ◌<◌, ◌≡◌, refl, ◌∙◌, arith, inl, inr, ltb, false}
use shitty.Prelude.{List, [], ◌∷◌, length, get_or, All, none, some, Option-cases, pos, ok}
use shitty.Text.{is_lws, case_insensitive_equal}
use shitty.Text.Trim.{Plain}
use shitty.Text.Equal.{case_insensitive_equal_refl}
use shitty.Messages.{Header, Message, find, add, content_length_name}
use shitty.Messages.Laws.{find-add, add-All, HasValue, gathered, find-gathered}
use shitty.Http1.Lines.{get_content_length}
use shitty.Http1.Lines.RoundTrip.{Without}
use shitty.Http1.Transport.Reading.{IsField}
use shitty.Http1.Server.{
  to_string, add_missing, set_content_length, set_general_server_headers, date_name, server_name,
  product,
}
use shitty.Http1.Server.Numbers.{IsDigit, to_string-All, stoul-to_string}

abbrev pub field : List ℕ → List ℕ → Header
field name value = record { name = name; value = value }

add_missing-new :
    (hs : List Header) (name value : List ℕ)
    → find hs name ≡ none
    → add_missing hs name value ≡ add hs name value
add_missing-new hs name value new = rw (new, add_missing) refl

add_missing-old :
    (hs : List Header) (name value : List ℕ) {h : Header}
    → find hs name ≡ some h
    → add_missing hs name value ≡ hs
add_missing-old hs name value old = rw (old, add_missing) refl

find-add_missing_other :
    (hs : List Header) (name value other : List ℕ)
    → case_insensitive_equal name other ≡ false
    → find (add_missing hs name value) other ≡ find hs other
find-add_missing_other hs name value other miss = elim (Option-cases (find hs name)) [
  | inl new ↦ rw (add_missing-new hs name value new) (find-add hs name value other ∙ rw miss refl)
  | inr (h, old) ↦ rw (add_missing-old hs name value old) refl
]

-- Behind it there is a header of that name.
find-add_missing :
    (hs : List Header) (name value : List ℕ)
    → (h : Header) × (find (add_missing hs name value) name ≡ some h)
find-add_missing hs name value = elim (Option-cases (find hs name)) [
  | inl new ↦ (
    field name value,
    rw (add_missing-new hs name value new)
        (find-add hs name value name ∙ rw (case_insensitive_equal_refl name) refl),
  )
  | inr (h, old) ↦ (h, rw (add_missing-old hs name value old) old)
]

add_missing-All {ℓ} :
    (P : Header → Type ℓ) (hs : List Header) (name value : List ℕ)
    → All P hs
    → P (field name value)
    → All P (add_missing hs name value)
add_missing-All P hs name value w f = elim (Option-cases (find hs name)) [
  | inl new ↦ rw (add_missing-new hs name value new) (add-All P hs name value w f)
  | inr (h, old) ↦ rw (add_missing-old hs name value old) w
]

-- Digits are on a line, and no blanks.
digit_not_lws : (c : ℕ) → IsDigit c → is_lws c ≡ false
digit_not_lws c (lo, hi) = ground arith

last-IsDigit : (c : ℕ) (s : List ℕ) → All IsDigit (c ∷ s) → IsDigit (get_or (c ∷ s) (length s) 0)
last-IsDigit c [] (h, w) = h
last-IsDigit c (d ∷ s) (h, w) = last-IsDigit d s w

digits-Plain : (s : List ℕ) → All IsDigit s → Plain s
digits-Plain [] w = tt
digits-Plain (c ∷ s) (h, w) =
    (digit_not_lws c h, digit_not_lws (get_or (c ∷ s) (length s) 0) (last-IsDigit c s (h, w)))

digits-Without : (s : List ℕ) → All IsDigit s → Without b'\n' s
digits-Without [] w = tt
digits-Without (c ∷ s) (h, w) = (ground (arith, h), digits-Without s w)

pub content_length-IsField : (n : ℕ) → IsField (field content_length_name (to_string n))
content_length-IsField n = record {
  begins = refl;
  no_colon = ground arith;
  name_line = ground arith;
  value_plain = digits-Plain (to_string n) (to_string-All n);
  value_line = digits-Without (to_string n) (to_string-All n);
}

date-IsField : (now : List ℕ) → Plain now → Without b'\n' now → IsField (field date_name now)
date-IsField now plain line = record {
  begins = refl;
  no_colon = ground arith;
  name_line = ground arith;
  value_plain = plain;
  value_line = line;
}

server-IsField : IsField (field server_name product)
server-IsField = record {
  begins = refl;
  no_colon = ground arith;
  name_line = ground arith;
  value_plain = (refl, refl);
  value_line = ground arith;
}

-- The headers that `sendMessage` renders.
abbrev pub outgoing : List ℕ → Message → List Header
outgoing now message =
    set_content_length (set_general_server_headers now message.headers) (length message.body)

outgoing-All_of {ℓ} :
    (P : Header → Type ℓ) (now : List ℕ) (message : Message)
    → P (field date_name now)
    → P (field server_name product)
    → P (field content_length_name (to_string (length message.body)))
    → All P message.headers
    → All P (outgoing now message)
unfolding set_content_length set_general_server_headers
outgoing-All_of P now message date server size w =
    let dated = add_missing message.headers date_name now in
    add_missing-All P (add_missing dated server_name product) content_length_name
      (to_string (length message.body))
      (add_missing-All P dated server_name product
        (add_missing-All P message.headers date_name now w date) server)
      size

pub outgoing-All :
    (now : List ℕ) (message : Message)
    → Plain now
    → Without b'\n' now
    → All IsField message.headers
    → All IsField (outgoing now message)
outgoing-All now message plain line w =
    outgoing-All_of IsField now message (date-IsField now plain line) server-IsField
      (content_length-IsField (length message.body)) w

-- A message that announces no other length than that of its body.
abbrev pub Announces : Message → Type 0
Announces message =
    All (HasValue content_length_name (to_string (length message.body))) message.headers

outgoing-Announces :
    (now : List ℕ) (message : Message)
    → Announces message
    → All (HasValue content_length_name (to_string (length message.body))) (outgoing now message)
outgoing-Announces now message announced =
    let size = to_string (length message.body) in
    let date : HasValue content_length_name size (field date_name now) =
      unfold case_insensitive_equal in λ hit. absurd (cc) in
    let server : HasValue content_length_name size (field server_name product) =
      unfold case_insensitive_equal in λ hit. absurd (cc) in
    outgoing-All_of (HasValue content_length_name size) now message date server (λ _. refl)
      announced

outgoing-find :
    (now : List ℕ) (message : Message)
    → (h : Header) × (find (outgoing now message) content_length_name ≡ some h)
unfolding set_content_length
outgoing-find now message =
    find-add_missing (set_general_server_headers now message.headers) content_length_name
      (to_string (length message.body))

-- Such a message is received with the Content-Length of its body, which is read back.
pub outgoing-get_content_length :
    (now : List ℕ) (message : Message)
    → Announces message
    → length message.body < 2 ^ 63
    → get_content_length (gathered [] (outgoing now message)) ≡ ok (pos (length message.body))
unfolding get_content_length
outgoing-get_content_length now message announced small =
    let (h, found, right) =
      find-gathered (outgoing now message) [] content_length_name (to_string (length message.body))
        tt (outgoing-Announces now message announced) (inr (outgoing-find now message)) in
    let fits : ltb (2 ^ 63 - 1) (length message.body) ≡ false = ground (arith, small) in
    let read = stoul-to_string (length message.body) (omega (arith, small)) in
    rw (found, get_content_length) (rw right (rw (read, get_content_length) (rw fits refl)))

-- A header of another name than the three that are added is found where it was.
pub outgoing-find_other :
    (now : List ℕ) (message : Message) (name : List ℕ)
    → case_insensitive_equal date_name name ≡ false
    → case_insensitive_equal server_name name ≡ false
    → case_insensitive_equal content_length_name name ≡ false
    → find (outgoing now message) name ≡ find message.headers name
unfolding set_content_length set_general_server_headers
outgoing-find_other now message name no_date no_server no_length =
    let dated = add_missing message.headers date_name now in
    find-add_missing_other (add_missing dated server_name product) content_length_name
      (to_string (length message.body)) name no_length
    ∙ find-add_missing_other dated server_name product name no_server
    ∙ find-add_missing_other message.headers date_name now name no_date
