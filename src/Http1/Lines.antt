-- ===== src/Http1/Lines.antt =====
-- Lines, start lines and headers as text, src/http1/HTTP1.cpp. A `ProtocolError` is a runtime_error.
pub mod RoundTrip
use shitty.Prelude.{
  ℕ, zero, suc, ◌+◌, ◌-◌, ◌*◌, ◌/◌, ◌%◌, ◌^◌, ltb, leb, ◌==◌, if◌then◌else◌, Bool, true, false, not,
  ◌&&◌, ◌||◌,
}
use shitty.Prelude.{
  List, [], ◌∷◌, ◌++◌, length, take, drop, get_or, Option, none, some, Result, ok, thrown,
  runtime_error, ◌>>=◌, ℤ, pos, negsuc,
}
use shitty.Messages.{Header, find, content_length_name, transfer_encoding_name}

-- The index of an octet, `find` of a string from its start on.
unfoldable pub index_of : ℕ → List ℕ → Option ℕ
index_of c [] = none
index_of c (x ∷ s) =
    let rest = index_of c s in
    if x == c then some 0 else elim rest [ none ↦ none | some i ↦ some (suc i) ]

-- How many octets the first line has, with its newline. The last newline, which the code looks for first, is
-- there where the first is.
unfoldable pub find_end_of_line : List ℕ → Option ℕ
find_end_of_line buf = elim (index_of b'\n' buf) [ none ↦ none | some i ↦ some (i + 1) ]

unfoldable pub remove_trailing_char : List ℕ → ℕ → List ℕ
remove_trailing_char s c =
    let len = length s in
    if not (len == 0) && get_or s (len - 1) 0 == c then take (len - 1) s else s

unfoldable pub trim_newline : List ℕ → List ℕ
trim_newline s = remove_trailing_char (remove_trailing_char s b'\n') b'\r'

-- A line, and the octets behind it.
pub record Line : Type 0 where
  pub text : List ℕ
  pub left : List ℕ

unfoldable pub get_line : List ℕ → Option Line
get_line buf = elim (find_end_of_line buf) [
  | none ↦ none
  | some line_len ↦
      some (record { text = trim_newline (take line_len buf); left = drop line_len buf })
]

-- `decimalValue` throws where the octet is no digit.
abbrev pub decimal_value : ℕ → Option ℕ
decimal_value c = if leb b'0' c && leb c b'9' then some (c - b'0') else none

-- `std::stoul`: blanks, a sign, and digits, with anything behind; none where it throws.
abbrev pub is_space : ℕ → Bool
is_space c = c == 32 || (leb 9 c && leb c 13)

unfoldable pub skip_space : List ℕ → List ℕ
skip_space [] = []
skip_space (c ∷ s) = let rest = skip_space s in if is_space c then rest else c ∷ s

unfoldable pub digits : ℕ → List ℕ → ℕ
digits n [] = n
digits n (c ∷ s) =
    let rest = digits (n * 10 + (c - b'0')) s in elim (decimal_value c) [ none ↦ n | some d ↦ rest ]

abbrev pub number_of : List ℕ → Option ℕ
number_of [] = none
number_of (c ∷ s) = elim (decimal_value c) [
  | none ↦ none
  | some d ↦ let n = digits 0 (c ∷ s) in if leb (2 ^ 64) n then none else some n
]

abbrev pub negated : Option ℕ → Option ℕ
negated none = none
negated (some n) = some ((2 ^ 64 - n) % 2 ^ 64)

abbrev pub signed_number : List ℕ → Option ℕ
signed_number [] = none
signed_number (c ∷ s) =
    if c == b'+'
    then number_of s
    else if c == b'-'
    then negated (number_of s)
    else number_of (c ∷ s)

unfoldable pub stoul : List ℕ → Option ℕ
stoul s = signed_number (skip_space s)

unfoldable pub get_content_length : List Header → Result ℤ
get_content_length headers = elim (find headers content_length_name) [
  | some h ↦ elim (stoul h.value) [
    | none ↦ thrown runtime_error
    | some len ↦ if ltb (2 ^ 63 - 1) len then thrown runtime_error else ok (pos len)
  ]
  | none ↦ elim (find headers transfer_encoding_name) [ none ↦ ok (pos 0) | some h ↦ ok (negsuc 0) ]
]

abbrev pub crlf : List ℕ
crlf = b'\r' ∷ b'\n' ∷ []

abbrev pub render_header : Header → List ℕ
render_header h = h.name ++ (b':' ∷ b' ' ∷ []) ++ h.value ++ crlf

unfoldable pub render_headers : List Header → List ℕ
render_headers [] = crlf
render_headers (h ∷ headers) = render_header h ++ render_headers headers

-- "HTTP/1.1"
abbrev pub http_1_1 : List ℕ
http_1_1 = b'H' ∷ b'T' ∷ b'T' ∷ b'P' ∷ b'/' ∷ b'1' ∷ b'.' ∷ b'1' ∷ []

unfoldable pub request_line : List ℕ → List ℕ → List ℕ
request_line method path = method ++ b' ' ∷ path ++ b' ' ∷ http_1_1

-- The table of `StatusStrings` has the three digits of the codes from 100 to 599.
abbrev pub status_string : ℕ → Result (List ℕ)
status_string code =
    if ltb code 100 || ltb 599 code
    then thrown runtime_error
    else ok ((b'0' + code / 100) ∷ (b'0' + code / 10 % 10) ∷ (b'0' + code % 10) ∷ [])

abbrev pub sunglasses : List ℕ
sunglasses = 0xf0 ∷ 0x9f ∷ 0x98 ∷ 0x8e ∷ []

unfoldable pub status_line : ℕ → Result (List ℕ)
status_line code =
    status_string code >>= λ digits. ok (http_1_1 ++ b' ' ∷ digits ++ b' ' ∷ sunglasses)

unfoldable pub find_next_space_or_throw : List ℕ → Result ℕ
find_next_space_or_throw s = elim (index_of b' ' s) [ none ↦ thrown runtime_error | some i ↦ ok i ]

pub record RequestLine : Type 0 where
  pub method : List ℕ
  pub path : List ℕ
  pub version : List ℕ

-- The words before the first space, between it and the second, and behind that.
unfoldable pub three_words : List ℕ → Result RequestLine
three_words line = find_next_space_or_throw line >>= λ sp1.
    let behind = drop (sp1 + 1) line in
    find_next_space_or_throw behind >>= λ sp2.
    ok (record { method = take sp1 line; path = take sp2 behind; version = drop (sp2 + 1) behind })

unfoldable pub parse_request_line : List ℕ → Result RequestLine
parse_request_line line = three_words line

pub record StatusLine : Type 0 where
  pub code : ℕ
  pub reason_phrase : List ℕ
  pub version : List ℕ

unfoldable pub code_to_number : List ℕ → Option ℕ
code_to_number (a ∷ b ∷ c ∷ []) = elim (decimal_value a) [
  | none ↦ none
  | some x ↦ elim (decimal_value b) [
    | none ↦ none
    | some y ↦ elim (decimal_value c) [ none ↦ none | some z ↦ some (x * 100 + y * 10 + z) ]
  ]
]
code_to_number _ = none

abbrev pub with_code : RequestLine → Option ℕ → Result StatusLine
with_code words none = thrown runtime_error
with_code words (some code) =
    ok (record { code = code; reason_phrase = words.version; version = words.method })

unfoldable pub parse_status_line : List ℕ → Result StatusLine
parse_status_line line = three_words line >>= λ words. with_code words (code_to_number words.path)
