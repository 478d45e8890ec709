-- ===== src/Http1/Lines/RoundTrip.antt =====
-- Lines that are written are read back.
use shitty.Prelude.{ℕ, suc, ◌+◌, ◌/◌, ◌%◌, ◌≤◌, ◌≡◌, ◌≢◌, refl, arith, ltb, ◌==◌, ◌||◌, true, false}
use shitty.Prelude.{
  List, [], ◌∷◌, ◌++◌, length, drop, All, some, ok, take-append, append_assoc, ◌>>=◌,
}
use shitty.Http1.Lines.{
  index_of, http_1_1, sunglasses, request_line, status_line, find_next_space_or_throw, three_words,
  parse_request_line, parse_status_line, code_to_number,
}

-- No octet of the string is `c`.
abbrev pub Without : ℕ → List ℕ → Type 0
Without c s = All (λ x. x ≢ c) s

pub index_of-append :
    (c : ℕ) (s rest : List ℕ) → Without c s → index_of c (s ++ c ∷ rest) ≡ some (length s)
unfolding index_of
index_of-append c [] rest h = let same : (c == c) ≡ true = ground arith in rw same refl
index_of-append c (x ∷ s) rest (h, hs) =
    let other : (x == c) ≡ false = ground (arith, h) in rw (other, index_of-append c s rest hs) refl

pub drop-behind : (s : List ℕ) (c : ℕ) (rest : List ℕ) → drop (length s + 1) (s ++ c ∷ rest) ≡ rest
drop-behind [] c rest = refl
drop-behind (x ∷ s) c rest =
    let more : suc (length s) + 1 ≡ suc (length s + 1) = omega arith in
    rw more (drop-behind s c rest)

find_next_space-append :
    (s rest : List ℕ) → Without b' ' s → find_next_space_or_throw (s ++ b' ' ∷ rest) ≡ ok (length s)
unfolding find_next_space_or_throw
find_next_space-append s rest h = rw (index_of-append b' ' s rest h, find_next_space_or_throw) refl

-- The words of a line.
three_words-append :
    (a b rest : List ℕ)
    → Without b' ' a
    → Without b' ' b
    → three_words (a ++ b' ' ∷ (b ++ b' ' ∷ rest))
      ≡ ok (record { method = a; path = b; version = rest })
unfolding three_words
three_words-append a b rest ha hb =
    let behind = b ++ b' ' ∷ rest in
    rw
      (
        find_next_space-append a behind ha,
        drop-behind a b' ' behind,
        take-append (length a) a (b' ' ∷ behind) refl,
        find_next_space-append b rest hb,
        drop-behind b b' ' rest,
        take-append (length b) b (b' ' ∷ rest) refl,
      )
      refl

-- A request's first line, of a method and a path without spaces, is parsed to these and the version.
pub parse_request_line-request_line :
    (method path : List ℕ)
    → Without b' ' method
    → Without b' ' path
    → parse_request_line (request_line method path)
      ≡ ok (record { method = method; path = path; version = http_1_1 })
unfolding parse_request_line request_line
parse_request_line-request_line method path hm hp =
    let words = three_words-append method path http_1_1 hm hp in
    rw (append_assoc method (b' ' ∷ path) (b' ' ∷ http_1_1)) words

-- A code of three digits is the number of its string.
code_to_number-digits :
    (code : ℕ)
    → code ≤ 599
    → code_to_number ((b'0' + code / 100) ∷ (b'0' + code / 10 % 10) ∷ (b'0' + code % 10) ∷ [])
      ≡ some code
unfolding code_to_number
code_to_number-digits code h = ground arith

-- The first line of a response, with a code from 100 to 599, is parsed to its code.
pub parse_status_line-status_line :
    (code : ℕ)
    → 100 ≤ code
    → code ≤ 599
    → (status_line code >>= parse_status_line)
      ≡ ok (record { code = code; reason_phrase = sunglasses; version = http_1_1 })
unfolding parse_status_line status_line
parse_status_line-status_line code lo hi =
    let known : (ltb code 100 || ltb 599 code) ≡ false = ground (arith, lo, hi) in
    let digits = (b'0' + code / 100) ∷ (b'0' + code / 10 % 10) ∷ (b'0' + code % 10) ∷ [] in
    let no_space : Without b' ' digits = ground arith in
    let version : Without b' ' http_1_1 = ground arith in
    let words = three_words-append http_1_1 digits sunglasses version no_space in
    rw known (rw words (rw (code_to_number-digits code hi) refl))
