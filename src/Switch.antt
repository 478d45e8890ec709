-- ===== src/Switch.antt =====
-- The choice between HTTP/1 and HTTP/2, src/SwitchTransport.cpp, by the octets that have come.
mod Tests
use shitty.Prelude.{
  ℕ, zero, suc, ◌+◌, ◌-◌, ◌≤◌, ◌<◌, ◌≡◌, ◌≢◌, refl, sym, ap, ◌∙◌, arith, inl, inr, ltb, ◌==◌, ◌&&◌,
  if◌then◌else◌, Bool, true, false, Bool-cases,
}
use shitty.Prelude.{
  List, [], ◌∷◌, ◌++◌, length, take, drop, length-append, take-append_in, take_all,
}
use shitty.Http2.Transport.Frames.{client_preface, same_octets}

-- What onInput does with its buffer: it waits for more octets, or makes a transport of HTTP/1 or of
-- HTTP/2 the connection's, and gives it the buffer.
pub data Choice : Type 0 where
  wait : Choice
  http1 : Choice
  http2 : Choice

unfoldable pub choose : List ℕ → Choice
choose buf =
    if ltb (length buf) 24
    then if same_octets buf (take (length buf) client_preface) then wait else http1
    else if same_octets (take 24 buf) client_preface
    then http2
    else http1

-- Octets that differ from the beginning of a list do so whatever follows them.
same_octets-append :
    (n : ℕ) (xs ys zs : List ℕ)
    → length xs ≤ n
    → length xs ≤ length zs
    → same_octets xs (take (length xs) zs) ≡ false
    → same_octets (take n (xs ++ ys)) (take n zs) ≡ false
same_octets-append n [] ys zs h k e = absurd (ground (arith, e))
same_octets-append n (x ∷ xs) ys [] h k e = absurd (omega arith)
same_octets-append zero (x ∷ xs) ys (z ∷ zs) h k e = absurd (omega arith)
same_octets-append (suc n) (x ∷ xs) ys (z ∷ zs) h k e = elim (Bool-cases (x == z)) [
  | inl same ↦ rw same (same_octets-append n xs ys zs (omega arith) (omega arith) (rw same at e))
  | inr other ↦ rw other refl
]

long_append : (xs ys : List ℕ) → ltb (length xs) 24 ≡ false → ltb (length (xs ++ ys)) 24 ≡ false
long_append xs ys h = ground (arith, h, length-append xs ys)

-- The choice of HTTP/1, where the octets differ from the preface.
choose_different :
    (xs ys : List ℕ)
    → length xs ≤ 24
    → same_octets xs (take (length xs) client_preface) ≡ false
    → choose (xs ++ ys) ≡ http1
unfolding choose
choose_different xs ys short e = elim (Bool-cases (ltb (length (xs ++ ys)) 24)) [
  | inl few ↦
      let all : take (length (xs ++ ys)) (xs ++ ys) ≡ xs ++ ys =
        take_all (length (xs ++ ys)) (xs ++ ys) (omega arith) in
      let differs : same_octets (xs ++ ys) (take (length (xs ++ ys)) client_preface) ≡ false =
        rw all at (
          same_octets-append (length (xs ++ ys)) xs ys client_preface
            (omega (arith, length-append xs ys)) short e) in
      rw (few, differs) refl
  | inr many ↦
      let differs : same_octets (take 24 (xs ++ ys)) client_preface ≡ false =
        same_octets-append 24 xs ys client_preface short short e in
      rw (many, differs) refl
]

-- Where the octets that have come make onInput choose a protocol, it chooses the same for a buffer
-- with any others behind them.
pub choose-append : (xs ys : List ℕ) → choose xs ≢ wait → choose (xs ++ ys) ≡ choose xs
unfolding choose
choose-append xs ys h = elim (Bool-cases (ltb (length xs) 24)) [
  | inl few ↦ elim (Bool-cases (same_octets xs (take (length xs) client_preface))) [
    | inl same ↦ absurd (h (rw (few, same) refl))
    | inr other ↦ choose_different xs ys (ground (arith, few)) other ∙ sym (rw (few, other) refl)
  ]
  | inr many ↦
      let first : take 24 (xs ++ ys) ≡ take 24 xs =
        take-append_in 24 xs ys (ground (arith, many)) in
      rw (many, long_append xs ys many, first) refl
]
