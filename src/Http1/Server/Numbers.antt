-- ===== src/Http1/Server/Numbers.antt =====
-- A Content-Length that is written is read back.
use shitty.Prelude.{
  ℕ, zero, suc, ◌+◌, ◌-◌, ◌*◌, ◌/◌, ◌%◌, ◌^◌, ◌≤◌, ◌<◌, ◌≡◌, refl, sym, ◌∙◌, arith, inl, inr, leb,
  ltb, ◌==◌, ◌&&◌, true, false, Bool-cases,
}
use shitty.Prelude.{List, [], ◌∷◌, ◌++◌, All, some}
use shitty.Http1.Lines.{is_space, skip_space, digits, number_of, signed_number, stoul}
use shitty.Http1.Server.{digits_of, to_string}

abbrev pub IsDigit : ℕ → Type 0
IsDigit c = (b'0' ≤ c) × (c ≤ b'9')

digits-step : (n c : ℕ) (s : List ℕ) → IsDigit c → digits n (c ∷ s) ≡ digits (n * 10 + (c - b'0')) s
unfolding digits
digits-step n c s (lo, hi) =
    let digit : (leb b'0' c && leb c b'9') ≡ true = ground (arith, lo, hi) in
    rw (digit, digits) refl

digits-nil : (n : ℕ) → digits n [] ≡ n
unfolding digits
digits-nil n = refl

-- A digit behind others.
digits-append :
    (n : ℕ) (s : List ℕ) (d : ℕ)
    → All IsDigit s
    → d < 10
    → digits n (s ++ (b'0' + d) ∷ []) ≡ digits n s * 10 + d
digits-append n [] d h k =
    digits-step n (b'0' + d) [] (omega arith, omega arith)
    ∙ digits-nil (n * 10 + (b'0' + d - b'0'))
    ∙ rw (digits-nil n) (omega arith)
digits-append n (c ∷ s) d (hc, hs) k =
    digits-step n c (s ++ (b'0' + d) ∷ []) hc
    ∙ digits-append (n * 10 + (c - b'0')) s d hs k
    ∙ sym (rw (digits-step n c s hc) refl)

All-append : (s t : List ℕ) → All IsDigit s → All IsDigit t → All IsDigit (s ++ t)
All-append [] t h k = k
All-append (c ∷ s) t (h, hs) k = (h, All-append s t hs k)

pub digits_of-All : (fuel n : ℕ) → All IsDigit (digits_of fuel n)
unfolding digits_of
digits_of-All zero n = tt
digits_of-All (suc fuel) n = elim (Bool-cases (ltb n 10)) [
  | inl small ↦
      let digit : IsDigit (b'0' + n) = (omega arith, ground (arith, small)) in rw small (digit, tt)
  | inr large ↦
      let digit : IsDigit (b'0' + n % 10) = (omega arith, omega arith) in
      rw large (
        All-append (digits_of fuel (n / 10)) ((b'0' + n % 10) ∷ []) (digits_of-All fuel (n / 10))
          (digit, tt))
]

-- The digits of a number are read as the number.
digits-digits_of : (fuel n : ℕ) → n < fuel → digits 0 (digits_of fuel n) ≡ n
unfolding digits_of
digits-digits_of zero n h = absurd (omega arith)
digits-digits_of (suc fuel) n h = elim (Bool-cases (ltb n 10)) [
  | inl small ↦
      let below : n < 10 = ground (arith, small) in
      rw small (digits-append 0 [] n tt below ∙ rw (digits-nil 0) (omega arith))
  | inr large ↦
      let least : 10 ≤ n = ground (arith, large) in
      rw large (
        digits-append 0 (digits_of fuel (n / 10)) (n % 10) (digits_of-All fuel (n / 10))
          (omega arith)
        ∙ rw (digits-digits_of fuel (n / 10) (omega (arith, least, h))) (omega arith))
]

-- A string of digits is read as a number by `stoul`, unless the number is too large.
Digits : List ℕ → Type 0
Digits [] = ⊥
Digits (c ∷ s) = All IsDigit (c ∷ s)

number_of-Digits :
    (c : ℕ) (s : List ℕ)
    → IsDigit c
    → digits 0 (c ∷ s) < 2 ^ 64
    → number_of (c ∷ s) ≡ some (digits 0 (c ∷ s))
number_of-Digits c s (lo, hi) k =
    let digit : (leb b'0' c && leb c b'9') ≡ true = ground (arith, lo, hi) in
    let fits : leb (2 ^ 64) (digits 0 (c ∷ s)) ≡ false = ground (arith, k) in
    rw (digit, number_of) (rw fits refl)

signed_number-Digits :
    (c : ℕ) (s : List ℕ)
    → IsDigit c
    → digits 0 (c ∷ s) < 2 ^ 64
    → signed_number (c ∷ s) ≡ some (digits 0 (c ∷ s))
signed_number-Digits c s (lo, hi) k =
    let no_plus : (c == b'+') ≡ false = ground (arith, lo, hi) in
    let no_minus : (c == b'-') ≡ false = ground (arith, lo, hi) in
    rw (no_plus, signed_number) (rw no_minus (number_of-Digits c s (lo, hi) k))

stoul-Digits : (s : List ℕ) → Digits s → digits 0 s < 2 ^ 64 → stoul s ≡ some (digits 0 s)
unfolding stoul skip_space Digits
stoul-Digits [] h k = elim h [ ]
stoul-Digits (c ∷ s) ((lo, hi), hs) k =
    let no_space : is_space c ≡ false = ground (arith, lo, hi) in
    rw no_space (signed_number-Digits c s (lo, hi) k)

Digits-append : (s : List ℕ) (c : ℕ) → All IsDigit s → IsDigit c → Digits (s ++ c ∷ [])
unfolding Digits
Digits-append [] c h k = (k, tt)
Digits-append (d ∷ s) c (h, hs) k = (h, All-append s (c ∷ []) hs (k, tt))

Digits-digits_of : (fuel n : ℕ) → Digits (digits_of (suc fuel) n)
unfolding digits_of
Digits-digits_of fuel n = elim (Bool-cases (ltb n 10)) [
  | inl small ↦
      let digit : IsDigit (b'0' + n) = (omega arith, ground (arith, small)) in
      rw small (Digits-append [] (b'0' + n) tt digit)
  | inr large ↦ rw large (
      Digits-append (digits_of fuel (n / 10)) (b'0' + n % 10) (digits_of-All fuel (n / 10))
        (omega arith, omega arith))
]

-- A number of 64 bits that `to_string` wrote, `stoul` reads back.
pub stoul-to_string : (n : ℕ) → n < 2 ^ 64 → stoul (to_string n) ≡ some n
unfolding to_string
stoul-to_string n h =
    let same = digits-digits_of (suc n) n (omega arith) in
    let read = stoul-Digits (digits_of (suc n) n) (Digits-digits_of n n) (rw same h) in
    rw same at read

pub to_string-All : (n : ℕ) → All IsDigit (to_string n)
unfolding to_string
to_string-All n = digits_of-All (suc n) n
