-- ===== src/Text/Trim.antt =====
-- What the trimming functions keep of a string.
use shitty.Prelude.{
  ℕ, zero, suc, ◌+◌, ◌≤◌, ◌<◌, ◌≡◌, refl, arith, inl, inr, ◌==◌, ==_iff, true, false, Bool-cases,
}
use shitty.Prelude.{List, [], ◌∷◌, ◌++◌, length, get_or, All, length-append, take-append}
use shitty.Text.{
  is_lws, scan_back, trim_trailing_lws, leading_whitespace, trim_leading_lws, trim_lws,
}

-- A string that is empty, or neither begins nor ends with a blank.
abbrev pub Plain : List ℕ → Type 0
Plain [] = Unit
Plain (c ∷ s) = (is_lws c ≡ false) × (is_lws (get_or (c ∷ s) (length s) 0) ≡ false)

-- A space in front of such a string is all that `trimLWS` takes off.
pub trim_lws-space : (s : List ℕ) → Plain s → trim_lws (b' ' ∷ s) ≡ s
unfolding trim_lws trim_leading_lws trim_trailing_lws scan_back leading_whitespace
trim_lws-space [] h = refl
trim_lws-space (c ∷ s) (first, last) =
    let kept : trim_trailing_lws (b' ' ∷ c ∷ s) ≡ b' ' ∷ c ∷ s =
      let same : (suc (length s) + 1 == suc (suc (length s))) ≡ true = ground arith in
      rw last (rw same refl) in
    rw (kept, first) refl

get_or-append : (x : List ℕ) (c : ℕ) (s : List ℕ) → get_or (x ++ c ∷ s) (length x) 0 ≡ c
get_or-append [] c s = refl
get_or-append (d ∷ x) c s = get_or-append x c s

get_or-blanks :
    (x : List ℕ) (c : ℕ) (blanks : List ℕ) (i : ℕ)
    → All (λ b. is_lws b ≡ true) blanks
    → length x < i
    → i < length x + 1 + length blanks
    → is_lws (get_or (x ++ c ∷ blanks) i 0) ≡ true
get_or-blanks [] c blanks zero hb lo hi = absurd (omega arith)
get_or-blanks [] c [] (suc i) hb lo hi = absurd (omega arith)
get_or-blanks [] c (b ∷ blanks) (suc zero) (h, hb) lo hi = h
get_or-blanks [] c (b ∷ blanks) (suc (suc i)) (h, hb) lo hi =
    get_or-blanks [] c blanks (suc i) hb (omega arith) (omega arith)
get_or-blanks (d ∷ x) c blanks zero hb lo hi = absurd (omega arith)
get_or-blanks (d ∷ x) c blanks (suc i) hb lo hi =
    get_or-blanks x c blanks i hb (omega arith) (omega arith)

-- Behind a character that is no blank, blanks lead the loop back to it.
scan_back-blanks :
    (x : List ℕ) (c : ℕ) (blanks : List ℕ) (i : ℕ)
    → is_lws c ≡ false
    → All (λ b. is_lws b ≡ true) blanks
    → length x < i
    → i ≤ length x + 1 + length blanks
    → scan_back (x ++ c ∷ blanks) i ≡ length x
unfolding scan_back
scan_back-blanks x c blanks zero h hb lo hi = absurd (omega arith)
scan_back-blanks x c blanks (suc i) h hb lo hi = elim (Bool-cases (i == length x)) [
  | inl e ↦
      let here : i ≡ length x = (==_iff i (length x)).0 e in
      rw here (rw (get_or-append x c blanks, h) refl)
  | inr e ↦
      let later : length x < i = grind (arith, e, lo) in
      let blank = get_or-blanks x c blanks i hb later (omega arith) in
      rw blank (scan_back-blanks x c blanks i h hb later (omega arith))
]

-- A string with blanks behind its last character that is none: `trimTrailingLWS` takes off these and that
-- character too.
pub trim_trailing_lws-blanks :
    (x : List ℕ) (c blank : ℕ) (blanks : List ℕ)
    → is_lws c ≡ false
    → is_lws blank ≡ true
    → All (λ b. is_lws b ≡ true) blanks
    → trim_trailing_lws (x ++ c ∷ blank ∷ blanks) ≡ x
unfolding trim_trailing_lws
trim_trailing_lws-blanks x c blank blanks h hb hs =
    let size = length-append x (c ∷ blank ∷ blanks) in
    let back =
      scan_back-blanks x c (blank ∷ blanks) (length (x ++ c ∷ blank ∷ blanks)) h (hb, hs)
        (omega (arith, size)) (omega (arith, size)) in
    let longer : (length x + 1 == length (x ++ c ∷ blank ∷ blanks)) ≡ false = grind (arith, size) in
    rw (back, longer) (take-append (length x) x (c ∷ blank ∷ blanks) refl)
