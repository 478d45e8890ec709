-- ===== src/Text/Equal.antt =====
-- `case_insensitive_equal` is an equivalence, which does not see case.
use shitty.Prelude.{ℕ, ◌≡◌, refl, arith, ◌==◌, ◌&&◌, Bool, true, false, List, [], ◌∷◌}
use shitty.Text.{to_lower, ascii_lower, case_insensitive_equal}

both : (p q : Bool) → (p && q) ≡ true → (p ≡ true) × (q ≡ true)
both true q h = (refl, h)
both false q h = absurd (cc)

same_number : (a b : ℕ) → (a == b) ≡ true → a ≡ b
same_number a b h = ground arith

pub case_insensitive_equal_refl : (s : List ℕ) → case_insensitive_equal s s ≡ true
unfolding case_insensitive_equal
case_insensitive_equal_refl [] = refl
case_insensitive_equal_refl (c ∷ s) =
    let same : (to_lower c == to_lower c) ≡ true = self (to_lower c) in
    rw (same, case_insensitive_equal_refl s) refl
  where
    self : (n : ℕ) → (n == n) ≡ true
    self n = ground arith

-- Equal strings are equal to the same strings.
pub case_insensitive_equal_cong :
    (a b c : List ℕ)
    → case_insensitive_equal a b ≡ true
    → case_insensitive_equal a c ≡ case_insensitive_equal b c
unfolding case_insensitive_equal
case_insensitive_equal_cong [] [] c h = refl
case_insensitive_equal_cong [] (y ∷ b) c h = absurd (cc)
case_insensitive_equal_cong (x ∷ a) [] c h = absurd (cc)
case_insensitive_equal_cong (x ∷ a) (y ∷ b) [] h = refl
case_insensitive_equal_cong (x ∷ a) (y ∷ b) (z ∷ c) h =
    let (first, rest) = both (to_lower x == to_lower y) (case_insensitive_equal a b) h in
    let same : to_lower x ≡ to_lower y = same_number (to_lower x) (to_lower y) first in
    rw (same, case_insensitive_equal_cong a b c rest) refl

to_lower_idempotent : (c : ℕ) → to_lower (to_lower c) ≡ to_lower c
to_lower_idempotent c = ground arith

pub case_insensitive_equal-ascii_lower :
    (a b : List ℕ) → case_insensitive_equal (ascii_lower a) b ≡ case_insensitive_equal a b
unfolding case_insensitive_equal ascii_lower
case_insensitive_equal-ascii_lower [] b = refl
case_insensitive_equal-ascii_lower (x ∷ a) [] = refl
case_insensitive_equal-ascii_lower (x ∷ a) (y ∷ b) =
    rw (to_lower_idempotent x, case_insensitive_equal-ascii_lower a b) refl
