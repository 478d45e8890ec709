-- ===== src/Prelude/Tables.antt =====
-- Statements about small numbers, decided by evaluating a test at each of them.
use Prim.Native.Nat.{ℕ, zero, suc, ◌<◌}
use mathlib.Core.Path.{◌≡◌}
use mathlib.Core.Bool.{Bool, true, ◌&&◌}
use native.Mathlib.Omega.{arith}

unfoldable pub holds_below : ℕ → (ℕ → Bool) → Bool
holds_below zero test = true
holds_below (suc n) test = holds_below n test && test n

pub holds_below→at :
    (n : ℕ) (test : ℕ → Bool) → holds_below n test ≡ true → (x : ℕ) → x < n → test x ≡ true
unfolding holds_below
holds_below→at zero test all x h = absurd (omega arith)
holds_below→at (suc n) test all x h = ground (arith, holds_below→at n test (ground arith) x)

-- Two numbers, the second below a bound that may vary with the first.
pub holds_below→at_pair :
    (m n : ℕ) (test : ℕ → ℕ → Bool)
    → holds_below m (λ x. holds_below n (test x)) ≡ true
    → (x y : ℕ) → x < m
    → y < n
    → test x y ≡ true
holds_below→at_pair m n test all x y hx hy =
    holds_below→at n (test x) (holds_below→at m (λ x. holds_below n (test x)) all x hx) y hy
