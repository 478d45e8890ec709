-- ===== src/Bits.antt =====
-- Machine-word operations as arithmetic: what `|` and `&` do to fields that do not overlap, at
-- every width. C's `x << k` on a w-bit word is `x * 2 ^ k % 2 ^ w`, and `x >> k` is `x / 2 ^ k`.
pub mod Stream
pub mod Bytes
pub mod Fields
use Prim.Native.Nat.{digits, bit_and-bitwise, bit_or-bitwise}
use native.Mathlib.Nat.{pow-suc, one-le-pow, mul-one, add-zero}
use mathlib.Core.Path.{ap₂}
use shitty.Prelude.{ℕ, zero, suc, ◌+◌, ◌-◌, ◌*◌, ◌/◌, ◌%◌, ◌^◌, ◌≤◌, ◌<◌, min, max, bit_and, bit_or}
use shitty.Prelude.{◌≡◌, refl, sym, ap, ◌∙◌, arith}

-- The library computes digit by digit with a count of digits to go; any count that reaches the
-- first number gives the same result.
module _ (end : ℕ → ℕ) (digit : ℕ → ℕ → ℕ) where
  digits-zero : (count b : ℕ) → digits end digit count zero b ≡ end b
  digits-zero zero b = refl
  digits-zero (suc count) b = refl

  digits_agree : (m n a b : ℕ) → a ≤ m → a ≤ n → digits end digit m a b ≡ digits end digit n a b
  digits_agree m n zero b p q = digits-zero m b ∙ sym (digits-zero n b)
  digits_agree zero n (suc a) b p q = absurd (omega arith)
  digits_agree (suc m) zero (suc a) b p q = absurd (omega arith)
  digits_agree (suc m) (suc n) (suc a) b p q =
      ap (λ (t : ℕ). t * 2 + digit (suc a % 2) (b % 2))
        (digits_agree m n (suc a / 2) (b / 2) (omega arith) (omega arith))

or_lowest : (a b : ℕ) → bit_or a b ≡ bit_or (a / 2) (b / 2) * 2 + max (a % 2) (b % 2)
or_lowest zero b = simp bit_or-bitwise (omega arith)
or_lowest (suc a) b = simp bit_or-bitwise (
    omega (
      arith,
      digits_agree (λ y. y) max a (suc a / 2) (suc a / 2) (b / 2) (omega arith) (omega arith),
    ))

and_lowest : (a b : ℕ) → bit_and a b ≡ bit_and (a / 2) (b / 2) * 2 + min (a % 2) (b % 2)
and_lowest zero b = simp bit_and-bitwise (omega arith)
and_lowest (suc a) b = simp bit_and-bitwise (
    omega (
      arith,
      digits_agree (λ y. 0) min a (suc a / 2) (suc a / 2) (b / 2) (omega arith) (omega arith),
    ))

or-zero_below : (bound a : ℕ) → a ≤ bound → bit_or a 0 ≡ a
or-zero_below bound zero h = refl
or-zero_below zero (suc a) h = absurd (omega arith)
or-zero_below (suc bound) (suc a) h =
    omega (arith, or_lowest (suc a) 0, or-zero_below bound (suc a / 2) (omega arith))

and-zero_below : (bound a : ℕ) → a ≤ bound → bit_and a 0 ≡ 0
and-zero_below bound zero h = refl
and-zero_below zero (suc a) h = absurd (omega arith)
and-zero_below (suc bound) (suc a) h =
    omega (arith, and_lowest (suc a) 0, and-zero_below bound (suc a / 2) (omega arith))

double_shift : (q k : ℕ) → q * 2 ^ suc k ≡ q * 2 ^ k * 2
double_shift q k = omega (arith, ap (λ (t : ℕ). q * t) (pow-suc 2 k))

-- `(q << k) | r` is a sum where `r` has at most `k` bits.
pub or_disjoint : (k q r : ℕ) → r < 2 ^ k → bit_or (q * 2 ^ k) r ≡ q * 2 ^ k + r
or_disjoint zero q r h = ground (arith, or-zero_below q q)
or_disjoint (suc k) q r h =
    ground
      (arith, pow-suc 2 k, double_shift q k, or_lowest (q * 2 ^ suc k) r, or_disjoint k q (r / 2))

and_field : (k q r : ℕ) → r < 2 ^ k → bit_and (q * 2 ^ k + r) (2 ^ k - 1) ≡ r
and_field zero q r h = ground (arith, and-zero_below (q + r) (q + r))
and_field (suc k) q r h = ground (
  arith,
  pow-suc 2 k,
  one-le-pow k 2,
  double_shift q k,
  and_lowest (q * 2 ^ suc k + r) (2 ^ suc k - 1),
  and_field k q (r / 2),
)

-- A mask of `k` ones keeps the low `k` bits.
pub and_low : (k a : ℕ) → bit_and a (2 ^ k - 1) ≡ a % 2 ^ k
and_low k a = ground (arith, one-le-pow k 2, and_field k (a / 2 ^ k) (a % 2 ^ k))

and_above :
    (k m q r : ℕ) → r < 2 ^ k → bit_and (q * 2 ^ k + r) ((2 ^ m - 1) * 2 ^ k) ≡ q % 2 ^ m * 2 ^ k
and_above zero m q r h = ground (arith, and_low m (q + r), and_low m q)
and_above (suc k) m q r h = ground (
  arith,
  pow-suc 2 k,
  double_shift q k,
  double_shift (2 ^ m - 1) k,
  double_shift (q % 2 ^ m) k,
  and_lowest (q * 2 ^ suc k + r) ((2 ^ m - 1) * 2 ^ suc k),
  and_above k m q (r / 2),
)

-- A mask of `m` ones above `k` zeros keeps those `m` bits in place.
pub and_high : (k m a : ℕ) → bit_and a ((2 ^ m - 1) * 2 ^ k) ≡ a / 2 ^ k % 2 ^ m * 2 ^ k
and_high k m a = ground (arith, one-le-pow k 2, and_above k m (a / 2 ^ k) (a % 2 ^ k))

or_below : (k q r : ℕ) → r < 2 ^ k → bit_or (q * 2 ^ k + r) (2 ^ k - 1) ≡ q * 2 ^ k + (2 ^ k - 1)
or_below zero q r h = ground (arith, or-zero_below (q + r) (q + r))
or_below (suc k) q r h = ground (
  arith,
  pow-suc 2 k,
  one-le-pow k 2,
  double_shift q k,
  or_lowest (q * 2 ^ suc k + r) (2 ^ suc k - 1),
  or_below k q (r / 2),
)

-- Setting the low `k` bits leaves those above.
pub or_low : (k a : ℕ) → bit_or a (2 ^ k - 1) ≡ a / 2 ^ k * 2 ^ k + (2 ^ k - 1)
or_low k a = ground (arith, one-le-pow k 2, or_below k (a / 2 ^ k) (a % 2 ^ k))

-- Above a field that the first number leaves empty, the rest is the disjunction.
pub or_shift :
    (k q m r : ℕ) → r < 2 ^ k → bit_or (q * 2 ^ k) (m * 2 ^ k + r) ≡ bit_or q m * 2 ^ k + r
or_shift zero q m r h =
    let none_left : r ≡ 0 = omega arith in
    rw none_left (ap₂ bit_or (mul-one q) (add-zero _ ∙ mul-one m) ∙ sym (add-zero _ ∙ mul-one _))
or_shift (suc k) q m r h = ground (
  arith,
  pow-suc 2 k,
  double_shift q k,
  double_shift m k,
  double_shift (bit_or q m) k,
  or_lowest (q * 2 ^ suc k) (m * 2 ^ suc k + r),
  or_shift k q m (r / 2),
)
