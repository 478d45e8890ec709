-- ===== src/Bits/Bytes.antt =====
-- Words of octets, most significant first, as `|` and `<<` make them.
use shitty.Prelude.{
  ℕ, ◌+◌, ◌-◌, ◌*◌, ◌/◌, ◌%◌, ◌^◌, ◌<◌, ◌≡◌, ap, ◌∙◌, arith, bit_or, Bool, leb, if◌then◌else◌, ◌&&◌,
}
use native.Mathlib.Nat.{mod-eq_of_lt}
use shitty.Bits.{or_disjoint, or_low, or_shift}

abbrev pub u8 : ℕ → ℕ
u8 n = n % 2 ^ 8

abbrev pub u16 : ℕ → ℕ
u16 n = n % 2 ^ 16

abbrev pub u32 : ℕ → ℕ
u32 n = n % 2 ^ 32

-- `static_cast<uint32_t>(c)` of a `char`, which keeps the sign where `char` has one.
abbrev pub widen : Bool → ℕ → ℕ
widen char_is_signed c = if char_is_signed && leb 128 c then c + (2 ^ 32 - 256) else c

unfoldable pub word24 : ℕ → ℕ → ℕ → ℕ
word24 a b c = bit_or (bit_or (u32 (a * 2 ^ 16)) (u32 (b * 2 ^ 8))) c

unfoldable pub word32 : ℕ → ℕ → ℕ → ℕ → ℕ
word32 a b c d = bit_or (bit_or (bit_or (u32 (a * 2 ^ 24)) (u32 (b * 2 ^ 16))) (u32 (c * 2 ^ 8))) d

-- An octet in its place, over what is below it.
place : (k q r : ℕ) → q * 2 ^ k < 2 ^ 32 → r < 2 ^ k → bit_or (u32 (q * 2 ^ k)) r ≡ q * 2 ^ k + r
place k q r fits below = rw (mod-eq_of_lt fits) (or_disjoint k q r below)

pub word24-eq :
    (a b c : ℕ) → a < 2 ^ 16 → b < 256 → c < 256 → word24 a b c ≡ a * 2 ^ 16 + b * 2 ^ 8 + c
unfolding word24
word24-eq a b c ha hb hc =
    let low : u32 (b * 2 ^ 8) ≡ b * 2 ^ 8 = omega arith in
    let high : bit_or (u32 (a * 2 ^ 16)) (u32 (b * 2 ^ 8)) ≡ (a * 2 ^ 8 + b) * 2 ^ 8 =
      rw low (place 16 a (b * 2 ^ 8) (omega arith) (omega arith) ∙ omega arith) in
    rw high (or_disjoint 8 (a * 2 ^ 8 + b) c hc ∙ omega arith)

pub word32-eq :
    (a b c d : ℕ)
    → a < 256
    → b < 256
    → c < 256
    → d < 256
    → word32 a b c d ≡ a * 2 ^ 24 + b * 2 ^ 16 + c * 2 ^ 8 + d
unfolding word32
word32-eq a b c d ha hb hc hd =
    let low : u32 (b * 2 ^ 16) ≡ b * 2 ^ 16 = omega arith in
    let lower : u32 (c * 2 ^ 8) ≡ c * 2 ^ 8 = omega arith in
    let top : bit_or (u32 (a * 2 ^ 24)) (u32 (b * 2 ^ 16)) ≡ (a * 2 ^ 8 + b) * 2 ^ 16 =
      rw low (place 24 a (b * 2 ^ 16) (omega arith) (omega arith) ∙ omega arith) in
    let high : bit_or ((a * 2 ^ 8 + b) * 2 ^ 16) (c * 2 ^ 8)
        ≡ (a * 2 ^ 16 + b * 2 ^ 8 + c) * 2 ^ 8 =
      or_disjoint 16 (a * 2 ^ 8 + b) (c * 2 ^ 8) (omega arith) ∙ omega arith in
    rw (top, lower, high) (or_disjoint 8 (a * 2 ^ 16 + b * 2 ^ 8 + c) d hd ∙ omega arith)

-- A negative last octet sets every bit above it, whatever the others are.
pub word24-negative :
    (a b c : ℕ) → c < 256 → word24 a b (c + (2 ^ 32 - 256)) % 2 ^ 24 ≡ 2 ^ 24 - 256 + c
unfolding word24
word24-negative a b c hc =
    let x = a * 2 ^ 8 % 2 ^ 24 in
    let y = b % 2 ^ 24 in
    let upper : u32 (a * 2 ^ 16) ≡ x * 2 ^ 8 = omega arith in
    let lower : u32 (b * 2 ^ 8) ≡ y * 2 ^ 8 + 0 = omega arith in
    let ones : c + (2 ^ 32 - 256) ≡ (2 ^ 24 - 1) * 2 ^ 8 + c = omega arith in
    let high : bit_or (x * 2 ^ 8) (y * 2 ^ 8 + 0) ≡ bit_or x y * 2 ^ 8 =
      or_shift 8 x y 0 (omega arith) ∙ omega arith in
    let all : bit_or (bit_or x y * 2 ^ 8) ((2 ^ 24 - 1) * 2 ^ 8 + c)
        ≡ (bit_or x y / 2 ^ 24 * 2 ^ 24 + (2 ^ 24 - 1)) * 2 ^ 8 + c =
      or_shift 8 (bit_or x y) (2 ^ 24 - 1) c hc
      ∙ ap (λ (t : ℕ). t * 2 ^ 8 + c) (or_low 24 (bit_or x y)) in
    rw (upper, lower, ones, high, all) (omega arith)

pub word32-negative :
    (a b c d : ℕ) → d < 256 → word32 a b c (d + (2 ^ 32 - 256)) % 2 ^ 32 ≡ 2 ^ 32 - 256 + d
unfolding word32
word32-negative a b c d hd =
    let x = a * 2 ^ 16 % 2 ^ 24 in
    let y = b * 2 ^ 8 % 2 ^ 24 in
    let z = c % 2 ^ 24 in
    let first : u32 (a * 2 ^ 24) ≡ x * 2 ^ 8 = omega arith in
    let second : u32 (b * 2 ^ 16) ≡ y * 2 ^ 8 + 0 = omega arith in
    let third : u32 (c * 2 ^ 8) ≡ z * 2 ^ 8 + 0 = omega arith in
    let ones : d + (2 ^ 32 - 256) ≡ (2 ^ 24 - 1) * 2 ^ 8 + d = omega arith in
    let two : bit_or (x * 2 ^ 8) (y * 2 ^ 8 + 0) ≡ bit_or x y * 2 ^ 8 =
      or_shift 8 x y 0 (omega arith) ∙ omega arith in
    let high : bit_or (bit_or x y * 2 ^ 8) (z * 2 ^ 8 + 0) ≡ bit_or (bit_or x y) z * 2 ^ 8 =
      or_shift 8 (bit_or x y) z 0 (omega arith) ∙ omega arith in
    let q = bit_or (bit_or x y) z in
    let all : bit_or (q * 2 ^ 8) ((2 ^ 24 - 1) * 2 ^ 8 + d)
        ≡ (q / 2 ^ 24 * 2 ^ 24 + (2 ^ 24 - 1)) * 2 ^ 8 + d =
      or_shift 8 q (2 ^ 24 - 1) d hd ∙ ap (λ (t : ℕ). t * 2 ^ 8 + d) (or_low 24 q) in
    rw (first, second, third, ones, two, high, all) (omega arith)
