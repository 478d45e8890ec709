-- ===== src/Bits/Fields.antt =====
-- Words of several fields as bit strings, and octets as the bits of their octets.
use native.Mathlib.Nat.{pow-suc, one-le-pow, mod-lt, div-add-mod', mul-le-mul_right}
use shitty.Prelude.{
  ℕ, zero, suc, ◌+◌, ◌-◌, ◌*◌, ◌/◌, ◌%◌, ◌^◌, ◌≤◌, ◌<◌, ◌≡◌, refl, ap, sym, ◌∙◌, arith,
}
use shitty.Prelude.{Bool, true, List, [], ◌∷◌, ◌++◌, append_assoc, replicate}
use shitty.Bits.Stream.{bits, octet_bits, pow_sum, field-mod, field-div, bits_wrap, bits_fields}

whole_fields : (v n : ℕ) → v / 2 ^ n * 2 ^ n + v % 2 ^ n ≡ v
whole_fields v n = div-add-mod' v (2 ^ n)

pub bits-mod : (w v : ℕ) → bits w (v % 2 ^ w) ≡ bits w v
bits-mod w v = sym (bits_wrap w (v / 2 ^ w) (v % 2 ^ w)) ∙ ap (bits w) (whole_fields v w)

-- A word in two parts.
pub bits_split : (m n k v : ℕ) → m + n ≡ k → bits k v ≡ bits m (v / 2 ^ n) ++ bits n v
bits_split m n k v h =
    ap (bits k) (sym (whole_fields v n))
    ∙ bits_fields m n k (v / 2 ^ n) (v % 2 ^ n) h (mod-lt v (one-le-pow n 2 (omega arith)))
    ∙ ap (λ (t : List Bool). bits m (v / 2 ^ n) ++ t) (bits-mod n v)

pub octet_bits-append : (xs ys : List ℕ) → octet_bits (xs ++ ys) ≡ octet_bits xs ++ octet_bits ys
unfolding octet_bits
octet_bits-append [] ys = refl
octet_bits-append (x ∷ xs) ys =
    rw (octet_bits-append xs ys) (sym (append_assoc (bits 8 x) (octet_bits xs) (octet_bits ys)))

pub bits_ones : (n : ℕ) → bits n (2 ^ n - 1) ≡ replicate n true
unfolding bits
bits_ones zero = refl
bits_ones (suc n) =
    let p = one-le-pow n 2 (omega arith) in
    let top : (2 ^ suc n - 1) / 2 ^ n ≡ 1 =
      ap (λ (t : ℕ). t / 2 ^ n) (omega (arith, p, pow-suc 2 n))
      ∙ field-div 1 (2 ^ n - 1) (2 ^ n) (omega (arith, p)) in
    let low : bits n (2 ^ suc n - 1) ≡ bits n (2 ^ n - 1) =
      ap (bits n) (omega (arith, p, pow-suc 2 n)) ∙ bits_wrap n 1 (2 ^ n - 1) in
    rw (top, low, bits_ones n)

-- A word shifted to the top of an octet.
pub shift_top : (b c v : ℕ) → b + c ≡ 8 → v * 2 ^ c % 2 ^ 8 ≡ v % 2 ^ b * 2 ^ c
shift_top b c v h =
    let below : v % 2 ^ b < 2 ^ b = mod-lt v (one-le-pow b 2 (omega arith)) in
    let p = one-le-pow c 2 (omega arith) in
    let room : suc (v % 2 ^ b) * 2 ^ c ≤ 2 ^ b * 2 ^ c = mul-le-mul_right (2 ^ c) below in
    let whole : v * 2 ^ c ≡ v / 2 ^ b * 2 ^ 8 + v % 2 ^ b * 2 ^ c = omega (
      arith,
      ap (λ (t : ℕ). t * 2 ^ c) (sym (whole_fields v b)),
      ap (λ (t : ℕ). v / 2 ^ b * t) (pow_sum b c 8 h),
    ) in
    rw whole (field-mod (v / 2 ^ b) _ (2 ^ 8) (omega (arith, room, p, pow_sum b c 8 h)))
