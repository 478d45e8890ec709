-- ===== src/Number/Octets.antt =====
-- One octet at a time: what the masks of number.c do, and what the two loops do in one round.
use native.Mathlib.Nat.{one-le-pow}
use shitty.Prelude.{ℕ, ◌+◌, ◌-◌, ◌*◌, ◌/◌, ◌%◌, ◌^◌, ◌≤◌, ◌<◌, ◌≡◌, refl, ◌∙◌, arith}
use shitty.Prelude.{
  bit_and, bit_or, List, ◌∷◌, true, ◌==◌, ==_iff, holds_below, holds_below→at, holds_below→at_pair,
}
use shitty.Bits.{or_disjoint, or_low, and_low, and_high}
use shitty.Bits.Stream.{field-mod, field-div}
use shitty.Number.{u64, mask_from_bits, decode_octets, used}

pub low_seven : (octet : ℕ) → bit_and octet 0x7f ≡ octet % 128
low_seven octet = and_low 7 octet

pub top_bit : (octet : ℕ) → octet < 256 → bit_and octet 0x80 ≡ octet / 128 * 128
top_bit octet h = omega (arith, and_high 7 1 octet)

pub set_top_bit : (group : ℕ) → group < 128 → bit_or 0x80 group ≡ 128 + group
set_top_bit group h = or_disjoint 7 1 group h

mask_table : holds_below 9 (λ bits. mask_from_bits bits == 2 ^ bits - 1) ≡ true
unfolding holds_below mask_from_bits
mask_table = refl

pub mask-eq : (bits : ℕ) → bits ≤ 8 → mask_from_bits bits ≡ 2 ^ bits - 1
mask-eq bits h = (==_iff _ _).0 (holds_below→at 9 _ mask_table bits (omega arith))

keep_table :
    holds_below 9 (λ bits.
      holds_below 256
        (λ cell. bit_and cell (255 - mask_from_bits bits) == cell / 2 ^ bits * 2 ^ bits))
    ≡ true
unfolding holds_below mask_from_bits
keep_table = refl

-- The complement of the mask keeps the bits above it.
pub keep_flags :
    (bits cell : ℕ)
    → bits ≤ 8
    → cell < 256
    → bit_and cell (255 - mask_from_bits bits) ≡ cell / 2 ^ bits * 2 ^ bits
keep_flags bits cell h hc =
    (==_iff _ _).0 (holds_below→at_pair 9 256 _ keep_table bits cell (omega arith) hc)

-- One round of the decoding loop on a last octet.
pub decode_last :
    (octet i number mult : ℕ) (octets : List ℕ)
    → octet < 128
    → i ≤ 10
    → decode_octets (octet ∷ octets) i number mult
      ≡ used (i + 1) (u64 (number + u64 (octet * mult)))
unfolding decode_octets
decode_last octet i number mult octets h hi = ground (arith, low_seven octet, top_bit octet)

-- One round on an octet that says that more follow, while the multiplier has room.
pub decode_more :
    (octet i number mult : ℕ) (octets : List ℕ)
    → 128 ≤ octet
    → octet < 256
    → i ≤ 10
    → mult * 128 < 2 ^ 64
    → decode_octets (octet ∷ octets) i number mult
      ≡ decode_octets octets (i + 1) (u64 (number + u64 (octet % 128 * mult))) (mult * 128)
unfolding decode_octets
decode_more octet i number mult octets lo hi hi' room =
    ground (arith, low_seven octet, top_bit octet)

-- A number that fits beside the flags of `cell`: both can be had back from the octet.
pub small_octet :
    (bits cell number : ℕ)
    → bits ≤ 8
    → cell < 256
    → number < mask_from_bits bits
    → let octet = bit_or (bit_and cell (255 - mask_from_bits bits)) number in
      (bit_and octet (mask_from_bits bits) ≡ number) × (octet / 2 ^ bits ≡ cell / 2 ^ bits)
small_octet bits cell number h hc hn =
    let q = cell / 2 ^ bits in
    let bound : number < 2 ^ bits = omega (arith, mask-eq bits h) in
    let octet : bit_or (bit_and cell (255 - mask_from_bits bits)) number ≡ q * 2 ^ bits + number =
      rw (keep_flags bits cell h hc) (or_disjoint bits q number bound) in
    rw (octet, mask-eq bits h)
      (and_low bits _ ∙ field-mod q number (2 ^ bits) bound, field-div q number (2 ^ bits) bound)

-- The octet that says that groups follow.
pub full_octet :
    (bits cell : ℕ)
    → bits ≤ 8
    → let octet = bit_or cell (mask_from_bits bits) in
      (bit_and octet (mask_from_bits bits) ≡ mask_from_bits bits)
      × (octet / 2 ^ bits ≡ cell / 2 ^ bits)
full_octet bits cell h =
    let q = cell / 2 ^ bits in
    let ones : 2 ^ bits - 1 < 2 ^ bits = omega (arith, one-le-pow bits 2) in
    rw (mask-eq bits h, or_low bits cell)
      (and_low bits _ ∙ field-mod q _ (2 ^ bits) ones, field-div q _ (2 ^ bits) ones)
