-- ===== src/Number/Value.antt =====
-- What a successful `decode_number` returns on any input, against the format of RFC 7541, 5.1.
use native.Mathlib.Nat.{mod-le, pow-suc, one-le-pow, mul-le-mul_left}
use shitty.Prelude.{ℕ, zero, suc, ◌+◌, ◌-◌, ◌*◌, ◌%◌, ◌^◌, ◌≤◌, ◌<◌, ◌≡◌, refl, ap, arith, sym, ◌∙◌}
use shitty.Prelude.{bit_and, List, [], ◌∷◌, ◌++◌, ltb, ◌==◌, inl, inr}
use shitty.Prelude.{if◌then◌else◌, length, Bool-cases, All, IsByte, replicate}
use shitty.Bits.{and_low}
use shitty.Number.{u64, mask_from_bits, decode_octets, decode_number, used}
use shitty.Number.Octets.{low_seven, top_bit, mask-eq, decode_last, decode_more}

-- Groups of seven bits, lowest first, up to the first octet below 128, as a number of any size.
unfoldable pub groups_value : List ℕ → ℕ
groups_value [] = 0
groups_value (octet ∷ octets) =
    let high = groups_value octets in if ltb octet 128 then octet else octet - 128 + 128 * high

unfoldable pub groups_length : List ℕ → ℕ
groups_length [] = 0
groups_length (octet ∷ octets) =
    let more = groups_length octets in if ltb octet 128 then 1 else suc more

-- The number that an encoding stands for, and how many octets it takes.
unfoldable pub rfc_value : ℕ → List ℕ → ℕ
rfc_value bits [] = 0
rfc_value bits (octet ∷ octets) =
    let prefix = octet % 2 ^ bits in
    if prefix == 2 ^ bits - 1 then prefix + groups_value octets else prefix

unfoldable pub rfc_length : ℕ → List ℕ → ℕ
rfc_length bits [] = 0
rfc_length bits (octet ∷ octets) =
    if octet % 2 ^ bits == 2 ^ bits - 1 then suc (groups_length octets) else 1

-- The result of the loop on the octets that are left.
abbrev Reads : List ℕ → ℕ → ℕ → ℕ → ℕ → ℕ → Type 0
Reads octets i number mult n v =
    (v ≡ (number + mult * groups_value octets) % 2 ^ 64)
    × (n ≡ i + groups_length octets)
    × (groups_length octets ≤ length octets)
    × (n ≤ 11)

Reads-last :
    (octet i number mult n v : ℕ) (octets : List ℕ)
    → octet < 128
    → i ≤ 10
    → decode_octets (octet ∷ octets) i number mult ≡ used n v
    → Reads (octet ∷ octets) i number mult n v
unfolding groups_value groups_length
Reads-last octet i number mult n v octets h hi e =
    ground (arith, decode_last octet i number mult octets h hi)

-- The tenth group has no room for another one.
decode_full :
    (octet number n v : ℕ) (octets : List ℕ)
    → 128 ≤ octet
    → octet < 256
    → decode_octets (octet ∷ octets) 10 number (2 ^ 63) ≡ used n v
    → ⊥
unfolding decode_octets
decode_full octet number n v octets lo hi e = ground (arith, top_bit octet)

-- Taking a group in and wrapping at once is the same as wrapping at the end.
mod_step :
    (number group mult high : ℕ)
    → (u64 (number + u64 (group * mult)) + mult * 128 * high) % 2 ^ 64
      ≡ (number + mult * (group + 128 * high)) % 2 ^ 64
mod_step number group mult high = omega arith

Reads-more :
    (octet i number mult n v : ℕ) (octets : List ℕ)
    → 128 ≤ octet
    → octet < 256
    → Reads octets (i + 1) (u64 (number + u64 (octet % 128 * mult))) (mult * 128) n v
    → Reads (octet ∷ octets) i number mult n v
unfolding groups_value groups_length
Reads-more octet i number mult n v octets lo hi (value, count, short, few) =
    let group : octet % 128 ≡ octet - 128 = omega arith in
    let wrapped = mod_step number (octet - 128) mult (groups_value octets) in
    let value' = rw group at value in ground (arith, wrapped, value')

-- The multiplier of a group that another one may follow.
mult_room : (mult k : ℕ) → mult * 128 * 128 ^ k ≡ 2 ^ 63 → mult * 128 ≤ 2 ^ 63
mult_room mult k h =
    let wide : mult * 128 * 1 ≤ mult * 128 * 128 ^ k =
      mul-le-mul_left (mult * 128) (one-le-pow k 128 (omega arith)) in
    omega arith

decode_octets-Reads :
    (octets : List ℕ) (i k number mult n v : ℕ)
    → All IsByte octets
    → i + k ≡ 10
    → mult * 128 ^ k ≡ 2 ^ 63
    → decode_octets octets i number mult ≡ used n v
    → Reads octets i number mult n v
decode_octets-Reads [] i k number mult n v b hi hm e = absurd (unfold decode_octets in cc)
decode_octets-Reads (octet ∷ octets) i zero number mult n v (b, bs) hi hm e =
    elim (Bool-cases (ltb octet 128)) [
      | inl last ↦ Reads-last octet i number mult n v octets (ground arith) (omega arith) e
      | inr more ↦
          let ten : i ≡ 10 = omega arith in
          let full : mult ≡ 2 ^ 63 = omega arith in
          absurd (decode_full octet number n v octets (ground arith) b (rw (ten, full) at e))
    ]
decode_octets-Reads (octet ∷ octets) i (suc k) number mult n v (b, bs) hi hm e =
    elim (Bool-cases (ltb octet 128)) [
      | inl last ↦ Reads-last octet i number mult n v octets (ground arith) (omega arith) e
      | inr more ↦
          let number' = u64 (number + u64 (octet % 128 * mult)) in
          let place : mult * 128 * 128 ^ k ≡ 2 ^ 63 =
            omega (arith, ap (λ (t : ℕ). mult * t) (pow-suc 128 k)) in
          let lo : 128 ≤ octet = ground arith in
          let room : mult * 128 < 2 ^ 64 = omega (arith, mult_room mult k place) in
          let e' = sym (decode_more octet i number mult octets lo b (omega arith) room) ∙ e in
          Reads-more octet i number mult n v octets lo b (
            decode_octets-Reads octets (i + 1) k number' (mult * 128) n v bs (omega arith) place e')
    ]

-- A successful `decode_number` returns, on any buffer of octets, the number that RFC 7541 gives them, reduced
-- modulo 2 ^ 64, and the octets of its encoding: 1 to 11, and no more than the buffer holds.
pub decode_number-eq-rfc_value :
    (buf : List ℕ) (bits n v : ℕ)
    → All IsByte buf
    → decode_number buf bits ≡ used n v
    → (v ≡ rfc_value bits buf % 2 ^ 64)
      × (n ≡ rfc_length bits buf)
      × ((1 ≤ n) × (n ≤ 11) × (n ≤ length buf))
decode_number-eq-rfc_value [] bits n v b e = absurd (unfold decode_number in cc)
decode_number-eq-rfc_value (octet ∷ octets) bits n v (b, bs) e = elim (Bool-cases (ltb 8 bits)) [
  | inl wide ↦ absurd (unfold decode_number in ground arith)
  | inr narrow ↦
      let mask = mask-eq bits (ground arith) in
      let field = rw (← mask) at (and_low bits octet) in
      elim (Bool-cases (bit_and octet (mask_from_bits bits) == mask_from_bits bits)) [
        | inl full ↦
            let loop =
              decode_octets-Reads octets 1 9 (bit_and octet (mask_from_bits bits)) 1 n v bs refl
                refl (unfold decode_number in ground arith) in
            unfold rfc_value rfc_length in
            ground (arith, loop, mask, field, and_low bits octet, mod-le octet (2 ^ bits))
        | inr short ↦
            unfold decode_number rfc_value rfc_length in
            ground (arith, mask, and_low bits octet, mod-le octet (2 ^ bits))
      ]
]

-- Ten groups, of which the last one is `group`.
abbrev pub ten_groups : ℕ → List ℕ
ten_groups group = 0xff ∷ (replicate 9 0x80 ++ (group ∷ []))

-- An encoding whose number does not fit 64 bits, with a tenth group of 2 to 127 behind nine of zero
-- and a full prefix of seven bits, is accepted, and the number that is returned is too small: the overflow test
-- looks only at the multiplier.
pub decode_number-overflow_accepted :
    (group : ℕ)
    → 2 ≤ group
    → group < 128
    → (v : ℕ) × (decode_number (ten_groups group) 7 ≡ used 11 v)
      × (v < rfc_value 7 (ten_groups group))
unfolding decode_number decode_octets mask_from_bits rfc_value groups_value
decode_number-overflow_accepted group lo hi =
    (u64 (127 + u64 (group * 2 ^ 63)), ground (arith, low_seven group, top_bit group), ground arith)
