-- ===== src/Number/RoundTrip.antt =====
-- What `encode_number` writes, `decode_number` reads back.
use native.Mathlib.Nat.{pow-suc, div-add-mod, mul-le-mul_right}
use mathlib.Core.Path.{ap₂}
use shitty.Prelude.{ℕ, zero, suc, ◌+◌, ◌-◌, ◌*◌, ◌/◌, ◌%◌, ◌^◌, ◌≤◌, ◌<◌, ◌≡◌, refl, ap, arith, ◌∙◌}
use shitty.Prelude.{bit_and, bit_or, List, [], ◌∷◌, ◌++◌, ltb, leb, ◌⊎◌, inl, inr}
use shitty.Prelude.{length, some, some, Bool-cases, Option-cases, drop, get_or, ltb→lt}
use shitty.Number.{u64, mask_from_bits, Written, write_first}
use shitty.Number.{decode_octets, decode_number, encode_octets, encode_number, used}
use shitty.Number.Octets.{set_top_bit, decode_last, decode_more, small_octet, full_octet}

-- The encoding loop by cases: the last octet, or one more group.
pub encode_octets_cases :
    (v cell : ℕ) (cells : List ℕ) (w : Written)
    → encode_octets v (cell ∷ cells) ≡ some w
    → ((v < 128) × (w.octets ≡ v ∷ []) × (w.untouched ≡ cells))
      ⊎ ((128 ≤ v)
          × ((more : Written) × (encode_octets (v / 128) cells ≡ some more)
              × (w.octets ≡ (128 + v % 128) ∷ more.octets)
              × (w.untouched ≡ more.untouched)))
unfolding encode_octets
encode_octets_cases v cell cells w e = elim (Option-cases (encode_octets (v / 128) cells)) [
  | inl stop ↦ inl (ground arith, ground arith, ground arith)
  | inr (more, go) ↦ elim (Bool-cases (leb 128 v)) [
    | inl big ↦ inr (ground arith, (more, go, ground (arith, set_top_bit (v % 128)), ground arith))
    | inr small ↦ inl (ground arith, ground arith, ground arith)
  ]
]

group-mod : (v : ℕ) → (128 + v % 128) % 128 ≡ v % 128
group-mod v = omega arith

-- The number that is left, in its lowest group and the rest, each at its place.
split_place : (v mult : ℕ) → v * mult ≡ v % 128 * mult + v / 128 * (mult * 128)
split_place v mult = omega (arith, ap (λ (t : ℕ). t * mult) (div-add-mod v 128))

decode_group :
    (v i number mult : ℕ) (octets : List ℕ)
    → 128 ≤ v
    → i ≤ 10
    → number + v * mult < 2 ^ 64
    → decode_octets ((128 + v % 128) ∷ octets) i number mult
      ≡ decode_octets octets (i + 1) (number + v % 128 * mult) (mult * 128)
decode_group v i number mult octets big hi fits =
    let room : 128 * mult ≤ v * mult = mul-le-mul_right mult big in
    let stays : u64 (number + u64 ((128 + v % 128) % 128 * mult)) ≡ number + v % 128 * mult =
      rw (group-mod v) (omega (arith, split_place v mult)) in
    decode_more (128 + v % 128) i number mult octets (omega arith) (omega arith) hi (omega arith)
    ∙ ap (λ t. decode_octets octets (i + 1) t (mult * 128)) stays

decode-encode_octets :
    (cells : List ℕ) (v i k number mult : ℕ) (rest : List ℕ) (w : Written)
    → i + k ≡ 10
    → mult * 128 ^ k ≡ 2 ^ 63
    → number + v * mult < 2 ^ 64
    → encode_octets v cells ≡ some w
    → decode_octets (w.octets ++ rest) i number mult
      ≡ used (i + length w.octets) (number + v * mult)
decode-encode_octets [] v i k number mult rest w hi hm fits e = unfold encode_octets in cc
decode-encode_octets (cell ∷ cells) v i zero number mult rest w hi hm fits e =
    elim (encode_octets_cases v cell cells w e) [
      | inl (small, o, u) ↦ rw o (ground (arith, decode_last v i number mult rest))
      | inr (big, (more, e', o, u)) ↦
          let room : 128 * mult ≤ v * mult = mul-le-mul_right mult big in absurd (omega arith)
    ]
decode-encode_octets (cell ∷ cells) v i (suc k) number mult rest w hi hm fits e =
    elim (encode_octets_cases v cell cells w e) [
      | inl (small, o, u) ↦ rw o (ground (arith, decode_last v i number mult rest))
      | inr (big, (more, e', o, u)) ↦
          let place : mult * 128 * 128 ^ k ≡ 2 ^ 63 =
            omega (arith, ap (λ (t : ℕ). mult * t) (pow-suc 128 k)) in
          let ih =
            decode-encode_octets cells (v / 128) (i + 1) k (number + v % 128 * mult) (mult * 128)
              rest more (omega arith) place (omega (arith, split_place v mult)) e' in
          rw o (
            decode_group v i number mult (more.octets ++ rest) big (omega arith) fits
            ∙ ih
            ∙ ap₂ used (omega arith) (omega (arith, split_place v mult)))
    ]

-- The encoder by cases: all in the first octet, or a full first octet and groups.
pub encode_number_cases :
    (number bits cell : ℕ) (cells : List ℕ) (w : Written)
    → encode_number number bits (cell ∷ cells) ≡ some w
    → ((bits ≤ 8)
        × (number < mask_from_bits bits)
        × (w.octets ≡ bit_or (bit_and cell (255 - mask_from_bits bits)) number ∷ []))
      ⊎ ((bits ≤ 8)
          × (mask_from_bits bits ≤ number)
          × ((more : Written) × (encode_octets (number - mask_from_bits bits) cells ≡ some more)
              × (w.octets ≡ bit_or cell (mask_from_bits bits) ∷ more.octets)))
unfolding encode_number
encode_number_cases number bits cell cells w e =
    elim (Bool-cases (ltb number (mask_from_bits bits))) [
      | inl small ↦ inl (ground arith, ground arith, ground arith)
      | inr big ↦ elim (Option-cases (encode_octets (number - mask_from_bits bits) cells)) [
        | inl stop ↦ absurd ground arith
        | inr (more, go) ↦ inr (ground arith, ground arith, (more, go, ground arith))
      ]
    ]

-- What a successful `encode_number` wrote for a 64-bit number, at any prefix length and over any flags
-- in the first octet, `decode_number` reads back: the number, and the count of octets. Whatever follows in the buffer makes no difference.
pub decode_number-encode_number :
    (number bits cell : ℕ) (cells rest : List ℕ) (w : Written)
    → number < 2 ^ 64
    → cell < 256
    → encode_number number bits (cell ∷ cells) ≡ some w
    → decode_number (w.octets ++ rest) bits ≡ used (length w.octets) number
decode_number-encode_number number bits cell cells rest w fits hc e =
    elim (encode_number_cases number bits cell cells w e) [
      | inl (h, small, o) ↦
          rw o (unfold decode_number in ground (arith, small_octet bits cell number h hc small))
      | inr (h, big, (more, e', o)) ↦
          let groups =
            decode-encode_octets cells (number - mask_from_bits bits) 1 9 (mask_from_bits bits) 1
              rest more (omega arith) refl (omega arith) e' in
          rw o (unfold decode_number in ground (arith, full_octet bits cell h, groups))
    ]

encode_octets_total :
    (k v : ℕ) (cells : List ℕ)
    → v < 128 ^ suc k
    → suc k ≤ length cells
    → (w : Written) × (encode_octets v cells ≡ some w)
      × (length w.octets ≤ suc k)
      × (w.untouched ≡ drop (length w.octets) cells)
unfolding encode_octets
encode_octets_total k v [] h room = absurd (omega arith)
encode_octets_total zero v (cell ∷ cells) h room =
    (record { octets = v ∷ []; untouched = cells }, ground arith, ground arith, refl)
encode_octets_total (suc k) v (cell ∷ cells) h room = elim (Bool-cases (leb 128 v)) [
  | inl big ↦
      let (more, e, short, left) =
        encode_octets_total k (v / 128) cells (omega (arith, pow-suc 128 (suc k))) (omega arith) in
      (write_first (bit_or 0x80 (v % 128)) more, ground arith, omega arith, left)
  | inr small ↦ (record { octets = v ∷ []; untouched = cells }, ground arith, ground arith, refl)
]

-- With a legal prefix length and a buffer of 11 octets, every 64-bit number is encoded: in at most
-- 11 octets, leaving the flags above the prefix and the rest of the buffer as they were.
pub encode_number_total :
    (number bits cell : ℕ) (cells : List ℕ)
    → number < 2 ^ 64
    → 1 ≤ bits
    → bits ≤ 8
    → cell < 256
    → 10 ≤ length cells
    → (w : Written) × (encode_number number bits (cell ∷ cells) ≡ some w)
      × ((1 ≤ length w.octets) × (length w.octets ≤ 11))
      × (get_or w.octets 0 0 / 2 ^ bits ≡ cell / 2 ^ bits)
      × (w.untouched ≡ drop (length w.octets) (cell ∷ cells))
encode_number_total number bits cell cells fits lo hi hc room =
    elim (Bool-cases (ltb number (mask_from_bits bits))) [
      | inl small ↦ (
        record {
          octets = bit_or (bit_and cell (255 - mask_from_bits bits)) number ∷ [];
          untouched = cells;
        },
        unfold encode_number in ground arith,
        omega arith,
        (small_octet bits cell number hi hc (ltb→lt _ _ small)).1,
        refl,
      )
      | inr big ↦
          let (more, e, short, left) =
            encode_octets_total 9 (number - mask_from_bits bits) cells (omega arith) room in
          (
            write_first (bit_or cell (mask_from_bits bits)) more,
            unfold encode_number in ground arith,
            omega arith,
            (full_octet bits cell hi).1,
            left,
          )
    ]
