-- ===== src/Huffman/Encode/Symbols.antt =====
-- Each step of the encoder's loop adds its bits to the string.
use native.Mathlib.Nat.{one-le-pow, mul-le-mul_right, div-lt_iff_lt-mul, mod-eq_of_lt}
use shitty.Prelude.{
  ℕ, suc, ◌+◌, ◌-◌, ◌*◌, ◌/◌, ◌^◌, ◌≤◌, ◌<◌, ◌≡◌, refl, ap, sym, ◌∙◌, arith, inl, inr, leb, ltb,
  ◌==◌,
}
use shitty.Prelude.{
  bit_and, bit_or, Bool, true, List, ◌++◌, some, length, append_assoc, append-nil, Bool-cases,
}
use shitty.Bits.{or_disjoint, and_low}
use shitty.Bits.Stream.{bits, octet_bits, pow_sum, bits_fields}
use shitty.Bits.Fields.{bits-mod, bits_split}
use shitty.Huffman.Codes.{Encv}
use shitty.Huffman.Reader.{u8}
use shitty.Huffman.Encode.{Encoder, put, fill_partial, ◌>>=◌}
use shitty.Huffman.Encode.Invariant.{
  Answers, Answers->>=, Coded, Coded-length, PendingCoded, put-Coded,
}

-- The high part of a number of two fields.
high-lt : (m n k v : ℕ) → m + n ≡ k → v < 2 ^ k → v / 2 ^ n < 2 ^ m
high-lt m n k v h small =
    (div-lt_iff_lt-mul (one-le-pow n 2 (omega arith))).1 (rw (pow_sum m n k h) small)

-- Two fields fit the sum of their widths.
pub fields-lt : (m n k q r : ℕ) → m + n ≡ k → q < 2 ^ m → r < 2 ^ n → q * 2 ^ n + r < 2 ^ k
fields-lt m n k q r h hq hr =
    let room : suc q * 2 ^ n ≤ 2 ^ m * 2 ^ n = mul-le-mul_right (2 ^ n) hq in
    omega (arith, room, pow_sum m n k h)

-- The octet that `fill_partial` completes.
full_octet :
    (e left bits' : ℕ) (q v : ℕ)
    → e ≤ 8
    → bits' ≡ (8 - e) + left
    → q < 2 ^ e
    → v < 2 ^ bits'
    → bit_or (q * 2 ^ (8 - e)) (u8 (v / 2 ^ left)) ≡ q * 2 ^ (8 - e) + v / 2 ^ left
full_octet e left bits' q v he h hq hv =
    let top : v / 2 ^ left < 2 ^ (8 - e) = high-lt (8 - e) left bits' v (omega arith) hv in
    let whole = fields-lt e (8 - e) 8 q (v / 2 ^ left) (omega arith) hq top in
    ap (bit_or (q * 2 ^ (8 - e))) (mod-eq_of_lt (omega (arith, whole)))
    ∙ or_disjoint (8 - e) q (v / 2 ^ left) top

regroup : (o e t r : List Bool) {l : List Bool} → o ++ e ≡ l → (o ++ (e ++ t)) ++ r ≡ l ++ (t ++ r)
regroup o e t r h = rw (← h) (simp append_assoc refl)

pub no_bits : (l : List Bool) (v : ℕ) → l ++ bits 0 v ≡ l
unfolding bits
no_bits l v = append-nil l

-- `huffcode &= (1 << bits) - 1`
masked : (left v : ℕ) → bits left (bit_and v (2 ^ left - 1)) ≡ bits left v
masked left v = rw (and_low left v) (bits-mod left v)

module _ (buflen total : ℕ) (encv : Encv) (e : Encoder) (l : List Bool) (c : Coded buflen e l) where
  -- The code is short enough to leave the octet open.
  open_octet :
      encv.value < 2 ^ encv.bits
      → encv.bits + e.existing_bits < 8
      → bit_or e.partial (u8 (encv.value * 2 ^ (8 - (e.existing_bits + encv.bits))))
        ≡ (c.value * 2 ^ encv.bits + encv.value) * 2 ^ (8 - (e.existing_bits + encv.bits))
  open_octet small short =
      let b = encv.bits in
      let free = 8 - (e.existing_bits + b) in
      let v = encv.value in
      let split = pow_sum b free (8 - e.existing_bits) (omega arith) in
      let fits =
        fields-lt b free (8 - e.existing_bits) v 0 (omega arith) small
          (one-le-pow free 2 (omega arith)) in
      let octet =
        fields-lt e.existing_bits (8 - e.existing_bits) 8 c.value (v * 2 ^ free)
          (omega (arith, c.narrow)) c.small (omega (arith, fits)) in
      let low : u8 (v * 2 ^ free) ≡ v * 2 ^ free = mod-eq_of_lt (omega (arith, octet)) in
      ap (λ (t : ℕ). bit_or t (u8 (v * 2 ^ free))) c.aligned
      ∙ ap (bit_or (c.value * 2 ^ (8 - e.existing_bits))) low
      ∙ or_disjoint (8 - e.existing_bits) c.value (v * 2 ^ free) (omega (arith, fits))
      ∙ omega (arith, ap (λ (t : ℕ). c.value * t) split)

  -- The octet is begun, and the code closes it.
  fill_full :
      encv.value < 2 ^ encv.bits
      → 8 ≤ encv.bits + e.existing_bits
      → length l + encv.bits ≤ total
      → Answers buflen total
          (put
              (bit_or e.partial (u8 (encv.value / 2 ^ (encv.bits - (8 - e.existing_bits)))))
              e.output
              e.cells
            >>= λ e'. some (record {
              huffcode = bit_and encv.value (2 ^ (encv.bits - (8 - e.existing_bits)) - 1);
              bits = encv.bits - (8 - e.existing_bits);
              encoder = e';
            }))
          (λ p. PendingCoded buflen p (l ++ bits encv.bits encv.value))
  fill_full small long fits =
      let v = encv.value in
      let free = 8 - e.existing_bits in
      let left = encv.bits - free in
      let octet = c.value * 2 ^ free + v / 2 ^ left in
      let top = high-lt free left encv.bits v (omega (arith, c.narrow)) small in
      let closed : bit_or e.partial (u8 (v / 2 ^ left)) ≡ octet =
        ap (λ (t : ℕ). bit_or t (u8 (v / 2 ^ left))) c.aligned
        ∙ full_octet e.existing_bits left encv.bits c.value v c.narrow (omega (arith, c.narrow))
            c.small small in
      let below =
        fields-lt e.existing_bits free 8 c.value (v / 2 ^ left) (omega (arith, c.narrow)) c.small
          top in
      let split : bits 8 octet ≡ bits e.existing_bits c.value ++ bits free (v / 2 ^ left) =
        bits_fields e.existing_bits free 8 c.value (v / 2 ^ left) (omega (arith, c.narrow)) top in
      rw closed (
        Answers->>= buflen total _ _
          (put-Coded buflen total octet e.output e.cells below c.octets c.count
            (omega (arith, Coded-length c)))
          (λ e' done. inr (
            _,
            refl,
            record {
              base = octet_bits e.output ++ bits 8 octet;
              encoder = done.0;
              ending = inr done.1;
              whole =
                  ap
                    (λ (t : List Bool).
                      (octet_bits e.output ++ t) ++ bits left (bit_and v (2 ^ left - 1)))
                    split
                  ∙ regroup (octet_bits e.output) _ (bits free (v / 2 ^ left)) _ c.string
                  ∙ ap (λ (t : List Bool). l ++ t)
                      (ap (λ (t : List Bool). bits free (v / 2 ^ left) ++ t) (masked left v)
                        ∙ sym (bits_split free left encv.bits v (omega (arith, c.narrow))));
            },
          )))

  fill_open :
      encv.value < 2 ^ encv.bits
      → encv.bits + e.existing_bits < 8
      → PendingCoded buflen
          (record {
            huffcode = encv.value;
            bits = encv.bits - encv.bits;
            encoder = record {
              existing_bits = e.existing_bits + encv.bits;
              partial =
                  bit_or e.partial (u8 (encv.value * 2 ^ (8 - (e.existing_bits + encv.bits))));
              output = e.output;
              cells = e.cells;
            };
          })
          (l ++ bits encv.bits encv.value)
  fill_open small short =
      let v = encv.value in
      let b = encv.bits in
      let none_left : b - b ≡ 0 = omega arith in
      record {
        base = l ++ bits b v;
        encoder = record {
          value = c.value * 2 ^ b + v;
          narrow = omega arith;
          small = fields-lt e.existing_bits b (e.existing_bits + b) c.value v refl c.small small;
          aligned = open_octet small short;
          string =
              ap (λ (t : List Bool). octet_bits e.output ++ t)
                (bits_fields e.existing_bits b (e.existing_bits + b) c.value v refl small)
              ∙ sym (append_assoc (octet_bits e.output) (bits e.existing_bits c.value) (bits b v))
              ∙ ap (λ (t : List Bool). t ++ bits b v) c.string;
          octets = c.octets;
          count = c.count;
        };
        ending = inl none_left;
        whole = ap (λ (t : ℕ). (l ++ bits b v) ++ bits t v) none_left ∙ no_bits (l ++ bits b v) v;
      }

  pub fill_partial-Coded :
      encv.value < 2 ^ encv.bits
      → length l + encv.bits ≤ total
      → Answers buflen total
          (fill_partial encv e)
          (λ p. PendingCoded buflen p (l ++ bits encv.bits encv.value))
  unfolding fill_partial
  fill_partial-Coded small fits = elim (Bool-cases (e.existing_bits == 0)) [
    | inl whole ↦
        rw whole (
          inr
            (_, refl, record { base = l; encoder = c; ending = inr (ground arith); whole = refl }))
    | inr begun ↦ rw begun (elim (Bool-cases (leb 8 (encv.bits + e.existing_bits))) [
      | inl long ↦ rw long (fill_full small (ground arith) fits)
      | inr short ↦
          let within : ltb encv.bits (8 - e.existing_bits) ≡ true = ground arith in
          rw (short, within) (inr (_, refl, fill_open small (ground arith)))
    ])
  ]
