-- ===== src/Huffman/Encode/Writes.antt =====
-- The octets written in the middle of a code, and what is left of it at its end.
use native.Mathlib.Nat.{one-le-pow, mod-lt}
use shitty.Prelude.{
  ℕ, zero, suc, ◌+◌, ◌-◌, ◌/◌, ◌%◌, ◌^◌, ◌≤◌, ◌<◌, ◌≡◌, refl, ap, sym, ◌∙◌, arith, inl, inr, ltb,
  ◌==◌,
}
use shitty.Prelude.{
  Bool, List, [], ◌∷◌, ◌++◌, length, length-append, append_assoc, append-nil, Bool-cases,
}
use shitty.Bits.Stream.{bits, octet_bits, length-bits}
use shitty.Bits.Fields.{octet_bits-append, bits-mod, bits_split, shift_top}
use shitty.Huffman.Reader.{u8}
use shitty.Huffman.Encode.{Encoder, Pending, write_into, write_octet, write_octets, keep_partial}
use shitty.Huffman.Encode.Invariant.{
  Answers, Answers->>=, Coded, Coded-length, PendingCoded, All-append,
}
use shitty.Huffman.Encode.Symbols.{no_bits}

octet_bits_snoc :
    (octets : List ℕ) (v : ℕ) → octet_bits (octets ++ u8 v ∷ []) ≡ octet_bits octets ++ bits 8 v
unfolding octet_bits
octet_bits_snoc octets v =
    octet_bits-append octets (u8 v ∷ [])
    ∙ ap (λ (t : List Bool). octet_bits octets ++ t) (append-nil (bits 8 (u8 v)) ∙ bits-mod 8 v)

-- With no begun octet, the string is the bits of the output.
pub begun :
    {buflen : ℕ} (e : Encoder) (l : List Bool)
    → Coded buflen e l
    → e.existing_bits ≡ 0
    → octet_bits e.output ≡ l
begun e l c aligned =
    sym (no_bits (octet_bits e.output) c.value)
    ∙ ap (λ (t : ℕ). octet_bits e.output ++ bits t c.value) (sym aligned)
    ∙ c.string

module _ (buflen total : ℕ) where
  -- One octet of a long code.
  write_into-Coded :
      (p : Pending) (cells : List ℕ) (l : List Bool)
      → PendingCoded buflen p l
      → length p.encoder.output + length cells ≡ buflen
      → p.encoder.existing_bits ≡ 0
      → 8 < p.bits
      → length l ≤ total
      → Answers buflen total
          (write_into p cells)
          (λ p'. PendingCoded buflen p' l × (p'.bits ≡ p.bits - 8))
  unfolding write_into
  write_into-Coded p [] l c count aligned long fits =
      let size : length l ≡ length c.base + p.bits =
        ap length (sym c.whole)
        ∙ length-append c.base (bits p.bits p.huffcode)
        ∙ ap (λ (t : ℕ). length c.base + t) (length-bits p.bits p.huffcode) in
      inl (refl, omega (arith, size, Coded-length c.encoder))
  write_into-Coded p (cell ∷ cells) l c count aligned long fits =
      let e = p.encoder in
      let high = p.huffcode / 2 ^ (p.bits - 8) in
      inr (
        _,
        refl,
        (
          record {
            base = c.base ++ bits 8 high;
            encoder = record {
              value = c.encoder.value;
              narrow = c.encoder.narrow;
              small = c.encoder.small;
              aligned = c.encoder.aligned;
              string =
                  ap (λ (t : ℕ). octet_bits (e.output ++ u8 high ∷ []) ++ bits t c.encoder.value)
                    aligned
                  ∙ no_bits _ c.encoder.value
                  ∙ octet_bits_snoc e.output high
                  ∙ ap (λ (t : List Bool). t ++ bits 8 high) (begun e c.base c.encoder aligned);
              octets = All-append e.output (u8 high ∷ []) c.encoder.octets (omega arith, tt);
              count = omega (arith, length-append e.output (u8 high ∷ []));
            };
            ending = inr aligned;
            whole =
                append_assoc c.base (bits 8 high) (bits (p.bits - 8) p.huffcode)
                ∙ ap (λ (t : List Bool). c.base ++ t)
                    (sym (bits_split 8 (p.bits - 8) p.bits p.huffcode (omega arith)))
                ∙ c.whole;
          },
          refl,
        ),
      )

  write_octet-Coded :
      (p : Pending) (l : List Bool)
      → PendingCoded buflen p l
      → 8 < p.bits
      → length l ≤ total
      → Answers buflen total
          (write_octet p)
          (λ p'. PendingCoded buflen p' l × (p'.bits ≡ p.bits - 8))
  write_octet-Coded p l c long fits = elim c.ending [
    | inl over ↦ absurd (omega arith)
    | inr aligned ↦ write_into-Coded p p.encoder.cells l c c.encoder.count aligned long fits
  ]

  pub write_octets-Coded :
      (fuel : ℕ) (p : Pending) (l : List Bool)
      → PendingCoded buflen p l
      → p.bits ≤ fuel
      → length l ≤ total
      → Answers buflen total (write_octets fuel p) (λ p'. PendingCoded buflen p' l × (p'.bits ≤ 8))
  unfolding write_octets
  write_octets-Coded zero p l c h fits = inr (p, refl, (c, omega arith))
  write_octets-Coded (suc fuel) p l c h fits = elim (Bool-cases (ltb 8 p.bits)) [
    | inl long ↦ rw long (
        Answers->>= buflen total (write_octet p) (write_octets fuel)
          (write_octet-Coded p l c (ground arith) fits)
          (λ p' done. write_octets-Coded fuel p' l done.0 (ground (arith, done.1)) fits))
    | inr short ↦ rw short (inr (p, refl, (c, ground arith)))
  ]

-- What is left of a code begins an octet.
pub keep_partial-Coded :
    (buflen : ℕ) (p : Pending) (l : List Bool)
    → PendingCoded buflen p l
    → p.bits ≤ 8
    → Coded buflen (keep_partial p) l
unfolding keep_partial
keep_partial-Coded buflen p l c short = elim (Bool-cases (p.bits == 0)) [
  | inl done ↦ rw done (
      let gone : p.bits ≡ 0 = ground arith in
      rw
        (sym (no_bits c.base p.huffcode)
          ∙ ap (λ (t : ℕ). c.base ++ bits t p.huffcode) (sym gone)
          ∙ c.whole)
        at c.encoder)
  | inr some_left ↦ rw some_left (elim c.ending [
    | inl gone ↦ absurd (ground arith)
    | inr aligned ↦ record {
      value = p.huffcode % 2 ^ p.bits;
      narrow = short;
      small = mod-lt p.huffcode (one-le-pow p.bits 2 (omega arith));
      aligned = shift_top p.bits (8 - p.bits) p.huffcode (omega arith);
      string =
          ap (λ (t : List Bool). octet_bits p.encoder.output ++ t) (bits-mod p.bits p.huffcode)
          ∙ ap (λ (t : List Bool). t ++ bits p.bits p.huffcode)
              (begun p.encoder c.base c.encoder aligned)
          ∙ c.whole;
      octets = c.encoder.octets;
      count = c.encoder.count;
    }
  ])
]
