-- ===== src/Huffman/Encode/Octets.antt =====
-- The octets that the encoder writes for a string are the string's code, filled up with ones.
use native.Mathlib.Nat.{one-le-pow}
use shitty.Prelude.{ℕ, ◌+◌, ◌-◌, ◌*◌, ◌^◌, ◌≤◌, ◌<◌, ◌≡◌, refl, ap, sym, ◌∙◌, arith, inl, inr, ◌==◌}
use shitty.Prelude.{
  bit_or, Bool, true, List, [], ◌∷◌, ◌++◌, length, length-append, append_assoc, append-nil, All,
  IsByte, Bool-cases, replicate,
}
use shitty.Number.{Written}
use shitty.Bits.{or_disjoint}
use shitty.Bits.Stream.{bits, octet_bits, length-bits, bits_fields}
use shitty.Bits.Fields.{bits_ones}
use shitty.Huffman.Codes.{Encv, huffcode, code_string}
use shitty.Huffman.Decode.Lookup.{huffcode-IsCode}
use shitty.Huffman.Encode.{
  Encoder, fill_partial, write_octets, keep_partial, encode_symbol, encode_symbols, pad, encode,
}
use shitty.Huffman.Encode.Invariant.{Answers, Answers->>=, Coded, Coded-length, put-Coded}
use shitty.Huffman.Encode.Symbols.{fields-lt, fill_partial-Coded}
use shitty.Huffman.Encode.Writes.{begun, write_octets-Coded, keep_partial-Coded}

-- Octets that are a string of bits with fewer than eight ones behind it, in a buffer.
pub record Padded (buflen : ℕ) (l : List Bool) (w : Written) : Type 0 where
  pub padding : ℕ
  pub below : padding < 8
  pub string : octet_bits w.octets ≡ l ++ replicate padding true
  pub octets : All IsByte w.octets
  pub count : length w.octets + length w.untouched ≡ buflen

-- The octet that `pad` completes.
filled :
    (q free partial : ℕ)
    → partial ≡ q * 2 ^ free
    → bit_or partial (2 ^ free - 1) ≡ q * 2 ^ free + (2 ^ free - 1)
filled q free partial h =
    ap (λ (t : ℕ). bit_or t (2 ^ free - 1)) h
    ∙ or_disjoint free q (2 ^ free - 1) (omega (arith, one-le-pow free 2 (omega arith)))

-- The encoder at the start.
fresh-Coded :
    (buf : List ℕ)
    → Coded (length buf) (record { existing_bits = 0; partial = 0; output = []; cells = buf }) []
unfolding octet_bits bits
fresh-Coded buf = record {
  value = 0;
  narrow = omega arith;
  small = omega arith;
  aligned = refl;
  string = refl;
  octets = tt;
  count = omega arith;
}

module _ (buflen total : ℕ) where
  -- A whole pass.
  encode_symbol-Coded :
      (encv : Encv) (e : Encoder) (l : List Bool)
      → Coded buflen e l
      → encv.value < 2 ^ encv.bits
      → length l + encv.bits ≤ total
      → Answers buflen total
          (encode_symbol encv e)
          (λ e'. Coded buflen e' (l ++ bits encv.bits encv.value))
  unfolding encode_symbol
  encode_symbol-Coded encv e l c small fits =
      let l' = l ++ bits encv.bits encv.value in
      let fits' : length l' ≤ total =
        omega
          (arith, length-append l (bits encv.bits encv.value), length-bits encv.bits encv.value) in
      Answers->>= buflen total (fill_partial encv e) _
        (fill_partial-Coded buflen total encv e l c small fits)
        (λ p c'.
          Answers->>= buflen total (write_octets p.bits p) _
            (write_octets-Coded buflen total p.bits p l' c' (omega arith) fits')
            (λ p' done. inr (keep_partial p', refl, keep_partial-Coded buflen p' l' done.0 done.1)))

  encode_symbols-Coded :
      (etable : ℕ → Encv) (octets : List ℕ) (e : Encoder) (l : List Bool)
      → ((octet : ℕ) → octet < 256 → etable octet ≡ huffcode octet)
      → All IsByte octets
      → Coded buflen e l
      → length l + length (code_string octets) ≤ total
      → Answers buflen total
          (encode_symbols etable octets e)
          (λ e'. Coded buflen e' (l ++ code_string octets))
  unfolding encode_symbols code_string
  encode_symbols-Coded etable [] e l table b c fits = inr (e, refl, rw (append-nil l) c)
  encode_symbols-Coded etable (octet ∷ octets) e l table (b, bs) c fits =
      let encv = huffcode octet in
      let code = bits encv.bits encv.value in
      let ok = huffcode-IsCode octet b in
      let size = length-append code (code_string octets) in
      let small : encv.value < 2 ^ encv.bits = omega (arith, ok.not_ones) in
      rw (table octet b) (
        Answers->>= buflen total (encode_symbol encv e) _
          (encode_symbol-Coded encv e l c small
            (omega (arith, size, length-bits encv.bits encv.value)))
          (λ e' c'. rw (append_assoc l code (code_string octets)) at (
            encode_symbols-Coded etable octets e' (l ++ code) table bs c'
              (omega (arith, size, length-append l code)))))

  -- The padding.
  pad-Coded :
      (e : Encoder) (l : List Bool)
      → Coded buflen e l
      → length l ≡ total
      → Answers buflen total (pad e) (Padded buflen l)
  unfolding pad
  pad-Coded e l c fits =
      let free = 8 - e.existing_bits in
      let ones = 2 ^ free - 1 in
      let pos = one-le-pow free 2 (omega arith) in
      let size = Coded-length c in
      elim (Bool-cases (e.existing_bits == 0)) [
        | inl aligned ↦ rw aligned (
            inr (
              _,
              refl,
              record {
                padding = 0;
                below = omega arith;
                string = begun e l c (ground arith) ∙ sym (append-nil l);
                octets = c.octets;
                count = c.count;
              },
            ))
        | inr some_left ↦
            rw (some_left, filled c.value free e.partial c.aligned)
              (Answers->>= buflen total _ _
                (put-Coded buflen total (c.value * 2 ^ free + ones) e.output e.cells
                  (fields-lt e.existing_bits free 8 c.value ones (omega (arith, c.narrow)) c.small
                    (omega (arith, pos)))
                  c.octets c.count (ground (arith, size)))
                (λ e' done. inr (
                  _,
                  refl,
                  record {
                    padding = free;
                    below = ground arith;
                    string =
                        begun e' _ done.0 done.1
                        ∙ ap (λ (t : List Bool). octet_bits e.output ++ t)
                            (bits_fields e.existing_bits free 8 c.value ones
                                (omega (arith, c.narrow)) (omega (arith, pos))
                              ∙ ap (λ (t : List Bool). bits e.existing_bits c.value ++ t)
                                  (bits_ones free))
                        ∙ sym (
                            append_assoc (octet_bits e.output) (bits e.existing_bits c.value)
                              (replicate free true))
                        ∙ ap (λ (t : List Bool). t ++ replicate free true) c.string;
                    octets = done.0.octets;
                    count = done.0.count;
                  },
                )))
      ]

-- Where `etable` holds huffcodes.txt, on a string of octets, `encode` succeeds where the string's code fits the buffer, and then the octets written are the code,
-- with fewer than eight ones behind it; it returns -1 only where the code does not fit.
pub encode-code_string :
    (etable : ℕ → Encv) (input buf : List ℕ)
    → ((octet : ℕ) → octet < 256 → etable octet ≡ huffcode octet)
    → All IsByte input
    → Answers
        (length buf)
        (length (code_string input))
        (encode etable input buf)
        (Padded (length buf) (code_string input))
unfolding encode
encode-code_string etable input buf table b =
    let fresh : Encoder = record { existing_bits = 0; partial = 0; output = []; cells = buf } in
    let total = length (code_string input) in
    Answers->>= (length buf) total _ _
      (encode_symbols-Coded (length buf) total etable input fresh [] table b (fresh-Coded buf)
        (omega arith))
      (λ e c. pad-Coded (length buf) total e (code_string input) c refl)
