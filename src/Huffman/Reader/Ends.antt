-- ===== src/Huffman/Reader/Ends.antt =====
-- The reader at the two ends of its input: what `bb_reader_init` gives, and when `bb_eos` holds.
use native.Mathlib.Nat.{one-le-pow, mod-eq_of_lt, mul-le-mul_right}
use shitty.Prelude.{ℕ, suc, ◌-◌, ◌*◌, ◌%◌, ◌^◌, ◌≤◌, ◌≡◌, refl, sym, ap, ◌∙◌, arith}
use shitty.Prelude.{
  Bool, true, false, ◌&&◌, leb, ltb, ◌==◌, List, [], ◌∷◌, ◌++◌, Option, none, some, inl, inr,
}
use shitty.Prelude.{
  length, All, IsByte, Bool-cases, bit_and, ltb→lt, holds_below, holds_below→at, ==_iff,
}
use shitty.Bits.{and_high}
use shitty.Bits.Stream.{
  bits, octet_bits, peek, all_ones, peek-bits, peek-lt, peek_high, all_ones-peek,
}
use shitty.Huffman.Reader.{Reader, bb_next, bb_reader_init, bb_eos, top_ones, u8}
use shitty.Huffman.Reader.Refine.{Reads, bb_next-Reads, length-octet_bits}

-- A fresh reader stands at the bit string of the buffer, of any octets.
pub bb_reader_init-Reads :
    (buf : List ℕ) → All IsByte buf → Reads (bb_reader_init buf) (octet_bits buf)
unfolding bb_reader_init bb_next bits
bb_reader_init-Reads buf b =
    let zeroed : Reader = record {
      octet = 0;
      next = 0;
      next_bits = 8;
      eos_after_bits = none;
      input = buf;
    } in
    let blank = bits 8 0 ++ (bits 8 0 ++ octet_bits buf) in
    let start : Reads zeroed blank = record {
      some_next = omega arith;
      most_next = omega arith;
      window = sym (peek-bits 8 0 _);
      behind = omega (arith, peek-bits 8 0 (octet_bits buf));
      tail = refl;
      bytes = b;
      ends = omega (arith, length-octet_bits buf);
    } in
    bb_next-Reads _ 8 _ (omega arith) (bb_next-Reads zeroed 8 blank (omega arith) start)

mask_table : holds_below 9 (λ e. u8 (0xff * 2 ^ (8 - e)) == (2 ^ e - 1) * 2 ^ (8 - e)) ≡ true
unfolding holds_below
mask_table = refl

-- A common factor makes no difference to a test for equality.
==-scaled : (x y scale : ℕ) → 1 ≤ scale → (x * scale == y * scale) ≡ (x == y)
==-scaled x y scale h = elim (Bool-cases (x == y)) [
  | inl same ↦ ground (arith, (==_iff x y).0 same)
  | inr other ↦ elim (Bool-cases (ltb x y)) [
    | inl less ↦
        let apart : suc x * scale ≤ y * scale = mul-le-mul_right scale (ltb→lt x y less) in
        ground arith
    | inr more ↦
        let apart : suc y * scale ≤ x * scale = mul-le-mul_right scale (ground arith) in
        ground arith
  ]
]

-- The masked test of `bb_eos` on the last `e` bits.
top_ones-all_ones : (l : List Bool) → length l ≤ 8 → top_ones (length l) (peek 8 l) ≡ all_ones l
top_ones-all_ones l h =
    let e = length l in
    let scale = 2 ^ (8 - e) in
    let mask : u8 (0xff * 2 ^ (8 - e)) ≡ (2 ^ e - 1) * scale =
      (==_iff _ _).0 (holds_below→at 9 _ mask_table e (omega arith)) in
    let field : bit_and (peek 8 l) ((2 ^ e - 1) * scale) ≡ peek e l * scale =
      and_high (8 - e) e (peek 8 l)
      ∙ ap (λ (t : ℕ). t % 2 ^ e * scale) (sym (peek_high e (8 - e) 8 l (omega arith)))
      ∙ ap (λ (t : ℕ). t * scale) (mod-eq_of_lt (peek-lt e l)) in
    rw (mask, field, all_ones-peek l)
      (==-scaled (peek e l) (2 ^ e - 1) scale (one-le-pow (8 - e) 2 (omega arith)))

eos_by_count :
    (octet next next_bits : ℕ) (eos : Option ℕ) (input : List ℕ) (l : List Bool)
    → let bb : Reader = record {
      octet = octet;
      next = next;
      next_bits = next_bits;
      eos_after_bits = eos;
      input = input;
    } in
      Reads bb l → bb_eos bb ≡ some (leb (length l) 8 && all_ones l)
unfolding bb_eos
eos_by_count octet next nb none input l reads = ground (arith, reads.ends, reads.some_next)
eos_by_count octet next nb (some e) input [] reads = unfold all_ones in ground (arith, reads.ends)
eos_by_count octet next nb (some e) input (b ∷ l) reads =
    let (count, few, _) = reads.ends in
    let test = top_ones-all_ones (b ∷ l) (omega arith) in
    let short : ltb 8 (length (b ∷ l)) ≡ false = ground arith in
    let short' : leb (length (b ∷ l)) 8 ≡ true = ground arith in
    let more : (length (b ∷ l) == 0) ≡ false = ground arith in
    rw (← count, short, short', more, reads.window, test)

-- On every reader that stands at a bit string, `bb_eos` is defined, and true exactly when at
-- most eight bits are left and all of them are ones.
pub bb_eos-Reads :
    (bb : Reader) (l : List Bool) → Reads bb l → bb_eos bb ≡ some (leb (length l) 8 && all_ones l)
bb_eos-Reads bb l reads =
    eos_by_count bb.octet bb.next bb.next_bits bb.eos_after_bits bb.input l reads
