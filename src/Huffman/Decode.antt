-- ===== src/Huffman/Decode.antt =====
-- The decoder, `huffman_decode` of src/dependencies/hpack/huffy/decode.c.
-- The calls with a null `buf` or `dest` are left out: their answer is the -3 of a bad
-- `first_octet_bits`, and no caller makes one.
pub mod Lookup
pub mod Agree
pub mod Defined
pub mod CodeString
use shitty.Prelude.{
  ℕ, zero, suc, ◌+◌, ◌-◌, ◌*◌, ◌/◌, ◌%◌, ◌^◌, bit_and, bit_or, ltb, ◌==◌, get_elem?,
}
use shitty.Prelude.{
  if◌then◌else◌, Bool, true, false, not, ◌&&◌, ◌||◌, List, [], ◌∷◌, Option, none, some,
}
use shitty.Huffman.Reader.{Reader, u8, bb_eos, bb_peek, bb_next, bb_reader_init}
use shitty.Huffman.Tables.{FastFindSymbol, Run, entry_at, sentinel}
use shitty.Huffman.Tables.{
  shortbits0, shortbits1_ff, shortbits2_fffe, shortbits2_ffff, shortbits23, shortbits3,
}

-- One pass of the loop behind the test for the end of the string: an octet for `*dest` and the
-- reader behind its symbol, or the return at the EOS symbol. `fault` is a read out of range.
pub data Step : Type 0 where
  symbol : ℕ → Reader → Step
  stop fault : Step

-- `*dest = sym.octet; ++dest; bb_next(&reader, seek)`
abbrev accept : FastFindSymbol → ℕ → Reader → Step
accept sym seek reader = symbol sym.octet (bb_next reader seek)

-- An entry that is not tested for the sentinel.
unfoldable pub direct : Option FastFindSymbol → (FastFindSymbol → ℕ) → Reader → Step
direct none seek reader = fault
direct (some sym) seek reader = accept sym (seek sym) reader

-- An entry that is, with what is done at a sentinel.
unfoldable pub tested : Option FastFindSymbol → (FastFindSymbol → ℕ) → Reader → Step → Step
tested none seek reader otherwise = fault
tested (some sym) seek reader otherwise =
    if sym.octet == sentinel then otherwise else accept sym (seek sym) reader

abbrev pub modulo_octet : FastFindSymbol → ℕ
modulo_octet sym = sym.bits % 8

-- Behind three octets of ones, or nearly: `octet` is the third of them.
unfoldable pub fourth_octet : ℕ → Reader → Step
fourth_octet octet reader =
    if not (octet == 0xfe) && not (octet == 0xff)
    then direct (entry_at shortbits23 (bit_or (u8 (octet * 2 ^ 4)) (bb_peek reader / 2 ^ 4)))
        modulo_octet reader
    else tested (entry_at shortbits3 (bit_or (bit_and (octet * 2 ^ 6) 64) (bb_peek reader / 2 ^ 2)))
        modulo_octet reader stop

unfoldable pub third_octet : ℕ → Reader → Step
third_octet octet reader =
    if octet == 0xfe
    then direct (entry_at shortbits2_fffe (bb_peek reader)) modulo_octet reader
    else tested (entry_at shortbits2_ffff (bb_peek reader)) (λ sym. sym.bits - 16) reader
        (fourth_octet (bb_peek reader) (bb_next reader 8))

-- `octets[octet >> 6]`, the four symbols behind fe.
abbrev pub four_symbols : List ℕ
four_symbols = b'!' ∷ b'"' ∷ b'(' ∷ b')' ∷ []

unfoldable pub one_of_four : Option ℕ → Reader → Step
one_of_four none reader = fault
one_of_four (some octet) reader = symbol octet (bb_next reader 2)

unfoldable pub second_octet : ℕ → Reader → Step
second_octet octet reader =
    if octet == 0xfe
    then one_of_four (get_elem? four_symbols (bb_peek reader / 2 ^ 6)) reader
    else tested (entry_at shortbits1_ff (bb_peek reader)) modulo_octet reader
        (third_octet (bb_peek reader) (bb_next reader 8))

unfoldable pub decode_symbol : Reader → Step
decode_symbol reader =
    tested (entry_at shortbits0 (bb_peek reader)) (λ sym. sym.bits) reader
      (second_octet (bb_peek reader) (bb_next reader 8))

-- What the call returns: the octets written to `dest`, whose count is the return value; or -1, with
-- `dest` full before the end of the string; or -3. `undefined` is undefined behaviour.
pub data Outcome : Type 0 where
  decoded : List ℕ → Outcome
  too_small bad_arguments undefined : Outcome

abbrev pub emit : ℕ → Outcome → Outcome
emit octet (decoded octets) = decoded (octet ∷ octets)
emit octet too_small = too_small
emit octet bad_arguments = bad_arguments
emit octet undefined = undefined

abbrev pub at_end : Option Bool → Outcome
at_end none = undefined
at_end (some true) = decoded []
at_end (some false) = too_small

-- The loop with `room` octets left between `dest` and `end`.
unfoldable pub decode_loop : ℕ → Reader → Outcome
decode_loop zero reader = at_end (bb_eos reader)
decode_loop (suc room) reader = elim (bb_eos reader) [
  | none ↦ undefined
  | some true ↦ decoded []
  | some false ↦ elim (decode_symbol reader) [
    | symbol octet reader' ↦ emit octet (decode_loop room reader')
    | stop ↦ decoded []
    | fault ↦ undefined
  ]
]

unfoldable pub huffman_decode : List ℕ → ℕ → ℕ → Outcome
huffman_decode buf first_octet_bits destlen =
    let reader = bb_reader_init buf in
    let aligned = if first_octet_bits == 8 then reader else bb_next reader (8 - first_octet_bits) in
    if ltb first_octet_bits 1 || ltb 8 first_octet_bits
    then bad_arguments
    else decode_loop destlen aligned
