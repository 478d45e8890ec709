-- ===== src/Huffman/Reader/Tests.antt =====
-- The reader on concrete octets.
use shitty.Prelude.{ℕ, ◌≡◌, refl, arith, List, [], ◌∷◌, drop, some, true}
use shitty.Bits.Stream.{octet_bits}
use shitty.Huffman.Reader.{
  bb_next, bb_eos, bb_reader_init, bb_load_next, load_octet, count_down, eos_at,
}
use shitty.Huffman.Reader.Refine.{Reads, bb_next-Reads}
use shitty.Huffman.Reader.Ends.{bb_reader_init-Reads}

abbrev two_octets : List ℕ
two_octets = 0xa5 ∷ 0x3f ∷ []

bb_next-Reads_example :
    Reads (bb_next (bb_reader_init two_octets) 3) (drop 3 (octet_bits two_octets))
bb_next-Reads_example =
    bb_next-Reads (bb_reader_init two_octets) 3 (octet_bits two_octets) (omega arith)
      (bb_reader_init-Reads two_octets (omega arith, (omega arith, tt)))

-- An octet of ones is padding.
eos_of_ones : bb_eos (bb_reader_init (0xff ∷ [])) ≡ some true
unfolding bb_eos bb_reader_init bb_load_next load_octet count_down eos_at
eos_of_ones = refl
