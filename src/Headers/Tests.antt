-- ===== src/Headers/Tests.antt =====
-- Header fields on concrete tables and buffers.
use shitty.Prelude.{ℕ, ◌≡◌, refl, arith, List, [], ◌∷◌, replicate, some, false, leb, if◌then◌else◌}
use shitty.Prelude.{ok, thrown, assert_failed}
use shitty.Number.{encode_number, encode_octets, mask_from_bits}
use shitty.Huffman.Codes.{huffcode, huffcodes}
use shitty.Huffman.Encode.{
  huffman_encode, set_huffman_bit, encode, encode_symbols, encode_symbol, fill_partial, put,
  write_octets, write_into, keep_partial, pad,
}
use shitty.Headers.Table.{Header, DynamicTable, initial_table, insert, resize}
use shitty.Headers.Table.Size.{IsWithin, entry_size, total_size}
use shitty.Headers.Table.Insert.{Kept, insert-Kept, insert-IsWithin}
use shitty.Headers.Table.Resize.{resize-eq}
use shitty.Headers.Decoder.{Parsed, decode_string, parse_headers}
use shitty.Headers.Decoder.Strings.{decode_string-huffman_encode}
use shitty.Headers.Decoder.Loop.{parse_headers_total}

-- A header of 35 octets.
abbrev a_header : Header
a_header = record {
  name = b'a' ∷ [];
  value = b'b' ∷ b'c' ∷ [];
  name_encoded = [];
  value_encoded = [];
  never_indexed = false;
}

-- One header in a table that has room for no other.
abbrev full_table : DynamicTable
full_table = record { size_octets = 40; table = a_header ∷ [] }

full_table-IsWithin : IsWithin full_table
unfolding total_size
full_table-IsWithin = record { fits = omega arith; limit = omega arith }

insert-Kept_example :
    (kept : List Header) × (insert full_table a_header
      ≡ record { size_octets = 40; table = a_header ∷ kept })
    × Kept (a_header ∷ []) (entry_size a_header) 40 kept
insert-Kept_example = insert-Kept full_table a_header full_table-IsWithin (omega arith)

insert-IsWithin_example : IsWithin (insert full_table a_header)
insert-IsWithin_example = insert-IsWithin full_table a_header full_table-IsWithin (omega arith)

abbrev first_index : ℕ
first_index = 62

resize-eq_example : resize full_table 34 ≡ (
    if leb 40 34
    then ok (record { size_octets = 34; table = full_table.table })
    else if leb (total_size full_table.table) 34
    then ok full_table
    else thrown assert_failed)
resize-eq_example = resize-eq full_table 34 full_table-IsWithin

-- A field of the static table, and a literal one that is inserted.
abbrev two_fields : List ℕ
two_fields = 0x82 ∷ 0x40 ∷ 1 ∷ b'a' ∷ 2 ∷ b'b' ∷ b'c' ∷ []

parse_headers_total_example : (p : Parsed) × (parse_headers 7 initial_table two_fields ≡ some p)
parse_headers_total_example = parse_headers_total 7 initial_table two_fields (omega arith)

decode_string-huffman_encode_example :
    decode_string (0x82 ∷ 0xf0 ∷ 0x3f ∷ 1 ∷ [])
    ≡ ok (record { string = b'w' ∷ b'a' ∷ []; encoded = 0x82 ∷ 0xf0 ∷ 0x3f ∷ []; left = 1 ∷ [] })
unfolding huffman_encode set_huffman_bit encode_number encode_octets mask_from_bits encode
    encode_symbols encode_symbol fill_partial put write_octets write_into keep_partial pad huffcode
    huffcodes
decode_string-huffman_encode_example =
    decode_string-huffman_encode huffcode (b'w' ∷ b'a' ∷ []) 0 (replicate 9 0) (replicate 8 0)
      (0x82 ∷ 0xf0 ∷ 0x3f ∷ []) (1 ∷ []) (λ octet small. refl) (omega arith, (omega arith, tt))
      (omega arith) (omega arith) refl

-- A string with a code longer than its buffer.
abbrev newlines : List ℕ
newlines = replicate 5 10
