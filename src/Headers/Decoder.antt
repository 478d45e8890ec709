-- ===== src/Headers/Decoder.antt =====
-- `HeaderDecoder`. A `span` is the list of the octets left; a method that advances its `buf` returns
-- the list behind.
pub mod Strings
pub mod Parse
pub mod Loop
use shitty.Prelude.{
  ℕ, zero, suc, ◌+◌, ◌*◌, ◌/◌, ◌%◌, ◌^◌, bit_and, ltb, leb, ◌==◌, if◌then◌else◌, Bool, true, false,
  not,
}
use shitty.Prelude.{List, [], ◌∷◌, ◌++◌, Option, none, some, length, take, drop}
use shitty.Prelude.{
  Result, ok, thrown, Exception, runtime_error, logic_error, length_error, undefined_behaviour,
  ◌>>=◌,
}
use shitty.Number.{Decoded, used, failed, u64, decode_number}
use shitty.Huffman.Decode.{Outcome, decoded, too_small, bad_arguments, undefined, huffman_decode}
use shitty.Headers.Table.{
  Header, DynamicTable, u32, set_value, set_never_indexed, insert, resize, get,
}

-- `if (len < 1) throw`, where the errors are the lengths below 1.
unfoldable pub checked : Decoded → Result (ℕ × ℕ)
checked (used len number) = ok (len, number)
checked (failed e) = thrown runtime_error

-- A decoded number, behind its length.
unfoldable pub number_at : List ℕ → ℕ → Result (ℕ × ℕ)
number_at buf bits = checked (decode_number buf bits)

-- A string and its encoded form, in front of the octets left.
pub record Text : Type 0 where
  pub string : List ℕ
  pub encoded : List ℕ
  pub left : List ℕ

unfoldable pub decode_raw_string : List ℕ → Result Text
decode_raw_string buf = number_at buf 7 >>= λ (len, slen).
    let behind = drop len buf in
    if ltb (length behind) slen
    then thrown runtime_error
    else ok (record {
      string = take slen behind;
      encoded = take len buf ++ take slen behind;
      left = drop slen behind;
    })

-- `s.resize(decoded_len)`, where -1 is the largest `size_t`. The -3 of bad arguments would do the same.
abbrev pub resized : Outcome → Result (List ℕ)
resized (decoded octets) = ok octets
resized too_small = thrown length_error
resized bad_arguments = thrown length_error
resized undefined = thrown undefined_behaviour

unfoldable pub decode_huff_string : List ℕ → Result Text
decode_huff_string buf = number_at buf 7 >>= λ (len, coded_len).
    let behind = drop len buf in
    if ltb (length behind) coded_len
    then thrown runtime_error
    else (resized (huffman_decode (take coded_len behind) 8 (u64 (coded_len * 8) / 5 + 1)) >>= λ s.
        ok (record {
          string = s;
          encoded = take len buf ++ take coded_len behind;
          left = drop coded_len behind;
        }))

unfoldable pub decode_string : List ℕ → Result Text
decode_string [] = thrown runtime_error
decode_string (octet ∷ octets) =
    if not (bit_and octet 0x80 == 0)
    then decode_huff_string (octet ∷ octets)
    else decode_raw_string (octet ∷ octets)

-- A header field: the header, the table and the octets behind.
pub record Field : Type 0 where
  pub header : Header
  pub dtable : DynamicTable
  pub left : List ℕ

unfoldable pub decode_indexed : DynamicTable → List ℕ → Result Field
decode_indexed t buf = number_at buf 7 >>= λ (len, idx).
    get t (u32 idx) >>= λ h. ok (record { header = h; dtable = t; left = drop len buf })

unfoldable pub decode_literal_indexed : DynamicTable → ℕ → List ℕ → Result Field
decode_literal_indexed t index buf = get t index >>= λ h. decode_string buf >>= λ value.
    ok (record { header = set_value h value.string value.encoded; dtable = t; left = value.left })

unfoldable pub decode_literal_new : DynamicTable → List ℕ → Result Field
decode_literal_new t buf = decode_string buf >>= λ name. decode_string name.left >>= λ value.
    ok (record {
      header = record {
        name = name.string;
        value = value.string;
        name_encoded = name.encoded;
        value_encoded = value.encoded;
        never_indexed = false;
      };
      dtable = t;
      left = value.left;
    })

unfoldable pub decode_literal : DynamicTable → List ℕ → ℕ → Result Field
decode_literal t buf length_bits = number_at buf length_bits >>= λ (len, idx).
    if idx == 0
    then decode_literal_new t (drop len buf)
    else decode_literal_indexed t (u32 idx) (drop len buf)

unfoldable pub decode_literal_incremental : DynamicTable → List ℕ → Result Field
decode_literal_incremental t buf = decode_literal t buf 6 >>= λ f.
    ok (record { header = f.header; dtable = insert f.dtable f.header; left = f.left })

-- The table, resized, and the octets behind the size update.
pub record Resized : Type 0 where
  pub dtable : DynamicTable
  pub left : List ℕ

unfoldable pub dynamic_table_resize : DynamicTable → List ℕ → Result Resized
dynamic_table_resize t [] = thrown logic_error
dynamic_table_resize t (octet ∷ octets) =
    let buf = octet ∷ octets in
    if bit_and octet 0x02 == 0x02
    then (number_at buf 5 >>= λ (len, new_size).
        resize t (u32 new_size) >>= λ t'. ok (record { dtable = t'; left = drop len buf }))
    else thrown logic_error

unfoldable pub decode_literal_without_indexing : DynamicTable → List ℕ → Result Field
decode_literal_without_indexing t buf = decode_literal t buf 4

unfoldable pub decode_literal_never_indexed : DynamicTable → List ℕ → Result Field
decode_literal_never_indexed t buf = decode_literal t buf 4 >>= λ f.
    ok (record { header = set_never_indexed f.header; dtable = f.dtable; left = f.left })

-- One pass of the loop of `parseHeaders`: the headers that it adds, one or none, and the state behind.
pub record Pass : Type 0 where
  pub added : List Header
  pub dtable : DynamicTable
  pub left : List ℕ

abbrev one_header : Field → Result Pass
one_header f = ok (record { added = f.header ∷ []; dtable = f.dtable; left = f.left })

unfoldable pub parse_field : DynamicTable → ℕ → List ℕ → Result Pass
parse_field t octet octets =
    let buf = octet ∷ octets in
    if not (bit_and octet 0x80 == 0)
    then decode_indexed t buf >>= one_header
    else if not (bit_and octet 0x40 == 0)
    then decode_literal_incremental t buf >>= one_header
    else if not (bit_and octet 0x20 == 0)
    then dynamic_table_resize t buf
      >>= (λ r. ok (record { added = []; dtable = r.dtable; left = r.left }))
    else if not (bit_and octet 0x10 == 0)
    then decode_literal_never_indexed t buf >>= one_header
    else decode_literal_without_indexing t buf >>= one_header

-- What `parseHeaders` returns or throws, and the decoder's table behind the call.
pub record Parsed : Type 0 where
  pub headers : Result (List Header)
  pub dtable : DynamicTable

abbrev pub add_headers : List Header → Parsed → Parsed
add_headers added p = record { headers = p.headers >>= λ hs. ok (added ++ hs); dtable = p.dtable }

-- On fuel: `none` is a run that has used it up.
unfoldable pub parse_headers : ℕ → DynamicTable → List ℕ → Option Parsed
parse_headers fuel t [] = some (record { headers = ok []; dtable = t })
parse_headers zero t (octet ∷ octets) = none
parse_headers (suc fuel) t (octet ∷ octets) = elim (parse_field t octet octets) [
  | thrown e ↦ some (record { headers = thrown e; dtable = t })
  | ok p ↦ elim (parse_headers fuel p.dtable p.left) [
    | none ↦ none
    | some rest ↦ some (add_headers p.added rest)
  ]
]
