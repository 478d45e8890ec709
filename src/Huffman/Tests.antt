-- ===== src/Huffman/Tests.antt =====
-- The string codec on concrete strings, some of them of RFC 7541, C.4 and C.6.
use shitty.Prelude.{replicate, ◌<◌, ℕ, ◌≡◌, refl, arith, List, [], ◌∷◌, length, some}
use shitty.Bits.Stream.{octet_bits}
use shitty.Huffman.Reader.{
  bb_next, bb_eos, bb_reader_init, bb_load_next, load_octet, count_down, eos_at, bb_peek,
}
use shitty.Huffman.Reader.Ends.{bb_reader_init-Reads}
use shitty.Huffman.Tables.{
  entry_at, shortbits0, shortbits1_ff, shortbits2_fffe, shortbits2_ffff, shortbits23, shortbits3,
}
use shitty.Huffman.Codes.{huffcode, huffcodes, code_string}
use shitty.Huffman.Decode.{
  huffman_decode, decode_loop, decode_symbol, second_octet, third_octet, fourth_octet, direct,
  tested, one_of_four, decoded, too_small,
}
use shitty.Huffman.Decode.Lookup.{lookup}
use shitty.Huffman.Decode.Agree.{Agrees, windows, decode_symbol-Agrees}
use shitty.Huffman.Decode.Defined.{FitsIn, huffman_decode-FitsIn}
use shitty.Huffman.Encode.{
  encode, encode_symbols, encode_symbol, fill_partial, put, write_octets, write_into, keep_partial,
  pad,
}
use shitty.Number.{encode_number, encode_octets, mask_from_bits}
use shitty.Huffman.Encode.{huffman_encode, set_huffman_bit}
use shitty.Huffman.Encode.Overrun.{huffman_encode-overrun}
use shitty.Huffman.Encode.Invariant.{Answers}
use shitty.Huffman.Encode.Octets.{Padded, encode-code_string}
use shitty.Huffman.Encode.Prefix.{huffman_decode-encode}

-- "wa" in 12 bits
abbrev wa : List ℕ
wa = b'w' ∷ b'a' ∷ []

abbrev coded_wa : List ℕ
coded_wa = 0xf0 ∷ 0x3f ∷ []

encode-wa :
    encode huffcode wa (0 ∷ 0 ∷ 7 ∷ []) ≡ some (record { octets = coded_wa; untouched = 7 ∷ [] })
unfolding encode encode_symbols encode_symbol fill_partial put write_octets write_into keep_partial
    pad huffcode huffcodes
encode-wa = refl

decode_wa : huffman_decode coded_wa 8 2 ≡ decoded wa
unfolding huffman_decode decode_loop decode_symbol second_octet third_octet fourth_octet direct
    tested one_of_four bb_next bb_eos bb_reader_init bb_load_next load_octet count_down eos_at
    bb_peek entry_at shortbits0 shortbits1_ff shortbits2_fffe shortbits2_ffff shortbits23 shortbits3
decode_wa = refl

decode_wa_short : huffman_decode coded_wa 8 1 ≡ too_small
unfolding huffman_decode decode_loop decode_symbol second_octet third_octet fourth_octet direct
    tested one_of_four bb_next bb_eos bb_reader_init bb_load_next load_octet count_down eos_at
    bb_peek entry_at shortbits0 shortbits1_ff shortbits2_fffe shortbits2_ffff shortbits23 shortbits3
decode_wa_short = refl

huffman_decode-encode_example : huffman_decode coded_wa 8 2 ≡ decoded wa
unfolding encode encode_symbols encode_symbol fill_partial put write_octets write_into keep_partial
    pad huffcode huffcodes
huffman_decode-encode_example =
    huffman_decode-encode huffcode wa (0 ∷ 0 ∷ 7 ∷ [])
      (record { octets = coded_wa; untouched = 7 ∷ [] }) 2 (λ octet small. refl)
      (omega arith, (omega arith, tt)) (omega arith) refl

encode-code_string_example :
    Answers 3
      (length (code_string wa))
      (encode huffcode wa (0 ∷ 0 ∷ 7 ∷ []))
      (Padded 3 (code_string wa))
encode-code_string_example =
    encode-code_string huffcode wa (0 ∷ 0 ∷ 7 ∷ []) (λ octet small. refl)
      (omega arith, (omega arith, tt))

decode_symbol-Agrees_example :
    Agrees
      (lookup (windows 4 (octet_bits coded_wa)))
      (decode_symbol (bb_reader_init coded_wa))
      (octet_bits coded_wa)
decode_symbol-Agrees_example =
    decode_symbol-Agrees (bb_reader_init coded_wa) (octet_bits coded_wa)
      (bb_reader_init-Reads coded_wa (omega arith, (omega arith, tt)))

huffman_decode-FitsIn_example : FitsIn 4 (huffman_decode (0xff ∷ 0xff ∷ 0xfe ∷ 1 ∷ []) 5 4)
huffman_decode-FitsIn_example =
    huffman_decode-FitsIn (0xff ∷ 0xff ∷ 0xfe ∷ 1 ∷ []) 5 4
      (omega arith, (omega arith, (omega arith, (omega arith, tt)))) (omega arith) (omega arith)

-- A string whose code is 127 octets, for a buffer of 128.
abbrev long_input : List ℕ
long_input = replicate 127 b'X'

abbrev long_code : List ℕ
long_code = replicate 127 0xfc

huffman_encode-overrun_example : 128 < length (0xff ∷ 0 ∷ long_code)
unfolding huffman_encode set_huffman_bit encode_number encode_octets mask_from_bits encode
    encode_symbols encode_symbol fill_partial put write_octets write_into keep_partial pad huffcode
    huffcodes
huffman_encode-overrun_example =
    huffman_encode-overrun huffcode long_input 0 (replicate 9 0) 0 (replicate 127 0)
      (0xff ∷ 0 ∷ long_code) (record { octets = long_code; untouched = [] }) refl refl (omega arith)
      refl
