-- ===== src/Headers/Decoder/Strings.antt =====
-- A string that `huffman_encode` wrote, as `decode_string_from_rbuf` reads it.
use shitty.Prelude.{
  ℕ, ◌+◌, ◌*◌, ◌/◌, ◌^◌, ◌≤◌, ◌<◌, ◌≡◌, refl, sym, ◌∙◌, arith, ◌==◌, ltb, bit_and, bit_or,
}
use shitty.Prelude.{
  List, [], ◌∷◌, ◌++◌, some, length, length-append, All, IsByte, not, true, false, holds_below,
  holds_below→at, take-append, drop-append, append_assoc, get_or,
}
use shitty.Prelude.{ok}
use shitty.Number.{decode_number, used, u64}
use shitty.Bits.Stream.{bits, length-bits}
use shitty.Huffman.Codes.{Encv, huffcode, code_string}
use shitty.Huffman.Decode.{huffman_decode, decoded}
use shitty.Huffman.Decode.Lookup.{huffcode-IsCode}
use shitty.Huffman.Encode.{huffman_encode, set_huffman_bit}
use shitty.Huffman.Encode.Prefix.{huffman_encode-StringLiteral, length-set_huffman_bit}
use shitty.Headers.Decoder.{checked, number_at, decode_huff_string, decode_string}

-- Every code has five bits or more.
code_string-wide :
    (input : List ℕ) → All IsByte input → 5 * length input ≤ length (code_string input)
unfolding code_string
code_string-wide [] b = omega arith
code_string-wide (octet ∷ octets) (b, bs) =
    let encv = huffcode octet in
    let ok = huffcode-IsCode octet b in
    omega (
      arith,
      ok.wide,
      length-append (bits encv.bits encv.value) (code_string octets),
      length-bits encv.bits encv.value,
      code_string-wide octets bs,
    )

flag_table : holds_below 256 (λ o. not (bit_and (bit_or o 0x80) 0x80 == 0)) ≡ true
unfolding holds_below
flag_table = refl

-- The Huffman bit selects the Huffman branch.
decode_string-huffman :
    (prefix behind : List ℕ)
    → 1 ≤ length prefix
    → get_or prefix 0 0 < 256
    → decode_string (set_huffman_bit prefix ++ behind)
      ≡ decode_huff_string (set_huffman_bit prefix ++ behind)
unfolding decode_string set_huffman_bit
decode_string-huffman [] behind h b = absurd (omega arith)
decode_string-huffman (octet ∷ octets) behind h b =
    rw (holds_below→at 256 _ flag_table octet b) refl

pub number_at-ok :
    (buf : List ℕ) (bits n v : ℕ)
    → decode_number buf bits ≡ used n v
    → number_at buf bits ≡ ok (n, v)
unfolding number_at checked
number_at-ok buf bits n v e = rw e refl

-- A literal, with anything behind it.
decode_huff_string-literal :
    (input prefix payload rest : List ℕ)
    → decode_number (set_huffman_bit prefix ++ (payload ++ rest)) 7
      ≡ used (length prefix) (length payload)
    → huffman_decode payload 8 (u64 (length payload * 8) / 5 + 1) ≡ decoded input
    → decode_huff_string (set_huffman_bit prefix ++ (payload ++ rest))
      ≡ ok (record { string = input; encoded = set_huffman_bit prefix ++ payload; left = rest })
unfolding decode_huff_string
decode_huff_string-literal input prefix payload rest e e' =
    let lead = set_huffman_bit prefix in
    let size = sym (length-set_huffman_bit prefix) in
    let fits : ltb (length (payload ++ rest)) (length payload) ≡ false =
      ground (arith, length-append payload rest) in
    rw (number_at-ok (lead ++ (payload ++ rest)) 7 _ _ e, decode_huff_string)
      (rw
        (
          drop-append (length prefix) lead (payload ++ rest) size,
          take-append (length prefix) lead (payload ++ rest) size,
          fits,
          take-append (length payload) payload rest refl,
          drop-append (length payload) payload rest refl,
          e',
        )
        refl)

-- Where `etable` holds huffcodes.txt and the buffer is below 2^61 octets, what a successful
-- `huffman_encode` wrote for a string of octets, whatever `encoded_number` held, and with anything
-- behind it, `decode_string_from_rbuf` reads back: the string, its encoded form, and the octets behind.
pub decode_string-huffman_encode :
    (etable : ℕ → Encv) (input : List ℕ) (n : ℕ) (scratch buf octets rest : List ℕ)
    → ((octet : ℕ) → octet < 256 → etable octet ≡ huffcode octet)
    → All IsByte input
    → n < 256
    → length buf < 2 ^ 61
    → huffman_encode etable input (n ∷ scratch) buf ≡ some octets
    → decode_string (octets ++ rest) ≡ ok (record { string = input; encoded = octets; left = rest })
decode_string-huffman_encode etable input n scratch buf octets rest table b hn small e =
    let s =
      huffman_encode-StringLiteral etable input n scratch buf octets table b hn (omega arith) e in
    let wide = code_string-wide input b in
    let lead = set_huffman_bit s.prefix in
    let fits : length input ≤ u64 (length s.payload * 8) / 5 + 1 =
      omega (arith, s.size, wide, s.short) in
    rw (s.whole, append_assoc lead s.payload rest)
      (decode_string-huffman s.prefix (s.payload ++ rest) s.begins s.octet
        ∙ decode_huff_string-literal input s.prefix s.payload rest
            (s.length_read (s.payload ++ rest)) (s.payload_read _ fits))
