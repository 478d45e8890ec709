-- ===== src/Huffman/Encode/Prefix.antt =====
-- The whole codec: what `encode` and `huffman_encode` write is read back.
use shitty.Prelude.{ℕ, ◌*◌, ◌^◌, ◌≤◌, ◌<◌, ◌≡◌, refl, ap, ◌∙◌, arith, inl, inr, ==_iff, ◌==◌}
use shitty.Prelude.{
  bit_and, bit_or, List, [], ◌∷◌, ◌++◌, some, length, length-append, replicate, get_or, All, IsByte,
  true, holds_below, holds_below→at,
}
use shitty.Number.{Written, encode_number, decode_number, mask_from_bits, used}
use shitty.Number.RoundTrip.{decode_number-encode_number, encode_number_cases}
use shitty.Number.Octets.{small_octet, full_octet}
use shitty.Huffman.Reader.Refine.{length-octet_bits}
use shitty.Huffman.Codes.{Encv, huffcode, code_string}
use shitty.Huffman.Decode.{huffman_decode, decoded}
use shitty.Huffman.Decode.CodeString.{huffman_decode-code_string}
use shitty.Huffman.Encode.{encode, huffman_encode, set_huffman_bit}
use shitty.Huffman.Encode.Invariant.{>>=-eq-some}
use shitty.Huffman.Encode.Octets.{Padded, encode-code_string}

-- The result of a successful call.
pub encode-Padded :
    (etable : ℕ → Encv) (input buf : List ℕ) (w : Written)
    → ((octet : ℕ) → octet < 256 → etable octet ≡ huffcode octet)
    → All IsByte input
    → encode etable input buf ≡ some w
    → Padded (length buf) (code_string input) w
encode-Padded etable input buf w table b e = elim (encode-code_string etable input buf table b) [
  | inl (failed, h) ↦ cc
  | inr (w', e', p) ↦ let same : w' ≡ w = cc in rw same at p
]

-- Where `etable` holds huffcodes.txt, what a successful `encode` wrote for a string of octets,
-- `huffman_decode` reads back, into a `dest` with room for the string.
pub huffman_decode-encode :
    (etable : ℕ → Encv) (input buf : List ℕ) (w : Written) (destlen : ℕ)
    → ((octet : ℕ) → octet < 256 → etable octet ≡ huffcode octet)
    → All IsByte input
    → length input ≤ destlen
    → encode etable input buf ≡ some w
    → huffman_decode w.octets 8 destlen ≡ decoded input
huffman_decode-encode etable input buf w destlen table b fits e =
    let p = encode-Padded etable input buf w table b e in
    huffman_decode-code_string w.octets input p.padding destlen p.octets b p.below fits p.string

-- The Huffman bit is outside the prefix.
huffman_bit_table :
    holds_below 256
      (λ o. bit_and (bit_or o 0x80) (mask_from_bits 7) == bit_and o (mask_from_bits 7))
    ≡ true
unfolding holds_below mask_from_bits
huffman_bit_table = refl

pub decode_number-set_huffman_bit :
    (octet : ℕ) (octets : List ℕ)
    → octet < 256
    → decode_number (bit_or octet 0x80 ∷ octets) 7 ≡ decode_number (octet ∷ octets) 7
unfolding decode_number
decode_number-set_huffman_bit octet octets b =
    rw ((==_iff _ _).0 (holds_below→at 256 _ huffman_bit_table octet b))

-- The parts of a successful `huffman_encode`.
pub huffman_encode_parts :
    (etable : ℕ → Encv) (input encoded_number buf octets : List ℕ)
    → huffman_encode etable input encoded_number buf ≡ some octets
    → (cell : ℕ) × ((cells : List ℕ) × (buf ≡ cell ∷ cells)
        × ((string : Written) × (encode etable input cells ≡ some string)
            × ((prefix : Written) × (encode_number (length string.octets) 7 encoded_number
                  ≡ some prefix)
                × (octets ≡ set_huffman_bit prefix.octets ++ string.octets))))
unfolding huffman_encode
huffman_encode_parts etable input encoded_number [] octets e = cc
huffman_encode_parts etable input encoded_number (cell ∷ cells) octets e =
    let (string, done, e') = >>=-eq-some (encode etable input cells) _ e in
    let (prefix, done', e'') =
      >>=-eq-some (encode_number (length string.octets) 7 encoded_number) _ e' in
    (cell, (cells, refl, (string, done, (prefix, done', cc))))

-- The first octet of a prefix written over an octet is an octet.
first_octet :
    (prefix : Written) (cell : ℕ) (cells : List ℕ) (size : ℕ)
    → cell < 256
    → encode_number size 7 (cell ∷ cells) ≡ some prefix
    → get_or prefix.octets 0 0 < 256
first_octet prefix cell cells size b e = elim (encode_number_cases size 7 cell cells prefix e) [
  | inl (h, small, o) ↦ rw o (omega (arith, (small_octet 7 cell size h b small).1))
  | inr (h, big, (more, e', o)) ↦ rw o (omega (arith, (full_octet 7 cell h).1))
]

decode_number-huffman_prefix :
    (prefix rest : List ℕ)
    → get_or prefix 0 0 < 256
    → decode_number (set_huffman_bit prefix ++ rest) 7 ≡ decode_number (prefix ++ rest) 7
unfolding set_huffman_bit
decode_number-huffman_prefix [] rest b = refl
decode_number-huffman_prefix (octet ∷ octets) rest b =
    decode_number-set_huffman_bit octet (octets ++ rest) b

pub length-set_huffman_bit : (octets : List ℕ) → length (set_huffman_bit octets) ≡ length octets
unfolding set_huffman_bit
length-set_huffman_bit [] = refl
length-set_huffman_bit (octet ∷ octets) = refl

-- The length prefix, in front of anything, is read back with its Huffman bit.
prefix_read :
    (prefix : Written) (cell : ℕ) (cells rest : List ℕ) (size : ℕ)
    → size < 2 ^ 64
    → cell < 256
    → encode_number size 7 (cell ∷ cells) ≡ some prefix
    → decode_number (set_huffman_bit prefix.octets ++ rest) 7 ≡ used (length prefix.octets) size
prefix_read prefix cell cells rest size small b e =
    decode_number-huffman_prefix prefix.octets rest (first_octet prefix cell cells size b e)
    ∙ decode_number-encode_number size 7 cell cells rest prefix small b e

prefix_begins :
    (prefix : Written) (cell : ℕ) (cells : List ℕ) (size : ℕ)
    → encode_number size 7 (cell ∷ cells) ≡ some prefix
    → 1 ≤ length prefix.octets
prefix_begins prefix cell cells size e = elim (encode_number_cases size 7 cell cells prefix e) [
  | inl (h, small, o) ↦ rw o (omega arith)
  | inr (h, big, (more, e', o)) ↦ rw o (omega arith)
]

-- What a successful `huffman_encode` returns: a length prefix that is read back, and octets that are
-- decoded to the string.
pub record StringLiteral (buflen : ℕ) (input octets : List ℕ) : Type 0 where
  pub prefix : List ℕ
  pub payload : List ℕ
  pub whole : octets ≡ set_huffman_bit prefix ++ payload
  pub begins : 1 ≤ length prefix
  pub short : length payload < buflen
  pub octet : get_or prefix 0 0 < 256
  pub length_read :
      (rest : List ℕ)
      → decode_number (set_huffman_bit prefix ++ rest) 7 ≡ used (length prefix) (length payload)
  pub size : length (code_string input) ≤ 8 * length payload
  pub payload_read :
      (destlen : ℕ) → length input ≤ destlen → huffman_decode payload 8 destlen ≡ decoded input

pub huffman_encode-StringLiteral :
    (etable : ℕ → Encv) (input : List ℕ) (n : ℕ) (scratch buf octets : List ℕ)
    → ((octet : ℕ) → octet < 256 → etable octet ≡ huffcode octet)
    → All IsByte input
    → n < 256
    → length buf < 2 ^ 64
    → huffman_encode etable input (n ∷ scratch) buf ≡ some octets
    → StringLiteral (length buf) input octets
huffman_encode-StringLiteral etable input n scratch buf octets table b hn small e =
    let (cell, parts) = huffman_encode_parts etable input (n ∷ scratch) buf octets e in
    let (cells, shape, (string, e1, (prefix, e2, whole))) = parts in
    let p = encode-Padded etable input cells string table b e1 in
    let short : length string.octets < 2 ^ 64 = omega (arith, p.count, ap length shape) in
    record {
      prefix = prefix.octets;
      payload = string.octets;
      whole = whole;
      octet = first_octet prefix n scratch (length string.octets) hn e2;
      short = omega (arith, p.count, ap length shape);
      begins = prefix_begins prefix n scratch (length string.octets) e2;
      length_read = λ rest. prefix_read prefix n scratch rest (length string.octets) short hn e2;
      size = omega (
        arith,
        ap length p.string,
        length-octet_bits string.octets,
        length-append (code_string input) (replicate p.padding true),
      );
      payload_read =
          λ destlen fits. huffman_decode-encode etable input cells string destlen table b fits e1;
    }
