-- ===== src/Headers/Decoder/Parse.antt =====
-- Numbers and strings take octets off the buffer that they are read from.
use shitty.Prelude.{ℕ, ◌+◌, ◌*◌, ◌^◌, ◌/◌, ◌≤◌, ◌<◌, ◌≡◌, refl, arith, ltb, ◌==◌, not, bit_and}
use shitty.Prelude.{
  List, [], ◌∷◌, length, drop, length-drop, AllOk, AllOk->>=, AllOk-if, AllOk-any, take,
}
use shitty.Number.{u64, mask_from_bits, Decoded, used, failed, decode_number, decode_octets}
use shitty.Huffman.Decode.{huffman_decode}
use shitty.Headers.Decoder.{
  checked, Text, number_at, decode_raw_string, decode_huff_string, decode_string, resized,
}

-- The loop of `decode_number` uses the octets up to its index and one more.
decode_octets-used :
    (octets : List ℕ) (i number mult n v : ℕ)
    → decode_octets octets i number mult ≡ used n v
    → i < n
unfolding decode_octets
decode_octets-used [] i number mult n v e = cc
decode_octets-used (octet ∷ octets) i number mult n v e = ground (
  arith,
  decode_octets-used octets (i + 1) (u64 (number + u64 (bit_and octet 0x7f * mult)))
      (u64 (mult * 2 ^ 7)) n v,
)

decode_number-used : (buf : List ℕ) (bits n v : ℕ) → decode_number buf bits ≡ used n v → 1 ≤ n
unfolding decode_number
decode_number-used [] bits n v e = cc
decode_number-used (octet ∷ octets) bits n v e =
    ground (arith, decode_octets-used octets 1 (bit_and octet (mask_from_bits bits)) 1 n v)

decode_number_nonempty :
    (buf : List ℕ) (bits n v : ℕ) → decode_number buf bits ≡ used n v → 1 ≤ length buf
unfolding decode_number
decode_number_nonempty [] bits n v e = cc
decode_number_nonempty (octet ∷ octets) bits n v e = omega arith

-- What each operation leaves is shorter than the buffer it was given.
abbrev pub Below : ℕ → List ℕ → Type 0
Below size left = length left < size

checked-left :
    (buf : List ℕ) (bits : ℕ) (d : Decoded)
    → decode_number buf bits ≡ d
    → AllOk (λ r. Below (length buf) (drop r.0 buf)) (checked d)
unfolding checked
checked-left buf bits (used n v) e = omega (
  arith,
  length-drop n buf,
  decode_number-used buf bits n v e,
  decode_number_nonempty buf bits n v e,
)
checked-left buf bits (failed e') e = tt

pub number_at-left :
    (buf : List ℕ) (bits : ℕ) → AllOk (λ r. Below (length buf) (drop r.0 buf)) (number_at buf bits)
unfolding number_at
number_at-left buf bits = checked-left buf bits _ refl

abbrev pub TextBelow : ℕ → Text → Type 0
TextBelow size t = Below size t.left

decode_raw_string-left : (buf : List ℕ) → AllOk (TextBelow (length buf)) (decode_raw_string buf)
unfolding decode_raw_string
decode_raw_string-left buf = AllOk->>= _ _ (number_at buf 7) _ (number_at-left buf 7) (λ (n, v) h.
    AllOk-if _ (ltb (length (drop n buf)) v) _ _ tt (omega (arith, h, length-drop v (drop n buf))))

decode_huff_string-left : (buf : List ℕ) → AllOk (TextBelow (length buf)) (decode_huff_string buf)
unfolding decode_huff_string
decode_huff_string-left buf = AllOk->>= _ _ (number_at buf 7) _ (number_at-left buf 7) (λ (n, v) h.
    AllOk-if _ (ltb (length (drop n buf)) v) _ _ tt (
      AllOk->>= (λ _. Unit {0}) _
        (resized (huffman_decode (take v (drop n buf)) 8 (u64 (v * 8) / 5 + 1))) _
        (AllOk-any _ _ (λ _. tt)) (λ s _. omega (arith, h, length-drop v (drop n buf)))))

pub decode_string-left : (buf : List ℕ) → AllOk (TextBelow (length buf)) (decode_string buf)
unfolding decode_string
decode_string-left [] = tt
decode_string-left (octet ∷ octets) =
    AllOk-if _ (not (bit_and octet 0x80 == 0)) _ _ (decode_huff_string-left (octet ∷ octets))
      (decode_raw_string-left (octet ∷ octets))
