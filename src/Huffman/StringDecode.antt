-- ===== src/Huffman/StringDecode.antt =====
-- Strings of HPACK in C, string_decode and string_decode_alloc of huffy/decode.c. No pointer to the input is null.
use shitty.Prelude.{
  ℕ, ◌+◌, ◌-◌, ◌*◌, ◌/◌, ◌≤◌, ◌≡◌, refl, arith, inl, inr, bit_and, ltb, ◌==◌, if◌then◌else◌, Bool,
  true, false, not, Bool-cases,
}
use shitty.Prelude.{
  List, [], ◌∷◌, ◌++◌, Result, ok, thrown, runtime_error, ◌>>=◌, length, take, drop, Option, none,
  some, AllOk, length-take, length-drop, drop-drop,
}
use shitty.Number.{Decoded, used, failed, u64, decode_number}
use shitty.Huffman.Decode.{Outcome, huffman_decode}
use shitty.Headers.Decoder.{Text, checked, number_at, decode_raw_string}

-- The return value -1; a count of octets of the input, with the raw string; or what huffman_decode returned.
pub data StringDecoded : Type 0 where
  invalid : StringDecoded
  copied : ℕ → List ℕ → StringDecoded
  coded : Outcome → StringDecoded

-- The size of the destination, given or allocated; a null pointer is none. `allocates` says whether malloc succeeds.
unfoldable pub destination : Option ℕ → Bool → Bool → ℕ → Option ℕ
destination none allocates huff number =
    if allocates then some (if huff then u64 (number * 8) / 5 + 1 else number) else none
destination (some destlen) allocates huff number = if ltb destlen number then none else some destlen

abbrev pub string_at : List ℕ → Bool → ℕ → ℕ → Option ℕ → StringDecoded
string_at buf huff len number none = invalid
string_at buf huff len number (some destlen) =
    if huff
    then coded (huffman_decode (drop len buf) 8 destlen)
    else copied (len + number) (take number (drop len buf))

abbrev pub string_behind : List ℕ → Option ℕ → Bool → Bool → Decoded → StringDecoded
string_behind buf dest allocates huff (failed e) = invalid
string_behind buf dest allocates huff (used len number) =
    if ltb (length buf - len) number
    then invalid
    else string_at buf huff len number (destination dest allocates huff number)

unfoldable pub string_decode_common : List ℕ → Option ℕ → Bool → StringDecoded
string_decode_common [] dest allocates = invalid
string_decode_common (octet ∷ octets) dest allocates =
    string_behind (octet ∷ octets) dest allocates (not (bit_and octet 0x80 == 0))
      (decode_number (octet ∷ octets) 7)

unfoldable pub string_decode : List ℕ → ℕ → StringDecoded
string_decode buf destlen = string_decode_common buf (some destlen) true

-- The destination that was there is freed.
unfoldable pub string_decode_alloc : List ℕ → Bool → StringDecoded
string_decode_alloc buf allocates = string_decode_common buf none allocates

not_below : (a b : ℕ) → b ≤ a → ltb a b ≡ false
not_below a b h = ground arith

enough-copied :
    (buf : List ℕ) (destlen len number : ℕ)
    → ltb (length (drop len buf)) number ≡ false
    → length (take number (drop len buf)) ≤ destlen
    → string_behind buf (some destlen) true false (used len number)
      ≡ copied (len + number) (take number (drop len buf))
unfolding destination
enough-copied buf destlen len number enough room =
    let size = length-drop len buf in
    let there : number ≤ length (drop len buf) = ground (arith, enough) in
    let input : ltb (length buf - len) number ≡ false = rw size at enough in
    let output : ltb destlen number ≡ false =
      not_below destlen number (omega (arith, there, room, length-take number (drop len buf))) in
    rw (input, output) refl

-- What `decode_raw_string` makes of the number in front of the string.
abbrev raw_behind : List ℕ → Decoded → Result Text
raw_behind buf d = checked d >>= λ (len, slen).
    let behind = drop len buf in
    if ltb (length behind) slen
    then thrown runtime_error
    else ok (record {
      string = take slen behind;
      encoded = take len buf ++ take slen behind;
      left = drop slen behind;
    })

by_number :
    (buf : List ℕ) (destlen : ℕ) (d : Decoded)
    → AllOk
        (λ t.
          length t.string ≤ destlen
          → (n : ℕ) × (string_behind buf (some destlen) true false d ≡ copied n t.string)
            × (t.left ≡ drop n buf))
        (raw_behind buf d)
unfolding checked
by_number buf destlen (failed e) = tt
by_number buf destlen (used len number) = elim (Bool-cases (ltb (length (drop len buf)) number)) [
  | inl few ↦ rw few tt
  | inr enough ↦ rw enough (λ room.
      (len + number, enough-copied buf destlen len number enough room, drop-drop number len buf))
]

-- A raw string that HeaderDecoder decodes is decoded by string_decode as well, into a destination with room for it,
-- and what it returns is the index of the octets behind.
pub string_decode-decode_raw_string :
    (octet : ℕ) (octets : List ℕ) (destlen : ℕ)
    → (bit_and octet 0x80 == 0) ≡ true
    → AllOk
        (λ t.
          length t.string ≤ destlen
          → (n : ℕ) × (string_decode (octet ∷ octets) destlen ≡ copied n t.string)
            × (t.left ≡ drop n (octet ∷ octets)))
        (decode_raw_string (octet ∷ octets))
unfolding string_decode string_decode_common decode_raw_string number_at
string_decode-decode_raw_string octet octets destlen raw =
    rw raw (by_number (octet ∷ octets) destlen (decode_number (octet ∷ octets) 7))

-- With a coded string, huffman_decode is given all octets behind the length, those of what follows too.
pub string_decode-coded :
    (octet : ℕ) (octets : List ℕ) (destlen len number : ℕ)
    → (bit_and octet 0x80 == 0) ≡ false
    → decode_number (octet ∷ octets) 7 ≡ used len number
    → number ≤ length (octet ∷ octets) - len
    → number ≤ destlen
    → string_decode (octet ∷ octets) destlen
      ≡ coded (huffman_decode (drop len (octet ∷ octets)) 8 destlen)
unfolding string_decode string_decode_common destination
string_decode-coded octet octets destlen len number huff read there room =
    let input : ltb (length (octet ∷ octets) - len) number ≡ false =
      not_below (length (octet ∷ octets) - len) number there in
    let output : ltb destlen number ≡ false = not_below destlen number room in
    rw (huff, read) (rw (input, output) refl)
