-- ===== src/Headers/Encoder/RawString.antt =====
-- What `hpack_encode_string` returns, read back, where the array for its length prefix has the bit of
-- the Huffman flag clear.
use shitty.Prelude.{
  ℕ, ◌+◌, ◌/◌, ◌%◌, ◌^◌, ◌≤◌, ◌<◌, ◌≡◌, refl, arith, ◌⊎◌, inl, inr, ltb, leb, Bool-cases,
}
use shitty.Prelude.{List, [], ◌∷◌, ◌++◌, Option, none, some, length, replicate, get_or}
use shitty.Prelude.{ok}
use shitty.Number.{Written, encode_number}
use shitty.Number.Octets.{small_octet, full_octet}
use shitty.Number.RoundTrip.{encode_number_cases}
use shitty.Huffman.Codes.{Encv}
use shitty.Huffman.Encode.{huffman_encode}
use shitty.Headers.Encoder.{choose_raw, with_prefix, shorter_of, hpack_encode_string}

-- The first octet of a length prefix keeps the flag.
first_octet_flag :
    (prefix : Written) (cell : ℕ) (cells : List ℕ) (size : ℕ)
    → cell < 256
    → encode_number size 7 (cell ∷ cells) ≡ some prefix
    → (1 ≤ length prefix.octets) × (get_or prefix.octets 0 0 / 2 ^ 7 ≡ cell / 2 ^ 7)
first_octet_flag prefix cell cells size b e =
    elim (encode_number_cases size 7 cell cells prefix e) [
      | inl (h, small, o) ↦ rw o (omega arith, (small_octet 7 cell size h b small).1)
      | inr (h, big, (more, e', o)) ↦ rw o (omega arith, (full_octet 7 cell h).1)
    ]

-- The result is the coded string or the raw one.
choose_raw_cases :
    (s : List ℕ) (coded : Option (List ℕ)) (prefix : Written)
    → (coded ≡ some (choose_raw s coded prefix)) ⊎ (choose_raw s coded prefix ≡ prefix.octets ++ s)
unfolding choose_raw
choose_raw_cases s none prefix = inr refl
choose_raw_cases s (some coded) prefix =
    elim (Bool-cases (ltb ((length prefix.octets + length s) % 2 ^ 32) (length coded))) [
      | inl raw ↦ rw raw (inr refl)
      | inr huff ↦ rw huff (inl refl)
    ]

with_prefix_cases :
    (s : List ℕ) (coded : Option (List ℕ)) (prefix : Option Written) (octets : List ℕ)
    → with_prefix s coded prefix ≡ ok octets
    → (coded ≡ some octets) ⊎ ((p : Written) × (prefix ≡ some p) × (octets ≡ p.octets ++ s))
unfolding with_prefix
with_prefix_cases s coded (some p) octets e = elim (choose_raw_cases s coded p) [
  | inl huff ↦ inl cc
  | inr raw ↦ inr (p, refl, cc)
]
with_prefix_cases s none none octets e = cc
with_prefix_cases s (some coded) none octets e = inl cc

shorter_of_cases :
    (s : List ℕ) (coded : Option (List ℕ)) (prefix : Option Written) (octets : List ℕ)
    → shorter_of s coded prefix ≡ ok octets
    → (coded ≡ some octets) ⊎ ((p : Written) × (prefix ≡ some p) × (octets ≡ p.octets ++ s))
unfolding shorter_of
shorter_of_cases s none prefix octets e = with_prefix_cases s none prefix octets e
shorter_of_cases s (some coded) prefix octets e =
    elim (Bool-cases (leb (length coded) (length s))) [
      | inl short ↦ inl (ground arith)
      | inr long ↦ with_prefix_cases s (some coded) prefix octets (rw long at e)
    ]

head_flag :
    (prefix s : List ℕ)
    → 1 ≤ length prefix
    → 128 ≤ get_or prefix 0 0
    → 128 ≤ get_or (prefix ++ s) 0 0
head_flag [] s h b = absurd (omega arith)
head_flag (octet ∷ octets) s h b = b

-- A raw string whose `raws_length_prefix` held an octet from 128 on, where there is no coded string,
-- has the Huffman flag in its first octet.
pub hpack_encode_string-stray_flag :
    (etable : ℕ → Encv) (s : List ℕ) (encoded_number : List ℕ) (r : ℕ) (raws octets : List ℕ)
    → huffman_encode etable s encoded_number (replicate (10 + length s) 0) ≡ none
    → 128 ≤ r
    → r < 256
    → hpack_encode_string etable s encoded_number (r ∷ raws) ≡ ok octets
    → 128 ≤ get_or octets 0 0
unfolding hpack_encode_string
hpack_encode_string-stray_flag etable s encoded_number r raws octets failed lo hi e =
    elim (shorter_of_cases s _ _ octets e) [
      | inl huff ↦ cc
      | inr (p, written, whole) ↦
          let flag = first_octet_flag p r raws (length s) hi written in
          rw whole (head_flag p.octets s flag.0 (omega (arith, flag.1)))
    ]
