-- ===== src/Huffman/Encode/Overrun.antt =====
-- `huffman_encode` with a buffer that the coded string fills.
use shitty.Prelude.{ℕ, ◌≤◌, ◌<◌, ◌≡◌, ap, sym, ◌∙◌, arith, inl, inr}
use shitty.Prelude.{List, [], ◌∷◌, some, length, length-append, drop}
use shitty.Number.{Written, encode_number, encode_octets, mask_from_bits}
use shitty.Number.RoundTrip.{encode_octets_cases, encode_number_cases}
use shitty.Huffman.Codes.{Encv}
use shitty.Huffman.Encode.{encode, huffman_encode, set_huffman_bit}
use shitty.Huffman.Encode.Prefix.{huffman_encode_parts, length-set_huffman_bit}

encode_octets_nonempty :
    (v cell : ℕ) (cells : List ℕ) (w : Written)
    → encode_octets v (cell ∷ cells) ≡ some w
    → 1 ≤ length w.octets
encode_octets_nonempty v cell cells w e = elim (encode_octets_cases v cell cells w e) [
  | inl (small, o, u) ↦ rw o (omega arith)
  | inr (big, (more, e', o, u)) ↦ rw o (omega arith)
]

some_injective : {A : Type 0} {x y : A} → some x ≡ some y → x ≡ y
some_injective e = cc

-- The prefix of a length from 127 on has two octets or more.
long_prefix :
    (size cell : ℕ) (cells : List ℕ) (prefix : Written)
    → 127 ≤ size
    → encode_number size 7 (cell ∷ cells) ≡ some prefix
    → 2 ≤ length prefix.octets
unfolding mask_from_bits
long_prefix size cell [] prefix long e = elim (encode_number_cases size 7 cell [] prefix e) [
  | inl (h, small, o) ↦ absurd (omega arith)
  | inr (h, big, (more, e', o)) ↦ absurd (unfold encode_octets in cc)
]
long_prefix size cell (next ∷ cells) prefix long e =
    elim (encode_number_cases size 7 cell (next ∷ cells) prefix e) [
      | inl (h, small, o) ↦ absurd (omega arith)
      | inr (h, big, (more, e', o)) ↦
          rw o (omega (arith, encode_octets_nonempty _ next cells more e'))
    ]

-- Where the coded string fills the buffer behind its first octet, with 127 octets or more, a
-- `huffman_encode` that succeeds has written more octets than the buffer has.
pub huffman_encode-overrun :
    (etable : ℕ → Encv) (input : List ℕ) (n : ℕ) (scratch : List ℕ) (cell : ℕ)
    (cells octets : List ℕ) (string : Written)
    → encode etable input cells ≡ some string
    → length string.octets ≡ length cells
    → 127 ≤ length cells
    → huffman_encode etable input (n ∷ scratch) (cell ∷ cells) ≡ some octets
    → length (cell ∷ cells) < length octets
huffman_encode-overrun etable input n scratch cell cells octets string e full long e' =
    let (cell', parts) = huffman_encode_parts etable input (n ∷ scratch) (cell ∷ cells) octets e' in
    let (cells', shape, (string', e1, (prefix, e2, whole))) = parts in
    let behind : cells ≡ cells' = ap (drop 1) shape in
    let same : string ≡ string' = some_injective (sym e ∙ ap (encode etable input) behind ∙ e1) in
    let size : length string'.octets ≡ length cells =
      ap (λ (w : Written). length w.octets) (sym same) ∙ full in
    let two = long_prefix (length string'.octets) n scratch prefix (omega arith) e2 in
    omega (
      arith,
      size,
      two,
      ap length whole,
      length-append (set_huffman_bit prefix.octets) string'.octets,
      length-set_huffman_bit prefix.octets,
    )
