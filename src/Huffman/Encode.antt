-- ===== src/Huffman/Encode.antt =====
-- The encoder, `encode` and `huffman_encode` of src/dependencies/hpack/huffy/encode.c.
-- `etable` of encode-table.h is a parameter: the build generates it from huffcodes.txt.
-- A count of octets in memory is below 2^63, so the tests against SSIZE_MAX are left out.
pub mod Invariant
pub mod Symbols
pub mod Writes
pub mod Octets
pub mod Prefix
pub mod Overrun
use shitty.Prelude.{ℕ, zero, suc, ◌+◌, ◌-◌, ◌*◌, ◌/◌, ◌^◌, bit_and, bit_or, leb, ltb, ◌==◌}
use shitty.Prelude.{if◌then◌else◌, List, [], ◌∷◌, ◌++◌, Option, none, some, length, drop, take}
use shitty.Number.{Written, encode_number}
use shitty.Huffman.Reader.{u8}
use shitty.Huffman.Codes.{Encv}

-- The locals of `encode`: `output` is `buf[0]` to `buf[outi - 1]`, `cells` what is behind them up to
-- `buflen`.
pub record Encoder : Type 0 where
  pub existing_bits : ℕ
  pub partial : ℕ
  pub output : List ℕ
  pub cells : List ℕ

-- The code that one pass of the loop writes, as far as it is not written: `huffcode` and `bits`.
pub record Pending : Type 0 where
  pub huffcode : ℕ
  pub bits : ℕ
  pub encoder : Encoder

infixl 5 ◌>>=◌
abbrev pub ◌>>=◌ {ℓ κ} : {A : Type ℓ} {B : Type κ} → Option A → (A → Option B) → Option B
none >>= f = none
some a >>= f = f a

-- `buf[outi] = octet; ++outi`, or the return of -1 where the buffer is full.
unfoldable pub put : ℕ → List ℕ → List ℕ → Option Encoder
put octet output [] = none
put octet output (cell ∷ cells) =
    some (record { existing_bits = 0; partial = 0; output = output ++ octet ∷ []; cells = cells })

-- The `if (existing_bits)`: the octet that is begun is filled and written, or has room left.
unfoldable pub fill_partial : Encv → Encoder → Option Pending
fill_partial encv e =
    let bits = encv.bits in
    let free = 8 - e.existing_bits in
    let left = bits - free in
    if e.existing_bits == 0
    then some (record { huffcode = encv.value; bits = bits; encoder = e })
    else if leb 8 (bits + e.existing_bits)
    then (put (bit_or e.partial (u8 (encv.value / 2 ^ left))) e.output e.cells >>= λ e'.
        some (record { huffcode = bit_and encv.value (2 ^ left - 1); bits = left; encoder = e' }))
    else let new_partial_bits = if ltb bits free then bits else free in
      some (record {
        huffcode = encv.value;
        bits = bits - new_partial_bits;
        encoder = record {
          existing_bits = e.existing_bits + new_partial_bits;
          partial = bit_or e.partial (u8 (encv.value * 2 ^ (8 - (e.existing_bits + bits))));
          output = e.output;
          cells = e.cells;
        };
      })

-- One write of the `while (bits > 8)`, which leaves `existing_bits` and `partial` as they are.
unfoldable pub write_into : Pending → List ℕ → Option Pending
write_into p [] = none
write_into p (cell ∷ cells) = some (record {
  huffcode = p.huffcode;
  bits = p.bits - 8;
  encoder = record {
    existing_bits = p.encoder.existing_bits;
    partial = p.encoder.partial;
    output = p.encoder.output ++ u8 (p.huffcode / 2 ^ (p.bits - 8)) ∷ [];
    cells = cells;
  };
})

abbrev pub write_octet : Pending → Option Pending
write_octet p = write_into p p.encoder.cells

-- The loop, on fuel: eight bits fewer in each pass.
unfoldable pub write_octets : ℕ → Pending → Option Pending
write_octets zero p = some p
write_octets (suc fuel) p = if ltb 8 p.bits then write_octet p >>= write_octets fuel else some p

-- `if (bits)`: what is left begins an octet.
unfoldable pub keep_partial : Pending → Encoder
keep_partial p = if p.bits == 0 then p.encoder else record {
  existing_bits = p.bits;
  partial = u8 (p.huffcode * 2 ^ (8 - p.bits));
  output = p.encoder.output;
  cells = p.encoder.cells;
}

unfoldable pub encode_symbol : Encv → Encoder → Option Encoder
encode_symbol encv e =
    fill_partial encv e >>= λ p. write_octets p.bits p >>= λ p'. some (keep_partial p')

-- Behind the loop: the last octet, filled up with ones.
unfoldable pub pad : Encoder → Option Written
pad e =
    if e.existing_bits == 0
    then some (record { octets = e.output; untouched = e.cells })
    else put (bit_or e.partial (2 ^ (8 - e.existing_bits) - 1)) e.output e.cells >>= λ e'.
        some (record { octets = e'.output; untouched = e'.cells })

-- The length prefix, with the Huffman bit set in its first octet.
unfoldable pub set_huffman_bit : List ℕ → List ℕ
set_huffman_bit [] = []
set_huffman_bit (octet ∷ octets) = bit_or octet 0x80 ∷ octets

module _ (etable : ℕ → Encv) where
  unfoldable pub encode_symbols : List ℕ → Encoder → Option Encoder
  encode_symbols [] e = some e
  encode_symbols (octet ∷ octets) e = encode_symbol (etable octet) e >>= encode_symbols octets

  -- `none` is the return value -1.
  unfoldable pub encode : List ℕ → List ℕ → Option Written
  encode input buf =
      encode_symbols input (record { existing_bits = 0; partial = 0; output = []; cells = buf })
      >>= pad

  -- The octets that the return value counts: the prefix, in front of the string moved behind it. The
  -- `memmove` does not test `buflen` again: where they are more than the buffer has, it writes behind
  -- the buffer. The local array `encoded_number` is not initialised, so it is a parameter.
  unfoldable pub huffman_encode : List ℕ → List ℕ → List ℕ → Option (List ℕ)
  huffman_encode input encoded_number [] = none
  huffman_encode input encoded_number (cell ∷ cells) = encode input cells >>= λ string.
      encode_number (length string.octets) 7 encoded_number >>= λ prefix.
      some (set_huffman_bit prefix.octets ++ string.octets)
