-- ===== src/Headers/Encoder.antt =====
-- `hpack_encode_string` of header.cpp, for strings below 2^32 octets, of which `unsigned` keeps the length.
-- The two local arrays that it and `huffman_encode` write length prefixes to are not initialised, so
-- they are parameters. Where `huffman_encode` writes behind its buffer, its octets stand here as written.
pub mod RawString
use shitty.Prelude.{
  ℕ, ◌+◌, ltb, leb, if◌then◌else◌, List, ◌++◌, Option, none, some, length, replicate,
}
use shitty.Prelude.{Result, ok, thrown, runtime_error}
use shitty.Number.{Written, encode_number}
use shitty.Huffman.Codes.{Encv}
use shitty.Huffman.Encode.{huffman_encode}
use shitty.Headers.Table.{u32}

-- The raw string where it is shorter, or where there is no coded one.
unfoldable pub choose_raw : List ℕ → Option (List ℕ) → Written → List ℕ
choose_raw s none prefix = prefix.octets ++ s
choose_raw s (some coded) prefix =
    if ltb (u32 (length prefix.octets + length s)) (length coded) then prefix.octets ++ s else coded

-- By the raw string's length prefix, or the failure to write it.
unfoldable pub with_prefix : List ℕ → Option (List ℕ) → Option Written → Result (List ℕ)
with_prefix s coded (some prefix) = ok (choose_raw s coded prefix)
with_prefix s none none = thrown runtime_error
with_prefix s (some coded) none = ok coded

unfoldable pub shorter_of : List ℕ → Option (List ℕ) → Option Written → Result (List ℕ)
shorter_of s none prefix = with_prefix s none prefix
shorter_of s (some coded) prefix =
    if leb (length coded) (length s) then ok coded else with_prefix s (some coded) prefix

unfoldable pub hpack_encode_string : (ℕ → Encv) → List ℕ → List ℕ → List ℕ → Result (List ℕ)
hpack_encode_string etable s encoded_number raws_length_prefix =
    shorter_of s (huffman_encode etable s encoded_number (replicate (10 + length s) 0))
      (encode_number (length s) 7 raws_length_prefix)
