-- ===== src/Number.antt =====
-- The HPACK integer codec, src/dependencies/hpack/number.c (RFC 7541, 5.1): an integer in the low
-- bits of an octet that may hold flags above them, and in groups of seven bits after it.
-- Octets are numbers below 256 and `uintmax_t` has 64 bits; every wrap is written out.
-- The functions return a `ptrdiff_t`: a count of octets, or a negative error code.
-- The calls with a null `buf` or `number` are left out, since no caller makes one.
pub mod Octets
pub mod RoundTrip
pub mod Value
mod Tests
use shitty.Prelude.{ℕ, ◌+◌, ◌-◌, ◌*◌, ◌/◌, ◌%◌, ◌^◌, bit_and, bit_or, ltb, leb, ◌==◌}
use shitty.Prelude.{if◌then◌else◌, Bool, ◌||◌, List, [], ◌∷◌, Option, none, some}

-- error.h
pub data ErrorCode : Type 0 where
  no_error protocol_error internal_error : ErrorCode

abbrev pub max_octets : ℕ
max_octets = 10

-- uintmax_t
abbrev pub u64 : ℕ → ℕ
u64 n = n % 2 ^ 64

-- For 1 to 8 bits: that many ones.
unfoldable pub mask_from_bits : ℕ → ℕ
mask_from_bits bits = 255 / 2 ^ (8 - bits)

-- `used n v` is the return value `n` with `*number` set to `v`, `failed e` the return value `-e`.
pub data Decoded : Type 0 where
  used : ℕ → ℕ → Decoded
  failed : ErrorCode → Decoded

-- The loop at index `i`, on the octets `buf[i]`, `buf[i + 1]`, ...
unfoldable pub decode_octets : List ℕ → ℕ → ℕ → ℕ → Decoded
decode_octets [] i number mult = failed protocol_error
decode_octets (octet ∷ octets) i number mult =
    let field = bit_and octet 0x7f in
    let number' = u64 (number + u64 (field * mult)) in
    let more = decode_octets octets (i + 1) number' (u64 (mult * 2 ^ 7)) in
    if ltb max_octets i
    then failed protocol_error
    else if bit_and octet 0x80 == 0
    then used (i + 1) number'
    else if ltb (u64 (mult * 2 ^ 7)) mult
    then failed internal_error
    else more

unfoldable pub decode_number : List ℕ → ℕ → Decoded
decode_number [] bits = failed protocol_error
decode_number (octet ∷ octets) bits =
    let mask = mask_from_bits bits in
    let field = bit_and octet mask in
    if ltb 8 bits
    then failed protocol_error
    else if field == mask
    then decode_octets octets 1 field 1
    else used 1 field

-- What stands in the buffer after a successful call: the octets written, whose count is the return
-- value, and the cells behind them, which are as before.
pub record Written : Type 0 where
  pub octets : List ℕ
  pub untouched : List ℕ

abbrev pub write_first : ℕ → Written → Written
write_first octet w = record { octets = octet ∷ w.octets; untouched = w.untouched }

abbrev pub after : ℕ → Option Written → Option Written
after octet none = none
after octet (some w) = some (write_first octet w)

-- The loop and the last octet. The list is the cells from `buf[octet + 1]` on, so that it is empty
-- where `++octet` reaches `buflen`; `none` is the return value -1.
unfoldable pub encode_octets : ℕ → List ℕ → Option Written
encode_octets number [] = none
encode_octets number (cell ∷ cells) =
    let more = after (bit_or 0x80 (number % 0x80)) (encode_octets (number / 0x80) cells) in
    if leb 0x80 number then more else some (record { octets = number ∷ []; untouched = cells })

-- `~mask` is an `int`; on an octet it keeps the bits that `255 - mask` keeps.
unfoldable pub encode_number : ℕ → ℕ → List ℕ → Option Written
encode_number number prefix_bits [] = none
encode_number number prefix_bits (cell ∷ cells) =
    let mask = mask_from_bits prefix_bits in
    if ltb 8 prefix_bits || ltb prefix_bits 1
    then none
    else if ltb number mask
    then some
        (record { octets = bit_or (bit_and cell (255 - mask)) number ∷ []; untouched = cells })
    else after (bit_or cell mask) (encode_octets (number - mask) cells)
