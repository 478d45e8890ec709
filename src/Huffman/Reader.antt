-- ===== src/Huffman/Reader.antt =====
-- The bit reader, src/dependencies/hpack/huffy/bitbuf.c and bitbuf.h.
-- `octet` holds the next eight bits and `next` the `next_bits` bits behind them, at its top. Behind
-- the end of the input the reader supplies ones.
pub mod Window
pub mod Refine
pub mod Ends
mod Tests
use shitty.Prelude.{ℕ, ◌+◌, ◌-◌, ◌*◌, ◌/◌, ◌%◌, ◌^◌, bit_and, bit_or, ltb, leb, ◌==◌}
use shitty.Prelude.{if◌then◌else◌, Bool, true, false, List, [], ◌∷◌, Option, none, some}

-- `struct bitbuf` and `struct bb_reader`. The bytes from `pos` to `end` are a list. The -1 of
-- `eos_after_bits` is `none`: the end has not been reached.
pub record Reader : Type 0 where
  pub octet : ℕ
  pub next : ℕ
  pub next_bits : ℕ
  pub eos_after_bits : Option ℕ
  pub input : List ℕ

-- uint8_t
abbrev pub u8 : ℕ → ℕ
u8 n = n % 2 ^ 8

-- Loading an octet: a one-bit octet where `pos` is `end`, which sets `eos_after_bits` once.
pub record Loaded : Type 0 where
  pub value : ℕ
  pub eos : Option ℕ
  pub left : List ℕ

unfoldable pub load_octet : List ℕ → ℕ → Option ℕ → Loaded
load_octet [] next_bits none = record { value = 0xff; eos = some (8 + next_bits); left = [] }
load_octet [] next_bits (some e) = record { value = 0xff; eos = some e; left = [] }
load_octet (byte ∷ bytes) next_bits eos = record { value = byte; eos = eos; left = bytes }

-- The last `if` of `bb_load_next`.
unfoldable pub count_down : ℕ → Option ℕ → Option ℕ
count_down discard_bits none = none
count_down discard_bits (some e) = if ltb e discard_bits then some 0 else some (e - discard_bits)

unfoldable pub bb_load_next : Reader → ℕ → Reader
unfolding load_octet count_down
bb_load_next bb discard_bits =
    let shifted = u8 (bb.octet * 2 ^ discard_bits) in
    let loaded = load_octet bb.input bb.next_bits bb.eos_after_bits in
    if leb bb.next_bits discard_bits
    then record {
      octet =
          bit_or (bit_or shifted (bb.next / 2 ^ (8 - discard_bits)))
            (loaded.value / 2 ^ (8 - discard_bits + bb.next_bits));
      next = u8 (loaded.value * 2 ^ (discard_bits - bb.next_bits));
      next_bits = 8 - (discard_bits - bb.next_bits);
      eos_after_bits = count_down discard_bits loaded.eos;
      input = loaded.left;
    }
    else record {
      octet = bit_or shifted (bb.next / 2 ^ (8 - discard_bits));
      next = u8 (bb.next * 2 ^ discard_bits);
      next_bits = bb.next_bits - discard_bits;
      eos_after_bits = count_down discard_bits bb.eos_after_bits;
      input = bb.input;
    }

-- All of the top `count` bits of an octet are ones, by the mask `0xff << (8 - count)`.
abbrev top_ones : ℕ → ℕ → Bool
top_ones count octet = let mask = u8 (0xff * 2 ^ (8 - count)) in bit_and octet mask == mask

-- `none` is undefined behaviour: with more than eight bits to the end, `0xff << (8 - eos_after_bits)`
-- shifts by a negative count.
unfoldable pub eos_at : ℕ → Reader → Option Bool
eos_at e bbr =
    if e == 0
    then some true
    else if ltb 8 e
    then if top_ones (e % 8) bbr.next then none else some false
    else some (top_ones e bbr.octet)

unfoldable pub bb_eos : Reader → Option Bool
unfolding eos_at
bb_eos bbr = elim bbr.eos_after_bits [ none ↦ some false | some e ↦ eos_at e bbr ]

unfoldable pub bb_peek : Reader → ℕ
bb_peek bbr = bbr.octet

-- `bb_next` also returns the octet, which no caller uses.
unfoldable pub bb_next : Reader → ℕ → Reader
unfolding bb_load_next
bb_next bbr seek_bits = bb_load_next bbr seek_bits

unfoldable pub bb_reader_init : List ℕ → Reader
unfolding bb_load_next
bb_reader_init buf =
    let zeroed : Reader = record {
      octet = 0;
      next = 0;
      next_bits = 8;
      eos_after_bits = none;
      input = buf;
    } in
    bb_load_next (bb_load_next zeroed 8) 8
