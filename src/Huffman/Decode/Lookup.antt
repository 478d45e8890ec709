-- ===== src/Huffman/Decode/Lookup.antt =====
-- The decoder's tables as one function of the next octets, with no reader: which symbol they begin
-- with and how many bits it has. And what the tables say of the code of huffcodes.txt, by evaluation.
use shitty.Prelude.{
  ℕ, zero, suc, ◌+◌, ◌-◌, ◌*◌, ◌/◌, ◌%◌, ◌^◌, ◌≤◌, ◌<◌, ◌≡◌, refl, arith, ltb, leb, ◌==◌,
}
use shitty.Prelude.{bit_and, bit_or, get_elem?, if◌then◌else◌, Bool, true, false, not, ◌&&◌}
use shitty.Prelude.{
  List, [], ◌∷◌, ◌++◌, Option, none, some, holds_below, holds_below→at, Bool-cases, inl, inr,
}
use shitty.Huffman.Reader.{u8}
use shitty.Huffman.Tables.{FastFindSymbol, entry_at, sentinel}
use shitty.Huffman.Tables.{
  shortbits0, shortbits1_ff, shortbits2_fffe, shortbits2_ffff, shortbits23, shortbits3,
}
use shitty.Huffman.Codes.{Encv, huffcodes, huffcode}
use shitty.Huffman.Decode.{modulo_octet, four_symbols}

-- `more` asks for another octet, `missing` is an index behind the end of a table.
pub data Found : Type 0 where
  found : ℕ → ℕ → Found
  end_of_string more missing : Found

-- A table's answer, behind `before` bits.
unfoldable pub take_direct : Option FastFindSymbol → ℕ → (FastFindSymbol → ℕ) → Found
take_direct none before seek = missing
take_direct (some sym) before seek = found sym.octet (before + seek sym)

unfoldable pub take_tested : Option FastFindSymbol → ℕ → (FastFindSymbol → ℕ) → Found → Found
take_tested none before seek otherwise = missing
take_tested (some sym) before seek otherwise =
    if sym.octet == sentinel then otherwise else found sym.octet (before + seek sym)

unfoldable pub lookup_fourth : ℕ → List ℕ → Found
lookup_fourth third [] = more
lookup_fourth third (octet ∷ octets) =
    if not (third == 0xfe) && not (third == 0xff)
    then take_direct (entry_at shortbits23 (bit_or (u8 (third * 2 ^ 4)) (octet / 2 ^ 4))) 24
        modulo_octet
    else take_tested (entry_at shortbits3 (bit_or (bit_and (third * 2 ^ 6) 64) (octet / 2 ^ 2))) 24
        modulo_octet end_of_string

unfoldable pub lookup_third : ℕ → List ℕ → Found
lookup_third second [] = more
lookup_third second (octet ∷ octets) =
    if second == 0xfe
    then take_direct (entry_at shortbits2_fffe octet) 16 modulo_octet
    else take_tested (entry_at shortbits2_ffff octet) 16 (λ sym. sym.bits - 16)
        (lookup_fourth octet octets)

unfoldable pub take_four : Option ℕ → Found
take_four none = missing
take_four (some octet) = found octet 10

unfoldable pub lookup_second : ℕ → List ℕ → Found
lookup_second first [] = more
lookup_second first (octet ∷ octets) =
    if first == 0xfe
    then take_four (get_elem? four_symbols (octet / 2 ^ 6))
    else take_tested (entry_at shortbits1_ff octet) 8 modulo_octet (lookup_third octet octets)

unfoldable pub lookup : List ℕ → Found
lookup [] = more
lookup (octet ∷ octets) =
    take_tested (entry_at shortbits0 octet) 0 (λ sym. sym.bits) (lookup_second octet octets)

-- The `k` octets of a word, most significant first.
unfoldable pub octets_of : ℕ → ℕ → List ℕ
octets_of zero v = []
octets_of (suc k) v = v / 2 ^ (8 * k) ∷ octets_of k (v % 2 ^ (8 * k))

unfoldable pub finds : Found → ℕ → ℕ → Bool
finds (found octet bits) octet' bits' = octet == octet' && bits == bits'
finds end_of_string octet' bits' = false
finds more octet' bits' = false
finds missing octet' bits' = false

-- How many octets a code of this width reaches into, and the bits of them that it leaves free.
abbrev pub octets_for : ℕ → ℕ
octets_for bits = (bits + 7) / 8

abbrev pub free_bits : ℕ → ℕ
free_bits bits = 8 * octets_for bits - bits

-- The tables find the octet behind its code, where the free bits are `behind`.
unfoldable pub found_behind : ℕ → Encv → ℕ → Bool
unfolding finds
found_behind octet code behind =
    finds
      (lookup (octets_of (octets_for code.bits) (code.value * 2 ^ free_bits code.bits + behind)))
      octet code.bits

-- The octet's code has 5 to 30 bits, which are not all ones, and the tables find it whatever follows.
unfoldable pub code_is_found : ℕ → Encv → Bool
unfolding found_behind
code_is_found octet code =
    leb 5 code.bits
    && leb code.bits 30
    && ltb (code.value + 1) (2 ^ code.bits)
    && holds_below (2 ^ free_bits code.bits) (found_behind octet code)

codes_table : holds_below 256 (λ octet. code_is_found octet (huffcode octet)) ≡ true
unfolding holds_below code_is_found huffcode huffcodes entry_at lookup lookup_second lookup_third
    lookup_fourth take_direct take_tested take_four octets_of shortbits0 shortbits1_ff
    shortbits2_fffe shortbits2_ffff shortbits23 shortbits3
codes_table = refl

finds-eq :
    (answer : Found) (octet bits : ℕ) → finds answer octet bits ≡ true → answer ≡ found octet bits
unfolding finds
finds-eq (found octet bits) octet' bits' h = ground arith
finds-eq end_of_string octet bits h = cc
finds-eq more octet bits h = cc
finds-eq missing octet bits h = cc

-- The code of an octet, and that the tables find it.
pub record IsCode (octet : ℕ) (code : Encv) : Type 0 where
  pub wide : 5 ≤ code.bits
  pub narrow : code.bits ≤ 30
  pub not_ones : code.value + 1 < 2 ^ code.bits
  pub is_found :
      (behind : ℕ)
      → behind < 2 ^ free_bits code.bits
      → lookup (octets_of (octets_for code.bits) (code.value * 2 ^ free_bits code.bits + behind))
        ≡ found octet code.bits

and_last : (a b c d : Bool) → (a && b && c && d) ≡ true → d ≡ true
and_last true true true d h = h
and_last true true false d h = cc
and_last true false c d h = cc
and_last false b c d h = cc

found_behind→found :
    (octet : ℕ) (code : Encv) (behind : ℕ)
    → found_behind octet code behind ≡ true
    → lookup (octets_of (octets_for code.bits) (code.value * 2 ^ free_bits code.bits + behind))
      ≡ found octet code.bits
unfolding found_behind
found_behind→found octet code behind h = finds-eq _ octet code.bits h

finding-IsCode : (octet : ℕ) (code : Encv) → code_is_found octet code ≡ true → IsCode octet code
unfolding code_is_found
finding-IsCode octet code h = record {
  wide = ground arith;
  narrow = ground arith;
  not_ones = ground arith;
  is_found = λ behind small. found_behind→found octet code behind (
      holds_below→at (2 ^ free_bits code.bits) (found_behind octet code)
        (and_last (leb 5 code.bits) (leb code.bits 30) (ltb (code.value + 1) (2 ^ code.bits)) _ h)
        behind small);
}

-- Of every octet, the code in huffcodes.txt has 5 to 30 bits, not all ones, and at the code, whatever
-- follows it, the tables find the octet and the width.
pub huffcode-IsCode : (octet : ℕ) → octet < 256 → IsCode octet (huffcode octet)
huffcode-IsCode octet h =
    finding-IsCode octet (huffcode octet) (holds_below→at 256 _ codes_table octet h)

-- A symbol that is found in some octets is found whatever follows them.
take_tested_mono :
    (entry : Option FastFindSymbol) (before : ℕ) (seek : FastFindSymbol → ℕ) (x y : Found)
    (octet bits : ℕ)
    → (x ≡ found octet bits → y ≡ found octet bits)
    → take_tested entry before seek x ≡ found octet bits
    → take_tested entry before seek y ≡ found octet bits
unfolding take_tested
take_tested_mono none before seek x y octet bits h e = e
take_tested_mono (some entry) before seek x y octet bits h e =
    elim (Bool-cases (entry.octet == sentinel)) [
      | inl long ↦ rw long (h (rw long at e))
      | inr short ↦ rw short (rw short at e)
    ]

lookup_fourth-append :
    (third : ℕ) (octets others : List ℕ) (octet bits : ℕ)
    → lookup_fourth third octets ≡ found octet bits
    → lookup_fourth third (octets ++ others) ≡ found octet bits
unfolding lookup_fourth
lookup_fourth-append third [] others octet bits e = cc
lookup_fourth-append third (o ∷ octets) others octet bits e = e

lookup_third-append :
    (second : ℕ) (octets others : List ℕ) (octet bits : ℕ)
    → lookup_third second octets ≡ found octet bits
    → lookup_third second (octets ++ others) ≡ found octet bits
unfolding lookup_third
lookup_third-append second [] others octet bits e = cc
lookup_third-append second (o ∷ octets) others octet bits e = elim (Bool-cases (second == 0xfe)) [
  | inl fe ↦ rw fe (rw fe at e)
  | inr ff ↦ rw ff (
      take_tested_mono _ 16 _ _ _ octet bits (lookup_fourth-append o octets others octet bits)
        (rw ff at e))
]

lookup_second-append :
    (first : ℕ) (octets others : List ℕ) (octet bits : ℕ)
    → lookup_second first octets ≡ found octet bits
    → lookup_second first (octets ++ others) ≡ found octet bits
unfolding lookup_second
lookup_second-append first [] others octet bits e = cc
lookup_second-append first (o ∷ octets) others octet bits e = elim (Bool-cases (first == 0xfe)) [
  | inl fe ↦ rw fe (rw fe at e)
  | inr ff ↦ rw ff (
      take_tested_mono _ 8 _ _ _ octet bits (lookup_third-append o octets others octet bits)
        (rw ff at e))
]

pub lookup-append :
    (octets others : List ℕ) (octet bits : ℕ)
    → lookup octets ≡ found octet bits
    → lookup (octets ++ others) ≡ found octet bits
unfolding lookup
lookup-append [] others octet bits e = cc
lookup-append (o ∷ octets) others octet bits e =
    take_tested_mono _ 0 _ _ _ octet bits (lookup_second-append o octets others octet bits) e
