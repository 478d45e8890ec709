-- ===== src/Huffman/Decode/Agree.antt =====
-- The decoding step on the reader is the lookup on the octets that the reader stands before.
use shitty.Prelude.{
  ℕ, zero, suc, ◌+◌, ◌-◌, ◌*◌, ◌/◌, ◌^◌, ◌≤◌, ◌<◌, ◌≡◌, refl, arith, ltb, leb, ◌==◌,
}
use shitty.Prelude.{bit_and, bit_or, get_elem?, Bool, true, false, not, ◌&&◌, ◌||◌, inl, inr}
use shitty.Prelude.{
  List, [], ◌∷◌, drop, Option, none, some, holds_below, holds_below→at, holds_below→at_pair,
  Bool-cases,
}
use shitty.Bits.Stream.{peek, peek-lt, drop-drop}
use shitty.Huffman.Reader.{Reader, u8, bb_peek, bb_next}
use shitty.Huffman.Reader.Refine.{Reads, bb_next-Reads}
use shitty.Huffman.Tables.{FastFindSymbol, entry_at, sentinel}
use shitty.Huffman.Tables.{
  shortbits0, shortbits1_ff, shortbits2_fffe, shortbits2_ffff, shortbits23, shortbits3,
}
use shitty.Huffman.Decode.{
  Step, symbol, stop, direct, tested, one_of_four, modulo_octet, four_symbols,
}
use shitty.Huffman.Decode.{fourth_octet, third_octet, second_octet, decode_symbol}
use shitty.Huffman.Decode.Lookup.{
  Found, found, end_of_string, more, missing, take_direct, take_tested, take_four,
}
use shitty.Huffman.Decode.Lookup.{lookup_fourth, lookup_third, lookup_second, lookup}

-- The step gives the symbol that was found, and the reader behind its bits.
abbrev pub Agrees : Found → Step → List Bool → Type 0
Agrees (found octet bits) pass l =
    (octet < 256) × ((r : Reader) × (pass ≡ symbol octet r) × Reads r (drop bits l))
Agrees end_of_string pass l = pass ≡ stop
Agrees more pass l = ⊥
Agrees missing pass l = ⊥

-- The next `k` octets of a string.
unfoldable pub windows : ℕ → List Bool → List ℕ
windows zero l = []
windows (suc k) l = peek 8 l ∷ windows k (drop 8 l)

-- An entry with an octet for its symbol, and at most eight bits to skip for it.
unfoldable fits : (FastFindSymbol → ℕ) → Option FastFindSymbol → Bool
fits seek none = false
fits seek (some entry) = ltb entry.octet 256 && leb (seek entry) 8

fits_long : (FastFindSymbol → ℕ) → Option FastFindSymbol → Bool
fits_long seek none = false
fits_long seek (some entry) = entry.octet == sentinel || (ltb entry.octet 256 && leb (seek entry) 8)

unfoldable is_long : Option FastFindSymbol → Bool
is_long none = false
is_long (some entry) = entry.octet == sentinel

module _ (before : ℕ) (l : List Bool) (reader : Reader) (reads : Reads reader (drop before l)) where
  skip-Reads : (d : ℕ) → d ≤ 8 → Reads (bb_next reader d) (drop (before + d) l)
  skip-Reads d h =
      rw (drop-drop before d (before + d) l refl) at
        (bb_next-Reads reader d (drop before l) h reads)

  direct-Agrees :
      (entry : Option FastFindSymbol) (seek : FastFindSymbol → ℕ)
      → fits seek entry ≡ true
      → Agrees (take_direct entry before seek) (direct entry seek reader) l
  unfolding fits take_direct direct
  direct-Agrees none seek h = cc
  direct-Agrees (some entry) seek h =
      (ground arith, (bb_next reader (seek entry), refl, skip-Reads (seek entry) (ground arith)))

  tested-Agrees :
      (entry : Option FastFindSymbol) (seek : FastFindSymbol → ℕ) (answer : Found)
      (otherwise : Step)
      → fits_long seek entry ≡ true
      → (is_long entry ≡ true → Agrees answer otherwise l)
      → Agrees (take_tested entry before seek answer) (tested entry seek reader otherwise) l
  unfolding fits_long is_long take_tested tested
  tested-Agrees none seek answer otherwise h agrees = cc
  tested-Agrees (some entry) seek answer otherwise h agrees =
      elim (Bool-cases (entry.octet == sentinel)) [
        | inl long ↦ rw long (agrees long)
        | inr short ↦ rw short (
          ground arith,
          (bb_next reader (seek entry), refl, skip-Reads (seek entry) (ground arith)),
        )
      ]

-- What the tables hold, by evaluation.
table0 : holds_below 256 (λ o. fits_long (λ entry. entry.bits) (entry_at shortbits0 o)) ≡ true
unfolding holds_below fits_long entry_at shortbits0
table0 = refl

table1 : holds_below 256 (λ o. fits_long modulo_octet (entry_at shortbits1_ff o)) ≡ true
unfolding holds_below fits_long entry_at shortbits1_ff
table1 = refl

table2_fe : holds_below 256 (λ o. fits modulo_octet (entry_at shortbits2_fffe o)) ≡ true
unfolding holds_below fits entry_at shortbits2_fffe
table2_fe = refl

table2_ff :
    holds_below 256 (λ o. fits_long (λ entry. entry.bits - 16) (entry_at shortbits2_ffff o)) ≡ true
unfolding holds_below fits_long entry_at shortbits2_ffff
table2_ff = refl

-- The index is in range for a third octet that the table before sends here.
unfoldable fits23 : ℕ → ℕ → Bool
unfolding is_long fits
fits23 third nibble =
    not (is_long (entry_at shortbits2_ffff third))
    || third == 0xfe
    || third == 0xff
    || fits modulo_octet (entry_at shortbits23 (bit_or (u8 (third * 2 ^ 4)) nibble))

table23 : holds_below 256 (λ third. holds_below 16 (fits23 third)) ≡ true
unfolding holds_below fits23 entry_at shortbits2_ffff shortbits23
table23 = refl

table3 :
    holds_below 256 (λ third. holds_below 64 (λ high.
      fits_long modulo_octet (entry_at shortbits3 (bit_or (bit_and (third * 2 ^ 6) 64) high))))
    ≡ true
unfolding holds_below fits_long entry_at shortbits3
table3 = refl

fits_third :
    (third nibble : ℕ)
    → third < 256
    → nibble < 16
    → is_long (entry_at shortbits2_ffff third) ≡ true
    → (not (third == 0xfe) && not (third == 0xff)) ≡ true
    → fits modulo_octet (entry_at shortbits23 (bit_or (u8 (third * 2 ^ 4)) nibble)) ≡ true
fits_third third nibble h h' long other =
    let row = holds_below→at_pair 256 16 fits23 table23 third nibble h h' in
    unfold fits23 in ground (arith, row)

-- From the fourth octet back to the first.
bb_peek-Reads : (reader : Reader) (l : List Bool) → Reads reader l → bb_peek reader ≡ peek 8 l
unfolding bb_peek
bb_peek-Reads reader l reads = reads.window

fourth-Agrees :
    (third : ℕ) (l : List Bool) (reader : Reader)
    → third < 256
    → is_long (entry_at shortbits2_ffff third) ≡ true
    → Reads reader (drop 24 l)
    → Agrees (lookup_fourth third (windows 1 (drop 24 l))) (fourth_octet third reader) l
unfolding lookup_fourth fourth_octet windows
fourth-Agrees third l reader h long reads =
    let o = peek 8 (drop 24 l) in
    let small : o < 256 = peek-lt 8 (drop 24 l) in
    rw (bb_peek-Reads reader (drop 24 l) reads)
      (elim (Bool-cases (not (third == 0xfe) && not (third == 0xff))) [
        | inl other ↦ rw other (
            direct-Agrees 24 l reader reads _ modulo_octet
              (fits_third third (o / 2 ^ 4) h (omega arith) long other))
        | inr last ↦ rw last (
            tested-Agrees 24 l reader reads _ modulo_octet end_of_string stop
              (holds_below→at_pair 256 64 _ table3 third (o / 2 ^ 2) h (omega arith)) (λ _. refl))
      ])

third-Agrees :
    (second : ℕ) (l : List Bool) (reader : Reader)
    → Reads reader (drop 16 l)
    → Agrees (lookup_third second (windows 2 (drop 16 l))) (third_octet second reader) l
unfolding lookup_third third_octet windows
third-Agrees second l reader reads =
    let o = peek 8 (drop 16 l) in
    let small : o < 256 = peek-lt 8 (drop 16 l) in
    let later : drop 8 (drop 16 l) ≡ drop 24 l = drop-drop 16 8 24 l refl in
    let reads' = rw later at (bb_next-Reads reader 8 (drop 16 l) (omega arith) reads) in
    rw (bb_peek-Reads reader (drop 16 l) reads) (elim (Bool-cases (second == 0xfe)) [
      | inl fe ↦
          rw fe (
            direct-Agrees 16 l reader reads _ modulo_octet (holds_below→at 256 _ table2_fe o small))
      | inr ff ↦ rw ff (
          tested-Agrees 16 l reader reads _ (λ entry. entry.bits - 16) _ _
            (holds_below→at 256 _ table2_ff o small)
            (λ long. rw (← later) at (fourth-Agrees o l (bb_next reader 8) small long reads')))
    ])

four-Agrees :
    (l : List Bool) (reader : Reader) (i : ℕ)
    → i < 4
    → Reads reader (drop 8 l)
    → Agrees
        (take_four (get_elem? four_symbols i))
        (one_of_four (get_elem? four_symbols i) reader)
        l
unfolding take_four one_of_four
four-Agrees l reader zero h reads =
    (omega arith, (_, refl, skip-Reads 8 l reader reads 2 (omega arith)))
four-Agrees l reader (suc zero) h reads =
    (omega arith, (_, refl, skip-Reads 8 l reader reads 2 (omega arith)))
four-Agrees l reader (suc (suc zero)) h reads =
    (omega arith, (_, refl, skip-Reads 8 l reader reads 2 (omega arith)))
four-Agrees l reader (suc (suc (suc zero))) h reads =
    (omega arith, (_, refl, skip-Reads 8 l reader reads 2 (omega arith)))
four-Agrees l reader (suc (suc (suc (suc i)))) h reads = absurd (omega arith)

second-Agrees :
    (first : ℕ) (l : List Bool) (reader : Reader)
    → Reads reader (drop 8 l)
    → Agrees (lookup_second first (windows 3 (drop 8 l))) (second_octet first reader) l
unfolding lookup_second second_octet windows
second-Agrees first l reader reads =
    let o = peek 8 (drop 8 l) in
    let small : o < 256 = peek-lt 8 (drop 8 l) in
    let later : drop 8 (drop 8 l) ≡ drop 16 l = drop-drop 8 8 16 l refl in
    let reads' = rw later at (bb_next-Reads reader 8 (drop 8 l) (omega arith) reads) in
    rw (bb_peek-Reads reader (drop 8 l) reads) (elim (Bool-cases (first == 0xfe)) [
      | inl fe ↦ rw fe (four-Agrees l reader (o / 2 ^ 6) (omega arith) reads)
      | inr ff ↦ rw ff (
          tested-Agrees 8 l reader reads _ modulo_octet _ _ (holds_below→at 256 _ table1 o small)
            (λ _. rw (← later) at (third-Agrees o l (bb_next reader 8) reads')))
    ])

-- At any reader that stands at a bit string, the decoding step is defined, and it is what the tables
-- say of the next four octets:
-- it gives the symbol found and a reader behind the symbol's bits, or stops at the end of string.
pub decode_symbol-Agrees :
    (reader : Reader) (l : List Bool)
    → Reads reader l
    → Agrees (lookup (windows 4 l)) (decode_symbol reader) l
unfolding lookup decode_symbol windows
decode_symbol-Agrees reader l reads =
    let small : peek 8 l < 256 = peek-lt 8 l in
    rw (bb_peek-Reads reader l reads) (
      tested-Agrees 0 l reader reads _ (λ entry. entry.bits) _ _
        (holds_below→at 256 _ table0 (peek 8 l) small)
        (λ _.
          second-Agrees (peek 8 l) l (bb_next reader 8)
            (bb_next-Reads reader 8 l (omega arith) reads)))
