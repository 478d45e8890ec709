-- ===== src/Huffman/Decode/Defined.antt =====
-- Safety of the decoder: on any input it reads no table out of range, shifts by no negative
-- count, and writes no more than `destlen` octets.
use shitty.Prelude.{ℕ, zero, suc, ◌-◌, ◌≤◌, ◌<◌, ◌≡◌, ap, ◌∙◌, arith, ltb, leb, ◌==◌}
use shitty.Prelude.{
  Bool, true, false, ◌&&◌, inl, inr, ◌⊎◌, List, [], length, drop, All, IsByte, Bool-cases, some,
}
use shitty.Bits.Stream.{all_ones}
use shitty.Huffman.Reader.{Reader, bb_eos}
use shitty.Huffman.Reader.Refine.{Reads, bb_next-Reads}
use shitty.Huffman.Reader.Ends.{bb_reader_init-Reads, bb_eos-Reads}
use shitty.Huffman.Decode.{
  Step, symbol, stop, Outcome, decoded, too_small, bad_arguments, undefined, emit, at_end,
}
use shitty.Huffman.Decode.{decode_symbol, decode_loop, huffman_decode}
use shitty.Huffman.Decode.Lookup.{Found, found, end_of_string, more, missing, lookup}
use shitty.Huffman.Decode.Agree.{Agrees, windows, decode_symbol-Agrees}

-- A return value of the C function, with what it wrote: at most `room` octets.
abbrev pub FitsIn : ℕ → Outcome → Type 0
FitsIn room (decoded octets) = (length octets ≤ room) × All IsByte octets
FitsIn room too_small = Unit {0}
FitsIn room bad_arguments = ⊥
FitsIn room undefined = ⊥

emit-FitsIn :
    (octet room : ℕ) (rest : Outcome)
    → octet < 256
    → FitsIn room rest
    → FitsIn (suc room) (emit octet rest)
emit-FitsIn octet room (decoded octets) h (short, bytes) = (omega arith, (h, bytes))
emit-FitsIn octet room too_small h f = tt
emit-FitsIn octet room bad_arguments h f = f
emit-FitsIn octet room undefined h f = f

-- A step goes on behind a symbol or stops.
Agrees-cases :
    (answer : Found) (pass : Step) (l : List Bool)
    → Agrees answer pass l
    → ((octet : ℕ) × (octet < 256)
        × ((r : Reader) × (pass ≡ symbol octet r) × ((l' : List Bool) × Reads r l')))
      ⊎ (pass ≡ stop)
Agrees-cases (found octet bits) pass l (h, (r, e, reads)) =
    inl (octet, h, (r, e, (drop bits l, reads)))
Agrees-cases end_of_string pass l e = inr e
Agrees-cases more pass l h = absurd h
Agrees-cases missing pass l h = absurd h

-- One pass of the loop, by what the reader shows.
module _ (room : ℕ) (reader : Reader) where
  pub loop_ended : bb_eos reader ≡ some true → decode_loop (suc room) reader ≡ decoded []
  unfolding decode_loop
  loop_ended e = rw (e, decode_loop)

  pub loop_symbol :
      (octet : ℕ) (reader' : Reader)
      → bb_eos reader ≡ some false
      → decode_symbol reader ≡ symbol octet reader'
      → decode_loop (suc room) reader ≡ emit octet (decode_loop room reader')
  unfolding decode_loop
  loop_symbol octet reader' e e' = rw (e, decode_loop) (rw (e', decode_loop))

  loop_stop :
      bb_eos reader ≡ some false
      → decode_symbol reader ≡ stop
      → decode_loop (suc room) reader ≡ decoded []
  unfolding decode_loop
  loop_stop e e' = rw (e, decode_loop) (rw (e', decode_loop))

pub at_end-FitsIn : (ended : Bool) → FitsIn 0 (at_end (some ended))
at_end-FitsIn true = (omega arith, tt)
at_end-FitsIn false = tt

decode_loop-FitsIn :
    (room : ℕ) (reader : Reader) (l : List Bool)
    → Reads reader l
    → FitsIn room (decode_loop room reader)
decode_loop-FitsIn zero reader l reads =
    unfold decode_loop in rw (bb_eos-Reads reader l reads) (at_end-FitsIn _)
decode_loop-FitsIn (suc room) reader l reads =
    let eos = bb_eos-Reads reader l reads in
    elim (Bool-cases (leb (length l) 8 && all_ones l)) [
      | inl ended ↦ rw (loop_ended room reader (eos ∙ ap some ended)) (omega arith, tt)
      | inr going ↦
          elim (Agrees-cases (lookup (windows 4 l)) (decode_symbol reader) l
            (decode_symbol-Agrees reader l reads)) [
              | inl (octet, h, (r, e, (l', reads'))) ↦
                  rw (loop_symbol room reader octet r (eos ∙ ap some going) e) (
                    emit-FitsIn octet room (decode_loop room r) h
                      (decode_loop-FitsIn room r l' reads'))
              | inr e ↦ rw (loop_stop room reader (eos ∙ ap some going) e) (omega arith, tt)
            ]
    ]

-- On any octets, with any room and any legal `first_octet_bits`, `huffman_decode` has a defined
-- result: a string of octets that fits `dest`, or -1.
pub huffman_decode-FitsIn :
    (buf : List ℕ) (first_octet_bits destlen : ℕ)
    → All IsByte buf
    → 1 ≤ first_octet_bits
    → first_octet_bits ≤ 8
    → FitsIn destlen (huffman_decode buf first_octet_bits destlen)
unfolding huffman_decode
huffman_decode-FitsIn buf first_octet_bits destlen b lo hi =
    let start = bb_reader_init-Reads buf b in
    let small : ltb first_octet_bits 1 ≡ false = ground arith in
    let big : ltb 8 first_octet_bits ≡ false = ground arith in
    rw (small, big)
      (elim (Bool-cases (first_octet_bits == 8)) [
        | inl whole ↦ rw whole (decode_loop-FitsIn destlen _ _ start)
        | inr part ↦ rw part (
            decode_loop-FitsIn destlen _ _
              (bb_next-Reads _ (8 - first_octet_bits) _ (omega arith) start))
      ])
