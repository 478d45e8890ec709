-- ===== src/Huffman/Decode/CodeString.antt =====
-- The decoder on the code of a string.
use native.Mathlib.Nat.{mod-eq_of_lt}
use shitty.Prelude.{ℕ, zero, suc, ◌+◌, ◌-◌, ◌*◌, ◌^◌, ◌≤◌, ◌<◌, ◌≡◌, refl, ap, ◌∙◌, arith}
use shitty.Prelude.{
  Bool, true, false, ◌&&◌, List, [], ◌∷◌, ◌++◌, length, drop, All, IsByte, some, replicate,
  append_assoc, length-replicate, append-nil,
}
use shitty.Bits.Stream.{
  bits, octet_bits, peek, all_ones, peek-lt, peek_split, peek_high, peek_low, peek-bits, drop-bits,
  length-bits, drop-drop, all_ones-peek,
}
use shitty.Huffman.Codes.{huffcode, code_string}
use shitty.Huffman.Reader.{Reader, bb_eos, bb_reader_init}
use shitty.Huffman.Reader.Refine.{Reads}
use shitty.Huffman.Reader.Ends.{bb_reader_init-Reads, bb_eos-Reads}
use shitty.Huffman.Decode.{decoded, emit, decode_loop, huffman_decode}
use shitty.Huffman.Decode.Lookup.{
  found, lookup, lookup-append, octets_of, octets_for, free_bits, huffcode-IsCode,
}
use shitty.Huffman.Decode.Agree.{windows, decode_symbol-Agrees}
use shitty.Huffman.Decode.Defined.{loop_ended, loop_symbol}

-- The next octets are those of the number in the next bits.
windows-eq-octets_of : (k : ℕ) (l : List Bool) → windows k l ≡ octets_of k (peek (8 * k) l)
unfolding windows octets_of
windows-eq-octets_of zero l = refl
windows-eq-octets_of (suc k) l =
    rw
      (
        ← peek_high 8 (8 * k) (8 * suc k) l (omega arith),
        ← peek_low 8 (8 * k) (8 * suc k) l (omega arith),
      )
      (ap (λ (t : List ℕ). peek 8 l ∷ t) (windows-eq-octets_of k (drop 8 l)))

windows-append :
    (m n k : ℕ) (l : List Bool)
    → m + n ≡ k
    → windows k l ≡ windows m l ++ windows n (drop (8 * m) l)
unfolding windows
windows-append zero n k l h = let e : n ≡ k = omega arith in rw e
windows-append (suc m) n zero l h = absurd (omega arith)
windows-append (suc m) n (suc k) l h =
    rw (← drop-drop 8 (8 * m) (8 * suc m) l (omega arith))
      (ap (λ (t : List ℕ). peek 8 l ∷ t) (windows-append m n k (drop 8 l) (omega arith)))

-- At the code of an octet the lookup finds the octet, whatever follows.
lookup-huffcode :
    (octet : ℕ) (rest : List Bool)
    → octet < 256
    → lookup (windows 4 (bits (huffcode octet).bits (huffcode octet).value ++ rest))
      ≡ found octet (huffcode octet).bits
lookup-huffcode octet rest h =
    let code = huffcode octet in
    let ok = huffcode-IsCode octet h in
    let k = octets_for code.bits in
    let free = free_bits code.bits in
    let l = bits code.bits code.value ++ rest in
    let number : peek (8 * k) l ≡ code.value * 2 ^ free + peek free rest =
      peek_split code.bits free (8 * k) l (omega arith)
      ∙ ap (λ (t : List Bool). peek code.bits l * 2 ^ free + peek free t)
          (drop-bits code.bits code.value rest)
      ∙ ap (λ (t : ℕ). t * 2 ^ free + peek free rest)
          (peek-bits code.bits code.value rest ∙ mod-eq_of_lt (omega (arith, ok.not_ones))) in
    let here : lookup (windows k l) ≡ found octet code.bits =
      rw (windows-eq-octets_of k l, number) (ok.is_found (peek free rest) (peek-lt free rest)) in
    rw (windows-append k (4 - k) 4 l (omega (arith, ok.narrow)))
      (lookup-append (windows k l) _ octet code.bits here)

all_ones-append : (xs ys : List Bool) → all_ones (xs ++ ys) ≡ (all_ones xs && all_ones ys)
unfolding all_ones
all_ones-append [] ys = refl
all_ones-append (true ∷ xs) ys = all_ones-append xs ys
all_ones-append (false ∷ xs) ys = refl

all_ones-replicate : (n : ℕ) → all_ones (replicate n true) ≡ true
unfolding all_ones
all_ones-replicate zero = refl
all_ones-replicate (suc n) = all_ones-replicate n

all_ones-code :
    (octet : ℕ) → octet < 256 → all_ones (bits (huffcode octet).bits (huffcode octet).value) ≡ false
all_ones-code octet h =
    let code = huffcode octet in
    let ok = huffcode-IsCode octet h in
    let number : peek code.bits (bits code.bits code.value) ≡ code.value =
      rw append-nil at (peek-bits code.bits code.value [])
      ∙ mod-eq_of_lt (omega (arith, ok.not_ones)) in
    rw (all_ones-peek (bits code.bits code.value), length-bits code.bits code.value, number)
      (ground (arith, ok.not_ones))

-- At the padding the loop ends.
eos_padding :
    (padding : ℕ) (reader : Reader)
    → padding < 8
    → Reads reader (replicate padding true)
    → bb_eos reader ≡ some true
eos_padding padding reader h reads =
    bb_eos-Reads reader _ reads
    ∙ ap some (rw (all_ones-replicate padding, length-replicate padding true) (ground arith))

-- Before the code of an octet it goes on.
eos_code :
    (octet : ℕ) (rest : List Bool) (reader : Reader)
    → octet < 256
    → Reads reader (bits (huffcode octet).bits (huffcode octet).value ++ rest)
    → bb_eos reader ≡ some false
eos_code octet rest reader h reads =
    bb_eos-Reads reader _ reads
    ∙ ap some (
        rw
          (
            all_ones-append (bits (huffcode octet).bits (huffcode octet).value) rest,
            all_ones-code octet h,
          )
          (ground arith))

-- One pass at the code of an octet.
loop_code :
    (octet : ℕ) (rest : List Bool) (room : ℕ) (reader : Reader)
    → octet < 256
    → Reads reader (bits (huffcode octet).bits (huffcode octet).value ++ rest)
    → (r : Reader) × (decode_loop (suc room) reader ≡ emit octet (decode_loop room r))
      × Reads r rest
loop_code octet rest room reader h reads =
    let code = huffcode octet in
    let (small, found_at) =
      rw (lookup-huffcode octet rest h) at (decode_symbol-Agrees reader _ reads) in
    let (r, e, reads') = found_at in
    (
      r,
      loop_symbol room reader octet r (eos_code octet rest reader h reads) e,
      rw (drop-bits code.bits code.value rest) at reads',
    )

-- A reader that stands at the code of a string, with fewer than eight ones behind it, decodes
-- the string, where there is room for it.
pub decode_loop-code_string :
    (octets : List ℕ) (padding room : ℕ) (reader : Reader)
    → All IsByte octets
    → padding < 8
    → length octets ≤ room
    → Reads reader (code_string octets ++ replicate padding true)
    → decode_loop room reader ≡ decoded octets
unfolding code_string
decode_loop-code_string [] padding zero reader b h fits reads =
    unfold decode_loop in rw (eos_padding padding reader h reads) refl
decode_loop-code_string [] padding (suc room) reader b h fits reads =
    loop_ended room reader (eos_padding padding reader h reads)
decode_loop-code_string (octet ∷ octets) padding zero reader b h fits reads = absurd (omega arith)
decode_loop-code_string (octet ∷ octets) padding (suc room) reader (b, bs) h fits reads =
    let code = bits (huffcode octet).bits (huffcode octet).value in
    let here = rw (append_assoc code (code_string octets) (replicate padding true)) at reads in
    let (r, e, reads') =
      loop_code octet (code_string octets ++ replicate padding true) room reader b here in
    e ∙ ap (emit octet) (decode_loop-code_string octets padding room r bs h (omega arith) reads')

-- Octets whose bits are the code of a string of octets, with fewer than eight ones behind it, decode to the
-- string, where `destlen` has room for it.
pub huffman_decode-code_string :
    (buf octets : List ℕ) (padding destlen : ℕ)
    → All IsByte buf
    → All IsByte octets
    → padding < 8
    → length octets ≤ destlen
    → octet_bits buf ≡ code_string octets ++ replicate padding true
    → huffman_decode buf 8 destlen ≡ decoded octets
unfolding huffman_decode
huffman_decode-code_string buf octets padding destlen b bs h fits e =
    decode_loop-code_string octets padding destlen (bb_reader_init buf) bs h fits
      (rw e at (bb_reader_init-Reads buf b))
