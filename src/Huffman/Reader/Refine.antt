-- ===== src/Huffman/Reader/Refine.antt =====
-- The reader implements a cursor on a bit string: `Reads bb l` says that `l` is what is left of the
-- input's bits, and `bb_next` drops bits from it.
use shitty.Prelude.{ℕ, ◌+◌, ◌-◌, ◌*◌, ◌^◌, ◌≤◌, ◌<◌, ◌≡◌, refl, sym, ap, ◌∙◌, arith}
use shitty.Prelude.{Bool, true, false, leb, ltb, List, [], ◌∷◌, Option, none, some, inl, inr}
use shitty.Prelude.{length, drop, length-append, length-drop, All, IsByte, Bool-cases, ltb→lt}
use native.Mathlib.Nat.{mod-eq_of_lt}
use shitty.Bits.Stream.{bits, octet_bits, peek, peek-bits, drop-bits, length-bits, drop-drop}
use shitty.Huffman.Reader.{Reader, Loaded, load_octet, count_down, bb_load_next, bb_next}
use shitty.Huffman.Reader.Window.{window_load, window_shift, next_load, next_shift}

-- How far the end is: beyond both octets of the reader while it has not been reached, and
-- at most eight bits away after that.
abbrev Ends : Option ℕ → ℕ → List ℕ → List Bool → Type 0
Ends none next_bits input l = length l ≡ 8 + next_bits + 8 * length input
Ends (some e) next_bits input l = (length l ≡ e) × (e ≤ 8) × (input ≡ [])

pub record Reads (bb : Reader) (l : List Bool) : Type 0 where
  pub some_next : 1 ≤ bb.next_bits
  pub most_next : bb.next_bits ≤ 8
  pub window : bb.octet ≡ peek 8 l
  pub behind : bb.next ≡ peek bb.next_bits (drop 8 l) * 2 ^ (8 - bb.next_bits)
  pub tail : drop (8 + bb.next_bits) l ≡ octet_bits bb.input
  pub bytes : All IsByte bb.input
  pub ends : Ends bb.eos_after_bits bb.next_bits bb.input l

pub length-octet_bits : (octets : List ℕ) → length (octet_bits octets) ≡ 8 * length octets
unfolding octet_bits
length-octet_bits [] = omega arith
length-octet_bits (octet ∷ octets) = omega (
  arith,
  length-append (bits 8 octet) (octet_bits octets),
  length-bits 8 octet,
  length-octet_bits octets,
)

-- What a load hands on, where `d` bits are dropped and `next` is used up.
record LoadsAt (ld : Loaded) (next_bits d : ℕ) (l : List Bool) : Type 0 where
  value : ld.value ≡ peek 8 (drop (8 + next_bits) l)
  rest : drop (16 + next_bits) l ≡ octet_bits ld.left
  bytes : All IsByte ld.left
  ends : Ends (count_down d ld.eos) (8 - (d - next_bits)) ld.left (drop d l)

count_down-Ends :
    (e d next_bits : ℕ) (l : List Bool)
    → length l ≡ e
    → e ≤ 8 + d
    → Ends (count_down d (some e)) next_bits [] (drop d l)
unfolding count_down
count_down-Ends e d next_bits l h h' = elim (Bool-cases (ltb e d)) [
  | inl past ↦ rw past (omega (arith, length-drop d l, ltb→lt e d past), omega arith, refl)
  | inr short ↦ rw short (omega (arith, length-drop d l), omega arith, refl)
]

load_octet-LoadsAt :
    (input : List ℕ) (nb : ℕ) (eos : Option ℕ) (d : ℕ) (l : List Bool)
    → nb ≤ d
    → d ≤ 8
    → drop (8 + nb) l ≡ octet_bits input
    → All IsByte input
    → Ends eos nb input l
    → LoadsAt (load_octet input nb eos) nb d l
unfolding load_octet count_down
load_octet-LoadsAt [] nb none d l h h' tail b ends = record {
  value = rw tail (unfold octet_bits peek in refl);
  rest =
      sym (drop-drop (8 + nb) 8 (16 + nb) l (omega arith))
      ∙ ap (drop 8) tail
      ∙ (unfold octet_bits in refl);
  bytes = tt;
  ends = count_down-Ends (8 + nb) d _ l (omega arith) (omega arith);
}
load_octet-LoadsAt [] nb (some e) d l h h' tail b ends = record {
  value = rw tail (unfold octet_bits peek in refl);
  rest =
      sym (drop-drop (8 + nb) 8 (16 + nb) l (omega arith))
      ∙ ap (drop 8) tail
      ∙ (unfold octet_bits in refl);
  bytes = tt;
  ends = count_down-Ends e d _ l ends.0 (omega arith);
}
load_octet-LoadsAt (byte ∷ input) nb none d l h h' tail (b, bs) ends = record {
  value =
      rw tail (unfold octet_bits in (sym (peek-bits 8 byte (octet_bits input) ∙ mod-eq_of_lt b)));
  rest =
      sym (drop-drop (8 + nb) 8 (16 + nb) l (omega arith))
      ∙ ap (drop 8) tail
      ∙ (unfold octet_bits in drop-bits 8 byte (octet_bits input));
  bytes = bs;
  ends = omega (arith, length-drop d l);
}
load_octet-LoadsAt (byte ∷ input) nb (some e) d l h h' tail b (_, _, none_left) =
    absurd (cc none_left)

-- Where `next` is used up and an octet is loaded.
bb_load-Reads :
    (bb : Reader) (d : ℕ) (l : List Bool)
    → d ≤ 8
    → bb.next_bits ≤ d
    → Reads bb l
    → Reads (bb_load_next bb d) (drop d l)
unfolding bb_load_next
bb_load-Reads bb d l h' used reads =
    let nb = bb.next_bits in
    let ld =
      load_octet-LoadsAt bb.input nb bb.eos_after_bits d l used h' reads.tail reads.bytes
        reads.ends in
    let test : leb nb d ≡ true = ground arith in
    rw test (record {
      some_next = omega (arith, reads.some_next);
      most_next = omega arith;
      window =
          rw (reads.window, reads.behind, ld.value)
            (window_load d (8 - d) nb (d - nb) l (omega arith) (omega arith));
      behind = rw ld.value (next_load d nb (d - nb) (8 - (d - nb)) l (omega arith) (omega arith));
      tail = drop-drop d _ (16 + nb) l (omega arith) ∙ ld.rest;
      bytes = ld.bytes;
      ends = ld.ends;
    })

Ends-shift :
    (eos : Option ℕ) (nb d : ℕ) (input : List ℕ) (l : List Bool)
    → d < nb
    → nb ≤ 8
    → Ends eos nb input l
    → Ends (count_down d eos) (nb - d) input (drop d l)
Ends-shift none nb d input l h h' ends = unfold count_down in omega (arith, length-drop d l)
Ends-shift (some e) nb d input l h h' (count, few, none_left) =
    rw none_left (count_down-Ends e d (nb - d) l count (omega arith))

bb_shift-Reads :
    (bb : Reader) (d : ℕ) (l : List Bool)
    → d ≤ 8
    → d < bb.next_bits
    → Reads bb l
    → Reads (bb_load_next bb d) (drop d l)
unfolding bb_load_next
bb_shift-Reads bb d l h' left reads =
    let nb = bb.next_bits in
    let test : leb nb d ≡ false = ground arith in
    rw test (record {
      some_next = omega arith;
      most_next = omega (arith, reads.most_next);
      window =
          rw (reads.window, reads.behind)
            (window_shift d (8 - d) nb (nb - d) l (omega arith) (omega arith) reads.most_next);
      behind = rw reads.behind (next_shift d nb (nb - d) l (omega arith) reads.most_next);
      tail = drop-drop d _ (8 + nb) l (omega arith) ∙ reads.tail;
      bytes = reads.bytes;
      ends = Ends-shift bb.eos_after_bits nb d bb.input l left reads.most_next reads.ends;
    })

-- Skipping up to 8 bits of a reader that stands at a bit string drops them from the string, across
-- octets and past the end.
pub bb_next-Reads :
    (bb : Reader) (d : ℕ) (l : List Bool) → d ≤ 8 → Reads bb l → Reads (bb_next bb d) (drop d l)
unfolding bb_next
bb_next-Reads bb d l h' reads = elim (Bool-cases (leb bb.next_bits d)) [
  | inl used ↦ bb_load-Reads bb d l h' (ground arith) reads
  | inr left ↦ bb_shift-Reads bb d l h' (ground arith) reads
]
