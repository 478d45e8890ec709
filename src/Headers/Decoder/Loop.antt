-- ===== src/Headers/Decoder/Loop.antt =====
-- Each field that `parseHeaders` reads takes octets off the buffer, so that its loop ends.
use shitty.Prelude.{
  ℕ, zero, suc, ◌/◌, ◌%◌, ◌≤◌, ◌<◌, ◌≡◌, refl, arith, inl, inr, ◌==◌, not, ◌&&◌, ◌||◌, true, false,
  bit_and,
}
use shitty.Prelude.{
  List, [], ◌∷◌, length, drop, some, Result, ok, thrown, logic_error, Exception, ◌>>=◌, holds_below,
  holds_below→at, Result-cases, AllOk, AllOk->>=, AllOk-if, AllOk-any,
}
use shitty.Headers.Table.{DynamicTable, u32, get, resize}
use shitty.Headers.Decoder.{Field, Pass, Parsed, number_at, decode_string, one_header, add_headers}
use shitty.Headers.Decoder.{
  decode_indexed, decode_literal, decode_literal_indexed, decode_literal_new,
  decode_literal_incremental, dynamic_table_resize,
}
use shitty.Headers.Decoder.{
  decode_literal_without_indexing, decode_literal_never_indexed, parse_field, parse_headers,
}
use shitty.Headers.Decoder.Parse.{Below, number_at-left, decode_string-left}

abbrev FieldBelow : ℕ → Field → Type 0
FieldBelow size f = Below size f.left

abbrev PassBelow : ℕ → Pass → Type 0
PassBelow size p = Below size p.left

shorter :
    (size size' : ℕ) (m : Result Field)
    → size < size'
    → AllOk (FieldBelow size) m
    → AllOk (FieldBelow size') m
shorter size size' (ok f) h h' = omega (arith, h, h')
shorter size size' (thrown e) h h' = tt

module _ (t : DynamicTable) where
  decode_indexed-left : (buf : List ℕ) → AllOk (FieldBelow (length buf)) (decode_indexed t buf)
  unfolding decode_indexed
  decode_indexed-left buf = AllOk->>= _ _ (number_at buf 7) _ (number_at-left buf 7) (λ (n, v) h.
      AllOk->>= (λ _. Unit {0}) _ (get t (u32 v)) _ (AllOk-any _ _ (λ _. tt)) (λ header _. h))

  decode_literal_indexed-left :
      (index : ℕ) (buf : List ℕ)
      → AllOk (FieldBelow (length buf)) (decode_literal_indexed t index buf)
  unfolding decode_literal_indexed
  decode_literal_indexed-left index buf =
      AllOk->>= (λ _. Unit {0}) _ (get t index) _ (AllOk-any _ _ (λ _. tt))
        (λ header _. AllOk->>= _ _ (decode_string buf) _ (decode_string-left buf) (λ value h. h))

  decode_literal_new-left :
      (buf : List ℕ) → AllOk (FieldBelow (length buf)) (decode_literal_new t buf)
  unfolding decode_literal_new
  decode_literal_new-left buf =
      AllOk->>= _ _ (decode_string buf) _ (decode_string-left buf) (λ name h.
        AllOk->>= _ _ (decode_string name.left) _ (decode_string-left name.left)
          (λ value h'. omega (arith, h, h')))

  decode_literal-left :
      (buf : List ℕ) (length_bits : ℕ)
      → AllOk (FieldBelow (length buf)) (decode_literal t buf length_bits)
  unfolding decode_literal
  decode_literal-left buf length_bits =
      AllOk->>= _ _ (number_at buf length_bits) _ (number_at-left buf length_bits) (λ (n, v) h.
        AllOk-if _ (v == 0) _ _
          (shorter _ _ (decode_literal_new t (drop n buf)) h (decode_literal_new-left (drop n buf)))
          (shorter _ _ (decode_literal_indexed t (u32 v) (drop n buf)) h
            (decode_literal_indexed-left (u32 v) (drop n buf))))

  dynamic_table_resize-left :
      (buf : List ℕ) → AllOk (λ r. Below (length buf) r.left) (dynamic_table_resize t buf)
  unfolding dynamic_table_resize
  dynamic_table_resize-left [] = tt
  dynamic_table_resize-left (octet ∷ octets) =
      AllOk-if _ (bit_and octet 0x02 == 0x02) _ _
        (AllOk->>= _ _ (number_at (octet ∷ octets) 5) _ (number_at-left (octet ∷ octets) 5)
          (λ (n, v) h.
            AllOk->>= (λ _. Unit {0}) _ (resize t (u32 v)) _ (AllOk-any _ _ (λ _. tt)) (λ t' _. h)))
        tt

  one_header-left :
      (size : ℕ) (m : Result Field)
      → AllOk (FieldBelow size) m
      → AllOk (PassBelow size) (m >>= one_header)
  one_header-left size m h = AllOk->>= _ _ m one_header h (λ f h'. h')

  -- A field takes at least one octet.
  pub parse_field-left :
      (octet : ℕ) (octets : List ℕ)
      → AllOk (PassBelow (length (octet ∷ octets))) (parse_field t octet octets)
  unfolding parse_field decode_literal_incremental decode_literal_never_indexed
      decode_literal_without_indexing
  parse_field-left octet octets =
      let buf = octet ∷ octets in
      let size = length buf in
      AllOk-if _ (not (bit_and octet 0x80 == 0)) _ _
        (one_header-left size _ (decode_indexed-left buf))
        (AllOk-if _ (not (bit_and octet 0x40 == 0)) _ _
          (one_header-left size _
            (AllOk->>= _ _ (decode_literal t buf 6) _ (decode_literal-left buf 6) (λ f h. h)))
          (AllOk-if _ (not (bit_and octet 0x20 == 0)) _ _
            (AllOk->>= _ _ (dynamic_table_resize t buf) _ (dynamic_table_resize-left buf)
              (λ r h. h))
            (AllOk-if _ (not (bit_and octet 0x10 == 0)) _ _
              (one_header-left size _
                (AllOk->>= _ _ (decode_literal t buf 4) _ (decode_literal-left buf 4) (λ f h. h)))
              (one_header-left size _ (decode_literal-left buf 4)))))

loop_pass :
    (fuel : ℕ) (t : DynamicTable) (octet : ℕ) (octets : List ℕ) (p : Pass) (rest : Parsed)
    → parse_field t octet octets ≡ ok p
    → parse_headers fuel p.dtable p.left ≡ some rest
    → parse_headers (suc fuel) t (octet ∷ octets) ≡ some (add_headers p.added rest)
unfolding parse_headers
loop_pass fuel t octet octets p rest e e' = rw (e, parse_headers) (rw (e', parse_headers) refl)

loop_thrown :
    (fuel : ℕ) (t : DynamicTable) (octet : ℕ) (octets : List ℕ) (e : Exception)
    → parse_field t octet octets ≡ thrown e
    → parse_headers (suc fuel) t (octet ∷ octets) ≡ some (record { headers = thrown e; dtable = t })
unfolding parse_headers
loop_thrown fuel t octet octets e failed = rw (failed, parse_headers) refl

-- With as much fuel as there are octets, `parseHeaders` returns or throws.
pub parse_headers_total :
    (fuel : ℕ) (t : DynamicTable) (buf : List ℕ)
    → length buf ≤ fuel
    → (p : Parsed) × (parse_headers fuel t buf ≡ some p)
unfolding parse_headers
parse_headers_total fuel t [] h = (_, refl)
parse_headers_total zero t (octet ∷ octets) h = absurd (omega arith)
parse_headers_total (suc fuel) t (octet ∷ octets) h =
    elim (Result-cases (parse_field t octet octets)) [
      | inl (p, e) ↦
          let less = rw e at (parse_field-left t octet octets) in
          let (rest, e') = parse_headers_total fuel p.dtable p.left (omega (arith, less)) in
          (add_headers p.added rest, loop_pass fuel t octet octets p rest e e')
      | inr (e, failed) ↦
          (record { headers = thrown e; dtable = t }, loop_thrown fuel t octet octets e failed)
    ]

-- The kinds of octets that `parseHeaders` takes for a size update and `dynamic_table_resize` refuses.
size_update_table :
    holds_below 256 (λ o.
      not (o / 32 == 1)
      || not (o / 2 % 2 == 0)
      || (bit_and o 0x80 == 0
          && bit_and o 0x40 == 0
          && not (bit_and o 0x20 == 0)
          && not (bit_and o 0x02 == 0x02)))
    ≡ true
unfolding holds_below
size_update_table = refl

-- A size update (RFC 7541, 6.3) whose first octet has its second bit clear is refused, whatever follows:
-- `dynamic_table_resize` tests that bit and not the one that tells a size update.
pub parse_field-size_update :
    (t : DynamicTable) (octet : ℕ) (octets : List ℕ)
    → octet / 32 ≡ 1
    → octet / 2 % 2 ≡ 0
    → parse_field t octet octets ≡ thrown logic_error
unfolding parse_field dynamic_table_resize
parse_field-size_update t octet octets kind clear =
    let row = holds_below→at 256 _ size_update_table octet (omega arith) in
    let a : not (bit_and octet 0x80 == 0) ≡ false = ground (arith, row) in
    let b : not (bit_and octet 0x40 == 0) ≡ false = ground (arith, row) in
    let c : not (bit_and octet 0x20 == 0) ≡ true = ground (arith, row) in
    let d : (bit_and octet 0x02 == 0x02) ≡ false = ground (arith, row) in rw (a, b, c, d) refl
