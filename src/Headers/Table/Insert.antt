-- ===== src/Headers/Table/Insert.antt =====
-- `DynamicTable::insert` against RFC 7541, 4.4: which headers it keeps.
use shitty.Prelude.{
  ℕ, zero, suc, ◌+◌, ◌-◌, ◌%◌, ◌^◌, ◌≤◌, ◌<◌, ◌≡◌, refl, ap, sym, ◌∙◌, arith, ◌⊎◌, inl, inr,
  Bool-cases, ltb, leb, ◌==◌, not, ◌&&◌, true, false,
}
use shitty.Prelude.{List, [], ◌∷◌, length, take, take-take, take_all, length-take}
use shitty.Headers.Table.{Header, DynamicTable, header_size, table_size, pop_back, evict, insert}
use shitty.Headers.Table.Size.{
  entry_size, total_size, header_size-eq, table_size-eq, total_size-take, pop_back-eq-take,
  IsWithin,
}

-- The newest of the headers, as many as fit with `size` octets more, and no fewer.
pub record Kept (hs : List Header) (size limit : ℕ) (kept : List Header) : Type 0 where
  pub count : ℕ
  pub within : count ≤ length hs
  pub newest : kept ≡ take count hs
  pub fits : total_size kept + size ≤ limit
  pub most : (count ≡ length hs) ⊎ (limit < total_size (take (suc count) hs) + size)

-- Every header is kept.
Kept-all :
    (hs : List Header) (size limit : ℕ) → total_size hs + size ≤ limit → Kept hs size limit hs
Kept-all hs size limit h = record {
  count = length hs;
  within = omega arith;
  newest = sym (take_all (length hs) hs (omega arith));
  fits = h;
  most = inl refl;
}

-- The last header is not.
Kept-pop :
    (hs : List Header) (size limit : ℕ) (kept : List Header)
    → 1 ≤ length hs
    → limit < total_size hs + size
    → Kept (pop_back hs) size limit kept
    → Kept hs size limit kept
Kept-pop hs size limit kept some_left over k =
    let popped = pop_back-eq-take hs in
    let size' : length (pop_back hs) ≡ length hs - 1 =
      ap length popped ∙ omega (arith, length-take (length hs - 1) hs) in
    record {
      count = k.count;
      within = omega (arith, k.within);
      newest =
          k.newest
          ∙ ap (take k.count) popped
          ∙ take-take k.count (length hs - 1) hs (omega (arith, k.within));
      fits = k.fits;
      most = inr (elim k.most [
        | inl all ↦ rw (take_all (suc k.count) hs (omega arith)) over
        | inr more ↦ elim (Bool-cases (leb (suc k.count) (length hs - 1))) [
          | inl below ↦
              let same : take (suc k.count) (pop_back hs) ≡ take (suc k.count) hs =
                ap (take (suc k.count)) popped
                ∙ take-take (suc k.count) (length hs - 1) hs (ground arith) in
              rw (← same) more
          | inr last ↦ rw (take_all (suc k.count) hs (ground (arith, k.within))) over
        ]
      ]);
    }

total_size_empty : (hs : List Header) → length hs ≡ 0 → total_size hs ≡ 0
unfolding total_size
total_size_empty [] h = refl
total_size_empty (x ∷ hs) h = absurd (omega arith)

evict-Kept :
    (fuel : ℕ) (hs : List Header) (size limit : ℕ)
    → length hs ≤ fuel
    → total_size hs + size < 2 ^ 32
    → size ≤ limit
    → Kept hs size limit (evict fuel hs size limit)
unfolding evict
evict-Kept zero [] size limit h small fits =
    Kept-all [] size limit (unfold total_size in omega arith)
evict-Kept zero (x ∷ hs) size limit h small fits = absurd (omega arith)
evict-Kept (suc fuel) hs size limit h small fits =
    let table = table_size-eq hs (omega arith) in
    let go = ltb limit ((table_size hs + size) % 2 ^ 32) && not (length hs == 0) in
    elim (Bool-cases go) [
      | inl over ↦ rw over (
          let popped = pop_back-eq-take hs in
          let less = total_size-take (length hs - 1) hs in
          let less' = ap total_size popped in
          let size' = ap length popped ∙ length-take (length hs - 1) hs in
          Kept-pop hs size limit _ (ground arith) (ground (arith, table)) (
            evict-Kept fuel (pop_back hs) size limit (ground (arith, size'))
              (omega (arith, less, less')) fits))
      | inr enough ↦ rw enough (Kept-all hs size limit (ground (arith, table, total_size_empty hs)))
    ]

-- In a table within its limit, which is below 2^31, a header that fits becomes the first entry, and of the others the newest stay: as many
-- as fit beside it, and no fewer.
pub insert-Kept :
    (t : DynamicTable) (h : Header)
    → IsWithin t
    → entry_size h ≤ t.size_octets
    → (kept : List Header) × (insert t h ≡ record { size_octets = t.size_octets; table = h ∷ kept })
      × Kept t.table (entry_size h) t.size_octets kept
unfolding insert
insert-Kept t h w fits =
    let size = header_size-eq h (omega (arith, w.limit)) in
    let room : ltb t.size_octets (header_size h) ≡ false = ground arith in
    rw (room, size)
      (
        evict (length t.table) t.table (entry_size h) t.size_octets,
        refl,
        evict-Kept (length t.table) t.table (entry_size h) t.size_octets (omega arith)
            (omega (arith, w.fits, w.limit)) fits,
      )

-- A header that does not fit empties the table.
pub insert_too_large :
    (t : DynamicTable) (h : Header)
    → entry_size h < 2 ^ 32
    → t.size_octets < entry_size h
    → insert t h ≡ record { size_octets = t.size_octets; table = [] }
unfolding insert
insert_too_large t h small over =
    let size = header_size-eq h small in
    let full : ltb t.size_octets (header_size h) ≡ true = ground arith in rw full refl

-- Inserting any header of less than 2^32 octets leaves a table within its limit that was within it,
-- where the limit is below 2^31.
pub insert-IsWithin :
    (t : DynamicTable) (h : Header) → IsWithin t → entry_size h < 2 ^ 32 → IsWithin (insert t h)
insert-IsWithin t h w small = elim (Bool-cases (ltb t.size_octets (entry_size h))) [
  | inl over ↦
      rw (insert_too_large t h small (ground arith))
        (record { fits = unfold total_size in omega arith; limit = w.limit })
  | inr fits ↦
      let (kept, e, k) = insert-Kept t h w (ground arith) in
      rw e (record { fits = unfold total_size in omega (arith, k.fits); limit = w.limit })
]
