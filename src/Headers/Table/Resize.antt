-- ===== src/Headers/Table/Resize.antt =====
-- `DynamicTable::resize`, in all cases.
use shitty.Prelude.{
  ℕ, zero, suc, ◌-◌, ◌^◌, ◌≤◌, ◌<◌, ◌≡◌, refl, arith, inl, inr, Bool-cases, ltb, leb, ◌==◌, not,
  ◌&&◌, true, false,
}
use shitty.Prelude.{
  List, [], ◌∷◌, length, take_all, get_elem?, some, if◌then◌else◌, ok, thrown, assert_failed,
}
use shitty.Headers.Table.{Header, DynamicTable, header_size, table_size, shrink, resize}
use shitty.Headers.Table.Size.{entry_size, total_size, header_size-eq, table_size-eq, IsWithin}

-- No header is larger than the table that holds it.
get_elem?-total_size :
    (hs : List Header) (i : ℕ)
    → i < length hs
    → (h : Header) × (get_elem? hs i ≡ some h) × (entry_size h ≤ total_size hs)
unfolding total_size
get_elem?-total_size [] i b = absurd (omega arith)
get_elem?-total_size (h ∷ hs) zero b = (h, refl, omega arith)
get_elem?-total_size (h ∷ hs) (suc i) b =
    let (h', e, small) = get_elem?-total_size hs i (omega arith) in (h', e, omega arith)

-- The first pass over a table that is too large fails its `assert`.
shrink-asserts :
    (hs : List Header) (new_hpack_size : ℕ)
    → total_size hs < 2 ^ 32
    → new_hpack_size < total_size hs
    → shrink (length hs) hs 0 (table_size hs) new_hpack_size ≡ thrown assert_failed
shrink-asserts [] n small over = absurd (unfold total_size in omega arith)
shrink-asserts (x ∷ xs) n small over =
    let hs = x ∷ xs in
    let (h, e, fits) = get_elem?-total_size hs (length hs - 1) (omega arith) in
    let whole = table_size-eq hs small in
    let size = header_size-eq h (omega arith) in
    let go : (not (length hs == 0) && ltb n (table_size hs)) ≡ true = ground (arith, whole) in
    let smaller : ltb (table_size hs) (header_size h) ≡ false = ground (arith, whole, size) in
    unfold shrink in rw (go, e, smaller) refl

-- The loop ends at once over a table that fits.
shrink-ends :
    (left : ℕ) (hs : List Header) (new_hpack_size : ℕ)
    → total_size hs < 2 ^ 32
    → total_size hs ≤ new_hpack_size
    → shrink left hs 0 (table_size hs) new_hpack_size ≡ ok 0
shrink-ends zero hs n small fits =
    let stops : (not (length hs == 0) && ltb n (table_size hs)) ≡ false =
      ground (arith, table_size-eq hs small) in
    unfold shrink in rw stops refl
shrink-ends (suc left) hs n small fits =
    let stops : (not (length hs == 0) && ltb n (table_size hs)) ≡ false =
      ground (arith, table_size-eq hs small) in
    unfold shrink in rw stops refl

-- Of a table within its limit, which is below 2^31, a resize to the present limit or above stores the
-- new limit. Below it the limit stays as it is:
-- where the headers fit the new size nothing changes, and where they do not the `assert` fails.
pub resize-eq :
    (t : DynamicTable) (new_hpack_size : ℕ)
    → IsWithin t
    → resize t new_hpack_size ≡ (
        if leb t.size_octets new_hpack_size
        then ok (record { size_octets = new_hpack_size; table = t.table })
        else if leb (total_size t.table) new_hpack_size
        then ok t
        else thrown assert_failed)
unfolding resize
resize-eq t n w =
    let small : total_size t.table < 2 ^ 32 = omega (arith, w.fits, w.limit) in
    elim (Bool-cases (leb t.size_octets n)) [
      | inl grows ↦ rw grows refl
      | inr shrinks ↦ rw shrinks (elim (Bool-cases (leb (total_size t.table) n)) [
        | inl fits ↦
            rw
              (
                fits,
                shrink-ends (length t.table) t.table n small (ground arith),
                take_all (length t.table - 0) t.table (omega arith),
              )
              refl
        | inr over ↦ rw (over, shrink-asserts t.table n small (ground arith)) refl
      ])
    ]
