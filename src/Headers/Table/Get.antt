-- ===== src/Headers/Table/Get.antt =====
-- The index of a header field, in the static table and in the dynamic one.
use shitty.Prelude.{
  ℕ, zero, suc, ◌+◌, ◌-◌, ◌≤◌, ◌<◌, ◌≡◌, refl, arith, ◌⊎◌, inl, inr, Bool-cases, ltb, leb, ◌==◌,
  false,
}
use shitty.Prelude.{List, [], ◌∷◌, length, get_elem?, some, ok, thrown, out_of_range}
use shitty.Headers.Static.{static_table, StaticTableEntry}
use shitty.Headers.Table.{Header, DynamicTable, insert, static_get, dynamic_get, get}
use shitty.Headers.Table.Size.{entry_size, IsWithin}
use shitty.Headers.Table.Insert.{insert-Kept}

get_elem?-lt {ℓ} :
    {A : Type ℓ} (xs : List A) (i : ℕ) → i < length xs → (a : A) × (get_elem? xs i ≡ some a)
get_elem?-lt [] i h = absurd (omega arith)
get_elem?-lt (x ∷ xs) zero h = (x, refl)
get_elem?-lt (x ∷ xs) (suc i) h = get_elem?-lt xs i (omega arith)

static_count : length static_table ≡ 62
unfolding static_table
static_count = refl

abbrev static_header : StaticTableEntry → Header
static_header entry = record {
  name = entry.name;
  value = entry.value;
  name_encoded = [];
  value_encoded = [];
  never_indexed = false;
}

-- `HeaderTable::get` is defined at every index: it reads no table out of range, gives a header at 1 to
-- 61 and at the indices of the dynamic table, and throws `out_of_range` at every other index.
pub get_lem :
    (t : DynamicTable) (index : ℕ)
    → ((1 ≤ index) × (index < 62 + length t.table) × ((h : Header) × (get t index ≡ ok h)))
      ⊎ (((index ≡ 0) ⊎ (62 + length t.table ≤ index)) × (get t index ≡ thrown out_of_range))
unfolding get static_get dynamic_get
get_lem t index = elim (Bool-cases (ltb index 62)) [
  | inl low ↦ elim (Bool-cases (index == 0)) [
    | inl zero_index ↦ inr (inl (ground arith), rw (low, zero_index) refl)
    | inr valid ↦
        let (entry, e) = get_elem?-lt static_table index (ground (arith, static_count)) in
        let inside : ltb (length static_table) index ≡ false = ground (arith, static_count) in
        inl (ground arith, ground arith, (static_header entry, rw (low, valid, inside, e) refl))
  ]
  | inr high ↦ elim (Bool-cases (leb (length t.table) (index - 62))) [
    | inl over ↦ inr (inr (ground arith), rw (high, over) refl)
    | inr inside ↦
        let (h, e) = get_elem?-lt t.table (index - 62) (ground arith) in
        inl (ground arith, ground arith, (h, rw (high, inside, e) refl))
  ]
]

get_first :
    (size_octets : ℕ) (h : Header) (hs : List Header)
    → get (record { size_octets = size_octets; table = h ∷ hs }) 62 ≡ ok h
unfolding get dynamic_get
get_first size_octets h hs =
    let inside : leb (suc (length hs)) 0 ≡ false = ground arith in rw inside refl

-- In a table within its limit, which is below 2^31, a header that fits has the first dynamic index
-- once it is inserted.
pub get-insert :
    (t : DynamicTable) (h : Header)
    → IsWithin t
    → entry_size h ≤ t.size_octets
    → get (insert t h) 62 ≡ ok h
get-insert t h w fits =
    let (kept, e, k) = insert-Kept t h w fits in rw e (get_first t.size_octets h kept)
