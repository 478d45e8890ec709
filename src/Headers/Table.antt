-- ===== src/Headers/Table.antt =====
-- `Header`, and the tables that a field's index selects from: `DynamicTable`, `StaticTable` and
-- `HeaderTable`. `unsigned` has 32 bits.
pub mod Size
pub mod Insert
pub mod Resize
pub mod Get
use shitty.Prelude.{
  ℕ, zero, suc, ◌+◌, ◌-◌, ◌%◌, ◌^◌, ltb, leb, ◌==◌, if◌then◌else◌, not, Bool, true, false, ◌&&◌,
  ◌||◌,
}
use shitty.Prelude.{List, [], ◌∷◌, Option, none, some, length, take, get_elem?}
use shitty.Prelude.{
  Result, ok, thrown, Exception, out_of_range, assert_failed, undefined_behaviour, ◌>>=◌,
}
use shitty.Headers.Static.{StaticTableEntry, static_table}

-- The encoded strings hold the HPACK length prefix, or are empty where they are not known.
pub record Header : Type 0 where
  pub name : List ℕ
  pub value : List ℕ
  pub name_encoded : List ℕ
  pub value_encoded : List ℕ
  pub never_indexed : Bool

abbrev pub u32 : ℕ → ℕ
u32 n = n % 2 ^ 32

unfoldable pub header_size : Header → ℕ
header_size h = u32 (32 + length h.name + length h.value)

abbrev pub set_value : Header → List ℕ → List ℕ → Header
set_value h v encoded_value = record {
  name = h.name;
  value = v;
  name_encoded = h.name_encoded;
  value_encoded = encoded_value;
  never_indexed = h.never_indexed;
}

abbrev pub set_never_indexed : Header → Header
set_never_indexed h = record {
  name = h.name;
  value = h.value;
  name_encoded = h.name_encoded;
  value_encoded = h.value_encoded;
  never_indexed = true;
}

-- The newest header is the first of `table`.
pub record DynamicTable : Type 0 where
  pub size_octets : ℕ
  pub table : List Header

abbrev pub start : ℕ
start = 62

abbrev pub initial_table : DynamicTable
initial_table = record { size_octets = 4096; table = [] }

-- A container's element, with what is done where there is none.
abbrev pub at_or {ℓ} : {A : Type ℓ} → Exception → Option A → Result A
at_or e none = thrown e
at_or e (some a) = ok a

unfoldable pub dynamic_get : DynamicTable → ℕ → Result Header
dynamic_get t index =
    if ltb index start
    then thrown out_of_range
    else if leb (length t.table) (index - start)
    then thrown out_of_range
    else at_or undefined_behaviour (get_elem? t.table (index - start))

unfoldable pub table_size : List Header → ℕ
table_size [] = 0
table_size (h ∷ hs) = u32 (header_size h + table_size hs)

unfoldable pub pop_back {ℓ} : {A : Type ℓ} → List A → List A
pop_back [] = []
pop_back (x ∷ []) = []
pop_back (x ∷ y ∷ ys) = x ∷ pop_back (y ∷ ys)

-- The `while` of `insert`, on fuel: each pass takes a header off, so their number is enough.
unfoldable pub evict : ℕ → List Header → ℕ → ℕ → List Header
evict zero hs newh_size size_octets = hs
evict (suc fuel) hs newh_size size_octets =
    let rest = evict fuel (pop_back hs) newh_size size_octets in
    if ltb size_octets (u32 (table_size hs + newh_size)) && not (length hs == 0) then rest else hs

unfoldable pub insert : DynamicTable → Header → DynamicTable
insert t header =
    let newh_size = header_size header in
    let kept = evict (length t.table) t.table newh_size t.size_octets in
    if ltb t.size_octets newh_size
    then record { size_octets = t.size_octets; table = [] }
    else record { size_octets = t.size_octets; table = header ∷ kept }

-- The loop of `resize`, with the failure of its `assert`. It ends with `nremove`. The number of
-- headers behind the `nremove` last ones is `left`; with none, the next index is out of range.
unfoldable pub shrink : ℕ → List Header → ℕ → ℕ → ℕ → Result ℕ
shrink zero hs nremove hsize new_hpack_size =
    if not (length hs == 0) && ltb new_hpack_size hsize
    then thrown undefined_behaviour
    else ok nremove
shrink (suc left) hs nremove hsize new_hpack_size =
    if not (length hs == 0) && ltb new_hpack_size hsize
    then (at_or undefined_behaviour (get_elem? hs (length hs - (nremove + 1))) >>= λ entry.
        if ltb hsize (header_size entry)
        then shrink left hs (nremove + 1) (u32 (hsize + 2 ^ 32 - header_size entry)) new_hpack_size
        else thrown assert_failed)
    else ok nremove

unfoldable pub resize : DynamicTable → ℕ → Result DynamicTable
resize t new_hpack_size =
    let hs = t.table in
    if leb t.size_octets new_hpack_size
    then ok (record { size_octets = new_hpack_size; table = hs })
    else shrink (length hs) hs 0 (table_size hs) new_hpack_size >>= λ nremove.
        ok (record { size_octets = t.size_octets; table = take (length hs - nremove) hs })

-- `static_table` is read at the count of its entries where `index` is that count.
unfoldable pub static_get : ℕ → Result Header
static_get index =
    if index == 0 || ltb (length static_table) index
    then thrown out_of_range
    else at_or undefined_behaviour (get_elem? static_table index) >>= λ entry. ok (record {
      name = entry.name;
      value = entry.value;
      name_encoded = [];
      value_encoded = [];
      never_indexed = false;
    })

-- `HeaderTable` has a `DynamicTable` for its state, and `insert` and `resize` are those.
unfoldable pub get : DynamicTable → ℕ → Result Header
get dtable index = if ltb index 62 then static_get index else dynamic_get dtable index
