-- ===== src/Headers/Table/Size.antt =====
-- The sizes of headers and tables with no wrap, and where the wrapped ones are the same.
use shitty.Prelude.{
  ℕ, zero, suc, ◌+◌, ◌-◌, ◌^◌, ◌≤◌, ◌<◌, ◌≡◌, refl, ap, arith, List, [], ◌∷◌, length, take,
}
use shitty.Headers.Table.{Header, DynamicTable, header_size, table_size, pop_back}

abbrev pub entry_size : Header → ℕ
entry_size h = 32 + length h.name + length h.value

unfoldable pub total_size : List Header → ℕ
total_size [] = 0
total_size (h ∷ hs) = entry_size h + total_size hs

pub header_size-eq : (h : Header) → entry_size h < 2 ^ 32 → header_size h ≡ entry_size h
unfolding header_size
header_size-eq h small = omega arith

pub table_size-eq : (hs : List Header) → total_size hs < 2 ^ 32 → table_size hs ≡ total_size hs
unfolding table_size total_size
table_size-eq [] small = refl
table_size-eq (h ∷ hs) small =
    omega (arith, header_size-eq h (omega arith), table_size-eq hs (omega arith))

pub total_size-take : (n : ℕ) (hs : List Header) → total_size (take n hs) ≤ total_size hs
unfolding total_size
total_size-take zero hs = omega arith
total_size-take (suc n) [] = omega arith
total_size-take (suc n) (h ∷ hs) = omega (arith, total_size-take n hs)

pub pop_back-eq-take {ℓ} : {A : Type ℓ} (xs : List A) → pop_back xs ≡ take (length xs - 1) xs
unfolding pop_back
pop_back-eq-take [] = refl
pop_back-eq-take (x ∷ []) = refl
pop_back-eq-take {A = A} (x ∷ y ∷ ys) =
    let e : suc (suc (length ys)) - 1 ≡ suc (suc (length ys) - 1) = omega arith in
    rw e (ap (λ (t : List A). x ∷ t) (pop_back-eq-take (y ∷ ys)))

-- The table is within its limit, which is below 2^31 octets, so that no size wraps.
pub record IsWithin (t : DynamicTable) : Type 0 where
  pub fits : total_size t.table ≤ t.size_octets
  pub limit : t.size_octets < 2 ^ 31
