-- ===== src/Messages/Laws.antt =====
-- What `find` gives behind each operation on headers.
use shitty.Prelude.{
  ℕ, ◌≡◌, refl, sym, ap, ◌∙◌, ◌⊎◌, inl, inr, if◌then◌else◌, true, false, Bool-cases, List, [], ◌∷◌,
  Option, none, some, All,
}
use shitty.Text.{ascii_lower, case_insensitive_equal}
use shitty.Text.Equal.{
  case_insensitive_equal_refl, case_insensitive_equal_cong, case_insensitive_equal-ascii_lower,
}
use shitty.Messages.{Header, no_header, find, get, add, remove, set}

distinct :
    (a b c : List ℕ)
    → case_insensitive_equal a b ≡ false
    → case_insensitive_equal a c ≡ true
    → case_insensitive_equal b c ≡ true
    → ⊥
distinct a b c other found hit =
    let one = case_insensitive_equal_cong a c b found in
    let two = case_insensitive_equal_cong b c b hit in
    let three = case_insensitive_equal_refl b in cc

pub get-none : (hs : List Header) (name : List ℕ) → find hs name ≡ none → get hs name ≡ no_header
unfolding get
get-none hs name absent = rw (absent, get) refl

pub get-some :
    (hs : List Header) (name : List ℕ) {h : Header} → find hs name ≡ some h → get hs name ≡ h
unfolding get
get-some hs name found = rw (found, get) refl

find-remove :
    (hs : List Header) (name other : List ℕ)
    → find (remove hs name) other
      ≡ (if case_insensitive_equal name other then none else find hs other)
unfolding find remove
find-remove [] name other = elim (Bool-cases (case_insensitive_equal name other)) [
  | inl hit ↦ rw hit refl
  | inr miss ↦ rw miss refl
]
find-remove (h ∷ hs) name other = elim (Bool-cases (case_insensitive_equal h.name name)) [
  | inl gone ↦ elim (Bool-cases (case_insensitive_equal name other)) [
    | inl hit ↦ rw (gone, find-remove hs name other, hit) refl
    | inr miss ↦
        let not_it = case_insensitive_equal_cong h.name name other gone in
        rw (gone, not_it, find-remove hs name other, miss) refl
  ]
  | inr kept ↦ elim (Bool-cases (case_insensitive_equal h.name other)) [
    | inl found ↦ elim (Bool-cases (case_insensitive_equal name other)) [
      | inl hit ↦ absurd (distinct h.name name other kept found hit)
      | inr miss ↦ rw (kept, found, miss) refl
    ]
    | inr other_name ↦ rw (kept, other_name, find-remove hs name other) refl
  ]
]

-- Behind `add`, the newest header of a name is found.
pub find-add :
    (hs : List Header) (name value other : List ℕ)
    → find (add hs name value) other ≡ (
        if case_insensitive_equal name other
        then some (record { name = name; value = value })
        else find hs other)
unfolding find add
find-add [] name value other = elim (Bool-cases (case_insensitive_equal name other)) [
  | inl hit ↦ rw hit refl
  | inr miss ↦ rw miss refl
]
find-add (h ∷ hs) name value other = elim (Bool-cases (case_insensitive_equal h.name name)) [
  | inl same ↦ rw (same, find) refl
  | inr kept ↦ elim (Bool-cases (case_insensitive_equal h.name other)) [
    | inl found ↦ elim (Bool-cases (case_insensitive_equal name other)) [
      | inl hit ↦ absurd (distinct h.name name other kept found hit)
      | inr miss ↦ rw (kept, found, miss) refl
    ]
    | inr other_name ↦ rw (kept, find) (rw (other_name, find-add hs name value other) refl)
  ]
]

-- Behind `set`, a name that is equal but for case has the new value, and any other what it had.
pub find-set :
    (hs : List Header) (name value other : List ℕ)
    → find (set hs name value) other ≡ (
        if case_insensitive_equal name other
        then some (record { name = name; value = value })
        else find hs other)
unfolding set
find-set hs name value other = elim (Bool-cases (case_insensitive_equal name other)) [
  | inl hit ↦ rw (find-add (remove hs name) name value other, hit) refl
  | inr miss ↦
      rw (find-add (remove hs name) name value other, miss)
        (rw (find-remove hs name other, miss) refl)
]

pub add-All {ℓ} :
    (P : Header → Type ℓ) (hs : List Header) (name value : List ℕ)
    → All P hs
    → P (record { name = name; value = value })
    → All P (add hs name value)
unfolding add
add-All P [] name value w p = (p, tt)
add-All P (h ∷ hs) name value (f, w) p = elim (Bool-cases (case_insensitive_equal h.name name)) [
  | inl same ↦ rw same (p, (f, w))
  | inr other ↦ rw other (f, add-All P hs name value w p)
]

-- The headers of a message that is received: those it had, and each one that comes, its name in lower case.
abbrev pub gathered : List Header → List Header → List Header
gathered headers [] = headers
gathered headers (h ∷ hs) = gathered (add headers (ascii_lower h.name) h.value) hs

-- Every header of that name has that value.
abbrev pub HasValue : List ℕ → List ℕ → Header → Type 0
HasValue name value h = case_insensitive_equal h.name name ≡ true → h.value ≡ value

pub find-HasValue :
    (hs : List Header) (name value : List ℕ) {h : Header}
    → All (HasValue name value) hs
    → find hs name ≡ some h
    → h.value ≡ value
unfolding find
find-HasValue [] name value w found = absurd (cc)
find-HasValue (g ∷ hs) name value (f, w) found =
    elim (Bool-cases (case_insensitive_equal g.name name)) [
      | inl hit ↦
          let here = rw hit at found in
          ap (λ (o : Option Header). elim o [ none ↦ value | some k ↦ k.value ]) (sym here) ∙ f hit
      | inr miss ↦ find-HasValue hs name value w (rw miss at found)
    ]

pub absent-HasValue :
    (hs : List Header) (name value : List ℕ) → find hs name ≡ none → All (HasValue name value) hs
unfolding find
absent-HasValue [] name value absent = tt
absent-HasValue (h ∷ hs) name value absent =
    elim (Bool-cases (case_insensitive_equal h.name name)) [
      | inl hit ↦ let there = rw hit at absent in absurd (cc)
      | inr miss ↦
          let other : HasValue name value h = λ hit. absurd (cc) in
          (other, absent-HasValue hs name value (rw miss at absent))
    ]

-- A name that no header has is not found among those that were received.
pub find-gathered_absent :
    (hs headers : List Header) (name : List ℕ)
    → find headers name ≡ none
    → find hs name ≡ none
    → find (gathered headers hs) name ≡ none
unfolding find
find-gathered_absent [] headers name before absent = before
find-gathered_absent (h ∷ hs) headers name before absent =
    elim (Bool-cases (case_insensitive_equal h.name name)) [
      | inl hit ↦ let there = rw hit at absent in absurd (cc)
      | inr miss ↦
          let added =
            find-add headers (ascii_lower h.name) h.value name
            ∙ rw (case_insensitive_equal-ascii_lower h.name name, miss) refl in
          find-gathered_absent hs (add headers (ascii_lower h.name) h.value) name (added ∙ before)
            (rw miss at absent)
    ]

-- A name whose headers all have one value is found with it.
pub find-gathered :
    (hs headers : List Header) (name value : List ℕ)
    → All (HasValue name value) headers
    → All (HasValue name value) hs
    → ((h : Header) × (find headers name ≡ some h)) ⊎ ((h : Header) × (find hs name ≡ some h))
    → (h : Header) × (find (gathered headers hs) name ≡ some h) × (h.value ≡ value)
find-gathered [] headers name value v w (inl (h, there)) =
    (h, there, find-HasValue headers name value v there)
find-gathered [] headers name value v w (inr (h, there)) = absurd (unfold find in cc)
find-gathered (g ∷ hs) headers name value v (f, w) there =
    let low = case_insensitive_equal-ascii_lower g.name name in
    let new : HasValue name value (record { name = ascii_lower g.name; value = g.value }) =
      λ hit. f (rw low at hit) in
    let added = find-add headers (ascii_lower g.name) g.value name in
    find-gathered hs (add headers (ascii_lower g.name) g.value) name value
      (add-All (HasValue name value) headers (ascii_lower g.name) g.value v new) w
      (elim (Bool-cases (case_insensitive_equal g.name name)) [
        | inl hit ↦
            inl (record { name = ascii_lower g.name; value = g.value }, added ∙ rw (low, hit) refl)
        | inr miss ↦ elim there [
          | inl (h, found) ↦ inl (h, added ∙ rw (low, miss) found)
          | inr (h, found) ↦ inr (h, unfold find in rw miss at found)
        ]
      ])
