-- ===== src/Http1/ClientSource/Kept.antt =====
-- No transport is handed out twice.
use shitty.Prelude.{
  ℕ, ◌≡◌, ◌≢◌, refl, sym, ◌∙◌, arith, inl, inr, ◌==◌, ==_iff, Bool, true, false, Bool-cases, List,
  [], ◌∷◌, All, Result, ok, AllOk, AllOk->>=, ◌>>=◌,
}
use shitty.Http1.ClientSource.{
  Source, new_source, put_handler, contains, erase, Got, in_use, get_transport, put_transport,
}

abbrev pub Absent : ℕ → List ℕ → Type 0
Absent t ts = All (λ u. u ≢ t) ts

abbrev pub Distinct : List ℕ → Type 0
Distinct [] = Unit
Distinct (t ∷ ts) = Absent t ts × Distinct ts

-- Each connection is spare, without a handler, or in use, with one, and no more than that.
pub record IsSource (s : Source) : Type 0 where
  pub spare : Distinct s.spare_connections
  pub used : Distinct s.in_use_connections
  pub apart : All (λ t. Absent t s.in_use_connections) s.spare_connections
  pub idle : All (λ t. s.has_handler t ≡ false) s.spare_connections
  pub busy : All (λ t. s.has_handler t ≡ true) s.in_use_connections

All-map {ℓ κ κ'} :
    {A : Type ℓ} (P : A → Type κ) (Q : A → Type κ') (xs : List A)
    → ((x : A) → P x → Q x)
    → All P xs
    → All Q xs
All-map P Q [] f w = tt
All-map P Q (x ∷ xs) f (h, w) = (f x h, All-map P Q xs f w)

All-both {ℓ κ κ' κ''} :
    {A : Type ℓ} (P : A → Type κ) (P' : A → Type κ') (Q : A → Type κ'') (xs : List A)
    → ((x : A) → P x → P' x → Q x)
    → All P xs
    → All P' xs
    → All Q xs
All-both P P' Q [] f w v = tt
All-both P P' Q (x ∷ xs) f (h, w) (k, v) = (f x h k, All-both P P' Q xs f w v)

contains-Absent : (ts : List ℕ) (t : ℕ) → Absent t ts → contains ts t ≡ false
unfolding contains
contains-Absent [] t w = refl
contains-Absent (u ∷ ts) t (h, w) =
    let other : (u == t) ≡ false = ground (arith, h) in rw (other, contains-Absent ts t w) refl

erase-All {κ} : (P : ℕ → Type κ) (ts : List ℕ) (t : ℕ) → All P ts → All P (erase ts t)
unfolding erase
erase-All P [] t w = tt
erase-All P (u ∷ ts) t (h, w) = elim (Bool-cases (u == t)) [
  | inl same ↦ rw same w
  | inr other ↦ rw other (h, erase-All P ts t w)
]

erase-Distinct : (ts : List ℕ) (t : ℕ) → Distinct ts → Distinct (erase ts t)
unfolding erase
erase-Distinct [] t w = tt
erase-Distinct (u ∷ ts) t (h, w) = elim (Bool-cases (u == t)) [
  | inl same ↦ rw same w
  | inr other ↦ rw other (erase-All (λ v. v ≢ u) ts t h, erase-Distinct ts t w)
]

erase-Absent : (ts : List ℕ) (t : ℕ) → Distinct ts → Absent t (erase ts t)
unfolding erase
erase-Absent [] t w = tt
erase-Absent (u ∷ ts) t (h, w) = elim (Bool-cases (u == t)) [
  | inl same ↦ let e : u ≡ t = (==_iff u t).0 same in rw same (rw e at h)
  | inr other ↦ rw other (ground (arith, other), erase-Absent ts t w)
]

put_handler_other :
    (value : Bool) (t : ℕ) (handlers : ℕ → Bool) (u : ℕ)
    → u ≢ t
    → put_handler value t handlers u ≡ handlers u
put_handler_other value t handlers u h =
    let other : (u == t) ≡ false = ground (arith, h) in rw other refl

put_handler_self :
    (value : Bool) (t : ℕ) (handlers : ℕ → Bool) → put_handler value t handlers t ≡ value
put_handler_self value t handlers = let same : (t == t) ≡ true = ground arith in rw same refl

-- A transport that is neither spare nor in use comes into use.
in_use-IsSource :
    (s : Source) (t : ℕ)
    → IsSource s
    → Absent t s.spare_connections
    → Absent t s.in_use_connections
    → IsSource (in_use s t).source
in_use-IsSource s t w not_spare not_used =
    rw (contains-Absent s.in_use_connections t not_used) (record {
      spare = w.spare;
      used = (not_used, w.used);
      apart =
          All-both (λ u. u ≢ t) (λ u. Absent u s.in_use_connections) _ s.spare_connections
            (λ u other apart. ((λ e. other (sym e)), apart)) not_spare w.apart;
      idle =
          All-both (λ u. u ≢ t) (λ u. s.has_handler u ≡ false) _ s.spare_connections
            (λ u other idle. rw (put_handler_other true t s.has_handler u other) idle) not_spare
            w.idle;
      busy = (
        put_handler_self true t s.has_handler,
        All-both (λ u. u ≢ t) (λ u. s.has_handler u ≡ true) _ s.in_use_connections
            (λ u other busy. rw (put_handler_other true t s.has_handler u other) busy) not_used
            w.busy,
      );
    })

-- What is in use is not what is not.
contains-ne : (ts : List ℕ) (t u : ℕ) → contains ts t ≡ true → Absent u ts → u ≢ t
unfolding contains
contains-ne [] t u e w = absurd (cc)
contains-ne (v ∷ ts) t u e (h, w) = elim (Bool-cases (v == t)) [
  | inl same ↦ λ (p : u ≡ t). h ((==_iff v t).0 same ∙ sym p)
  | inr other ↦ contains-ne ts t u (rw other at e) w
]

put_transport-IsSource : (s : Source) (t : ℕ) → IsSource s → AllOk IsSource (put_transport s t)
unfolding put_transport
put_transport-IsSource s t w = elim (Bool-cases (contains s.in_use_connections t)) [
  | inr absent ↦ rw absent tt
  | inl there ↦
      let others : All (λ u. u ≢ t) s.spare_connections =
        All-map (λ u. Absent u s.in_use_connections) _ s.spare_connections
          (λ u apart. contains-ne s.in_use_connections t u there apart) w.apart in
      let left = erase-Absent s.in_use_connections t w.used in
      rw there (record {
        spare = (others, w.spare);
        used = erase-Distinct s.in_use_connections t w.used;
        apart = (
          left,
          All-map (λ u. Absent u s.in_use_connections) _ s.spare_connections
              (λ u apart. erase-All (λ v. v ≢ u) s.in_use_connections t apart) w.apart,
        );
        idle = (
          put_handler_self false t s.has_handler,
          All-both (λ u. u ≢ t) (λ u. s.has_handler u ≡ false) _ s.spare_connections
              (λ u other idle. rw (put_handler_other false t s.has_handler u other) idle) others
              w.idle,
        );
        busy =
            All-both (λ u. u ≢ t) (λ u. s.has_handler u ≡ true) _ (erase s.in_use_connections t)
              (λ u other busy. rw (put_handler_other false t s.has_handler u other) busy) left
              (erase-All (λ u. s.has_handler u ≡ true) s.in_use_connections t w.busy);
      })
]

-- A connection that the system makes is none of those that are kept.
abbrev pub IsNew : Source → Result ℕ → Type 0
IsNew s new_connection =
    AllOk (λ t. Absent t s.spare_connections × Absent t s.in_use_connections) new_connection

-- What is handed out was not in use, and is.
abbrev pub IsHanded : Source → Got → Type 0
IsHanded s g =
    Absent g.transport s.in_use_connections
    × (g.source.in_use_connections ≡ g.transport ∷ s.in_use_connections)
    × IsSource g.source

in_use-IsHanded :
    (s : Source) (t : ℕ)
    → IsSource s
    → Absent t s.spare_connections
    → Absent t s.in_use_connections
    → IsHanded s (in_use s t)
in_use-IsHanded s t w not_spare not_used = (
  not_used,
  rw (contains-Absent s.in_use_connections t not_used) refl,
  in_use-IsSource s t w not_spare not_used,
)

get_transport-IsHanded :
    (s : Source) (new_connection : Result ℕ)
    → IsSource s
    → IsNew s new_connection
    → AllOk (IsHanded s) (get_transport s new_connection)
unfolding get_transport
get_transport-IsHanded s new_connection w new = go s.spare_connections refl
  where
    go :
        (spare : List ℕ)
        → s.spare_connections ≡ spare
        → AllOk (IsHanded s) (elim spare [
          | [] ↦ new_connection >>= λ t. ok (in_use s t)
          | t ∷ rest ↦ ok (in_use (record s { spare_connections = rest }) t)
        ])
    go [] e = AllOk->>= _ (IsHanded s) new_connection _ new (λ t n. in_use-IsHanded s t w n.0 n.1)
    go (t ∷ rest) e =
        let spare : Distinct (t ∷ rest) = rw e at w.spare in
        let apart : All (λ t. Absent t s.in_use_connections) (t ∷ rest) = rw e at w.apart in
        let idle : All (λ t. s.has_handler t ≡ false) (t ∷ rest) = rw e at w.idle in
        in_use-IsHanded (record s { spare_connections = rest }) t
          (record { spare = spare.1; used = w.used; apart = apart.1; idle = idle.1; busy = w.busy })
          spare.0 apart.0

-- The sources that calls lead to; each new connection is none of those that are kept.
pub data Reach : Source → Type 0 where
  empty : Reach new_source
  got :
      {s : Source} (new_connection : Result ℕ) (g : Got)
      → Reach s
      → IsNew s new_connection
      → get_transport s new_connection ≡ ok g
      → Reach g.source
  put : {s : Source} (t : ℕ) {s' : Source} → Reach s → put_transport s t ≡ ok s' → Reach s'

pub Reach-IsSource : {s : Source} → Reach s → IsSource s
Reach-IsSource empty = record { spare = tt; used = tt; apart = tt; idle = tt; busy = tt }
Reach-IsSource (got {s = s} new_connection g r new e) =
    let (_, _, w) : IsHanded s g =
      rw e at (get_transport-IsHanded s new_connection (Reach-IsSource r) new) in
    w
Reach-IsSource (put {s = s} t r e) = rw e at (put_transport-IsSource s t (Reach-IsSource r))

-- Whatever calls came before, a transport that is handed out was not in use, and is from then on: no two requests
-- have one transport.
pub Reach-IsHanded :
    {s : Source} (new_connection : Result ℕ) (g : Got)
    → Reach s
    → IsNew s new_connection
    → get_transport s new_connection ≡ ok g
    → IsHanded s g
Reach-IsHanded {s = s} new_connection g r new e =
    rw e at (get_transport-IsHanded s new_connection (Reach-IsSource r) new)
