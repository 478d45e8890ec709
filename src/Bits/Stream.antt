-- ===== src/Bits/Stream.antt =====
-- Bit strings, most significant bit first: the bits of a word, and the number in the next bits of a
-- string that goes on in ones behind its end.
use native.Mathlib.Nat.{pow-suc, one-le-pow, mod-lt, div-add-mod, mul-le-mul_right}
use native.Mathlib.Nat.{add_comm, add-mul-div_right, div-div-eq-div-mul}
use shitty.Prelude.{
  ℕ, zero, suc, ◌+◌, ◌-◌, ◌*◌, ◌/◌, ◌%◌, ◌^◌, ◌≤◌, ◌<◌, ◌≡◌, refl, ap, sym, ◌∙◌, arith,
}
use shitty.Prelude.{Bool, true, false, ◌&&◌, List, [], ◌∷◌, ◌++◌, ◌==◌, if◌then◌else◌, length, drop}

unfoldable pub bits : ℕ → ℕ → List Bool
bits zero v = []
bits (suc w) v = (v / 2 ^ w % 2 == 1) ∷ bits w v

unfoldable pub octet_bits : List ℕ → List Bool
octet_bits [] = []
octet_bits (octet ∷ octets) = bits 8 octet ++ octet_bits octets

unfoldable pub peek : ℕ → List Bool → ℕ
peek zero l = 0
peek (suc n) [] = 2 ^ n + peek n []
peek (suc n) (b ∷ l) = (if b then 2 ^ n else 0) + peek n l

unfoldable pub all_ones : List Bool → Bool
all_ones [] = true
all_ones (b ∷ l) = b && all_ones l

pub pow_sum : (m n k : ℕ) → m + n ≡ k → 2 ^ m * 2 ^ n ≡ 2 ^ k
pow_sum zero n k h = let e : n ≡ k = omega arith in rw e (omega arith)
pow_sum (suc m) n zero h = absurd (omega arith)
pow_sum (suc m) n (suc k) h = omega (
  arith,
  pow-suc 2 m,
  pow-suc 2 k,
  pow_sum m n k (omega arith),
  ap (λ (t : ℕ). t * 2 ^ n) (pow-suc 2 m),
)

-- A number below `p` under a multiple of `p`.
pub field-mod : (q r p : ℕ) → r < p → (q * p + r) % p ≡ r
field-mod q r p h = grind arith

pub field-div : (q r p : ℕ) → r < p → (q * p + r) / p ≡ q
field-div q r p h = grind arith

pub peek-lt : (n : ℕ) (l : List Bool) → peek n l < 2 ^ n
unfolding peek
peek-lt zero l = omega arith
peek-lt (suc n) [] = omega (arith, pow-suc 2 n, peek-lt n [])
peek-lt (suc n) (true ∷ l) = omega (arith, pow-suc 2 n, peek-lt n l)
peek-lt (suc n) (false ∷ l) = omega (arith, pow-suc 2 n, peek-lt n l)

pub drop-nil {ℓ} : {A : Type ℓ} (n : ℕ) → drop {A = A} n [] ≡ []
drop-nil zero = refl
drop-nil (suc n) = refl

-- The next `m + n` bits are the next `m`, and the `n` behind those.
pub peek_split :
    (m n k : ℕ) (l : List Bool) → m + n ≡ k → peek k l ≡ peek m l * 2 ^ n + peek n (drop m l)
unfolding peek
peek_split zero n k l h = let e : n ≡ k = omega arith in rw e (omega arith)
peek_split (suc m) n zero l h = absurd (omega arith)
peek_split (suc m) n (suc k) [] h = omega (
  arith,
  peek_split m n k [] (omega arith),
  pow_sum m n k (omega arith),
  ap (peek n) (drop-nil m),
)
peek_split (suc m) n (suc k) (true ∷ l) h =
    omega (arith, peek_split m n k l (omega arith), pow_sum m n k (omega arith))
peek_split (suc m) n (suc k) (false ∷ l) h =
    omega (arith, peek_split m n k l (omega arith), pow_sum m n k (omega arith))

pub drop-drop {ℓ} : {A : Type ℓ} (m n k : ℕ) (l : List A) → m + n ≡ k → drop n (drop m l) ≡ drop k l
drop-drop zero n k l h = let e : n ≡ k = omega arith in rw e
drop-drop (suc m) n zero l h = absurd (omega arith)
drop-drop (suc m) n (suc k) [] h = drop-nil n
drop-drop (suc m) n (suc k) (b ∷ l) h = drop-drop m n k l (omega arith)

pub peek_high : (m n k : ℕ) (l : List Bool) → m + n ≡ k → peek m l ≡ peek k l / 2 ^ n
peek_high m n k l h =
    rw (peek_split m n k l h) (sym (field-div (peek m l) _ (2 ^ n) (peek-lt n (drop m l))))

pub peek_low : (m n k : ℕ) (l : List Bool) → m + n ≡ k → peek n (drop m l) ≡ peek k l % 2 ^ n
peek_low m n k l h =
    rw (peek_split m n k l h) (sym (field-mod (peek m l) _ (2 ^ n) (peek-lt n (drop m l))))

-- Bits above the width do not show.
pub bits_wrap : (w q r : ℕ) → bits w (q * 2 ^ w + r) ≡ bits w r
unfolding bits
bits_wrap zero q r = refl
bits_wrap (suc w) q r =
    let e : q * 2 ^ suc w + r ≡ q * 2 * 2 ^ w + r =
      omega (arith, ap (λ (t : ℕ). q * t) (pow-suc 2 w)) in
    let top : (q * 2 * 2 ^ w + r) / 2 ^ w ≡ r / 2 ^ w + q * 2 =
      rw (add_comm (q * 2 * 2 ^ w) r)
        (add-mul-div_right r (q * 2) (one-le-pow w 2 (omega arith))) in
    rw (e, bits_wrap w (q * 2) r, top) (ap (λ (t : ℕ). (t == 1) ∷ bits w r) (omega arith))

-- A word of two fields.
pub bits_fields :
    (m n k q r : ℕ) → m + n ≡ k → r < 2 ^ n → bits k (q * 2 ^ n + r) ≡ bits m q ++ bits n r
unfolding bits
bits_fields zero n k q r h hr = let e : n ≡ k = omega arith in rw (← e) (bits_wrap n q r)
bits_fields (suc m) n zero q r h hr = absurd (omega arith)
bits_fields (suc m) n (suc k) q r h hr =
    let top : (q * 2 ^ n + r) / 2 ^ k ≡ q / 2 ^ m =
      rw (← pow_sum n m k (omega arith), ← div-div-eq-div-mul, field-div q r (2 ^ n) hr) refl in
    rw (top, bits_fields m n k q r (omega arith) hr)

pub length-bits : (w v : ℕ) → length (bits w v) ≡ w
unfolding bits
length-bits zero v = refl
length-bits (suc w) v = ap suc (length-bits w v)

pub drop-bits : (w v : ℕ) (l : List Bool) → drop w (bits w v ++ l) ≡ l
unfolding bits
drop-bits zero v l = refl
drop-bits (suc w) v l = drop-bits w v l

mod_two-le : (q : ℕ) → q % 2 ≤ 1
mod_two-le q = omega arith

-- The lowest `w + 1` bits are bit `w` and the lowest `w`.
low_bits_suc : (w v : ℕ) → v % 2 ^ suc w ≡ v / 2 ^ w % 2 * 2 ^ w + v % 2 ^ w
low_bits_suc w v =
    let p = 2 ^ w in
    let q = v / p in
    let below : v % p < p = mod-lt v (one-le-pow w 2 (omega arith)) in
    let whole : q / 2 * 2 ^ suc w + (q % 2 * p + v % p) ≡ v = omega (
      arith,
      pow-suc 2 w,
      ap (λ (t : ℕ). q / 2 * t) (pow-suc 2 w),
      ap (λ (t : ℕ). t * p) (div-add-mod q 2),
      div-add-mod v p,
    ) in
    let fits : q % 2 * p + v % p < 2 ^ suc w =
      omega (arith, pow-suc 2 w, mul-le-mul_right p (mod_two-le q)) in
    ap (λ (t : ℕ). t % 2 ^ suc w) (sym whole)
    ∙ field-mod (q / 2) (q % 2 * p + v % p) (2 ^ suc w) fits

-- The field of `w` bits at the head of a string.
pub peek-bits : (w v : ℕ) (l : List Bool) → peek w (bits w v ++ l) ≡ v % 2 ^ w
unfolding peek bits
peek-bits zero v l = omega arith
peek-bits (suc w) v l = rw (peek-bits w v l) (ground (arith, low_bits_suc w v))

-- A string is all ones exactly when its number is the largest of its width.
pub all_ones-peek : (l : List Bool) → all_ones l ≡ (peek (length l) l == 2 ^ length l - 1)
unfolding all_ones peek
all_ones-peek [] = refl
all_ones-peek (true ∷ l) =
    ground (arith, pow-suc 2 (length l), one-le-pow (length l) 2, all_ones-peek l)
all_ones-peek (false ∷ l) =
    ground (arith, pow-suc 2 (length l), one-le-pow (length l) 2, peek-lt (length l) l)
