-- ===== src/Huffman/Reader/Window.antt =====
-- The arithmetic of one `bb_load_next`: with the two octets of the reader and a new one seen as
-- windows on a bit string, the shifts and the `|` move the windows on by `d` bits.
use native.Mathlib.Nat.{
  one-le-pow, mod-lt, mul-le-mul_right, mul-div_cancel, mul-div-mul_right, div-add-mod,
}
use shitty.Prelude.{ℕ, ◌+◌, ◌-◌, ◌*◌, ◌/◌, ◌%◌, ◌^◌, ◌≤◌, ◌<◌, ◌≡◌, refl, sym, ap, ◌∙◌, arith}
use shitty.Prelude.{bit_or, Bool, List, drop}
use shitty.Bits.{or_disjoint}
use shitty.Bits.Stream.{peek, peek-lt, peek_split, peek_high, peek_low, pow_sum, drop-drop}
use shitty.Bits.Stream.{field-mod}

-- A left shift drops the bits that leave the word.
pub shift_out : (d c w x : ℕ) → c + d ≡ w → x * 2 ^ d % 2 ^ w ≡ x % 2 ^ c * 2 ^ d
shift_out d c w x h =
    let high = x / 2 ^ c in
    let low : x % 2 ^ c < 2 ^ c = mod-lt x (one-le-pow c 2 (omega arith)) in
    let parts : x * 2 ^ d ≡ high * 2 ^ w + x % 2 ^ c * 2 ^ d = omega (
      arith,
      ap (λ (t : ℕ). t * 2 ^ d) (div-add-mod x (2 ^ c)),
      ap (λ (t : ℕ). high * t) (pow_sum c d w h),
    ) in
    let fits : x % 2 ^ c * 2 ^ d < 2 ^ w =
      omega (arith, pow_sum c d w h, mul-le-mul_right (2 ^ d) low, one-le-pow d 2) in
    ap (λ (t : ℕ). t % 2 ^ w) parts ∙ field-mod high _ (2 ^ w) fits

pub shift_down : (e c g x : ℕ) → e + c ≡ g → x * 2 ^ g / 2 ^ c ≡ x * 2 ^ e
shift_down e c g x h =
    let parts : x * 2 ^ g ≡ x * 2 ^ e * 2 ^ c =
      omega (arith, ap (λ (t : ℕ). x * t) (pow_sum e c g h)) in
    ap (λ (t : ℕ). t / 2 ^ c) parts ∙ mul-div_cancel (x * 2 ^ e) (one-le-pow c 2 (omega arith))

-- Three fields of a word that do not overlap.
or_three :
    (nb e d x y z : ℕ)
    → nb + e ≡ d
    → y < 2 ^ nb
    → z < 2 ^ e
    → bit_or (bit_or (x * 2 ^ d) (y * 2 ^ e)) z ≡ x * 2 ^ d + (y * 2 ^ e + z)
or_three nb e d x y z h hy hz =
    let fits : y * 2 ^ e < 2 ^ d =
      omega (arith, pow_sum nb e d h, mul-le-mul_right (2 ^ e) hy, one-le-pow e 2) in
    let two : bit_or (x * 2 ^ d) (y * 2 ^ e) ≡ (x * 2 ^ nb + y) * 2 ^ e =
      omega (arith, or_disjoint d x (y * 2 ^ e) fits, ap (λ (t : ℕ). x * t) (pow_sum nb e d h)) in
    rw two
      (omega (arith, or_disjoint e (x * 2 ^ nb + y) z hz, ap (λ (t : ℕ). x * t) (pow_sum nb e d h)))

-- The octet after a load, `e` of whose bits are taken from the new octet.
pub window_load :
    (d c nb e : ℕ) (l : List Bool)
    → c + d ≡ 8
    → nb + e ≡ d
    → bit_or
        (bit_or (peek 8 l * 2 ^ d % 2 ^ 8) (peek nb (drop 8 l) * 2 ^ (8 - nb) / 2 ^ (8 - d)))
        (peek 8 (drop (8 + nb) l) / 2 ^ (8 - d + nb))
      ≡ peek 8 (drop d l)
window_load d c nb e l h h' =
    let exp_c : 8 - d ≡ c = omega arith in
    let kept : peek 8 l * 2 ^ d % 2 ^ 8 ≡ peek c (drop d l) * 2 ^ d =
      shift_out d c 8 (peek 8 l) h
      ∙ ap (λ (t : ℕ). t * 2 ^ d) (sym (peek_low d c 8 l (omega arith))) in
    let moved : peek nb (drop 8 l) * 2 ^ (8 - nb) / 2 ^ (8 - d) ≡ peek nb (drop 8 l) * 2 ^ e =
      rw exp_c (shift_down e c (8 - nb) (peek nb (drop 8 l)) (omega arith)) in
    let new : peek 8 (drop (8 + nb) l) / 2 ^ (8 - d + nb) ≡ peek e (drop (8 + nb) l) =
      sym (peek_high e (8 - d + nb) 8 (drop (8 + nb) l) (omega arith)) in
    rw (kept, moved, new)
      (or_three nb e d _ _ _ h' (peek-lt nb (drop 8 l)) (peek-lt e (drop (8 + nb) l))
        ∙ ap (λ (t : ℕ). peek c (drop d l) * 2 ^ d + t)
            (ap (λ (t : List Bool). peek nb (drop 8 l) * 2 ^ e + peek e t)
                (sym (drop-drop 8 nb _ l refl))
              ∙ sym (peek_split nb e d (drop 8 l) h')
              ∙ ap (peek d) (sym (drop-drop d c 8 l (omega arith))))
        ∙ sym (peek_split c d 8 (drop d l) h))

-- The octet where `next` has bits enough.
pub window_shift :
    (d c nb e : ℕ) (l : List Bool)
    → c + d ≡ 8
    → d + e ≡ nb
    → nb ≤ 8
    → bit_or (peek 8 l * 2 ^ d % 2 ^ 8) (peek nb (drop 8 l) * 2 ^ (8 - nb) / 2 ^ (8 - d))
      ≡ peek 8 (drop d l)
window_shift d c nb e l h h' h'' =
    let exp_c : 8 - d ≡ c = omega arith in
    let kept : peek 8 l * 2 ^ d % 2 ^ 8 ≡ peek c (drop d l) * 2 ^ d =
      shift_out d c 8 (peek 8 l) h
      ∙ ap (λ (t : ℕ). t * 2 ^ d) (sym (peek_low d c 8 l (omega arith))) in
    let moved : peek nb (drop 8 l) * 2 ^ (8 - nb) / 2 ^ (8 - d) ≡ peek d (drop 8 l) =
      rw
        (
          exp_c,
          ← pow_sum e (8 - nb) c (omega arith),
          mul-div-mul_right _ (2 ^ e) (one-le-pow (8 - nb) 2 (omega arith)),
        )
        (sym (peek_high d e nb (drop 8 l) h')) in
    rw (kept, moved)
      (or_disjoint d _ _ (peek-lt d (drop 8 l))
        ∙ ap (λ (t : List Bool). peek c (drop d l) * 2 ^ d + peek d t)
            (sym (drop-drop d c 8 l (omega arith)))
        ∙ sym (peek_split c d 8 (drop d l) h))

-- What `next` holds after either.
pub next_load :
    (d nb e f : ℕ) (l : List Bool)
    → nb + e ≡ d
    → e + f ≡ 8
    → peek 8 (drop (8 + nb) l) * 2 ^ e % 2 ^ 8 ≡ peek f (drop 8 (drop d l)) * 2 ^ (8 - f)
next_load d nb e f l h h' =
    let exp_e : 8 - f ≡ e = omega arith in
    let place : drop e (drop (8 + nb) l) ≡ drop 8 (drop d l) =
      drop-drop (8 + nb) e (d + 8) l (omega arith) ∙ sym (drop-drop d 8 (d + 8) l refl) in
    rw exp_e (
      shift_out e f 8 (peek 8 (drop (8 + nb) l)) (omega arith)
      ∙ ap (λ (t : ℕ). t * 2 ^ e) (sym (peek_low e f 8 (drop (8 + nb) l) h') ∙ ap (peek f) place))

pub next_shift :
    (d nb e : ℕ) (l : List Bool)
    → d + e ≡ nb
    → nb ≤ 8
    → peek nb (drop 8 l) * 2 ^ (8 - nb) * 2 ^ d % 2 ^ 8 ≡ peek e (drop 8 (drop d l)) * 2 ^ (8 - e)
next_shift d nb e l h h' =
    let place : drop d (drop 8 l) ≡ drop 8 (drop d l) =
      drop-drop 8 d (d + 8) l (omega arith) ∙ sym (drop-drop d 8 (d + 8) l refl) in
    let joined : peek nb (drop 8 l) * 2 ^ (8 - nb) * 2 ^ d ≡ peek nb (drop 8 l) * 2 ^ (8 - e) =
      omega (
        arith,
        ap (λ (t : ℕ). peek nb (drop 8 l) * t) (pow_sum (8 - nb) d (8 - e) (omega arith)),
      ) in
    rw joined (
      shift_out (8 - e) e 8 (peek nb (drop 8 l)) (omega arith)
      ∙ ap (λ (t : ℕ). t * 2 ^ (8 - e)) (sym (peek_low d e nb (drop 8 l) h) ∙ ap (peek e) place))
