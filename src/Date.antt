-- ===== src/Date.antt =====
-- The date of a message, src/Date.cpp. What `gmtime_r` gives is a parameter.
use shitty.Prelude.{
  ℕ, zero, suc, false, ◌+◌, ◌/◌, ◌%◌, ◌≤◌, ◌<◌, ◌≡◌, ◌≢◌, refl, arith, List, [], ◌∷◌, length,
  get_elem?, All, none, some, Result, ok, thrown, undefined_behaviour,
}
use shitty.Text.{is_lws}
use shitty.Text.Trim.{Plain}
use shitty.Http1.Lines.RoundTrip.{Without}

-- `struct tm`; the year counts from 1900.
pub record Tm : Type 0 where
  pub wday : ℕ
  pub mday : ℕ
  pub mon : ℕ
  pub year : ℕ
  pub hour : ℕ
  pub min : ℕ
  pub sec : ℕ

abbrev pub Name : Type 0
Name = ℕ × ℕ × ℕ

unfoldable pub days_of_week : List Name
days_of_week =
    (b'S', b'u', b'n')
    ∷ (b'M', b'o', b'n')
    ∷ (b'T', b'u', b'e')
    ∷ (b'W', b'e', b'd')
    ∷ (b'T', b'h', b'u')
    ∷ (b'F', b'r', b'i')
    ∷ (b'S', b'a', b't')
    ∷ []

unfoldable pub months : List Name
months =
    (b'J', b'a', b'n')
    ∷ (b'F', b'e', b'b')
    ∷ (b'M', b'a', b'r')
    ∷ (b'A', b'p', b'r')
    ∷ (b'M', b'a', b'y')
    ∷ (b'J', b'u', b'n')
    ∷ (b'J', b'u', b'l')
    ∷ (b'A', b'u', b'g')
    ∷ (b'S', b'e', b'p')
    ∷ (b'O', b'c', b't')
    ∷ (b'N', b'o', b'v')
    ∷ (b'D', b'e', b'c')
    ∷ []

-- `'0' + n`, as a char.
abbrev pub digit : ℕ → ℕ
digit n = (b'0' + n) % 256

-- "Sun, 06 Nov 1994 08:49:37 GMT"
abbrev pub date_text : Name → Name → Tm → ℕ → List ℕ
date_text (a, b, c) (x, y, z) tm year =
    a
    ∷ b
    ∷ c
    ∷ b','
    ∷ b' '
    ∷ digit (tm.mday / 10)
    ∷ digit (tm.mday % 10)
    ∷ b' '
    ∷ x
    ∷ y
    ∷ z
    ∷ b' '
    ∷ digit (year / 1000)
    ∷ digit (year % 1000 / 100)
    ∷ digit (year % 100 / 10)
    ∷ digit (year % 10)
    ∷ b' '
    ∷ digit (tm.hour / 10)
    ∷ digit (tm.hour % 10)
    ∷ b':'
    ∷ digit (tm.min / 10)
    ∷ digit (tm.min % 10)
    ∷ b':'
    ∷ digit (tm.sec / 10)
    ∷ digit (tm.sec % 10)
    ∷ b' '
    ∷ b'G'
    ∷ b'M'
    ∷ b'T'
    ∷ []

unfoldable pub now : Tm → Result (List ℕ)
now tm = elim (get_elem? days_of_week tm.wday) [
  | none ↦ thrown undefined_behaviour
  | some day_of_week ↦ elim (get_elem? months tm.mon) [
    | none ↦ thrown undefined_behaviour
    | some month ↦ ok (date_text day_of_week month tm (tm.year + 1900))
  ]
]

-- A point in time before the year 10000.
pub record IsTm (tm : Tm) : Type 0 where
  pub wday : tm.wday < 7
  pub mday : tm.mday ≤ 31
  pub mon : tm.mon < 12
  pub year : tm.year ≤ 8099
  pub hour : tm.hour < 24
  pub min : tm.min < 60
  pub sec : tm.sec ≤ 60

abbrev IsLetter : ℕ → Type 0
IsLetter c = (b'A' ≤ c) × (c ≤ b'z')

abbrev IsName : Name → Type 0
IsName n = IsLetter n.0 × IsLetter n.1 × IsLetter n.2

in_table :
    (names : List Name) (i : ℕ)
    → All IsName names
    → i < length names
    → (n : Name) × (get_elem? names i ≡ some n) × IsName n
in_table [] i w h = absurd (omega arith)
in_table (n ∷ names) zero (v, w) h = (n, refl, v)
in_table (n ∷ names) (suc i) (v, w) h = in_table names i w (omega arith)

days-All : All IsName days_of_week
unfolding days_of_week
days-All = omega arith

months-All : All IsName months
unfolding months
months-All = omega arith

digit-IsDigit : (n : ℕ) → n < 10 → (b'0' ≤ digit n) × (digit n ≤ b'9')
digit-IsDigit n h = (omega arith, omega arith)

letter_not_newline : (c : ℕ) → IsLetter c → c ≢ b'\n'
letter_not_newline c h = omega arith

digit_not_newline : (n : ℕ) → n < 10 → digit n ≢ b'\n'
digit_not_newline n h = omega arith

not_newline : (c : ℕ) → 32 ≤ c → c ≢ b'\n'
not_newline c h = omega arith

letter_not_lws : (c : ℕ) → IsLetter c → is_lws c ≡ false
letter_not_lws c h = ground arith

now-eq :
    (tm : Tm) (day month : Name)
    → get_elem? days_of_week tm.wday ≡ some day
    → get_elem? months tm.mon ≡ some month
    → now tm ≡ ok (date_text day month tm (tm.year + 1900))
unfolding now
now-eq tm day month found listed = rw (found, now) (rw listed refl)

-- For such a time the date is a string of 29 octets on one line, which neither begins nor ends with a blank.
pub now-IsTm :
    (tm : Tm)
    → IsTm tm
    → (s : List ℕ) × (now tm ≡ ok s) × Plain s × Without b'\n' s × (length s ≡ 29)
now-IsTm tm w =
    let (day, found, v) = in_table days_of_week tm.wday days-All (unfold days_of_week in w.wday) in
    let (month, listed, u) = in_table months tm.mon months-All (unfold months in w.mon) in
    let year = tm.year + 1900 in
    (
      date_text day month tm year,
      now-eq tm day month found listed,
      (letter_not_lws day.0 v.0, refl),
      (
        letter_not_newline _ v.0,
        (
          letter_not_newline _ v.1,
          (
            letter_not_newline _ v.2,
            (
              not_newline _ (omega arith),
              (
                not_newline _ (omega arith),
                (
                  digit_not_newline (tm.mday / 10) (omega (arith, w.mday)),
                  (
                    digit_not_newline (tm.mday % 10) (omega arith),
                    (
                      not_newline _ (omega arith),
                      (
                        letter_not_newline _ u.0,
                        (
                          letter_not_newline _ u.1,
                          (
                            letter_not_newline _ u.2,
                            (
                              not_newline _ (omega arith),
                              (
                                digit_not_newline (year / 1000) (omega (arith, w.year)),
                                (
                                  digit_not_newline (year % 1000 / 100) (omega arith),
                                  (
                                    digit_not_newline (year % 100 / 10) (omega arith),
                                    (
                                      digit_not_newline (year % 10) (omega arith),
                                      (
                                        not_newline _ (omega arith),
                                        (
                                          digit_not_newline (tm.hour / 10) (omega (arith, w.hour)),
                                          (
                                            digit_not_newline (tm.hour % 10) (omega arith),
                                            (
                                              not_newline _ (omega arith),
                                              (
                                                digit_not_newline (tm.min / 10)
                                                    (omega (arith, w.min)),
                                                (
                                                  digit_not_newline (tm.min % 10) (omega arith),
                                                  (
                                                    not_newline _ (omega arith),
                                                    (
                                                      digit_not_newline (tm.sec / 10)
                                                          (omega (arith, w.sec)),
                                                      (
                                                        digit_not_newline (tm.sec % 10)
                                                            (omega arith),
                                                        (
                                                          not_newline _ (omega arith),
                                                          (
                                                            not_newline _ (omega arith),
                                                            (
                                                            not_newline _ (omega arith),
                                                            (not_newline _ (omega arith), tt),
                                                            ),
                                                          ),
                                                        ),
                                                      ),
                                                    ),
                                                  ),
                                                ),
                                              ),
                                            ),
                                          ),
                                        ),
                                      ),
                                    ),
                                  ),
                                ),
                              ),
                            ),
                          ),
                        ),
                      ),
                    ),
                  ),
                ),
              ),
            ),
          ),
        ),
      ),
      refl,
    )
