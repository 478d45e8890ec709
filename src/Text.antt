-- ===== src/Text.antt =====
-- The functions of src/StringUtils-inl.h on strings, which are lists of their octets. `tolower` is the one
-- of the "C" locale.
pub mod Trim
pub mod Equal
use shitty.Prelude.{ℕ, zero, suc, ◌+◌, leb, ◌==◌, if◌then◌else◌, Bool, true, false, not, ◌&&◌, ◌||◌}
use shitty.Prelude.{List, [], ◌∷◌, length, map, take, drop, get_or}

abbrev pub to_lower : ℕ → ℕ
to_lower c = if leb b'A' c && leb c b'Z' then c + 32 else c

unfoldable pub ascii_lower : List ℕ → List ℕ
ascii_lower s = map to_lower s

abbrev pub is_lws : ℕ → Bool
is_lws c = c == b' ' || c == b'\t'

-- The index at which the loop of `trimTrailingLWS` ends.
unfoldable pub scan_back : List ℕ → ℕ → ℕ
scan_back s zero = zero
scan_back s (suc i) = let before = scan_back s i in if is_lws (get_or s i 0) then before else i

unfoldable pub trim_trailing_lws : List ℕ → List ℕ
trim_trailing_lws s =
    let i = scan_back s (length s) in if not (i + 1 == length s) then take i s else s

unfoldable pub leading_whitespace : List ℕ → ℕ
leading_whitespace [] = zero
leading_whitespace (c ∷ s) = let rest = leading_whitespace s in if is_lws c then suc rest else zero

unfoldable pub trim_leading_lws : List ℕ → List ℕ
trim_leading_lws s = if leading_whitespace s == 0 then s else drop (leading_whitespace s) s

unfoldable pub trim_lws : List ℕ → List ℕ
trim_lws s = trim_leading_lws (trim_trailing_lws s)

unfoldable pub case_insensitive_equal : List ℕ → List ℕ → Bool
case_insensitive_equal [] [] = true
case_insensitive_equal [] (r ∷ right) = false
case_insensitive_equal (l ∷ left) [] = false
case_insensitive_equal (l ∷ left) (r ∷ right) =
    to_lower l == to_lower r && case_insensitive_equal left right
