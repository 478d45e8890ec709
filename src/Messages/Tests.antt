-- ===== src/Messages/Tests.antt =====
-- A header whose name has two spellings.
use shitty.Prelude.{ℕ, ◌≡◌, if◌then◌else◌, List, [], ◌∷◌, some}
use shitty.Text.{case_insensitive_equal}
use shitty.Messages.{Header, find, set}
use shitty.Messages.Laws.{find-set}

abbrev upper : List ℕ
upper = b'A' ∷ []

abbrev lower : List ℕ
lower = b'a' ∷ []

abbrev headers : List Header
headers = record { name = upper; value = b'1' ∷ [] } ∷ []

find-set_example : find (set headers lower (b'2' ∷ [])) upper ≡ (
    if case_insensitive_equal lower upper
    then some (record { name = lower; value = b'2' ∷ [] })
    else find headers upper)
find-set_example = find-set headers lower (b'2' ∷ []) upper
