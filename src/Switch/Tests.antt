-- ===== src/Switch/Tests.antt =====
-- The first octets of a request that is not HTTP/2's preface.
use shitty.Prelude.{ℕ, ◌≡◌, ◌≢◌, List, [], ◌∷◌, ◌++◌, refl, ◌∙◌, sym}
use shitty.Switch.{wait, http1, choose, choose-append}

-- "PUT"
abbrev put_word : List ℕ
put_word = 0x50 ∷ 0x55 ∷ 0x54 ∷ []

put_word-http1 : choose put_word ≡ http1
unfolding choose
put_word-http1 = refl

http1-chosen : http1 ≢ wait
http1-chosen = λ e. absurd (cc)

put_word-chosen : choose put_word ≢ wait
put_word-chosen = λ e. http1-chosen (sym put_word-http1 ∙ e)

choose-append_example : choose (put_word ++ 32 ∷ []) ≡ choose put_word
choose-append_example = choose-append put_word (32 ∷ []) put_word-chosen
