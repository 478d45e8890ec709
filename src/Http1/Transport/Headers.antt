-- ===== src/Http1/Transport/Headers.antt =====
-- A message that is written is read: its lines, one by one, and all of it.
use shitty.Prelude.{ℕ, suc, ◌+◌, ◌-◌, ◌≡◌, refl, ap, arith, ltb, ◌==◌, ◌&&◌, true, false}
use shitty.Prelude.{
  List, [], ◌∷◌, ◌++◌, length, take, get_or, some, ok, length-append, take-append, append_assoc,
}
use shitty.Text.{ascii_lower}
use shitty.Text.Trim.{Plain, trim_lws-space}
use shitty.Messages.{add}
use shitty.Http1.Lines.{find_end_of_line, remove_trailing_char, trim_newline, get_line, crlf}
use shitty.Http1.Lines.RoundTrip.{Without, index_of-append, drop-behind}
use shitty.Http1.Transport.{IncomingMessage, Transport, header_line}

remove_trailing_char-append : (s : List ℕ) (c : ℕ) → remove_trailing_char (s ++ c ∷ []) c ≡ s
unfolding remove_trailing_char
remove_trailing_char-append s c =
    let size = length-append s (c ∷ []) in
    let last : length (s ++ c ∷ []) - 1 ≡ length s = omega (arith, size) in
    let some_octets : (length (s ++ c ∷ []) == 0) ≡ false = grind (arith, size) in
    let same : (c == c) ≡ true = ground arith in
    rw (some_octets, last, get_or-append s c, same) (take-append (length s) s (c ∷ []) refl)
  where
    get_or-append : (s : List ℕ) (c : ℕ) → get_or (s ++ c ∷ []) (length s) 0 ≡ c
    get_or-append [] c = refl
    get_or-append (d ∷ s) c = get_or-append s c

pub Without-append : (c : ℕ) (s t : List ℕ) → Without c s → Without c t → Without c (s ++ t)
Without-append c [] t h k = k
Without-append c (x ∷ s) t (h, hs) k = (h, Without-append c s t hs k)

take-through :
    (s : List ℕ) (c : ℕ) (rest : List ℕ) → take (length s + 1) (s ++ c ∷ rest) ≡ s ++ c ∷ []
take-through [] c rest = refl
take-through (x ∷ s) c rest =
    let more : suc (length s) + 1 ≡ suc (length s + 1) = omega arith in
    rw more (ap (λ (t : List ℕ). x ∷ t) (take-through s c rest))

get_or-second :
    (s : List ℕ) (c d : ℕ) (rest : List ℕ) → get_or (s ++ c ∷ d ∷ rest) (length s + 1) 0 ≡ d
get_or-second [] c d rest = refl
get_or-second (x ∷ s) c d rest =
    let more : suc (length s) + 1 ≡ suc (length s + 1) = omega arith in
    rw more (get_or-second s c d rest)

-- A line is read without its end, and what is behind it is left.
pub get_line-crlf :
    (text rest : List ℕ)
    → Without b'\n' text
    → get_line (text ++ crlf ++ rest) ≡ some (record { text = text; left = rest })
unfolding trim_newline find_end_of_line get_line
get_line-crlf text rest h =
    let line = text ++ b'\r' ∷ [] in
    let no_newline : Without b'\n' line = Without-append b'\n' text (b'\r' ∷ []) h (ground arith) in
    let input : text ++ crlf ++ rest ≡ line ++ b'\n' ∷ rest = simp append_assoc refl in
    let found : find_end_of_line (line ++ b'\n' ∷ rest) ≡ some (length line + 1) =
      rw (index_of-append b'\n' line rest no_newline, find_end_of_line) refl in
    rw input (
      rw (found, get_line)
        (rw
          (
            take-through line b'\n' rest,
            drop-behind line b'\n' rest,
            remove_trailing_char-append line b'\n',
            remove_trailing_char-append text b'\r',
          )
          refl))

-- What `headerLine` makes of a header: its name in lower case, and its value.
pub header_line-render :
    (t : Transport) (m : IncomingMessage) (name value : List ℕ)
    → Without b':' name
    → Plain value
    → header_line t m (name ++ b':' ∷ b' ' ∷ value)
      ≡ ok (record t {
        last_header = ascii_lower name;
        incoming_message = some (record m {
          message = record m.message { headers = add m.message.headers (ascii_lower name) value };
        });
      })
unfolding header_line
header_line-render t m name value h plain =
    let line = name ++ b':' ∷ b' ' ∷ value in
    let spaced : (ltb (length name + 1) (length line) && get_or line (length name + 1) 0 == b' ')
        ≡ true =
      grind (arith, get_or-second name b':' b' ' value, length-append name (b':' ∷ b' ' ∷ value)) in
    let found = index_of-append b':' name (b' ' ∷ value) h in
    rw (found, header_line)
      (rw
        (
          spaced,
          drop-behind name b':' (b' ' ∷ value),
          trim_lws-space value plain,
          take-append (length name) name (b':' ∷ b' ' ∷ value) refl,
        )
        refl)
