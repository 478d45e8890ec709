-- ===== src/Buffers/Queue.antt =====
-- A `StreamBuf` is a queue of octets: the abstract view that the transports use.
use shitty.Prelude.{
  ℕ, zero, ◌+◌, ◌-◌, ◌^◌, ◌≤◌, ◌<◌, ◌≡◌, refl, sym, ap, ◌∙◌, arith, inl, inr, ltb, ltb→lt, ==_iff,
  ◌==◌, if◌then◌else◌, Bool-cases,
}
use shitty.Prelude.{
  List, ◌++◌, length, take, drop, replicate, Result, ok, thrown, length_error, length-append,
  length-take, length-drop, length-replicate, drop_all, take-drop, take-append_in, take-append,
  ◌>>=◌,
}
use native.Mathlib.Nat.{mod-eq_of_lt}
use shitty.Buffers.{StreamBuf, memcpy, capacity, advance, reserve, ensure, write}

pub record IsBuffer (b : StreamBuf) : Type 0 where
  pub fits : b.in_use ≤ length b.buf

-- The octets in a buffer.
abbrev pub contents : StreamBuf → List ℕ
contents b = take b.in_use b.buf

-- The buffer's octets, and that its size is theirs.
pub record Holds (octets : List ℕ) (b : StreamBuf) : Type 0 where
  pub valid : IsBuffer b
  pub octets_eq : contents b ≡ octets

-- What a client of the buffer sees of `advance`.
abbrev pub dequeue : List ℕ → ℕ → Result (List ℕ)
dequeue octets amount =
    if ltb (length octets) amount then thrown length_error else ok (drop amount octets)

-- A result that holds the octets of an abstract one, or throws the same.
abbrev pub Agrees : Result (List ℕ) → Result StreamBuf → Type 0
Agrees (ok octets) (ok b) = Holds octets b
Agrees (ok octets) (thrown e) = ⊥
Agrees (thrown e) (ok b) = ⊥
Agrees (thrown e) (thrown e') = e ≡ e'

pub memcpy-ok :
    (cells : List ℕ) (at : ℕ) (octets : List ℕ)
    → at + length octets ≤ length cells
    → memcpy cells at octets ≡ ok (take at cells ++ octets ++ drop (at + length octets) cells)
memcpy-ok cells at octets h = ground arith

-- Overwritten cells, up to the end of what was written.
pub written :
    (cells : List ℕ) (at : ℕ) (octets behind : List ℕ)
    → at ≤ length cells
    → take (at + length octets) (take at cells ++ octets ++ behind) ≡ take at cells ++ octets
written cells at octets behind h =
    let size = length-take at cells in
    take-append (at + length octets) (take at cells ++ octets) behind
      (omega (arith, size, length-append (take at cells) octets))

-- The octets in a buffer are as many as are in use.
pub length-contents : (b : StreamBuf) → IsBuffer b → length (contents b) ≡ b.in_use
length-contents b v = length-take b.in_use b.buf ∙ omega (arith, v.fits)

advance_some :
    (b : StreamBuf) (amount : ℕ)
    → IsBuffer b
    → amount < b.in_use
    → Agrees (ok (drop amount (contents b))) (
        memcpy b.buf 0 (take (b.in_use - amount) (drop amount b.buf)) >>= λ buf.
        ok (record { in_use = b.in_use - amount; buf = buf }))
advance_some b amount v h =
    let kept = take (b.in_use - amount) (drop amount b.buf) in
    let size : length kept ≡ b.in_use - amount =
      length-take (b.in_use - amount) (drop amount b.buf)
      ∙ omega (arith, length-drop amount b.buf, v.fits) in
    let octets : kept ≡ drop amount (contents b) =
      take-drop amount (b.in_use - amount) b.buf
      ∙ ap (λ (m : ℕ). drop amount (take m b.buf)) (omega arith) in
    rw (memcpy-ok b.buf 0 kept (omega (arith, v.fits))) (record {
      valid = record { fits = omega (arith, length-append kept (drop (0 + length kept) b.buf)) };
      octets_eq =
          take-append (b.in_use - amount) kept (drop (0 + length kept) b.buf) (sym size) ∙ octets;
    })

-- `advance` takes octets off the front, and throws `length_error` where there are too few.
pub advance-Agrees :
    (b : StreamBuf) (amount : ℕ)
    → IsBuffer b
    → Agrees (dequeue (contents b) amount) (advance b amount)
unfolding advance
advance-Agrees b amount v =
    let size = length-contents b v in
    elim (Bool-cases (ltb b.in_use amount)) [
      | inl h ↦ rw (size, h) refl
      | inr h ↦ elim (Bool-cases (amount == b.in_use)) [
        | inl e ↦
            rw (size, h, e)
              (record {
                valid = record { fits = omega arith };
                octets_eq = sym (
                    drop_all amount (contents b)
                      (omega (arith, size, (==_iff amount b.in_use).0 e)));
              })
        | inr e ↦
            let below : amount < b.in_use = grind (arith, h, e) in
            rw (size, h, e) (advance_some b amount v below)
      ]
    ]

pub reserve-in_use : (b : StreamBuf) (size : ℕ) → (reserve b size).in_use ≡ b.in_use
unfolding reserve
reserve-in_use b size = elim (Bool-cases (ltb size (capacity b))) [
  | inl h ↦ rw h refl
  | inr h ↦ rw h refl
]

pub reserve-capacity : (b : StreamBuf) (size : ℕ) → size ≤ capacity (reserve b size)
unfolding reserve
reserve-capacity b size = elim (Bool-cases (ltb size (capacity b))) [
  | inl h ↦
      let enough : size ≤ length b.buf = omega (arith, ltb→lt size (capacity b) h) in rw h enough
  | inr h ↦ rw h (
      omega (
        arith,
        length-append b.buf (replicate (size - capacity b) 0),
        length-replicate (size - capacity b) zero,
      ))
]

-- More room changes no octets.
pub reserve-contents : (b : StreamBuf) (size : ℕ) → IsBuffer b → Holds (contents b) (reserve b size)
unfolding reserve
reserve-contents b size v = elim (Bool-cases (ltb size (capacity b))) [
  | inl h ↦ rw h (record { valid = v; octets_eq = refl })
  | inr h ↦ rw h (record {
    valid = record {
      fits = omega (arith, v.fits, length-append b.buf (replicate (size - capacity b) 0));
    };
    octets_eq = take-append_in b.in_use b.buf (replicate (size - capacity b) 0) v.fits;
  })
]

-- `ensure` makes the room that it is asked for.
ensure_lem :
    (b : StreamBuf) (extra : ℕ)
    → IsBuffer b
    → b.in_use + extra < 2 ^ 64
    → ((ensure b extra).in_use ≡ b.in_use)
      × Holds (contents b) (ensure b extra)
      × (b.in_use + extra ≤ capacity (ensure b extra))
unfolding ensure
ensure_lem b extra v fits =
    let size = mod-eq_of_lt fits in
    rw size (
      reserve-in_use b (b.in_use + extra),
      reserve-contents b (b.in_use + extra) v,
      reserve-capacity b (b.in_use + extra),
    )

-- `write` appends the octets, and stays inside the vector, where fewer than 2^64 octets come together.
pub write-Holds :
    (b : StreamBuf) (octets : List ℕ)
    → IsBuffer b
    → b.in_use + length octets < 2 ^ 64
    → Agrees (ok (contents b ++ octets)) (write b octets)
unfolding write
write-Holds b octets v fits =
    let room = ensure b (length octets) in
    let (in_use, held, enough) = ensure_lem b (length octets) v fits in
    rw (memcpy-ok room.buf room.in_use octets (omega (arith, in_use))) (record {
      valid = record {
        fits = omega (
          arith,
          length-append (take room.in_use room.buf ++ octets)
              (drop (room.in_use + length octets) room.buf),
          length-append (take room.in_use room.buf) octets,
          length-take room.in_use room.buf,
          in_use,
          v.fits,
          enough,
        );
      };
      octets_eq =
          written room.buf room.in_use octets (drop (room.in_use + length octets) room.buf)
            (omega (arith, in_use))
          ∙ ap (λ (t : List ℕ). t ++ octets) held.octets_eq;
    })
