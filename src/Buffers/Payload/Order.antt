-- ===== src/Buffers/Payload/Order.antt =====
-- What is written to a payload goes behind what was written before, in the target or in the array.
use shitty.Prelude.{
  ℕ, ◌+◌, ◌^◌, ◌≤◌, ◌<◌, ◌≡◌, ◌⊎◌, refl, sym, ap, ◌∙◌, arith, inl, inr, ltb, Bool-cases,
}
use shitty.Prelude.{
  List, [], ◌++◌, length, take, drop, Result, ok, thrown, length-append, length-take, length-drop,
  append_assoc, append-nil, ◌>>=◌,
}
use shitty.Buffers.{StreamBuf, memcpy}
use shitty.Buffers as Buffers
use shitty.Buffers.Queue.{
  IsBuffer, contents, Agrees, write-Holds, length-contents, memcpy-ok, written,
}
use shitty.Buffers.Payload.{capacity, Payload, pending, flush, make_room, put, write}

pub record IsPayload (p : Payload) : Type 0 where
  pub array : length p.cells ≡ capacity
  pub fits : p.len ≤ capacity
  pub buffer : IsBuffer p.target

-- The octets written so far.
abbrev pub all_octets : Payload → List ℕ
all_octets p = contents p.target ++ pending p

-- A call that returned with these octets in the payload.
abbrev pub Has : List ℕ → Result Payload → Type 0
Has octets (ok p) = IsPayload p × (all_octets p ≡ octets)
Has octets (thrown e) = ⊥

abbrev Flushed : Payload → Result Payload → Type 0
Flushed p (ok p') = IsPayload p' × (p'.len ≡ 0) × (contents p'.target ≡ all_octets p)
Flushed p (thrown e) = ⊥

flush_target :
    (p : Payload) (m : Result StreamBuf)
    → IsPayload p
    → Agrees (ok (all_octets p)) m
    → Flushed p (m >>= λ target. ok (record { len = 0; cells = p.cells; target = target }))
flush_target p (thrown e) v h = elim h [ ]
flush_target p (ok target) v h =
    (record { array = v.array; fits = omega arith; buffer = h.valid }, refl, h.octets_eq)

flush-Flushed :
    (p : Payload) → IsPayload p → p.target.in_use + capacity < 2 ^ 64 → Flushed p (flush p)
unfolding flush
flush-Flushed p v room =
    flush_target p (Buffers.write p.target (pending p)) v
      (write-Holds p.target (pending p) v.buffer (omega (arith, length-take p.len p.cells, v.fits)))

-- Octets that fit the array go behind the ones that are there.
memcpy-Has :
    (p : Payload) (octets : List ℕ)
    → IsPayload p
    → p.len + length octets ≤ capacity
    → Has (all_octets p ++ octets) (
        memcpy p.cells p.len octets >>= λ cells.
        ok (record { len = p.len + length octets; cells = cells; target = p.target }))
memcpy-Has p octets v h =
    let behind = drop (p.len + length octets) p.cells in
    rw (memcpy-ok p.cells p.len octets (omega (arith, v.array))) (
      record {
        array = omega (
          arith,
          v.array,
          length-append (take p.len p.cells ++ octets) behind,
          length-append (take p.len p.cells) octets,
          length-take p.len p.cells,
          length-drop (p.len + length octets) p.cells,
        );
        fits = h;
        buffer = v.buffer;
      },
      ap (λ (t : List ℕ). contents p.target ++ t)
            (written p.cells p.len octets behind (omega (arith, v.array, v.fits)))
          ∙ sym (append_assoc (contents p.target) (pending p) octets),
    )

-- Octets that the array has no room for go to the target, once the array is empty.
direct-Has :
    (p : Payload) (octets : List ℕ) (m : Result StreamBuf)
    → IsPayload p
    → p.len ≡ 0
    → Agrees (ok (contents p.target ++ octets)) m
    → Has (all_octets p ++ octets) (m >>= λ target. ok (record p { target = target }))
direct-Has p octets (thrown e) v empty r = elim r [ ]
direct-Has p octets (ok target) v empty r =
    let none_pending : pending p ≡ [] = rw empty refl in
    (
      record { array = v.array; fits = v.fits; buffer = r.valid },
      rw (none_pending, append-nil (contents target), append-nil (contents p.target)) r.octets_eq,
    )

-- Behind `make_room`: the array is empty, or has room.
put-Has :
    (p : Payload) (octets : List ℕ)
    → IsPayload p
    → (p.len ≡ 0) ⊎ (p.len + length octets ≤ capacity)
    → p.target.in_use + length octets < 2 ^ 64
    → Has (all_octets p ++ octets) (put p octets)
unfolding put
put-Has p octets v space room = elim (Bool-cases (ltb capacity (length octets))) [
  | inl large ↦
      let empty : p.len ≡ 0 = grind (arith, large, space) in
      rw large (
        direct-Has p octets (Buffers.write p.target octets) v empty
          (write-Holds p.target octets v.buffer room))
  | inr small ↦
      let fits : p.len + length octets ≤ capacity = grind (arith, small, space) in
      rw small (memcpy-Has p octets v fits)
]

put-Flushed :
    (p : Payload) (octets : List ℕ) (m : Result Payload)
    → IsPayload p
    → p.target.in_use + capacity + length octets < 2 ^ 64
    → Flushed p m
    → Has (all_octets p ++ octets) (m >>= λ p. put p octets)
put-Flushed p octets (thrown e) v room h = elim h [ ]
put-Flushed p octets (ok p') v room (v', empty, moved) =
    let size = length-contents p'.target v'.buffer in
    let size_before = length-append (contents p.target) (pending p) in
    let few : p'.target.in_use ≤ p.target.in_use + capacity = omega (
      arith,
      size,
      size_before,
      moved,
      length-take p.len p.cells,
      v.fits,
      length-contents p.target v.buffer,
      ap (λ (t : List ℕ). length t) moved,
    ) in
    let none_pending : all_octets p' ≡ all_octets p =
      rw empty (append-nil (contents p'.target) ∙ moved) in
    rw (sym none_pending) (put-Has p' octets v' (inl empty) (omega (arith, few, room)))

-- A write of octets that the target has room for: none is out of bounds, and they go behind all others.
pub write-Has :
    (p : Payload) (octets : List ℕ)
    → IsPayload p
    → p.target.in_use + capacity + length octets < 2 ^ 64
    → Has (all_octets p ++ octets) (write p octets)
unfolding write make_room
write-Has p octets v room = elim (Bool-cases (ltb capacity (p.len + length octets))) [
  | inl full ↦
      rw full (put-Flushed p octets (flush p) v room (flush-Flushed p v (omega (arith, room))))
  | inr fits ↦ rw fits (put-Has p octets v (inr (grind (arith, fits))) (omega (arith, room)))
]
