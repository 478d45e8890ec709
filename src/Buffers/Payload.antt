-- ===== src/Buffers/Payload.antt =====
-- `Payload`, src/Payload.h and src/Payload-inl.h: an array of `capacity` octets in front of a
-- `StreamBuf`, which takes what does not fit. The pointer to it is the field `target`.
pub mod Order
use shitty.Prelude.{ℕ, ◌+◌, ltb, if◌then◌else◌, List, [], ◌∷◌, length, take, Result, ok, ◌>>=◌}
use shitty.Buffers.{StreamBuf, memcpy}
use shitty.Buffers as Buffers

abbrev pub capacity : ℕ
capacity = 1440

pub record Payload : Type 0 where
  pub len : ℕ
  pub cells : List ℕ
  pub target : StreamBuf

-- The octets that are not in the target yet.
abbrev pub pending : Payload → List ℕ
pending p = take p.len p.cells

unfoldable pub flush : Payload → Result Payload
flush p = Buffers.write p.target (pending p) >>= λ target.
    ok (record { len = 0; cells = p.cells; target = target })

-- `if (size() + len > data_.size()) flush();`
unfoldable pub make_room : Payload → ℕ → Result Payload
make_room p len = if ltb capacity (p.len + len) then flush p else ok p

-- The rest of `write`.
unfoldable pub put : Payload → List ℕ → Result Payload
put p octets =
    if ltb capacity (length octets)
    then (Buffers.write p.target octets >>= λ target. ok (record p { target = target }))
    else (memcpy p.cells p.len octets >>= λ cells.
        ok (record { len = p.len + length octets; cells = cells; target = p.target }))

unfoldable pub write : Payload → List ℕ → Result Payload
write p octets = make_room p (length octets) >>= λ p. put p octets

unfoldable pub write_octet : Payload → ℕ → Result Payload
write_octet p octet = write p (octet ∷ [])
