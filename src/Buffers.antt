-- ===== src/Buffers.antt =====
-- `StreamBuf`, src/StreamBuf.h and src/StreamBuf.cpp: octets in the first `in_use` cells of a vector.
-- The allocation of memory does not fail here.
mod Tests
pub mod Queue
pub mod Payload
use shitty.Prelude.{ℕ, ◌+◌, ◌-◌, ◌*◌, ◌/◌, ◌%◌, ◌^◌, ◌≤◌, ltb, ◌==◌, if◌then◌else◌, Bool}
use shitty.Prelude.{
  List, [], ◌∷◌, ◌++◌, length, take, drop, replicate, Result, ok, thrown, length_error,
  undefined_behaviour, ◌>>=◌,
}

pub record StreamBuf : Type 0 where
  pub in_use : ℕ
  pub buf : List ℕ

abbrev pub capacity : StreamBuf → ℕ
capacity b = length b.buf

abbrev pub is_empty : StreamBuf → Bool
is_empty b = b.in_use == 0

abbrev pub tailroom : StreamBuf → ℕ
tailroom b = capacity b - b.in_use

abbrev pub clear : StreamBuf → StreamBuf
clear b = record b { in_use = 0 }

-- The cells from `at` on, overwritten, where there are as many.
abbrev pub memcpy : List ℕ → ℕ → List ℕ → Result (List ℕ)
memcpy cells at octets =
    if ltb (length cells) (at + length octets)
    then thrown undefined_behaviour
    else ok (take at cells ++ octets ++ drop (at + length octets) cells)

unfoldable pub advance : StreamBuf → ℕ → Result StreamBuf
advance b amount =
    if ltb b.in_use amount
    then thrown length_error
    else if amount == b.in_use
    then ok (clear b)
    else (memcpy b.buf 0 (take (b.in_use - amount) (drop amount b.buf)) >>= λ buf.
        ok (record { in_use = b.in_use - amount; buf = buf }))

unfoldable pub reserve : StreamBuf → ℕ → StreamBuf
reserve b new_size =
    if ltb new_size (capacity b)
    then b
    else record b { buf = b.buf ++ replicate (new_size - capacity b) 0 }

unfoldable pub ensure : StreamBuf → ℕ → StreamBuf
ensure b extra_capacity = reserve b ((b.in_use + extra_capacity) % 2 ^ 64)

unfoldable pub grow : StreamBuf → StreamBuf
grow b =
    if ltb b.in_use (4096 / 4)
    then reserve b 4096
    else if ltb (capacity b / 2) b.in_use
    then reserve b (if ltb ((2 ^ 64 - 1) / 4) (capacity b) then 2 ^ 64 - 1 else capacity b * 4)
    else b

-- The octets given, written to the tail, which is then part of the buffer.
unfoldable pub write : StreamBuf → List ℕ → Result StreamBuf
write b octets =
    let room = ensure b (length octets) in
    memcpy room.buf room.in_use octets >>= λ buf.
    ok (record { in_use = room.in_use + length octets; buf = buf })
