-- ===== src/Connection/Reading.antt =====
-- Reading on a connection, `onPollIn` of src/Connection.cpp. `wire` has the octets that the peer sent and the system
-- has; its answers to `read` are a list, in their order, and behind the last it would block. The transport is a
-- parameter: its state, and its onInput, which also says whether the connection is still open.
pub mod Feeds
use shitty.Prelude.{
  ℕ, ◌+◌, ◌-◌, ◌*◌, ◌/◌, ◌^◌, ◌≤◌, ◌<◌, ◌≡◌, refl, ap, ◌∙◌, arith, zero, suc, ◌⊎◌, inl, inr, min,
  ltb, ltb→lt, ◌==◌, if◌then◌else◌, Bool, true, false, Bool-cases,
}
use shitty.Prelude.{
  List, [], ◌∷◌, ◌++◌, length, take, drop, Result, ok, thrown, Exception, AllOk, Result-cases,
  length-append, length-take, take-append-drop, ◌>>=◌,
}
use shitty.Buffers.{StreamBuf, capacity, tailroom, memcpy, grow}
use shitty.Buffers.Queue.{
  IsBuffer, Holds, contents, memcpy-ok, written, reserve-contents, reserve-in_use, reserve-capacity,
}

pub data ReadAnswer : Type 0 where
  ready : ℕ → ReadAnswer
  would_block : ReadAnswer
  failed : ReadAnswer

-- What onInput leaves.
pub record Taken (T : Type 0) : Type 0 where
  pub transport : T
  pub buf : StreamBuf
  pub is_open : Bool

pub record Polled (T : Type 0) : Type 0 where
  pub transport : T
  pub incoming : StreamBuf
  pub is_open : Bool
  pub wire : List ℕ

-- The octets that the system writes to the tail, which is then part of the buffer.
unfoldable pub read_into : StreamBuf → List ℕ → Result StreamBuf
read_into b octets = memcpy b.buf b.in_use octets >>= λ buf.
    ok (record { in_use = b.in_use + length octets; buf = buf })

module _ {T : Type 0} (on_input : T → StreamBuf → Result (Taken T)) where
  -- A read takes no more than has arrived, and than there is room. Nothing read is the end of the stream.
  unfoldable pub on_poll_in : T → StreamBuf → List ℕ → List ReadAnswer → Result (Polled T)
  on_poll_in t incoming wire [] =
      ok (record { transport = t; incoming = grow incoming; is_open = true; wire = wire })
  on_poll_in t incoming wire (would_block ∷ answers) =
      ok (record { transport = t; incoming = grow incoming; is_open = true; wire = wire })
  on_poll_in t incoming wire (failed ∷ answers) =
      ok (record { transport = t; incoming = grow incoming; is_open = false; wire = wire })
  on_poll_in t incoming wire (ready n ∷ answers) =
      let room = grow incoming in
      let octets = take (min n (tailroom room)) wire in
      let left = drop (min n (tailroom room)) wire in
      if length octets == 0
      then ok (record { transport = t; incoming = room; is_open = false; wire = wire })
      else (read_into room octets >>= λ buf. on_input t buf >>= λ taken. elim taken.is_open [
        | true ↦ on_poll_in taken.transport taken.buf left answers
        | false ↦ ok (record {
          transport = taken.transport;
          incoming = taken.buf;
          is_open = false;
          wire = left;
        })
      ])

grow-Holds : (b : StreamBuf) → IsBuffer b → Holds (contents b) (grow b)
unfolding grow
grow-Holds b v = elim (Bool-cases (ltb b.in_use (4096 / 4))) [
  | inl small ↦ rw small (reserve-contents b 4096 v)
  | inr large ↦ elim (Bool-cases (ltb (capacity b / 2) b.in_use)) [
    | inl full ↦
        rw (large, full)
          (reserve-contents b
            (if ltb ((2 ^ 64 - 1) / 4) (capacity b) then 2 ^ 64 - 1 else capacity b * 4) v)
    | inr plenty ↦ rw (large, plenty) (record { valid = v; octets_eq = refl })
  ]
]

grow-in_use : (b : StreamBuf) → (grow b).in_use ≡ b.in_use
unfolding grow
grow-in_use b = elim (Bool-cases (ltb b.in_use (4096 / 4))) [
  | inl small ↦ rw small (reserve-in_use b 4096)
  | inr large ↦ elim (Bool-cases (ltb (capacity b / 2) b.in_use)) [
    | inl full ↦
        rw (large, full)
          (reserve-in_use b
            (if ltb ((2 ^ 64 - 1) / 4) (capacity b) then 2 ^ 64 - 1 else capacity b * 4))
    | inr plenty ↦ rw (large, plenty) refl
  ]
]

-- Growing makes room, so an end of the stream is one, where the buffer is below 2^62 cells.
pub grow-tailroom : (b : StreamBuf) → IsBuffer b → capacity b < 2 ^ 62 → 0 < tailroom (grow b)
unfolding grow
grow-tailroom b v small = elim (Bool-cases (ltb b.in_use (4096 / 4))) [
  | inl few ↦
      let below : b.in_use < 1024 = ltb→lt b.in_use 1024 few in
      rw few (omega (arith, below, reserve-in_use b 4096, reserve-capacity b 4096))
  | inr many ↦
      let above : 1024 ≤ b.in_use = ground (arith, many) in
      elim (Bool-cases (ltb (capacity b / 2) b.in_use)) [
        | inl full ↦
            let bounded : ltb ((2 ^ 64 - 1) / 4) (capacity b) ≡ false = ground (arith, small) in
            rw (many, full, bounded)
              (omega (
                arith,
                above,
                v.fits,
                reserve-in_use b (capacity b * 4),
                reserve-capacity b (capacity b * 4),
              ))
        | inr plenty ↦
            let half : b.in_use ≤ capacity b / 2 = ground (arith, plenty) in
            rw (many, plenty) (omega (arith, above, half))
      ]
]
