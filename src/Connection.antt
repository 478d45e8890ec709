-- ===== src/Connection.antt =====
-- Sending on a connection, src/Connection.cpp. The answers of the system's `send` are a list, in their order; it
-- takes at most what it is offered, and behind the last answer it would block. The queue `outgoing_` is the list
-- of its octets.
mod Tests
pub mod Order
pub mod Polling
pub mod Reading
use shitty.Prelude.{
  ℕ, zero, suc, ◌+◌, ◌-◌, ◌≤◌, min, ltb, ◌==◌, if◌then◌else◌, Bool, true, false, not, ◌&&◌,
}
use shitty.Prelude.{
  List, [], ◌∷◌, ◌++◌, length, take, drop, Result, ok, thrown, undefined_behaviour, ◌>>=◌,
}

pub data Answer : Type 0 where
  took : ℕ → Answer
  would_block : Answer
  failed : Answer

-- `wire` has what the system took, and `answers` what it will answer. `polls_out` says whether the connection
-- asks to be told when it can send.
pub record Connection : Type 0 where
  pub outgoing : List ℕ
  pub wire : List ℕ
  pub is_open : Bool
  pub polls_out : Bool
  pub answers : List Answer

abbrev pub is_empty : List ℕ → Bool
is_empty octets = length octets == 0

abbrev pub update_subscription : Connection → Connection
update_subscription c = record c { polls_out = not (is_empty c.outgoing) }

abbrev pub close : Connection → Connection
close c = record c { is_open = false }

-- The connection behind a loop, and the loop's last answer.
pub record Stopped : Type 0 where
  pub connection : Connection
  pub sent : Answer

-- The loop of `onPollOut`, over the answers.
unfoldable pub drain : Connection → List Answer → Stopped
drain c [] = record { connection = record c { answers = [] }; sent = would_block }
drain c (would_block ∷ answers) = record {
  connection = record c { answers = answers };
  sent = would_block;
}
drain c (failed ∷ answers) = record { connection = record c { answers = answers }; sent = failed }
drain c (took zero ∷ answers) = record {
  connection = record c { answers = answers };
  sent = took zero;
}
drain c (took (suc n) ∷ answers) =
    let count = min (suc n) (length c.outgoing) in
    let c : Connection = record c {
      outgoing = drop count c.outgoing;
      wire = c.wire ++ take count c.outgoing;
      answers = answers;
    } in
    let rest = drain c answers in
    if is_empty c.outgoing then record { connection = c; sent = took count } else rest

-- What follows the loop: an error closes, and a queue that was emptied is not polled for.
unfoldable pub settle : Connection → Answer → Connection
settle c failed = close c
settle c would_block = if is_empty c.outgoing then update_subscription c else c
settle c (took n) = if is_empty c.outgoing then update_subscription c else c

unfoldable pub on_poll_out : Connection → Connection
on_poll_out c =
    let stopped = drain c c.answers in
    if is_empty c.outgoing then update_subscription c else settle stopped.connection stopped.sent

unfoldable pub queue_and_send : Connection → List ℕ → Connection
queue_and_send c octets = on_poll_out (record c { outgoing = c.outgoing ++ octets })

-- The loop of `send_immediate`: `len` octets stand in front of the cells, and `total_sent` of them were sent. Each
-- call offers `len + total_sent` octets from there on, which is undefined where there are fewer cells.
unfoldable pub send_loop : Connection → List ℕ → ℕ → ℕ → List Answer → Result (ℕ × Stopped)
send_loop c cells len total_sent [] =
    ok (total_sent, record { connection = record c { answers = [] }; sent = would_block })
send_loop c cells len total_sent (answer ∷ answers) =
    let offered = take (len + total_sent) (drop total_sent cells) in
    let quiet : Connection = record c { answers = answers } in
    if ltb (length offered) (len + total_sent) then thrown undefined_behaviour else elim answer [
      | would_block ↦ ok (total_sent, record { connection = quiet; sent = would_block })
      | failed ↦ ok (total_sent, record { connection = quiet; sent = failed })
      | took zero ↦ ok (total_sent, record { connection = quiet; sent = took zero })
      | took (suc n) ↦
          let count = min (suc n) (len + total_sent) in
          let c : Connection = record quiet { wire = c.wire ++ take count offered } in
          let rest = send_loop c cells len (total_sent + count) answers in
          if ltb (total_sent + count) len
          then rest
          else ok (total_sent + count, record { connection = c; sent = took count })
    ]

-- What follows that loop: the octets that were not sent are queued.
unfoldable pub enqueue_rest : List ℕ → ℕ → ℕ → Stopped → Connection
enqueue_rest cells len total_sent stopped = elim stopped.sent [
  | failed ↦ close stopped.connection
  | took zero ↦ close stopped.connection
  | _ ↦
      let c = stopped.connection in
      if ltb total_sent len
      then record c { outgoing = c.outgoing ++ drop total_sent (take len cells) }
      else c
]

unfoldable pub send_immediate : Connection → List ℕ → ℕ → Result Connection
send_immediate c cells len = send_loop c cells len 0 c.answers >>= λ (total_sent, stopped).
    ok (enqueue_rest cells len total_sent stopped)

-- `send` of the first `len` of the cells.
unfoldable pub send : Connection → List ℕ → ℕ → Result Connection
send c cells len =
    if is_empty c.outgoing
    then send_immediate c cells len
    else ok (queue_and_send c (take len cells))
