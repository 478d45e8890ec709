-- ===== src/Connection/Polling.antt =====
-- Whether a connection asks to be told when it can send.
use shitty.Prelude.{
  ℕ, zero, suc, ◌+◌, ◌≡◌, refl, inl, inr, min, ltb, if◌then◌else◌, Bool, true, false, Bool-cases,
}
use shitty.Prelude.{
  List, [], ◌∷◌, ◌++◌, length, take, drop, Result, ok, thrown, undefined_behaviour, AllOk,
  AllOk->>=, AllOk-if,
}
use shitty.Connection.{
  Answer, took, would_block, failed, Connection, Stopped, is_empty, update_subscription, drain,
  settle, on_poll_out, queue_and_send, send_loop, enqueue_rest, send_immediate, send,
}

abbrev pub IsQuiet : Connection → Type 0
IsQuiet c = c.polls_out ≡ false

IsQuiet-if : (b : Bool) (c d : Connection) → IsQuiet c → IsQuiet d → IsQuiet (if b then c else d)
IsQuiet-if true c d h k = h
IsQuiet-if false c d h k = k

IsQuiet-stopped :
    (b : Bool) (c d : Stopped)
    → IsQuiet c.connection
    → IsQuiet d.connection
    → IsQuiet (if b then c else d).connection
IsQuiet-stopped true c d h k = h
IsQuiet-stopped false c d h k = k

drain-IsQuiet :
    (c : Connection) (answers : List Answer) → IsQuiet c → IsQuiet (drain c answers).connection
unfolding drain
drain-IsQuiet c [] h = h
drain-IsQuiet c (would_block ∷ answers) h = h
drain-IsQuiet c (failed ∷ answers) h = h
drain-IsQuiet c (took zero ∷ answers) h = h
drain-IsQuiet c (took (suc n) ∷ answers) h =
    let count = min (suc n) (length c.outgoing) in
    let next : Connection = record c {
      outgoing = drop count c.outgoing;
      wire = c.wire ++ take count c.outgoing;
      answers = answers;
    } in
    IsQuiet-stopped (is_empty next.outgoing) _ _ h (drain-IsQuiet next answers h)

-- The subscription is updated where the queue is empty alone.
update-IsQuiet :
    (c : Connection)
    → IsQuiet c
    → IsQuiet (if is_empty c.outgoing then update_subscription c else c)
update-IsQuiet c h = elim (Bool-cases (is_empty c.outgoing)) [ inl e ↦ rw e refl | inr e ↦ rw e h ]

settle-IsQuiet : (c : Connection) (answer : Answer) → IsQuiet c → IsQuiet (settle c answer)
unfolding settle
settle-IsQuiet c failed h = h
settle-IsQuiet c would_block h = update-IsQuiet c h
settle-IsQuiet c (took n) h = update-IsQuiet c h

on_poll_out-IsQuiet : (c : Connection) → IsQuiet c → IsQuiet (on_poll_out c)
unfolding on_poll_out
on_poll_out-IsQuiet c h = elim (Bool-cases (is_empty c.outgoing)) [
  | inl e ↦ rw e refl
  | inr e ↦ rw e (
      settle-IsQuiet (drain c c.answers).connection (drain c c.answers).sent
        (drain-IsQuiet c c.answers h))
]

abbrev QuietLoop : Result (ℕ × Stopped) → Type 0
QuietLoop m = AllOk (λ ((total_sent, stopped) : ℕ × Stopped). IsQuiet stopped.connection) m

QuietLoop-if :
    (b : Bool) (x y : Result (ℕ × Stopped))
    → QuietLoop x
    → QuietLoop y
    → QuietLoop (if b then x else y)
QuietLoop-if true x y h k = h
QuietLoop-if false x y h k = k

-- A call that offers too much ends the loop.
abbrev beyond : List ℕ → ℕ → ℕ → Bool
beyond cells len total_sent =
    ltb (length (take (len + total_sent) (drop total_sent cells))) (len + total_sent)

abbrev stopped : Connection → ℕ → List Answer → Answer → Result (ℕ × Stopped)
stopped c total_sent answers sent =
    ok (total_sent, record { connection = record c { answers = answers }; sent = sent })

send_loop-QuietLoop :
    (c : Connection) (cells : List ℕ) (len total_sent : ℕ) (answers : List Answer)
    → IsQuiet c
    → QuietLoop (send_loop c cells len total_sent answers)
unfolding send_loop
send_loop-QuietLoop c cells len total_sent [] h = h
send_loop-QuietLoop c cells len total_sent (would_block ∷ answers) h =
    QuietLoop-if (beyond cells len total_sent) (thrown undefined_behaviour)
      (stopped c total_sent answers would_block) tt h
send_loop-QuietLoop c cells len total_sent (failed ∷ answers) h =
    QuietLoop-if (beyond cells len total_sent) (thrown undefined_behaviour)
      (stopped c total_sent answers failed) tt h
send_loop-QuietLoop c cells len total_sent (took zero ∷ answers) h =
    QuietLoop-if (beyond cells len total_sent) (thrown undefined_behaviour)
      (stopped c total_sent answers (took zero)) tt h
send_loop-QuietLoop c cells len total_sent (took (suc n) ∷ answers) h =
    let offered = take (len + total_sent) (drop total_sent cells) in
    let count = min (suc n) (len + total_sent) in
    let next : Connection = record c { answers = answers; wire = c.wire ++ take count offered } in
    let rest = send_loop next cells len (total_sent + count) answers in
    let last = stopped next (total_sent + count) answers (took count) in
    let part = ltb (total_sent + count) len in
    QuietLoop-if (beyond cells len total_sent) (thrown undefined_behaviour)
      (if part then rest else last) tt
      (QuietLoop-if part rest last
        (send_loop-QuietLoop next cells len (total_sent + count) answers h) h)

enqueue_rest-IsQuiet :
    (cells : List ℕ) (len total_sent : ℕ) (c : Connection) (answer : Answer)
    → IsQuiet c
    → IsQuiet (enqueue_rest cells len total_sent (record { connection = c; sent = answer }))
unfolding enqueue_rest
enqueue_rest-IsQuiet cells len total_sent c failed h = h
enqueue_rest-IsQuiet cells len total_sent c (took zero) h = h
enqueue_rest-IsQuiet cells len total_sent c would_block h = IsQuiet-if (ltb total_sent len) _ _ h h
enqueue_rest-IsQuiet cells len total_sent c (took (suc n)) h =
    IsQuiet-if (ltb total_sent len) _ _ h h

-- A connection that does not ask to be told when it can send never comes to ask, whatever it sends and the system
-- answers: octets that were queued wait for a next message.
pub send-IsQuiet :
    (c : Connection) (cells : List ℕ) (len : ℕ)
    → IsQuiet c
    → AllOk IsQuiet (send c cells len) × IsQuiet (on_poll_out c)
unfolding send send_immediate queue_and_send
send-IsQuiet c cells len h = (
  AllOk-if _ (is_empty c.outgoing) _ _
      (AllOk->>= (λ ((total_sent, stopped) : ℕ × Stopped). IsQuiet stopped.connection) _
        (send_loop c cells len 0 c.answers) _ (send_loop-QuietLoop c cells len 0 c.answers h)
        (λ (total_sent, stopped) k.
          enqueue_rest-IsQuiet cells len total_sent stopped.connection stopped.sent k))
      (on_poll_out-IsQuiet (record c { outgoing = c.outgoing ++ take len cells }) h),
  on_poll_out-IsQuiet c h,
)
