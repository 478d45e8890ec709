-- ===== src/Connection/Order.antt =====
-- What is sent stays in its order: on the wire, or in the queue.
use shitty.Prelude.{
  ℕ, zero, suc, ◌+◌, ◌≤◌, ◌<◌, ◌≡◌, refl, sym, ap, ◌∙◌, arith, inl, inr, min, ltb, true, false,
  Bool-cases,
}
use shitty.Prelude.{
  List, [], ◌∷◌, ◌++◌, length, take, drop, take-append-drop, take_all, append_assoc, append-nil,
  length-take, length-drop, ok, thrown, undefined_behaviour,
}
use shitty.Connection.{
  Answer, took, would_block, failed, Connection, is_empty, drain, settle, on_poll_out,
  queue_and_send, send_loop, send_immediate, enqueue_rest, send,
}

-- What was taken, and what is queued behind it.
abbrev pub all_octets : Connection → List ℕ
all_octets c = c.wire ++ c.outgoing

drain-octets :
    (c : Connection) (answers : List Answer)
    → all_octets (drain c answers).connection ≡ all_octets c
unfolding drain
drain-octets c [] = refl
drain-octets c (would_block ∷ answers) = refl
drain-octets c (failed ∷ answers) = refl
drain-octets c (took zero ∷ answers) = refl
drain-octets c (took (suc n) ∷ answers) =
    let count = min (suc n) (length c.outgoing) in
    let next : Connection = record c {
      outgoing = drop count c.outgoing;
      wire = c.wire ++ take count c.outgoing;
      answers = answers;
    } in
    let moved : all_octets next ≡ all_octets c =
      append_assoc c.wire (take count c.outgoing) (drop count c.outgoing)
      ∙ ap (λ (t : List ℕ). c.wire ++ t) (take-append-drop count c.outgoing) in
    elim (Bool-cases (is_empty next.outgoing)) [
      | inl e ↦ rw e moved
      | inr e ↦ rw e (drain-octets next answers ∙ moved)
    ]

settle-octets : (c : Connection) (answer : Answer) → all_octets (settle c answer) ≡ all_octets c
unfolding settle
settle-octets c failed = refl
settle-octets c would_block = elim (Bool-cases (is_empty c.outgoing)) [
  | inl e ↦ rw e refl
  | inr e ↦ rw e refl
]
settle-octets c (took n) = elim (Bool-cases (is_empty c.outgoing)) [
  | inl e ↦ rw e refl
  | inr e ↦ rw e refl
]

-- Whatever the system answers, `onPollOut` neither loses an octet nor changes the order, and `queue_and_send`
-- puts its octets behind all others.
pub queue_and_send-octets :
    (c : Connection) (octets : List ℕ)
    → all_octets (queue_and_send c octets) ≡ all_octets c ++ octets
unfolding queue_and_send on_poll_out
queue_and_send-octets c octets =
    let queued : Connection = record c { outgoing = c.outgoing ++ octets } in
    let behind : all_octets queued ≡ all_octets c ++ octets =
      sym (append_assoc c.wire c.outgoing octets) in
    elim (Bool-cases (is_empty (c.outgoing ++ octets))) [
      | inl e ↦ rw e behind
      | inr e ↦ rw e (
          settle-octets (drain queued c.answers).connection (drain queued c.answers).sent
          ∙ drain-octets queued c.answers
          ∙ behind)
    ]

-- Where the system takes a part of a message first, the next call offers it octets from behind the message: where
-- the memory ends with the message, that is undefined behaviour.
pub send_immediate-partial :
    (c : Connection) (cells : List ℕ) (k : ℕ) (answer : Answer) (answers : List Answer)
    → c.answers ≡ took (suc k) ∷ answer ∷ answers
    → suc k < length cells
    → send_immediate c cells (length cells) ≡ thrown undefined_behaviour
unfolding send_immediate send_loop
send_immediate-partial c cells k answer answers e less =
    let len = length cells in
    let whole : ltb (length (take (len + 0) cells)) (len + 0) ≡ false =
      grind (arith, length-take (len + 0) cells) in
    let count : min (suc k) (len + 0) ≡ suc k = omega (arith, less) in
    let part : ltb (0 + suc k) len ≡ true = ground (arith, less) in
    let beyond : ltb (length (take (len + (0 + suc k)) (drop (0 + suc k) cells)))
          (len + (0 + suc k))
        ≡ true =
      grind (
        arith,
        less,
        length-take (len + (0 + suc k)) (drop (0 + suc k) cells),
        length-drop (0 + suc k) cells,
      ) in
    rw (e, whole, count, part, beyond) refl

-- An answer to a message of so many octets that does not split it.
abbrev pub IsWhole : ℕ → Answer → Type 0
IsWhole len would_block = Unit
IsWhole len failed = ⊥
IsWhole len (took n) = len ≤ n

empty_octets : (octets : List ℕ) → is_empty octets ≡ true → octets ≡ []
empty_octets [] h = refl
empty_octets (x ∷ octets) h = absurd (ground (arith, h))

send_immediate-whole :
    (c : Connection) (x : ℕ) (xs : List ℕ) (answer : Answer) (answers : List Answer)
    → c.answers ≡ answer ∷ answers
    → IsWhole (length (x ∷ xs)) answer
    → is_empty c.outgoing ≡ true
    → (d : Connection) × (send_immediate c (x ∷ xs) (length (x ∷ xs)) ≡ ok d)
      × (all_octets d ≡ all_octets c ++ x ∷ xs)
unfolding send_immediate send_loop enqueue_rest
send_immediate-whole c x xs failed answers e w empty = elim w [ ]
send_immediate-whole c x xs (took zero) answers e w empty = absurd (omega arith)
send_immediate-whole c x xs would_block answers e w empty =
    let cells = x ∷ xs in
    let len = length cells in
    let whole : ltb (length (take (len + 0) cells)) (len + 0) ≡ false =
      grind (arith, length-take (len + 0) cells) in
    let left : ltb 0 len ≡ true = ground arith in
    let d : Connection = record c { answers = answers; outgoing = c.outgoing ++ cells } in
    (
      d,
      rw (e, whole, left, take_all len cells (omega arith)) refl,
      sym (append_assoc c.wire c.outgoing cells),
    )
send_immediate-whole c x xs (took (suc n)) answers e w empty =
    let cells = x ∷ xs in
    let len = length cells in
    let whole : ltb (length (take (len + 0) cells)) (len + 0) ≡ false =
      grind (arith, length-take (len + 0) cells) in
    let count : min (suc n) (len + 0) ≡ len = omega (arith, w) in
    let done : ltb (0 + len) len ≡ false = ground arith in
    let all : take len (take (len + 0) cells) ≡ cells =
      rw (take_all (len + 0) cells (omega arith)) (take_all len cells (omega arith)) in
    let d : Connection = record c { answers = answers; wire = c.wire ++ cells } in
    let nothing = empty_octets c.outgoing empty in
    (
      d,
      rw (e, whole, count, done, all) (rw done refl),
      rw (nothing, append-nil (c.wire ++ cells), append-nil c.wire) refl,
    )

-- A message that is not empty, in the memory of its length, on a connection whose next answer, where its queue is
-- empty, does not split the message and is no error: `send` is defined, and puts the message behind all other octets.
pub send-octets :
    (c : Connection) (x : ℕ) (xs : List ℕ)
    → (is_empty c.outgoing ≡ true
        → (answer : Answer) × (answers : List Answer) × (c.answers ≡ answer ∷ answers)
          × IsWhole (length (x ∷ xs)) answer)
    → (d : Connection) × (send c (x ∷ xs) (length (x ∷ xs)) ≡ ok d)
      × (all_octets d ≡ all_octets c ++ x ∷ xs)
unfolding send
send-octets c x xs answered = elim (Bool-cases (is_empty c.outgoing)) [
  | inl empty ↦
      let (answer, answers, e, w) = answered empty in
      let (d, sent, order) = send_immediate-whole c x xs answer answers e w empty in
      (d, rw (empty) sent, order)
  | inr queued ↦
      let all : take (length (x ∷ xs)) (x ∷ xs) ≡ x ∷ xs =
        take_all (length (x ∷ xs)) (x ∷ xs) (omega arith) in
      (queue_and_send c (x ∷ xs), rw (queued, all) refl, queue_and_send-octets c (x ∷ xs))
]
