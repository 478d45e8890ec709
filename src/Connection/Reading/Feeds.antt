-- ===== src/Connection/Reading/Feeds.antt =====
-- The order in which `onPollIn`, of src/Connection.cpp, gives its transport what it reads.
use shitty.Prelude.{
  ℕ, ◌+◌, ◌≤◌, ◌≡◌, refl, ap, ◌∙◌, arith, zero, suc, ◌⊎◌, inl, inr, min, ◌==◌, true, false,
  Bool-cases,
}
use shitty.Prelude.{
  List, [], ◌∷◌, ◌++◌, length, take, drop, Result, ok, thrown, Exception, AllOk, Result-cases,
  length-append, length-take, take-append-drop,
}
use shitty.Buffers.{StreamBuf, tailroom, grow}
use shitty.Buffers.Queue.{IsBuffer, Holds, contents, memcpy-ok, written}
use shitty.Connection.Reading.{
  ReadAnswer, ready, would_block, failed, Taken, Polled, read_into, on_poll_in, grow-Holds,
}

read_into-ok :
    (b : StreamBuf) (octets : List ℕ)
    → IsBuffer b
    → length octets ≤ tailroom b
    → (filled : StreamBuf) × (read_into b octets ≡ ok filled) × Holds (contents b ++ octets) filled
unfolding read_into
read_into-ok b octets v room = (
  _,
  rw (memcpy-ok b.buf b.in_use octets (omega (arith, v.fits))) refl,
  record {
    valid = record {
      fits = omega (
        arith,
        length-append (take b.in_use b.buf ++ octets) (drop (b.in_use + length octets) b.buf),
        length-append (take b.in_use b.buf) octets,
        length-take b.in_use b.buf,
        v.fits,
      );
    };
    octets_eq = written b.buf b.in_use octets (drop (b.in_use + length octets) b.buf) v.fits;
  },
)

-- Why there are no more calls: an end or an error of the stream, which closes the connection, or nothing to read
-- for now.
abbrev pub Ends : {T : Type 0} → List ReadAnswer → List ℕ → Polled T → Type 0
Ends [] stream p = p.is_open ≡ true
Ends (would_block ∷ answers) stream p = p.is_open ≡ true
Ends (failed ∷ answers) stream p = p.is_open ≡ false
Ends (ready n ∷ answers) stream p =
    (p.is_open ≡ false) × ((min n (tailroom p.incoming) ≡ 0) ⊎ (stream ≡ []))

nothing_taken : (n : ℕ) (s : List ℕ) → (length (take n s) == 0) ≡ true → (n ≡ 0) ⊎ (s ≡ [])
nothing_taken zero s h = inl refl
nothing_taken (suc n) [] h = inr refl
nothing_taken (suc n) (x ∷ s) h = absurd (ground (arith, h))

module _ {T : Type 0} (on_input : T → StreamBuf → Result (Taken T)) where
  -- What a connection owes its transport, on the octets alone, and whatever the transport does with them: calls of
  -- onInput, each on what the call before has left with the next octets of the stream behind it, and none behind
  -- one that closes the connection or throws. From a transport, the octets left to it, the stream, and the answers of
  -- the system.
  pub data Fed : T → List ℕ → List ℕ → List ReadAnswer → Result (Polled T) → Type 0 where
    stopped :
        {t : T} {left stream : List ℕ} {answers : List ReadAnswer} {r : Result (Polled T)}
        (p : Polled T)
        → p.transport ≡ t
        → contents p.incoming ≡ left
        → p.wire ≡ stream
        → Ends answers stream p
        → r ≡ ok p
        → Fed t left stream answers r
    threw :
        {t : T} {left stream : List ℕ} {answers : List ReadAnswer} {r : Result (Polled T)} (n : ℕ)
        (next rest : List ℕ) (b : StreamBuf) (e : Exception)
        → (length next == 0) ≡ false
        → next ++ rest ≡ stream
        → contents b ≡ left ++ next
        → on_input t b ≡ thrown e
        → r ≡ thrown e
        → Fed t left stream (ready n ∷ answers) r
    closed :
        {t : T} {left stream : List ℕ} {answers : List ReadAnswer} {r : Result (Polled T)} (n : ℕ)
        (next rest : List ℕ) (b : StreamBuf) (taken : Taken T)
        → (length next == 0) ≡ false
        → next ++ rest ≡ stream
        → contents b ≡ left ++ next
        → on_input t b ≡ ok taken
        → taken.is_open ≡ false
        → r
          ≡ ok (record {
            transport = taken.transport;
            incoming = taken.buf;
            is_open = false;
            wire = rest;
          })
        → Fed t left stream (ready n ∷ answers) r
    fed :
        {t : T} {left stream : List ℕ} {answers : List ReadAnswer} {r : Result (Polled T)} (n : ℕ)
        (next rest : List ℕ) (b : StreamBuf) (taken : Taken T)
        → (length next == 0) ≡ false
        → next ++ rest ≡ stream
        → contents b ≡ left ++ next
        → on_input t b ≡ ok taken
        → taken.is_open ≡ true
        → Fed taken.transport (contents taken.buf) rest answers r
        → Fed t left stream (ready n ∷ answers) r

  -- Whatever the transport does with a buffer, if only it leaves one whose octets in use are no more than its cells: it
  -- is called, in the order of the stream, on the octets that the call before left and the next ones that are read,
  -- until a call closes the connection or throws, or there is nothing more to read; the connection is closed where a
  -- read gives nothing or fails; no octet is lost, read twice or out of its
  -- place, and no exception comes but from the transport.
  pub on_poll_in-Fed :
      (t : T) (incoming : StreamBuf) (wire : List ℕ) (answers : List ReadAnswer)
      → ((t' : T) (b : StreamBuf) → IsBuffer b → AllOk (λ r. IsBuffer r.buf) (on_input t' b))
      → IsBuffer incoming
      → Fed t (contents incoming) wire answers (on_poll_in on_input t incoming wire answers)
  unfolding on_poll_in
  on_poll_in-Fed t incoming wire [] keeps v =
      stopped _ refl (grow-Holds incoming v).octets_eq refl refl refl
  on_poll_in-Fed t incoming wire (would_block ∷ answers) keeps v =
      stopped _ refl (grow-Holds incoming v).octets_eq refl refl refl
  on_poll_in-Fed t incoming wire (failed ∷ answers) keeps v =
      stopped _ refl (grow-Holds incoming v).octets_eq refl refl refl
  on_poll_in-Fed t incoming wire (ready n ∷ answers) keeps v =
      let held = grow-Holds incoming v in
      let room = grow incoming in
      let count = min n (tailroom room) in
      let next = take count wire in
      let rest = drop count wire in
      let both = take-append-drop count wire in
      let (buf, read, filled) =
        read_into-ok room next held.valid (omega (arith, length-take count wire)) in
      let there : contents buf ≡ contents incoming ++ next =
        filled.octets_eq ∙ ap (λ (s : List ℕ). s ++ next) held.octets_eq in
      let valid = keeps t buf filled.valid in
      elim (Bool-cases (length next == 0)) [
        | inl ended ↦
            rw ended
              (stopped _ refl held.octets_eq refl (refl, nothing_taken count wire ended) refl)
        | inr some_octets ↦ elim (Result-cases (on_input t buf)) [
          | inr (e, given) ↦
              rw some_octets
                (rw read (rw given (threw n next rest buf e some_octets both there given refl)))
          | inl (taken, given) ↦ elim (Bool-cases taken.is_open) [
            | inl still ↦
                let later =
                  on_poll_in-Fed taken.transport taken.buf rest answers keeps (rw given at valid) in
                rw some_octets (
                  rw read (
                    rw given (
                      rw still
                        (fed n next rest buf taken some_octets both there given still later))))
            | inr shut ↦ rw some_octets (
                rw read (
                  rw given (
                    rw shut (closed n next rest buf taken some_octets both there given shut refl))))
          ]
        ]
      ]
