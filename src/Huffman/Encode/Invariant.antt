-- ===== src/Huffman/Encode/Invariant.antt =====
-- What the encoder has written stands for a string of bits; and the operations on a full buffer.
use shitty.Prelude.{ℕ, ◌+◌, ◌-◌, ◌*◌, ◌^◌, ◌≤◌, ◌<◌, ◌≡◌, refl, ap, sym, ◌∙◌, arith, ◌⊎◌, inl, inr}
use shitty.Prelude.{
  Bool, List, [], ◌∷◌, ◌++◌, Option, none, some, length, length-append, append-nil, All, IsByte,
}
use shitty.Bits.Stream.{bits, octet_bits, length-bits}
use shitty.Bits.Fields.{octet_bits-append}
use shitty.Huffman.Reader.Refine.{length-octet_bits}
use shitty.Huffman.Encode.{Encoder, Pending, put, ◌>>=◌}

pub All-append : (xs ys : List ℕ) → All IsByte xs → All IsByte ys → All IsByte (xs ++ ys)
All-append [] ys h h' = h'
All-append (x ∷ xs) ys (b, bs) h' = (b, All-append xs ys bs h')

-- A successful chain came from a successful first step.
pub >>=-eq-some :
    {A B : Type 0} (m : Option A) (f : A → Option B) {b : B}
    → (m >>= f) ≡ some b
    → (a : A) × (m ≡ some a) × (f a ≡ some b)
>>=-eq-some none f h = cc
>>=-eq-some (some a) f h = (a, refl, h)

-- A buffer of `buflen` octets, and the `total` bits that are to be written to it.
module _ (buflen total : ℕ) where
  -- Either there are more bits than the buffer holds and the call fails, or it gives a result of this kind.
  abbrev pub Answers : {A : Type 0} → Option A → (A → Type 0) → Type 0
  Answers o P = ((o ≡ none) × (8 * buflen < total)) ⊎ ((a : _) × (o ≡ some a) × P a)

  pub Answers->>= :
      {A B : Type 0} {P : A → Type 0} {Q : B → Type 0} (m : Option A) (f : A → Option B)
      → Answers m P
      → ((a : A) → P a → Answers (f a) Q)
      → Answers (m >>= f) Q
  Answers->>= m f (inl (e, h)) k = inl (rw e refl, h)
  Answers->>= m f (inr (a, e, p)) k = rw e (k a p)

-- The output, and the begun octet, hold these bits.
pub record Coded (buflen : ℕ) (e : Encoder) (l : List Bool) : Type 0 where
  pub value : ℕ
  pub narrow : e.existing_bits ≤ 8
  pub small : value < 2 ^ e.existing_bits
  pub aligned : e.partial ≡ value * 2 ^ (8 - e.existing_bits)
  pub string : octet_bits e.output ++ bits e.existing_bits value ≡ l
  pub octets : All IsByte e.output
  pub count : length e.output + length e.cells ≡ buflen

pub Coded-length :
    {buflen : ℕ} {e : Encoder} {l : List Bool}
    → Coded buflen e l
    → length l ≡ 8 * length e.output + e.existing_bits
Coded-length {e = e} c =
    ap length (sym c.string)
    ∙ length-append (octet_bits e.output) (bits e.existing_bits c.value)
    ∙ omega (arith, length-octet_bits e.output, length-bits e.existing_bits c.value)

-- The begun octet as it was, and a code to write behind it.
pub record PendingCoded (buflen : ℕ) (p : Pending) (l : List Bool) : Type 0 where
  pub base : List Bool
  pub encoder : Coded buflen p.encoder base
  pub ending : (p.bits ≡ 0) ⊎ (p.encoder.existing_bits ≡ 0)
  pub whole : base ++ bits p.bits p.huffcode ≡ l

-- An octet more, or no room for it.
pub put-Coded :
    (buflen total octet : ℕ) (output cells : List ℕ)
    → octet < 256
    → All IsByte output
    → length output + length cells ≡ buflen
    → 8 * length output < total
    → Answers buflen total
        (put octet output cells)
        (λ e. Coded buflen e (octet_bits output ++ bits 8 octet) × (e.existing_bits ≡ 0))
unfolding put octet_bits bits
put-Coded buflen total octet output [] small b count more = inl (refl, omega arith)
put-Coded buflen total octet output (cell ∷ cells) small b count more = inr (
  _,
  refl,
  (
    record {
      value = 0;
      narrow = omega arith;
      small = omega arith;
      aligned = refl;
      string =
          append-nil (octet_bits (output ++ octet ∷ []))
          ∙ octet_bits-append output (octet ∷ [])
          ∙ ap (λ (t : List Bool). octet_bits output ++ t) (append-nil (bits 8 octet));
      octets = All-append output (octet ∷ []) b (small, tt);
      count = omega (arith, length-append output (octet ∷ []));
    },
    refl,
  ),
)
