-- ===== src/Http2/Settings/RoundTrip.antt =====
-- What `writeTo` wrote, read back by `createFromBuffer`.
use shitty.Prelude.{
  ℕ, suc, ◌+◌, ◌-◌, ◌*◌, ◌/◌, ◌%◌, ◌^◌, ◌≤◌, ◌<◌, ◌≡◌, refl, ◌∙◌, arith, ltb, ◌==◌, ◌||◌, true,
  false,
}
use shitty.Prelude.{List, [], ◌∷◌, ◌++◌, length, All, ok}
use shitty.Bits.{or_disjoint}
use shitty.Bits.Bytes.{u8, u16, widen, word32-eq, word32-negative}
use shitty.Http2.Settings.{
  Settings, IsSettings, default_settings, setting_id, setting_value, load_setting, load_settings,
  create_from_buffer, write_setting, write_values, write_settings, set_value,
}

setting_id-plain : (name : ℕ) → name < 256 → setting_id false (u8 (name / 2 ^ 8)) (u8 name) ≡ name
unfolding setting_id
setting_id-plain name h =
    let high : u16 (u8 (name / 2 ^ 8)) ≡ 0 = omega arith in
    let low : u16 (u8 name) ≡ name = omega arith in
    rw (high, low) (omega (arith, or_disjoint 8 0 name h))

setting_value-plain :
    (v : ℕ)
    → v < 2 ^ 32
    → setting_value false (u8 (v / 2 ^ 24)) (u8 (v / 2 ^ 16)) (u8 (v / 2 ^ 8)) (u8 v) ≡ v
unfolding setting_value
setting_value-plain v h =
    let word =
      word32-eq (u8 (v / 2 ^ 24)) (u8 (v / 2 ^ 16)) (u8 (v / 2 ^ 8)) (u8 v) (omega arith)
        (omega arith) (omega arith) (omega arith) in
    rw word (omega arith)

-- Reading a written setting puts it in its place.
load_written :
    (s : Settings) (name v : ℕ) (rest : List ℕ)
    → 1 ≤ name
    → name ≤ 6
    → v < 2 ^ 32
    → load_settings false s (write_setting name v ++ rest)
      ≡ load_settings false (set_value s name v) rest
unfolding load_settings load_setting write_setting
load_written s name v rest lo hi fits =
    let known : (ltb name 1 || ltb 6 name) ≡ false = ground arith in
    rw (setting_id-plain name (omega arith), setting_value-plain v fits, known) refl

-- The settings with these values from a name on.
unfoldable store : Settings → ℕ → List ℕ → Settings
store s name [] = s
store s name (v ∷ values) = store (set_value s name v) (suc name) values

load_values :
    (s : Settings) (name : ℕ) (values : List ℕ)
    → 1 ≤ name
    → name + length values ≤ 7
    → All (λ v. v < 2 ^ 32) values
    → load_settings false s (write_values name values) ≡ store s name values
unfolding write_values store
load_values s name [] lo hi fit = unfold load_settings in refl
load_values s name (v ∷ values) lo hi (small, fit) =
    load_written s name v (write_values (suc name) values) lo (omega arith) small
    ∙ load_values (set_value s name v) (suc name) values (omega arith) (omega arith) fit

length-write_values :
    (name : ℕ) (values : List ℕ) → length (write_values name values) ≡ 6 * length values
unfolding write_values write_setting
length-write_values name [] = refl
length-write_values name (v ∷ values) = omega (arith, length-write_values (suc name) values)

store_six :
    (values : List ℕ)
    → length values ≡ 6
    → store default_settings 1 values ≡ record { values = values }
unfolding store
store_six (a ∷ b ∷ c ∷ d ∷ e ∷ f ∷ []) h = refl
store_six [] h = absurd (omega arith)
store_six (a ∷ []) h = absurd (omega arith)
store_six (a ∷ b ∷ []) h = absurd (omega arith)
store_six (a ∷ b ∷ c ∷ []) h = absurd (omega arith)
store_six (a ∷ b ∷ c ∷ d ∷ []) h = absurd (omega arith)
store_six (a ∷ b ∷ c ∷ d ∷ e ∷ []) h = absurd (omega arith)
store_six (a ∷ b ∷ c ∷ d ∷ e ∷ f ∷ g ∷ rest) h = absurd (omega arith)

-- Where `char` has no sign, `createFromBuffer` reads back the settings that `writeTo` wrote, if they
-- are six numbers of 32 bits.
pub create_from_buffer-write_settings :
    (s : Settings) → IsSettings s → create_from_buffer false (write_settings s) ≡ ok s
unfolding create_from_buffer write_settings
create_from_buffer-write_settings s w =
    let size = length-write_values 1 s.values in
    let whole : (length (write_values 1 s.values) % 6 == 0) ≡ true = ground (arith, size) in
    rw
      (
        whole,
        load_values default_settings 1 s.values (omega arith) (omega (arith, w.count)) w.fit,
        store_six s.values w.count,
      )
      refl

setting_id-small : (name : ℕ) → name < 128 → setting_id true 0 name ≡ name
unfolding setting_id
setting_id-small name h =
    let low : u16 (widen true name) ≡ name = ground arith in
    rw low (omega (arith, or_disjoint 8 0 name))

-- Where `char` has a sign, a value whose last octet is 128 or more is read as 2^32 - 256 and that octet.
pub load_setting-sign_extended :
    (s : Settings) (name a b c d : ℕ) (rest : List ℕ)
    → 1 ≤ name
    → name ≤ 6
    → 128 ≤ d
    → d < 256
    → load_settings true s (0 ∷ name ∷ a ∷ b ∷ c ∷ d ∷ rest)
      ≡ load_settings true (set_value s name (2 ^ 32 - 256 + d)) rest
unfolding load_settings load_setting setting_value
load_setting-sign_extended s name a b c d rest lo hi negative octet =
    let known : (ltb name 1 || ltb 6 name) ≡ false = ground arith in
    let last : widen true d ≡ d + (2 ^ 32 - 256) = ground arith in
    rw
      (
        setting_id-small name (omega arith),
        known,
        last,
        word32-negative (widen true a) (widen true b) (widen true c) d octet,
      )
      refl

pub length-write_settings : (s : Settings) → IsSettings s → length (write_settings s) ≡ 36
unfolding write_settings
length-write_settings s w = omega (arith, length-write_values 1 s.values, w.count)
