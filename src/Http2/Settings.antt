-- ===== src/Http2/Settings.antt =====
-- The settings of a connection, src/http2/Settings.h and Settings.cpp. The parser reads `char`s, whose
-- sign is a parameter.
pub mod RoundTrip
pub mod Fit
use shitty.Prelude.{
  ℕ, suc, ◌+◌, ◌-◌, ◌*◌, ◌/◌, ◌%◌, ◌^◌, ◌<◌, ◌≡◌, bit_or, ltb, ◌==◌, if◌then◌else◌, Bool, not, ◌||◌,
}
use shitty.Prelude.{
  List, [], ◌∷◌, ◌++◌, length, set, get_or, All, Result, ok, thrown, runtime_error,
}
use shitty.Bits.Bytes.{u8, u16, u32, widen, word32}

-- `enum Name`
abbrev pub initial_window_size : ℕ
initial_window_size = 4

abbrev pub enable_push : ℕ
enable_push = 2

abbrev pub last : ℕ
last = 6

pub record Settings : Type 0 where
  pub values : List ℕ

pub record IsSettings (s : Settings) : Type 0 where
  pub count : length s.values ≡ 6
  pub fit : All (λ v. v < 2 ^ 32) s.values

abbrev pub default_settings : Settings
default_settings = record { values = 4096 ∷ 1 ∷ (2 ^ 32 - 1) ∷ 65535 ∷ 16384 ∷ (2 ^ 32 - 1) ∷ [] }

abbrev pub value : Settings → ℕ → ℕ
value s name = get_or s.values (name - 1) 0

abbrev pub set_value : Settings → ℕ → ℕ → Settings
set_value s name v = record { values = set s.values (name - 1) v }

module _ (char_is_signed : Bool) where
  unfoldable pub setting_id : ℕ → ℕ → ℕ
  setting_id a b =
      u16 (bit_or (u16 (widen char_is_signed a) * 2 ^ 8) (u16 (widen char_is_signed b)))

  unfoldable pub setting_value : ℕ → ℕ → ℕ → ℕ → ℕ
  setting_value a b c d = u32 (
      word32 (widen char_is_signed a) (widen char_is_signed b) (widen char_is_signed c)
        (widen char_is_signed d))

  -- One pass of the loop: an id that is not known is skipped.
  unfoldable pub load_setting : Settings → ℕ → ℕ → Settings
  load_setting s id v = if ltb id 1 || ltb last id then s else set_value s id v

  -- The loop, on a buffer of a multiple of six octets.
  unfoldable pub load_settings : Settings → List ℕ → Settings
  load_settings s (i ∷ j ∷ a ∷ b ∷ c ∷ d ∷ rest) =
      load_settings (load_setting s (setting_id i j) (setting_value a b c d)) rest
  load_settings s _ = s

  unfoldable pub create_from_buffer : List ℕ → Result Settings
  create_from_buffer buf =
      if not (length buf % 6 == 0)
      then thrown runtime_error
      else ok (load_settings default_settings buf)

-- A setting's name and value in network byte order, and those from the name `name` on.
unfoldable pub write_setting : ℕ → ℕ → List ℕ
write_setting name v =
    u8 (name / 2 ^ 8) ∷ u8 name ∷ u8 (v / 2 ^ 24) ∷ u8 (v / 2 ^ 16) ∷ u8 (v / 2 ^ 8) ∷ u8 v ∷ []

unfoldable pub write_values : ℕ → List ℕ → List ℕ
write_values name [] = []
write_values name (v ∷ values) = write_setting name v ++ write_values (suc name) values

unfoldable pub write_settings : Settings → List ℕ
write_settings s = write_values 1 s.values
