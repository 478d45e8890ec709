-- ===== src/Http2/Settings/Fit.antt =====
-- Whatever a peer sends, the settings stay six numbers of 32 bits.
use shitty.Prelude.{
  ℕ, zero, suc, ◌-◌, ◌%◌, ◌^◌, ◌<◌, refl, ◌∙◌, arith, ltb, ◌==◌, ◌||◌, not, Bool, inl, inr,
  Bool-cases,
}
use shitty.Prelude.{List, [], ◌∷◌, length, set, get_or, All, length-set, AllOk, AllOk-if}
use shitty.Http2.Settings.{
  Settings, IsSettings, last, default_settings, value, setting_id, setting_value, load_setting,
  load_settings, create_from_buffer,
}

Fits : List ℕ → Type 0
Fits values = All (λ v. v < 2 ^ 32) values

Fits-set : (values : List ℕ) (i v : ℕ) → Fits values → v < 2 ^ 32 → Fits (set values i v)
unfolding Fits
Fits-set [] i v h k = tt
Fits-set (x ∷ values) zero v (h, hs) k = (k, hs)
Fits-set (x ∷ values) (suc i) v (h, hs) k = (h, Fits-set values i v hs k)

Fits-get_or : (values : List ℕ) (i : ℕ) → Fits values → get_or values i 0 < 2 ^ 32
unfolding Fits
Fits-get_or [] i h = omega arith
Fits-get_or (x ∷ values) zero (h, hs) = h
Fits-get_or (x ∷ values) (suc i) (h, hs) = Fits-get_or values i hs

pub value-bound : (s : Settings) (name : ℕ) → IsSettings s → value s name < 2 ^ 32
unfolding Fits
value-bound s name w = Fits-get_or s.values (name - 1) w.fit

load_setting-IsSettings :
    (c : Bool) (s : Settings) (id v : ℕ)
    → IsSettings s
    → v < 2 ^ 32
    → IsSettings (load_setting c s id v)
unfolding load_setting Fits
load_setting-IsSettings c s id v w h = elim (Bool-cases (ltb id 1 || ltb last id)) [
  | inl e ↦ rw e w
  | inr e ↦ rw e (record {
    count = length-set s.values (id - 1) v ∙ w.count;
    fit = Fits-set s.values (id - 1) v w.fit h;
  })
]

setting_value-bound : (c : Bool) (a b d e : ℕ) → setting_value c a b d e < 2 ^ 32
unfolding setting_value
setting_value-bound c a b d e = omega arith

load_settings-IsSettings :
    (c : Bool) (s : Settings) (buf : List ℕ) → IsSettings s → IsSettings (load_settings c s buf)
unfolding load_settings
load_settings-IsSettings c s (i ∷ j ∷ a ∷ b ∷ d ∷ e ∷ rest) w =
    load_settings-IsSettings c (load_setting c s (setting_id c i j) (setting_value c a b d e)) rest
      (load_setting-IsSettings c s (setting_id c i j) (setting_value c a b d e) w
        (setting_value-bound c a b d e))
load_settings-IsSettings c s [] w = w
load_settings-IsSettings c s (i ∷ []) w = w
load_settings-IsSettings c s (i ∷ j ∷ []) w = w
load_settings-IsSettings c s (i ∷ j ∷ a ∷ []) w = w
load_settings-IsSettings c s (i ∷ j ∷ a ∷ b ∷ []) w = w
load_settings-IsSettings c s (i ∷ j ∷ a ∷ b ∷ d ∷ []) w = w

default_settings-IsSettings : IsSettings default_settings
default_settings-IsSettings = record { count = refl; fit = omega arith }

-- On any octets, with `char` of either sign, `createFromBuffer` throws or returns six numbers of 32 bits.
pub create_from_buffer-IsSettings :
    (c : Bool) (buf : List ℕ) → AllOk IsSettings (create_from_buffer c buf)
unfolding create_from_buffer
create_from_buffer-IsSettings c buf =
    AllOk-if _ (not (length buf % 6 == 0)) _ _ tt
      (load_settings-IsSettings c default_settings buf default_settings-IsSettings)
