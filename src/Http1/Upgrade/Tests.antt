-- ===== src/Http1/Upgrade/Tests.antt =====
-- A request for an upgrade, with no settings.
use shitty.Prelude.{ℕ, ◌≡◌, refl, true, List, [], ◌∷◌, Option, some, ok}
use shitty.Text.{case_insensitive_equal}
use shitty.Messages.{Header, Request, find, get}
use shitty.Http1.Server.{upgrade_name, upgrade_lower}
use shitty.Http1.Upgrade.{h2c, http2_settings_name}
use shitty.Http1.Upgrade.Confirmed.{Confirms, try_upgrade-h2c}
use shitty.Http2.Settings.{default_settings, create_from_buffer, load_settings}
use shitty.Http2.Transport.{decode_base64_settings}

abbrev today : List ℕ
today = b'D' ∷ []

abbrev no_octets : ℕ → ℕ
no_octets n = 0

abbrev nothing_decoded : List ℕ → Option (List ℕ)
nothing_decoded s = some []

abbrev upgrade_header : Header
upgrade_header = record { name = upgrade_name; value = h2c }

abbrev upgrade_request : Request
upgrade_request = record {
  method = b'G' ∷ b'E' ∷ b'T' ∷ [];
  path = b'/' ∷ [];
  message = record { body = []; headers = upgrade_header ∷ [] };
}

there : find (upgrade_header ∷ []) upgrade_lower ≡ some upgrade_header
unfolding find case_insensitive_equal
there = refl

decoded :
    decode_base64_settings true no_octets nothing_decoded
      (get (upgrade_header ∷ []) http2_settings_name).value
    ≡ ok default_settings
unfolding decode_base64_settings create_from_buffer load_settings
decoded = refl

try_upgrade-h2c_example : Confirms today true no_octets nothing_decoded upgrade_request
try_upgrade-h2c_example =
    try_upgrade-h2c today true no_octets nothing_decoded upgrade_request upgrade_header
      default_settings there refl decoded
