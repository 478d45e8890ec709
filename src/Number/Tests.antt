-- ===== src/Number/Tests.antt =====
-- Runs of the codec on the examples of RFC 7541, C.1, and on its limits.
use shitty.Prelude.{ℕ, ◌%◌, ◌^◌, ◌≤◌, ◌<◌, ◌≡◌, refl, arith}
use shitty.Prelude.{List, [], ◌∷◌, ◌++◌, some, replicate}
use shitty.Number.RoundTrip.{decode_number-encode_number}
use shitty.Number.Value.{rfc_value, rfc_length, decode_number-eq-rfc_value}
use shitty.Number.Value.{ten_groups, decode_number-overflow_accepted}
use shitty.Number.{used, failed, internal_error, protocol_error}
use shitty.Number.{decode_number, encode_number, decode_octets, encode_octets, mask_from_bits}

encode_ten : encode_number 10 5 (0xe0 ∷ []) ≡ some (record { octets = 0xea ∷ []; untouched = [] })
unfolding encode_number encode_octets mask_from_bits
encode_ten = refl

encode_1337 :
    encode_number 1337 5 (0 ∷ 0 ∷ 0 ∷ 7 ∷ [])
    ≡ some (record { octets = 31 ∷ 154 ∷ 10 ∷ []; untouched = 7 ∷ [] })
unfolding encode_number encode_octets mask_from_bits
encode_1337 = refl

decode_1337 : decode_number (31 ∷ 154 ∷ 10 ∷ 99 ∷ []) 5 ≡ used 3 1337
unfolding decode_number decode_octets mask_from_bits
decode_1337 = refl

decode_too_long : decode_number (replicate 12 255) 7 ≡ failed internal_error
unfolding decode_number decode_octets mask_from_bits
decode_too_long = refl

decode_cut : decode_number (255 ∷ 255 ∷ []) 7 ≡ failed protocol_error
unfolding decode_number decode_octets mask_from_bits
decode_cut = refl

abbrev ones : List ℕ
ones = 31 ∷ 154 ∷ 10 ∷ []

decode_number-encode_number_example : decode_number (ones ++ (99 ∷ [])) 5 ≡ used 3 1337
unfolding encode_number encode_octets mask_from_bits
decode_number-encode_number_example =
    decode_number-encode_number 1337 5 0 (0 ∷ 0 ∷ 7 ∷ []) (99 ∷ [])
      (record { octets = ones; untouched = 7 ∷ [] }) (omega arith) (omega arith) refl

decode_number-eq-rfc_value_example :
    (1337 ≡ rfc_value 5 (31 ∷ 154 ∷ 10 ∷ 99 ∷ []) % 2 ^ 64)
    × (3 ≡ rfc_length 5 (31 ∷ 154 ∷ 10 ∷ 99 ∷ []))
    × ((1 ≤ 3) × (3 ≤ 11) × (3 ≤ 4))
decode_number-eq-rfc_value_example =
    decode_number-eq-rfc_value (31 ∷ 154 ∷ 10 ∷ 99 ∷ []) 5 3 1337 (omega arith) decode_1337

decode_number-overflow_accepted_example :
    (v : ℕ) × (decode_number (ten_groups 2) 7 ≡ used 11 v) × (v < rfc_value 7 (ten_groups 2))
decode_number-overflow_accepted_example =
    decode_number-overflow_accepted 2 (omega arith) (omega arith)
