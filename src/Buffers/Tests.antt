-- ===== src/Buffers/Tests.antt =====
-- Buffers and payloads with a few octets.
use shitty.Prelude.{
  suc, ◌≡◌, refl, arith, [], ◌∷◌, ◌++◌, replicate, length-replicate, thrown, length_error,
}
use shitty.Buffers.{StreamBuf, advance}
use shitty.Buffers.Queue.{IsBuffer}
use shitty.Buffers.Payload.{Payload}
use shitty.Buffers.Payload as Payload
use shitty.Buffers.Payload.Order.{IsPayload, Has, all_octets, write-Has}

-- Three octets in a vector of four.
abbrev three : StreamBuf
three = record { in_use = 3; buf = 1 ∷ 2 ∷ 3 ∷ 4 ∷ [] }

three-IsBuffer : IsBuffer three
three-IsBuffer = record { fits = omega arith }

advance_beyond : advance three 4 ≡ thrown length_error
unfolding advance
advance_beyond = refl

abbrev a_payload : Payload
a_payload = record { len = 1; cells = replicate 1440 7; target = three }

a_payload-IsPayload : IsPayload a_payload
a_payload-IsPayload = record {
  array = length-replicate 1440 (suc 6);
  fits = omega arith;
  buffer = record { fits = omega arith };
}

write-Has_example : Has (all_octets a_payload ++ 8 ∷ []) (Payload.write a_payload (8 ∷ []))
write-Has_example = write-Has a_payload (8 ∷ []) a_payload-IsPayload (omega arith)
