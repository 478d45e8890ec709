-- ===== src/Http2/Frame/RoundTrip.antt =====
-- What `writeTo` wrote, read back: by a platform whose `char` has no sign, and by one whose has.
use native.Mathlib.Nat.{mod-eq_of_lt}
use shitty.Prelude.{
  ℕ, ◌+◌, ◌-◌, ◌*◌, ◌/◌, ◌%◌, ◌^◌, ◌≤◌, ◌<◌, ◌≡◌, refl, ◌∙◌, arith, bit_and, bit_or, true, false,
}
use shitty.Prelude.{List, ◌++◌, ok}
use shitty.Bits.{or_disjoint, and_low}
use shitty.Bits.Bytes.{u8, u32, widen, word24, word32, word24-eq, word32-eq, word24-negative}
use shitty.Http2.Frame.{FrameHeader, IsHeader, write_header, header_of, read_header}

-- The last four octets of a header, as a number.
word-eq :
    (h : FrameHeader)
    → IsHeader h
    → bit_or (u32 (h.reserved * 2 ^ 31)) h.stream_id ≡ h.reserved * 2 ^ 31 + h.stream_id
word-eq h w =
    let low : u32 (h.reserved * 2 ^ 31) ≡ h.reserved * 2 ^ 31 = omega (arith, w.reserved_fits) in
    rw low (or_disjoint 31 h.reserved h.stream_id w.stream_fits)

octets24 : (n : ℕ) → n < 2 ^ 24 → word24 (u8 (n / 2 ^ 16)) (u8 (n / 2 ^ 8)) (u8 n) ≡ n
octets24 n h =
    word24-eq (u8 (n / 2 ^ 16)) (u8 (n / 2 ^ 8)) (u8 n) (omega arith) (omega arith) (omega arith)
    ∙ omega arith

octets32 :
    (n : ℕ) → n < 2 ^ 32 → word32 (u8 (n / 2 ^ 24)) (u8 (n / 2 ^ 16)) (u8 (n / 2 ^ 8)) (u8 n) ≡ n
octets32 n h =
    word32-eq (u8 (n / 2 ^ 24)) (u8 (n / 2 ^ 16)) (u8 (n / 2 ^ 8)) (u8 n) (omega arith)
      (omega arith) (omega arith) (omega arith)
    ∙ omega arith

-- The fields of the last four octets.
fields-mod :
    (h : FrameHeader)
    → IsHeader h
    → bit_and (h.reserved * 2 ^ 31 + h.stream_id) 0x7fffffff ≡ h.stream_id
fields-mod h w = and_low 31 (h.reserved * 2 ^ 31 + h.stream_id) ∙ omega (arith, w.stream_fits)

fields-div :
    (h : FrameHeader) → IsHeader h → (h.reserved * 2 ^ 31 + h.stream_id) / 2 ^ 31 ≡ h.reserved
fields-div h w = omega (arith, w.stream_fits)

header_of-write_header :
    (h : FrameHeader) (rest : List ℕ) → IsHeader h → header_of false (write_header h ++ rest) ≡ h
unfolding header_of write_header
header_of-write_header h rest w =
    let word = h.reserved * 2 ^ 31 + h.stream_id in
    let small : h.length % 2 ^ 24 ≡ h.length = mod-eq_of_lt w.length_fits in
    let type : u8 h.type ≡ h.type = mod-eq_of_lt w.type_fits in
    let flags : u8 h.flags ≡ h.flags = mod-eq_of_lt w.flags_fit in
    rw
      (
        word-eq h w,
        octets24 h.length w.length_fits,
        octets32 word (omega (arith, w.reserved_fits, w.stream_fits)),
        fields-mod h w,
        fields-div h w,
        small,
        type,
        flags,
      )
      refl

-- Where `char` has no sign, reading gives back every header that was written, and what was behind it.
pub read_header-write_header :
    (h : FrameHeader) (rest : List ℕ)
    → IsHeader h
    → read_header false (write_header h ++ rest) ≡ ok (record { header = h; left = rest })
read_header-write_header h rest w =
    unfold read_header in rw (header_of-write_header h rest w) (unfold write_header in ground arith)

-- Where `char` has a sign, a length whose last octet is 128 or more is read as 2^24 - 256 and that octet.
pub read_header-sign_extended :
    (h : FrameHeader) (rest : List ℕ)
    → IsHeader h
    → 128 ≤ h.length % 256
    → (header_of true (write_header h ++ rest)).length ≡ 2 ^ 24 - 256 + h.length % 256
unfolding header_of write_header
read_header-sign_extended h rest w negative =
    let low : widen true (u8 h.length) ≡ u8 h.length + (2 ^ 32 - 256) = ground arith in
    rw low (
      word24-negative (widen true (u8 (h.length / 2 ^ 16))) (widen true (u8 (h.length / 2 ^ 8)))
        (u8 h.length) (omega arith))
