-- ===== src/Http2/FlowControl.antt =====
-- Flow control windows, src/http2/FlowControl.h, and their use in src/http2/ServerStream.h.
pub mod Bounds
use shitty.Prelude.{ℕ, ◌-◌, ◌^◌, ◌+◌, ltb, if◌then◌else◌, Bool, ◌&&◌, ◌||◌}
use shitty.Prelude.{
  ℤ, pos, negsuc, neg_part, ◌+ℤ◌, ◌-ℤ◌, ltb_ℤ, is_int32, Result, ok, thrown, runtime_error,
  undefined_behaviour,
}

-- `addWindowSize` asks this of windows that are not negative, where the difference does not overflow.
abbrev pub would_add_overflow : ℤ → ℤ → Bool
would_add_overflow first second = ltb_ℤ (pos (2 ^ 31 - 1) -ℤ first) second

unfoldable pub add_window_size : ℤ → ℤ → Result ℤ
add_window_size existing_window_size increment =
    if ltb_ℤ increment (pos 1)
    then thrown runtime_error
    else if ltb_ℤ existing_window_size (pos 0)
    then ok (existing_window_size +ℤ increment)
    else if would_add_overflow existing_window_size increment
    then thrown runtime_error
    else ok (existing_window_size +ℤ increment)

-- `-` and `abs` of an `int32_t`, which are undefined where the result is none.
abbrev pub subtract_int32 : ℤ → ℤ → Result ℤ
subtract_int32 a b = if is_int32 (a -ℤ b) then ok (a -ℤ b) else thrown undefined_behaviour

-- The window of a `ServerStream`, reduced.
unfoldable pub subtract_window_size : ℤ → ℕ → Result ℤ
subtract_window_size window_size adjustment =
    if ltb (2 ^ 31 - 1) (neg_part window_size)
    then thrown undefined_behaviour
    else if (ltb_ℤ window_size (pos 0) && ltb (neg_part window_size) adjustment)
        || ltb (2 ^ 31 - 1) adjustment
    then thrown runtime_error
    else subtract_int32 window_size (pos adjustment)
