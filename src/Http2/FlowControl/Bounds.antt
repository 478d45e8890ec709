-- ===== src/Http2/FlowControl/Bounds.antt =====
-- A window stays in the range of its type, or the update is refused.
use shitty.Prelude.{ℕ, ◌-◌, ◌^◌, ◌≤◌, ◌<◌, ◌≡◌, arith, leb, if◌then◌else◌, ◌&&◌, ◌||◌}
use shitty.Prelude.{
  ℤ, pos, neg_part, ◌+ℤ◌, ◌-ℤ◌, leb_ℤ, IsInt32, ok, thrown, runtime_error, undefined_behaviour,
  AllOk,
}
use shitty.Http2.FlowControl.{add_window_size, subtract_window_size}

-- An increment of at least 1 is added where the sum is at most 2^31 - 1, and is refused in all other
-- cases; the sum of two 32-bit integers that is stored is one too.
pub add_window_size-eq :
    (w increment : ℤ)
    → IsInt32 w
    → IsInt32 increment
    → (add_window_size w increment ≡ (
        if leb_ℤ (pos 1) increment && leb_ℤ (w +ℤ increment) (pos (2 ^ 31 - 1))
        then ok (w +ℤ increment)
        else thrown runtime_error))
      × AllOk IsInt32 (add_window_size w increment)
unfolding add_window_size
add_window_size-eq w increment (h, k) (h', k') = (ground arith, ground arith)

-- From a window of at least -2^30 any amount that is accepted leaves a 32-bit window: `subtractWindowSize`
-- either subtracts or throws, and throws where the amount exceeds 2^31 - 1, or the debt of a negative window.
subtract_window_size-eq :
    (w : ℤ) (adjustment : ℕ)
    → IsInt32 w
    → neg_part w ≤ 2 ^ 30
    → (subtract_window_size w adjustment ≡ (
        if leb adjustment (2 ^ 31 - 1) && (leb_ℤ (pos 0) w || leb adjustment (neg_part w))
        then ok (w -ℤ pos adjustment)
        else thrown runtime_error))
      × AllOk IsInt32 (subtract_window_size w adjustment)
unfolding subtract_window_size
subtract_window_size-eq w adjustment (h, k) low = (ground arith, ground arith)

-- Below -2^30 the amount that doubles the debt passes the test, and the subtraction overflows.
pub subtract_window_size_overflow :
    (w : ℤ)
    → neg_part w < 2 ^ 31
    → 2 ^ 30 < neg_part w
    → subtract_window_size w (neg_part w) ≡ thrown undefined_behaviour
unfolding subtract_window_size
subtract_window_size_overflow w h k = ground arith
