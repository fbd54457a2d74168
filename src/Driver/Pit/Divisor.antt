-- ===== src/Driver/Pit/Divisor.antt =====
-- The frequency that the timer is given.
use ipo_os.Common.{ℕ, ◌+◌, ◌*◌, ◌/◌, ◌%◌, ◌≤◌, ◌<◌, arith}
use ipo_os.Driver.Pit.{pit_get_divisor, pit_frequency}
use native.Mathlib.Nat.{
  mod-eq_of_lt, div-mul-le_self, le-div_iff_mul-le, div-lt_iff_lt-mul, lt-div-mul-add,
  mul-le-mul_right,
}

-- From 19 Hz to the timer's own frequency the divisor fits its 16 bits and is not 0, so that the
-- frequency it stands for is the one asked for or the next above it: `hz` times the divisor does not
-- exceed the timer's frequency, and with a divisor larger by one it does.
pub pit_get_divisor_bounds :
    (hz : ℕ)
    → 19 ≤ hz
    → hz ≤ pit_frequency
    → (1 ≤ pit_get_divisor hz)
      × (pit_get_divisor hz * hz ≤ pit_frequency)
      × (pit_frequency < pit_get_divisor hz * hz + hz)
unfolding pit_get_divisor
pit_get_divisor_bounds hz low high =
    let pos : 0 < hz = omega arith in
    let fits : pit_frequency / hz < 65536 = (div-lt_iff_lt-mul pos).1 (omega arith) in
    let some_ticks : 1 ≤ pit_frequency / hz = (le-div_iff_mul-le pos).1 (omega arith) in
    rw (mod-eq_of_lt fits) (some_ticks, div-mul-le_self pit_frequency hz, lt-div-mul-add pos)

-- Below 19 Hz the divisor does not fit its 16 bits, and 65536 more than the one that the timer is
-- given would still fit the timer's second, so that it runs faster than asked for.
pub pit_get_divisor_wraps :
    (hz : ℕ) → 1 ≤ hz → hz < 19 → (pit_get_divisor hz + 65536) * hz ≤ pit_frequency
unfolding pit_get_divisor
pit_get_divisor_wraps hz low high =
    let pos : 0 < hz = omega arith in
    let enough : 65536 * hz ≤ pit_frequency = omega arith in
    let large : 65536 ≤ pit_frequency / hz = (le-div_iff_mul-le pos).1 enough in
    let less : pit_frequency / hz % 65536 + 65536 ≤ pit_frequency / hz = omega (arith, large) in
    let fits = div-mul-le_self pit_frequency hz in
    let more = mul-le-mul_right hz less in omega arith
