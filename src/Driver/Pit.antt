-- ===== src/Driver/Pit.antt =====
-- The timer (lib/c/system/pit.c), the speaker (lib/c/driver/sound.c) and the keyboard controller
-- (lib/c/driver/keyboard.c).
pub mod Divisor
use ipo_os.Common.{
  ℕ, zero, suc, ◌+◌, ◌-◌, ◌*◌, ◌/◌, ◌%◌, ◌^◌, ◌≤◌, ◌<◌, min, ◌≡◌, refl, sym, ap, ◌∙◌, fun_ext, ◌≢◌,
  ◌↔◌, ◌⊎◌, inl, inr, Bool, true, false, not, ◌&&◌, ◌||◌, Option, none, some, List, [], ◌∷◌, ◌++◌,
  map, reverse, arith, ltb, leb, ◌==◌, if◌then◌else◌, Bool-cases, tests, lt→ltb, le→ltb, ltb→lt,
  leb→le, ltb→le, leb→lt, ==_iff, and_left, and_right, all_below, all_below_sound, length,
  get_elem?, set, take, drop, replicate, is_some, length-append, length-set, get_elem?-set_self,
  get_elem?-set_ne, u32_mod, add32, sub32,
}
use ipo_os.Driver.{Ports}
use Prim.Native.Nat.{bit_and, bit_or}

abbrev pub pit_reg_counter_0 : ℕ
pit_reg_counter_0 = 0x40

abbrev pub pit_reg_command : ℕ
pit_reg_command = 0x43

abbrev pub pit_frequency : ℕ
pit_frequency = 1193182

-- A `uint16_t`. `hz` is not 0.
unfoldable pub pit_get_divisor : ℕ → ℕ
pit_get_divisor hz = pit_frequency / hz % 65536

-- The `switch` over the counter.
unfoldable pub counter_select : ℕ → Option ℕ
counter_select counter =
    if counter == 0
    then some 0x00
    else if counter == 1
    then some 0x40
    else if counter == 2
    then some 0x80
    else none

module _ {D : Type 0} (ports : Ports D) (io_wait : D → D) where
  -- The control word and the two bytes of the divisor.
  unfoldable pub program_counter : (counter select divisor : ℕ) → D → D
  program_counter counter select divisor d =
      let ocw = bit_or (bit_or (bit_or select 0x30) 0x00) 0x06 in
      let low = io_wait (
        ports.outb (pit_reg_counter_0 + counter) (divisor % 256)
          (ports.outb pit_reg_command ocw d)) in
      io_wait (ports.outb (pit_reg_counter_0 + counter) (divisor / 256 % 256) low)

  unfoldable pub pit_set_frequency : (counter hz : ℕ) → D → D
  pit_set_frequency counter hz d =
      if (hz == 0) || ltb pit_frequency hz then d else elim (counter_select counter) [
        | none ↦ d
        | some select ↦ program_counter counter select (pit_get_divisor hz) d
      ]

  unfoldable pub pit_init : ℕ → D → D
  pit_init hz d = pit_set_frequency 0 hz d

  unfoldable pub sound_init : D → D
  sound_init d = pit_init 0 d

  unfoldable pub sound_play : ℕ → D → D
  sound_play frequency d =
      let r = ports.inb 0x61 (pit_set_frequency 2 frequency d) in
      if (frequency == 0) || ltb 20000 frequency
      then d
      else ports.outb 0x61 (bit_or (bit_or r.0 0x01) 0x02) r.1

  unfoldable pub sound_stop : D → D
  sound_stop d = let r = ports.inb 0x61 d in ports.outb 0x61 (bit_and r.0 0xFC) r.1

  -- `while (delay--) io_wait()`.
  unfoldable pub wait : ℕ → D → D
  wait zero d = d
  wait (suc delay) d = wait delay (io_wait d)

  unfoldable pub sound_beep : (frequency duration : ℕ) → D → D
  sound_beep frequency duration d = sound_stop (wait (duration * 1000) (sound_play frequency d))

module _ {D : Type 0} (ports : Ports D) where
  unfoldable pub keyboard_get_scancode : D → ℕ × D
  keyboard_get_scancode d =
      let status = ports.inb 0x64 d in
      if bit_and status.0 0x01 == 0 then (0, status.1) else ports.inb 0x60 status.1
