-- ===== src/Driver/Vga.antt =====
-- The text screen, lib/c/system/vga.c and lib/h/vga.h: 25 rows of 80 cells, and the cursor in the
-- registers of the display controller, which are reached through a port for the register's number and
-- one for its value.
pub mod Cursor
use ipo_os.Common.{
  ℕ, zero, suc, ◌+◌, ◌-◌, ◌*◌, ◌/◌, ◌%◌, ◌^◌, ◌≤◌, ◌<◌, min, ◌≡◌, refl, sym, ap, ◌∙◌, fun_ext, ◌≢◌,
  ◌↔◌, ◌⊎◌, inl, inr, Bool, true, false, not, ◌&&◌, ◌||◌, Option, none, some, List, [], ◌∷◌, ◌++◌,
  map, reverse, arith, ltb, leb, ◌==◌, if◌then◌else◌, Bool-cases, tests, lt→ltb, le→ltb, ltb→lt,
  leb→le, ltb→le, leb→lt, ==_iff, and_left, and_right, all_below, all_below_sound, length,
  get_elem?, set, take, drop, replicate, is_some, length-append, length-set, get_elem?-set_self,
  get_elem?-set_ne, u32_mod, add32, sub32,
}
use ipo_os.Driver.{Ports}
use Prim.Native.Nat.{bit_and, bit_or}

abbrev pub vga_width : ℕ
vga_width = 80

abbrev pub vga_height : ℕ
vga_height = 25

abbrev pub vga_start_cursor_position : ℕ
vga_start_cursor_position = vga_width * 2

-- `VGA_MEMORY`, by the number of the cell.
abbrev pub Cells : Type 0
Cells = ℕ → ℕ

-- A character below 256 and two colours.
unfoldable pub vga_entry : (c fg bg : ℕ) → ℕ
vga_entry c fg bg = bit_or c (bit_or (bg * 16) fg * 256) % 65536

-- `vga[at] = value`.
unfoldable pub put_cell : Cells → ℕ → ℕ → Cells
put_cell vga at value a = if a == at then value else vga a

-- The same value in the `left` cells from `at` on.
unfoldable pub blank_cells : (left at value : ℕ) → Cells → Cells
blank_cells zero at value vga = vga
blank_cells (suc left) at value vga = blank_cells left (at + 1) value (put_cell vga at value)

module _ {D : Type 0} (ports : Ports D) where
  -- `offset` is a `uint16_t`.
  unfoldable pub vga_set_cursor : ℕ → D → D
  vga_set_cursor offset d =
      let high = ports.outb 0x3D5 (offset / 256 % 256) (ports.outb 0x3D4 0x0E d) in
      ports.outb 0x3D5 (offset % 256) (ports.outb 0x3D4 0x0F high)

  unfoldable pub vga_show_cursor : D → D
  vga_show_cursor d =
      let r = ports.inb 0x3D5 (ports.outb 0x3D4 0x0A d) in ports.outb 0x3D5 (bit_and r.0 0xDF) r.1

  unfoldable pub vga_hide_cursor : D → D
  vga_hide_cursor d =
      let r = ports.inb 0x3D5 (ports.outb 0x3D4 0x0A d) in ports.outb 0x3D5 (bit_or r.0 0x20) r.1

  -- The two bytes of the number do not overlap.
  unfoldable pub vga_get_cursor_position : D → ℕ × D
  vga_get_cursor_position d =
      let high = ports.inb 0x3D5 (ports.outb 0x3D4 0x0E d) in
      let low = ports.inb 0x3D5 (ports.outb 0x3D4 0x0F high.1) in (high.0 * 256 + low.0, low.1)

  unfoldable pub vga_clear : (fg bg : ℕ) → Bool → ℕ → Cells × D → Cells × D
  vga_clear fg bg show_cursor cursor_position (vga, d) = (
    blank_cells (vga_width * vga_height) 0 (vga_entry 0 fg bg) vga,
    if show_cursor
        then vga_show_cursor (vga_set_cursor (cursor_position % 65536) d)
        else vga_hide_cursor d,
  )

  unfoldable pub vga_increment_cursor_position : D → ℕ × D
  vga_increment_cursor_position d =
      let r = vga_get_cursor_position d in
      let next = (r.0 + 1) % 65536 in
      let cursor = if leb (vga_width * vga_height) next then vga_width * vga_height - 1 else next in
      (cursor, vga_set_cursor cursor r.1)

  unfoldable pub vga_decrement_cursor_position : D → ℕ × D
  vga_decrement_cursor_position d =
      let r = vga_get_cursor_position d in
      let cursor = r.0 - 1 in (cursor, vga_set_cursor cursor r.1)
