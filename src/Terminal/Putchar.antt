-- ===== src/Terminal/Putchar.antt =====
-- Characters on the screen, lib/c/stdio/putchar.c.
pub mod Area
use ipo_os.Common.{
  ℕ, zero, suc, ◌+◌, ◌-◌, ◌*◌, ◌/◌, ◌%◌, ◌^◌, ◌≤◌, ◌<◌, min, ◌≡◌, refl, sym, ap, ◌∙◌, fun_ext, ◌≢◌,
  ◌↔◌, ◌⊎◌, inl, inr, Bool, true, false, not, ◌&&◌, ◌||◌, Option, none, some, List, [], ◌∷◌, ◌++◌,
  map, reverse, arith, ltb, leb, ◌==◌, if◌then◌else◌, Bool-cases, tests, lt→ltb, le→ltb, ltb→lt,
  leb→le, ltb→le, leb→lt, ==_iff, and_left, and_right, all_below, all_below_sound, length,
  get_elem?, set, take, drop, replicate, is_some, length-append, length-set, get_elem?-set_self,
  get_elem?-set_ne, u32_mod, add32, sub32,
}
use ipo_os.Driver.{Ports}
use ipo_os.Driver.Vga.{
  Cells, vga_entry, put_cell, vga_set_cursor, vga_get_cursor_position, vga_width, vga_height,
  vga_start_cursor_position,
}
use ipo_os.Terminal.{Terminal, terminal_auto_scroll}

-- `terminal_bottom`, the cell behind the screen.
abbrev pub terminal_bottom : ℕ
terminal_bottom = vga_height * vga_width

-- The cursor that a character is put at.
unfoldable pub safe_cursor : ℕ → ℕ
safe_cursor cursor =
    if leb terminal_bottom cursor || ltb cursor vga_start_cursor_position
    then vga_start_cursor_position
    else cursor

-- The cursor behind a character, which may be behind the screen, and the cells.
unfoldable pub put_char : (c fg bg cursor : ℕ) → Cells → ℕ × Cells
put_char c fg bg cursor vga =
    let spaces = 8 - cursor % vga_width % 8 in
    if c == b'\n'
    then ((cursor / vga_width + 1) * vga_width, vga)
    else if c == b'\r'
    then (cursor / vga_width * vga_width, vga)
    else if c == b'\t'
    then (
      if leb terminal_bottom (cursor + spaces)
          then terminal_bottom - vga_width
          else cursor + spaces,
      vga,
    )
    else (cursor + 1, put_cell vga cursor (vga_entry (c % 256) fg bg))

module _ {D : Type 0} (ports : Ports D) where
  -- The end of `putchar_color`: the scroll where the cursor is behind the screen.
  unfoldable pub settle_cursor : ℕ → Terminal D → Terminal D
  settle_cursor cursor s =
      let full = leb terminal_bottom cursor in
      let t = if full then terminal_auto_scroll s else s in
      record t {
        io = vga_set_cursor ports (if full then terminal_bottom - vga_width else cursor) t.io;
      }

  unfoldable pub putchar_color : (c fg bg : ℕ) → Terminal D → Terminal D
  putchar_color c fg bg s =
      let at = vga_get_cursor_position ports s.io in
      let put = put_char c fg bg (safe_cursor at.0) s.vga in
      settle_cursor put.0 (record s { vga = put.1; io = at.1 })

  unfoldable pub putchar : ℕ → Terminal D → Terminal D
  putchar c s = putchar_color c 7 0 s

  unfoldable pub print_text : List ℕ → (fg bg : ℕ) → Terminal D → Terminal D
  print_text [] fg bg s = s
  print_text (c ∷ cs) fg bg s = print_text cs fg bg (putchar_color c fg bg s)

  -- `PROMPT_STR` in `PROMPT_FG`.
  unfoldable pub print_prompt : Terminal D → Terminal D
  print_prompt s = record (print_text (b'>' ∷ b' ' ∷ []) 10 0 s) { prompt_shown = true }
