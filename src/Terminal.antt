-- ===== src/Terminal.antt =====
-- The terminal's screen and history, lib/c/kernel/terminal.c: the rows of the screen below the header,
-- the lines that scrolled off above them and those that a look back moved off below them.
pub mod Putchar
pub mod Closed
pub mod Timeline
pub mod Reach
pub mod Console
pub mod Command
mod Tests
use ipo_os.Common.{
  ℕ, zero, suc, ◌+◌, ◌-◌, ◌*◌, ◌/◌, ◌%◌, ◌^◌, ◌≤◌, ◌<◌, min, ◌≡◌, refl, sym, ap, ◌∙◌, fun_ext, ◌≢◌,
  ◌↔◌, ◌⊎◌, inl, inr, Bool, true, false, not, ◌&&◌, ◌||◌, Option, none, some, List, [], ◌∷◌, ◌++◌,
  map, reverse, arith, ltb, leb, ◌==◌, if◌then◌else◌, Bool-cases, tests, lt→ltb, le→ltb, ltb→lt,
  leb→le, ltb→le, leb→lt, ==_iff, and_left, and_right, all_below, all_below_sound, length,
  get_elem?, set, take, drop, replicate, is_some, length-append, length-set, get_elem?-set_self,
  get_elem?-set_ne, u32_mod, add32, sub32,
}
use ipo_os.Driver.{Ports}
use ipo_os.Driver.Vga.{
  Cells, vga_width, vga_height, vga_start_cursor_position, vga_entry, blank_cells, put_cell,
  vga_show_cursor, vga_hide_cursor, vga_clear,
}

abbrev pub scroll_history_size : ℕ
scroll_history_size = 1024

-- `terminal_top_row` and `terminal_rows`.
abbrev pub terminal_top_row : ℕ
terminal_top_row = vga_start_cursor_position / vga_width

abbrev pub terminal_rows : ℕ
terminal_rows = vga_height - terminal_top_row

-- A history buffer, by line and column.
abbrev pub Buffer : Type 0
Buffer = ℕ → ℕ → ℕ

-- The devices, the screen and the static variables.
pub record Terminal (D : Type 0) : Type 0 where
  pub io : D
  pub vga : Cells
  pub terminal_top_buffer : Buffer
  pub terminal_bottom_buffer : Buffer
  pub top_buffer_count : ℕ
  pub bottom_buffer_count : ℕ
  pub input_buf : List ℕ
  pub prompt_shown : Bool

-- Line `line` of the buffer becomes row `row` of the screen.
unfoldable pub read_line_from_vga : (row line : ℕ) → Cells → Buffer → Buffer
read_line_from_vga row line vga buffer l col =
    if (l == line) && ltb col vga_width then vga (row * vga_width + col) else buffer l col

unfoldable pub write_line_to_vga : ℕ → (ℕ → ℕ) → Cells → Cells
write_line_to_vga row line vga a =
    if leb (row * vga_width) a && ltb a (row * vga_width + vga_width)
    then line (a - row * vga_width)
    else vga a

-- Row `dst` becomes row `src`.
unfoldable pub copy_row : (dst src : ℕ) → Cells → Cells
copy_row dst src vga a =
    if leb (dst * vga_width) a && ltb a (dst * vga_width + vga_width)
    then vga (src * vga_width + (a - dst * vga_width))
    else vga a

-- `left` rows from `row` on become the rows below them, from the top on.
unfoldable pub shift_up : (left row : ℕ) → Cells → Cells
shift_up zero row vga = vga
shift_up (suc left) row vga = shift_up left (row + 1) (copy_row row (row + 1) vga)

-- The `left` rows below `row` become the rows above them, from the bottom on.
unfoldable pub shift_down : (left row : ℕ) → Cells → Cells
shift_down zero row vga = vga
shift_down (suc left) row vga = shift_down left row (copy_row (row + suc left) (row + left) vga)

abbrev pub top : ℕ
top = terminal_top_row

abbrev pub bottom : ℕ
bottom = terminal_top_row + terminal_rows - 1

abbrev pub blank : ℕ
blank = vga_entry 0 15 0

-- The rows of `clear_terminal_area`.
unfoldable pub clear_terminal_area : Cells → Cells
clear_terminal_area vga =
    blank_cells (terminal_rows * vga_width) (terminal_top_row * vga_width) blank vga

-- `i` lines of a full history move up by one.
unfoldable pub drop_line : Buffer → Buffer
drop_line buffer l col =
    if ltb l (scroll_history_size - 1) && ltb col vga_width
    then buffer (l + 1) col
    else buffer l col

-- The text of the header, from cell `at` on.
unfoldable pub put_text : List ℕ → ℕ → Cells → Cells
put_text [] at vga = vga
put_text (c ∷ cs) at vga = put_text cs (at + 1) (put_cell vga at (vga_entry c 10 0))

abbrev pub os_name : List ℕ
os_name = b'I' ∷ b'P' ∷ b'O' ∷ b'_' ∷ b'O' ∷ b'S' ∷ []

abbrev pub created_by : List ℕ
created_by =
    b'C' ∷ b'r' ∷ b'e' ∷ b'a' ∷ b't' ∷ b'e' ∷ b'd' ∷ b' ' ∷ b'b' ∷ b'y' ∷ b' ' ∷ b'I' ∷ b'P' ∷ b'O'
    ∷ b'l' ∷ b'e' ∷ b'k' ∷ b's' ∷ b'e' ∷ b'n' ∷ b'k' ∷ b'o' ∷ []

unfoldable pub print_header : Cells → Cells
print_header vga = put_text created_by (vga_width - length created_by) (put_text os_name 0 vga)

module _ {D : Type 0} where
  unfoldable pub terminal_auto_scroll : Terminal D → Terminal D
  terminal_auto_scroll s =
      let room = ltb s.top_buffer_count scroll_history_size in
      record s {
        terminal_top_buffer =
            if room
            then read_line_from_vga top s.top_buffer_count s.vga s.terminal_top_buffer
            else read_line_from_vga top (scroll_history_size - 1) s.vga
                (drop_line s.terminal_top_buffer);
        top_buffer_count = if room then s.top_buffer_count + 1 else s.top_buffer_count;
        bottom_buffer_count = 0;
        vga =
            blank_cells vga_width (bottom * vga_width) blank
              (shift_up (terminal_rows - 1) top s.vga);
      }

  -- A step towards the present: a round of `return_to_present`, and `scroll_down` less its test and
  -- the cursor.
  unfoldable pub forward : Terminal D → Terminal D
  forward s = record s {
    terminal_top_buffer = read_line_from_vga top s.top_buffer_count s.vga s.terminal_top_buffer;
    top_buffer_count = s.top_buffer_count + 1;
    vga =
        write_line_to_vga bottom (s.terminal_bottom_buffer (s.bottom_buffer_count - 1))
          (shift_up (terminal_rows - 1) top s.vga);
    bottom_buffer_count = s.bottom_buffer_count - 1;
  }

  -- `while (bottom_buffer_count > 0)`; each round takes one.
  unfoldable pub forward_all : ℕ → Terminal D → Terminal D
  forward_all zero s = s
  forward_all (suc left) s = elim (s.bottom_buffer_count == 0) [
    | true ↦ s
    | false ↦ forward_all left (forward s)
  ]

  -- `scroll_up` behind its test.
  unfoldable pub back : Terminal D → Terminal D
  back s =
      let room = ltb s.bottom_buffer_count scroll_history_size in
      record s {
        terminal_bottom_buffer =
            if room
            then read_line_from_vga bottom s.bottom_buffer_count s.vga s.terminal_bottom_buffer
            else s.terminal_bottom_buffer;
        bottom_buffer_count = if room then s.bottom_buffer_count + 1 else s.bottom_buffer_count;
        vga =
            write_line_to_vga top (s.terminal_top_buffer (s.top_buffer_count - 1))
              (shift_down (terminal_rows - 1) top s.vga);
        top_buffer_count = s.top_buffer_count - 1;
      }

module _ {D : Type 0} (ports : Ports D) where
  unfoldable pub return_to_present : Terminal D → Terminal D
  return_to_present s =
      if s.bottom_buffer_count == 0
      then s
      else (let t = forward_all s.bottom_buffer_count s in
          record t { io = vga_show_cursor ports t.io })

  unfoldable pub scroll_down : Terminal D → Terminal D
  scroll_down s =
      if s.bottom_buffer_count == 0
      then s
      else (let t = forward s in
          if t.bottom_buffer_count == 0 then record t { io = vga_show_cursor ports t.io } else t)

  unfoldable pub scroll_up : Terminal D → Terminal D
  scroll_up s =
      if s.top_buffer_count == 0 then s else back (record s { io = vga_hide_cursor ports s.io })

  unfoldable pub terminal_initialize : Terminal D → Terminal D
  terminal_initialize s =
      let cleared = vga_clear ports 15 0 true vga_start_cursor_position (s.vga, s.io) in
      record s {
        vga = print_header cleared.0;
        io = cleared.1;
        terminal_top_buffer =
            λ l col. if (l == 0) && (col == 0) then 0 else s.terminal_top_buffer l col;
        terminal_bottom_buffer =
            λ l col. if (l == 0) && (col == 0) then 0 else s.terminal_bottom_buffer l col;
        top_buffer_count = 0;
        bottom_buffer_count = 0;
        input_buf = [];
        prompt_shown = false;
      }
