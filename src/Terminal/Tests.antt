-- ===== src/Terminal/Tests.antt =====
-- Runs of the terminal.
use ipo_os.Process.Allocator.{Heap}
use ipo_os.Terminal.Command.{parse_arguments, end_if_any, end_argument, is_blank}
use ipo_os.Terminal.Command.Arguments.{AreWords, parse_arguments-AreWords}
use ipo_os.Driver.Keymap.{
  Keyboard, KeymapState, get_char, on_scancode, hot_key_handler, update_hot_key_state, update_keys,
  update_key,
}
use ipo_os.Driver.Pit.{keyboard_get_scancode}
use ipo_os.Terminal.Console.{Answer, not_found, terminal_console, press, type_key, put_key}
use ipo_os.Terminal.Console.Line.{IsLine, terminal_console-IsLine}
use ipo_os.Common.{
  ℕ, ◌+◌, ◌-◌, ◌*◌, ◌<◌, min, ◌≡◌, refl, true, false, List, [], ◌∷◌, length, ◌≤◌, arith, ◌==◌,
  if◌then◌else◌,
}
use ipo_os.Driver.{Ports}
use ipo_os.Driver.Vga.Cursor.{IsCrtc, cursor, cursor-vga_set_cursor}
use ipo_os.Driver.Vga.{vga_set_cursor}
use ipo_os.Terminal.{
  Terminal, terminal_auto_scroll, scroll_up, scroll_down, return_to_present, terminal_initialize,
  blank,
}
use ipo_os.Terminal.Timeline.{timeline, SameLines}
use ipo_os.Terminal.Timeline.Present.{scrolls, scroll-SameLines, return_to_present-scrolls}
use ipo_os.Terminal.Timeline.Output.{lost, terminal_auto_scroll_lem}
use ipo_os.Terminal.Reach.{here, next, output, up, IsBounded, Reach-IsBounded}
use ipo_os.Terminal.Putchar.{putchar_color}
use ipo_os.Terminal.Putchar.Area.{InArea, putchar_color-InArea}

-- A display controller: the register that is selected, and the registers.
abbrev Crtc : Type 0
Crtc = ℕ × (ℕ → ℕ)

abbrev crtc_out : (port v : ℕ) → Crtc → Crtc
crtc_out port v (i, r) =
    if port == 0x3D4
    then (v, r)
    else if port == 0x3D5
    then (i, λ k. if i == k then v else r k)
    else (i, r)

abbrev crtc_ports : Ports Crtc
crtc_ports = record {
  inb = λ port d. (d.1 d.0, d);
  inw = λ port d. (0, d);
  outb = crtc_out;
  outw = λ port v d. d;
}

abbrev crtc : IsCrtc crtc_ports
crtc = record {
  index = λ d. d.0;
  register = λ d. d.1;
  selects = λ v d. refl;
  selects-register = λ v i d. refl;
  writes-index = λ v d. refl;
  writes = λ v i d lt. refl;
  reads = λ d. refl;
  reads-index = λ d. refl;
  reads-register = λ i d. refl;
}

-- The cursor on cell 1999, all cells 7, no line in the history.
abbrev started : Terminal Crtc
started = record {
  io = (0, λ k. if k == 0x0E then 7 else 207);
  vga = λ a. 7;
  terminal_top_buffer = λ l col. 0;
  terminal_bottom_buffer = λ l col. 0;
  top_buffer_count = 0;
  bottom_buffer_count = 0;
  input_buf = [];
  prompt_shown = true;
}

-- One line above the screen.
abbrev scrolled : Terminal Crtc
scrolled = record started { terminal_top_buffer = λ l col. 5; top_buffer_count = 1 }

scroll-SameLines_example :
    (SameLines scrolled (scroll_up crtc_ports scrolled)
      × ((scroll_up crtc_ports scrolled).top_buffer_count ≡ 1 - 1)
      × ((scroll_up crtc_ports scrolled).bottom_buffer_count ≡ 0 + min 1 1))
    × (SameLines scrolled (scroll_down crtc_ports scrolled)
        × ((scroll_down crtc_ports scrolled).top_buffer_count ≡ 1 + min 1 0)
        × ((scroll_down crtc_ports scrolled).bottom_buffer_count ≡ 0 - 1))
scroll-SameLines_example = scroll-SameLines crtc_ports scrolled (omega arith)

return_to_present-scrolls_example :
    let t = return_to_present crtc_ports (scrolls crtc_ports (true ∷ true ∷ false ∷ []) scrolled) in
    (t.bottom_buffer_count ≡ 0)
    × (t.top_buffer_count ≡ 1)
    × ((r col : ℕ)
        → r < 23
        → col < 80
        → t.vga ((2 + r) * 80 + col) ≡ scrolled.vga ((2 + r) * 80 + col))
    × ((l col : ℕ)
        → l < 1
        → col < 80
        → t.terminal_top_buffer l col ≡ scrolled.terminal_top_buffer l col)
return_to_present-scrolls_example =
    return_to_present-scrolls crtc_ports (true ∷ true ∷ false ∷ []) scrolled refl (omega arith)

terminal_auto_scroll_lem_example :
    ((terminal_auto_scroll scrolled).top_buffer_count + lost scrolled ≡ 1 + 1)
    × ((terminal_auto_scroll scrolled).bottom_buffer_count ≡ 0)
    × ((i col : ℕ)
        → i + lost scrolled < 1 + 23
        → col < 80
        → timeline (terminal_auto_scroll scrolled) i col
          ≡ timeline scrolled (i + lost scrolled) col)
    × ((col : ℕ) → col < 80 → (terminal_auto_scroll scrolled).vga (24 * 80 + col) ≡ blank)
terminal_auto_scroll_lem_example = terminal_auto_scroll_lem scrolled (omega arith)

Reach-IsBounded_example :
    IsBounded crtc_ports
      (scroll_up crtc_ports (terminal_auto_scroll (terminal_initialize crtc_ports started)))
Reach-IsBounded_example = Reach-IsBounded crtc_ports started (next (next here (output _)) (up _))

putchar_color-InArea_example :
    InArea crtc_ports crtc started (putchar_color crtc_ports b'a' 15 0 started)
putchar_color-InArea_example = putchar_color-InArea crtc_ports crtc b'a' 15 0 started

cursor-vga_set_cursor_example :
    cursor crtc_ports crtc (vga_set_cursor crtc_ports 1234 started.io) ≡ 1234
cursor-vga_set_cursor_example = cursor-vga_set_cursor crtc_ports crtc 1234 started.io (omega arith)

-- A controller whose every byte is 30, the key of the letter a.
abbrev pressed : Ports Crtc
pressed = record crtc_ports {
  inb = λ port d. (if port == 0x60 then 30 else if port == 0x64 then 1 else 7, d);
}

abbrev letters : ℕ → Keyboard
letters index = record { keymap = λ k. b'a'; shift_keymap = λ k. b'A' }

abbrev untouched : KeymapState
untouched = record { key_state = λ k. false; shift_mode = false; current_index = 0 }

abbrev no_command : List ℕ → Terminal Crtc → Answer × Terminal Crtc
no_command line t = (not_found, t)

terminal_console-IsLine_example :
    IsLine (terminal_console pressed no_command (λ t. 0) letters 1 (untouched, started)).1.input_buf
terminal_console-IsLine_example =
    terminal_console-IsLine pressed no_command (λ t. 0) letters 1 (untouched, started)
      (record { fits = omega arith; printable = tt })

a_typed :
    (terminal_console pressed no_command (λ t. 0) letters 1 (untouched, started)).1.input_buf
    ≡ b'a' ∷ []
unfolding terminal_console keyboard_get_scancode press get_char on_scancode hot_key_handler
    update_hot_key_state update_keys update_key type_key return_to_present put_key
a_typed = refl

-- A heap that only grows.
abbrev growing : Heap ℕ
growing = record {
  kmalloc = λ n next. (next, next + n);
  kfree = λ p next. next;
  mem = λ next a. 0;
  set_mem = λ m next. next;
}

parse_arguments-AreWords_example :
    (length (parse_arguments growing (b'-' ∷ b'l' ∷ b' ' ∷ b'a' ∷ []) [] ([], 64)).0 ≤ 30)
    × AreWords (parse_arguments growing (b'-' ∷ b'l' ∷ b' ' ∷ b'a' ∷ []) [] ([], 64)).0
parse_arguments-AreWords_example =
    parse_arguments-AreWords growing (b'-' ∷ b'l' ∷ b' ' ∷ b'a' ∷ []) 64

two_arguments :
    (parse_arguments growing (b'-' ∷ b'l' ∷ b' ' ∷ b'a' ∷ []) [] ([], 64)).0
    ≡ (64, b'-' ∷ b'l' ∷ []) ∷ (67, b'a' ∷ []) ∷ []
unfolding parse_arguments end_if_any end_argument is_blank
two_arguments = refl
