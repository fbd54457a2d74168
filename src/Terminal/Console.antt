-- ===== src/Terminal/Console.antt =====
-- The line that is typed at the terminal: `terminal_console` of lib/c/kernel/terminal.c, a poll of the
-- keyboard and what follows from it. The run of a command is a parameter, `run`, and so is the exit
-- code that it leaves behind; the keyboards and their number are those of Driver.Keymap.
pub mod Line
use ipo_os.Common.{
  ℕ, zero, suc, ◌+◌, ◌-◌, ◌*◌, ◌/◌, ◌%◌, min, Bool, true, false, not, ◌&&◌, ◌||◌, Option, none,
  some, List, [], ◌∷◌, ◌++◌, ltb, leb, ◌==◌, if◌then◌else◌, length, take,
}
use ipo_os.Driver.{Ports}
use ipo_os.Driver.Vga.{vga_set_cursor, vga_get_cursor_position, vga_width}
use ipo_os.Driver.Pit.{keyboard_get_scancode}
use ipo_os.Driver.Keymap.{Keyboard, KeymapState, on_scancode, get_char}
use ipo_os.Stdio.Format.{Arg, num, str, printf}
use ipo_os.Terminal.{Terminal, scroll_down, scroll_up, return_to_present}
use ipo_os.Terminal.Putchar.{putchar, print_prompt}
use Prim.Native.Nat.{bit_and}

abbrev pub sc_page_up : ℕ
sc_page_up = 0x49

abbrev pub sc_page_down : ℕ
sc_page_down = 0x51

abbrev pub sc_arrow_up : ℕ
sc_arrow_up = 0x48

abbrev pub sc_arrow_down : ℕ
sc_arrow_down = 0x50

abbrev pub input_buf_size : ℕ
input_buf_size = 256

-- What `try_execute_command` returns: 0, a positive number, or the negative of the number of an error.
pub data Answer : Type 0 where
  not_found : Answer
  succeeded : Answer
  error : ℕ → Answer

abbrev pub not_found_text : List ℕ
not_found_text =
    b'C' ∷ b'o' ∷ b'm' ∷ b'm' ∷ b'a' ∷ b'n' ∷ b'd' ∷ b' ' ∷ b'n' ∷ b'o' ∷ b't' ∷ b' ' ∷ b'f' ∷ b'o'
    ∷ b'u' ∷ b'n' ∷ b'd' ∷ b':' ∷ b' ' ∷ b'%' ∷ b's' ∷ b'\n' ∷ []

abbrev pub failed_text : List ℕ
failed_text =
    b'E' ∷ b'x' ∷ b'e' ∷ b'c' ∷ b'u' ∷ b't' ∷ b'i' ∷ b'o' ∷ b'n' ∷ b' ' ∷ b'f' ∷ b'a' ∷ b'i' ∷ b'l'
    ∷ b'e' ∷ b'd' ∷ b' ' ∷ b'(' ∷ b'e' ∷ b'r' ∷ b'r' ∷ b'o' ∷ b'r' ∷ b' ' ∷ b'%' ∷ b'd' ∷ b')'
    ∷ b':' ∷ b' ' ∷ b'%' ∷ b's' ∷ b'\n' ∷ []

abbrev pub return_text : List ℕ
return_text =
    b'R' ∷ b'e' ∷ b't' ∷ b'u' ∷ b'r' ∷ b'n' ∷ b' ' ∷ b'v' ∷ b'a' ∷ b'l' ∷ b'u' ∷ b'e' ∷ b':' ∷ b' '
    ∷ b'%' ∷ b'd' ∷ b'\n' ∷ []

module _ {D : Type 0} (ports : Ports D) where
  -- `printf` on the terminal, with arguments that fit the format.
  unfoldable pub print_formatted : List ℕ → List Arg → Terminal D → Terminal D
  print_formatted fmt args t = elim (printf (putchar ports) fmt args t) [
    | none ↦ t
    | some (n, t') ↦ t'
  ]

  -- The cursor back, a space, and the cursor back again.
  unfoldable pub wipe : Terminal D → Terminal D
  wipe t =
      let at = vga_get_cursor_position ports t.io in
      let t' = record t { io = at.1 } in
      if at.0 == 0
      then t'
      else (let space =
            putchar ports b' ' (record t' { io = vga_set_cursor ports (at.0 - 1) t'.io }) in
          record space { io = vga_set_cursor ports (at.0 - 1) space.io })

  unfoldable pub erase : Terminal D → Terminal D
  erase t =
      if length t.input_buf == 0
      then t
      else record (wipe t) { input_buf = take (length t.input_buf - 1) t.input_buf }

  -- Puts a character on the screen and at the end of the line.
  unfoldable pub put_key : ℕ → Terminal D → Terminal D
  put_key c t = record (putchar ports c t) { input_buf = t.input_buf ++ c ∷ [] }

  unfoldable pub put_spaces : ℕ → Terminal D → Terminal D
  put_spaces zero t = t
  put_spaces (suc left) t = put_spaces left (put_key b' ' t)

  unfoldable pub tabulate : Terminal D → Terminal D
  tabulate t =
      let at = vga_get_cursor_position ports t.io in
      let spaces = 4 - at.0 % vga_width % 4 in
      let free_space = input_buf_size - 1 - length t.input_buf in
      put_spaces (min spaces free_space) (record t { io = at.1 })

  module _ (run : List ℕ → Terminal D → Answer × Terminal D) (exit_code : Terminal D → ℕ) where
    -- What is printed behind a command.
    unfoldable pub report : List ℕ → Answer × Terminal D → Terminal D
    report line (not_found, t) = print_formatted not_found_text (str (some line) ∷ []) t
    report line (error code, t) =
        print_formatted failed_text (num (0x100000000 - code) ∷ str (some line) ∷ []) t
    report line (succeeded, t) = print_formatted return_text (num (exit_code t) ∷ []) t

    -- The command, if there is one.
    unfoldable pub submit : List ℕ → Terminal D → Terminal D
    submit [] t = t
    submit (c ∷ cs) t = report (c ∷ cs) (run (c ∷ cs) t)

    unfoldable pub enter : Terminal D → Terminal D
    enter t =
        let after = submit t.input_buf (putchar ports b'\n' t) in
        print_prompt ports (record after { input_buf = []; prompt_shown = false })

    -- A character behind `return_to_present`.
    unfoldable pub type_key : ℕ → Terminal D → Terminal D
    type_key c t =
        if (c == b'\n') || (c == b'\r')
        then enter t
        else if (c == 8) || (c == 127)
        then erase t
        else if c == 9
        then tabulate t
        else if leb 32 c && ltb c 127 && ltb (length t.input_buf) (input_buf_size - 1)
        then put_key c t
        else t

    -- A scancode that is no break code, and its character.
    unfoldable pub press : (scancode c : ℕ) → Terminal D → Terminal D
    press scancode c t =
        if (scancode == sc_page_down) || (scancode == sc_arrow_down)
        then scroll_down ports t
        else if (scancode == sc_page_up) || (scancode == sc_arrow_up)
        then scroll_up ports t
        else if c == 0
        then t
        else type_key c (return_to_present ports t)

    unfoldable pub terminal_console :
        (keyboards : ℕ → Keyboard) (count : ℕ) → KeymapState × Terminal D → KeymapState × Terminal D
    terminal_console keyboards count (keys, t) =
        let r = keyboard_get_scancode ports t.io in
        let scancode = r.0 in
        let t' = record t { io = r.1 } in
        let ready = if t'.prompt_shown then t' else print_prompt ports t' in
        let once = on_scancode count scancode keys in
        let twice = on_scancode count scancode once in
        if scancode == 0
        then (once, ready)
        else if not (bit_and scancode 0x80 == 0)
        then (twice, ready)
        else (twice, press scancode (get_char (keyboards twice.current_index) scancode twice) ready)
