-- ===== src/Terminal/Console/Line.antt =====
-- The line stays in its buffer.
use ipo_os.Common.{
  ℕ, zero, suc, ◌+◌, ◌-◌, ◌%◌, ◌≤◌, ◌<◌, min, ◌≡◌, refl, sym, ◌∙◌, Bool, true, false, not, ◌&&◌,
  ◌||◌, List, [], ◌∷◌, ◌++◌, ltb, leb, ◌==◌, if◌then◌else◌, Bool-cases, inl, inr, length, take,
  arith, length-append,
}
use ipo_os.Driver.{Ports}
use ipo_os.Driver.Keymap.{Keyboard, KeymapState}
use ipo_os.Driver.Vga.{vga_get_cursor_position, vga_width}
use ipo_os.Driver.Pit.{keyboard_get_scancode}
use Prim.Native.Nat.{bit_and}
use mathlib.Core.Path.{subst}
use ipo_os.Terminal.{
  Terminal, terminal_auto_scroll, forward, forward_all, back, scroll_down, scroll_up,
  return_to_present,
}
use ipo_os.Terminal.Putchar.{
  terminal_bottom, settle_cursor, putchar_color, putchar, print_text, print_prompt,
}
use ipo_os.Terminal.Console.{
  Answer, erase, put_key, put_spaces, tabulate, enter, type_key, press, terminal_console,
}

-- Characters from the space to the tilde.
abbrev pub ArePrintable : List ℕ → Type 0
ArePrintable [] = Unit {0}
ArePrintable (c ∷ cs) = (32 ≤ c) × (c < 127) × ArePrintable cs

-- A line that fits its buffer of 256 bytes with a NUL, and holds printable characters.
pub record IsLine (line : List ℕ) : Type 0 where
  pub fits : length line ≤ 255
  pub printable : ArePrintable line

ArePrintable-snoc :
    (cs : List ℕ) (c : ℕ) → 32 ≤ c → c < 127 → ArePrintable cs → ArePrintable (cs ++ c ∷ [])
ArePrintable-snoc [] c low high all = (low, high, tt)
ArePrintable-snoc (d ∷ cs) c low high (a, b, all) = (a, b, ArePrintable-snoc cs c low high all)

ArePrintable-take : (n : ℕ) (cs : List ℕ) → ArePrintable cs → ArePrintable (take n cs)
ArePrintable-take zero cs all = tt
ArePrintable-take (suc n) [] all = tt
ArePrintable-take (suc n) (c ∷ cs) (a, b, all) = (a, b, ArePrintable-take n cs all)

length-take_le : (n : ℕ) (cs : List ℕ) → length (take n cs) ≤ length cs
length-take_le zero cs = omega arith
length-take_le (suc n) [] = omega arith
length-take_le (suc n) (c ∷ cs) = let ih = length-take_le n cs in omega (arith, ih)

IsLine-snoc :
    (cs : List ℕ) (c : ℕ) → length cs < 255 → 32 ≤ c → c < 127 → IsLine cs → IsLine (cs ++ c ∷ [])
IsLine-snoc cs c room low high line = record {
  fits = omega (arith, length-append cs (c ∷ []));
  printable = ArePrintable-snoc cs c low high line.printable;
}

IsLine-take : (n : ℕ) (cs : List ℕ) → IsLine cs → IsLine (take n cs)
IsLine-take n cs line = record {
  fits = omega (arith, length-take_le n cs, line.fits);
  printable = ArePrintable-take n cs line.printable;
}

module _ {D : Type 0} where
  auto_scroll_line : (t : Terminal D) → (terminal_auto_scroll t).input_buf ≡ t.input_buf
  unfolding terminal_auto_scroll
  auto_scroll_line t = refl

  forward_all_line : (n : ℕ) (t : Terminal D) → (forward_all n t).input_buf ≡ t.input_buf
  unfolding forward_all forward
  forward_all_line zero t = refl
  forward_all_line (suc n) t = elim (Bool-cases (t.bottom_buffer_count == 0)) [
    | inl e ↦ rw (forward_all, e) refl
    | inr e ↦ rw (forward_all, e) (forward_all_line n (forward t))
  ]

module _ {D : Type 0} (ports : Ports D) where
  settle_line : (c : ℕ) (t : Terminal D) → (settle_cursor ports c t).input_buf ≡ t.input_buf
  unfolding settle_cursor
  settle_line c t = elim (Bool-cases (leb terminal_bottom c)) [
    | inl e ↦ rw (settle_cursor, e) (auto_scroll_line t)
    | inr e ↦ rw (settle_cursor, e) refl
  ]

  putchar_color_line :
      (c fg bg : ℕ) (t : Terminal D) → (putchar_color ports c fg bg t).input_buf ≡ t.input_buf
  unfolding putchar_color
  putchar_color_line c fg bg t = settle_line _ _

  putchar_line : (c : ℕ) (t : Terminal D) → (putchar ports c t).input_buf ≡ t.input_buf
  unfolding putchar
  putchar_line c t = putchar_color_line c 7 0 t

  print_text_line :
      (cs : List ℕ) (fg bg : ℕ) (t : Terminal D)
      → (print_text ports cs fg bg t).input_buf ≡ t.input_buf
  unfolding print_text
  print_text_line [] fg bg t = refl
  print_text_line (c ∷ cs) fg bg t =
      print_text_line cs fg bg (putchar_color ports c fg bg t) ∙ putchar_color_line c fg bg t

  prompt_line : (t : Terminal D) → (print_prompt ports t).input_buf ≡ t.input_buf
  unfolding print_prompt
  prompt_line t = print_text_line _ 10 0 t

  return_line : (t : Terminal D) → (return_to_present ports t).input_buf ≡ t.input_buf
  unfolding return_to_present
  return_line t = elim (Bool-cases (t.bottom_buffer_count == 0)) [
    | inl e ↦ rw (return_to_present, e) refl
    | inr e ↦ rw (return_to_present, e) (forward_all_line t.bottom_buffer_count t)
  ]

  scroll_down_line : (t : Terminal D) → (scroll_down ports t).input_buf ≡ t.input_buf
  unfolding scroll_down forward
  scroll_down_line t = ground arith

  scroll_up_line : (t : Terminal D) → (scroll_up ports t).input_buf ≡ t.input_buf
  unfolding scroll_up back
  scroll_up_line t = ground arith

  prompted-IsLine :
      (shown : Bool) (t : Terminal D)
      → IsLine t.input_buf
      → IsLine (if shown then t else print_prompt ports t).input_buf
  prompted-IsLine true t line = line
  prompted-IsLine false t line = subst IsLine (sym (prompt_line t)) line

  erase-IsLine : (t : Terminal D) → IsLine t.input_buf → IsLine (erase ports t).input_buf
  unfolding erase
  erase-IsLine t line = elim (Bool-cases (length t.input_buf == 0)) [
    | inl e ↦ rw (erase, e) line
    | inr e ↦ rw (erase, e) (IsLine-take (length t.input_buf - 1) t.input_buf line)
  ]

  put_spaces-IsLine :
      (n : ℕ) (t : Terminal D)
      → n + length t.input_buf ≤ 255
      → IsLine t.input_buf
      → IsLine (put_spaces ports n t).input_buf
  unfolding put_spaces put_key
  put_spaces-IsLine zero t room line = line
  put_spaces-IsLine (suc n) t room line =
      put_spaces-IsLine n (put_key ports b' ' t)
        (omega (arith, length-append t.input_buf (b' ' ∷ [])))
        (IsLine-snoc t.input_buf b' ' (omega arith) (omega arith) (omega arith) line)

  tabulate-IsLine : (t : Terminal D) → IsLine t.input_buf → IsLine (tabulate ports t).input_buf
  unfolding tabulate
  tabulate-IsLine t line =
      let at = vga_get_cursor_position ports t.io in
      put_spaces-IsLine (min (4 - at.0 % vga_width % 4) (255 - length t.input_buf))
        (record t { io = at.1 }) (omega (arith, line.fits)) line

  module _ (run : List ℕ → Terminal D → Answer × Terminal D) (exit_code : Terminal D → ℕ) where
    enter_line : (t : Terminal D) → (enter ports run exit_code t).input_buf ≡ []
    unfolding enter
    enter_line t = prompt_line _

    type_key-IsLine :
        (c : ℕ) (t : Terminal D)
        → IsLine t.input_buf
        → IsLine (type_key ports run exit_code c t).input_buf
    unfolding type_key put_key
    type_key-IsLine c t line =
        let empty : IsLine [] = record { fits = omega arith; printable = tt } in
        elim (Bool-cases ((c == b'\n') || (c == b'\r'))) [
          | inl e ↦ rw (type_key, e) (subst IsLine (sym (enter_line t)) empty)
          | inr e ↦ elim (Bool-cases ((c == 8) || (c == 127))) [
            | inl f ↦ rw (type_key, e, f) (erase-IsLine t line)
            | inr f ↦ elim (Bool-cases (c == 9)) [
              | inl g ↦ rw (type_key, e, f, g) (tabulate-IsLine t line)
              | inr g ↦ elim (Bool-cases (leb 32 c && ltb c 127 && ltb (length t.input_buf) 255)) [
                | inl h ↦
                    rw (type_key, e, f, g, h)
                      (IsLine-snoc t.input_buf c (ground arith) (ground arith) (ground arith) line)
                | inr h ↦ rw (type_key, e, f, g, h) line
              ]
            ]
          ]
        ]

    press-IsLine :
        (scancode c : ℕ) (t : Terminal D)
        → IsLine t.input_buf
        → IsLine (press ports run exit_code scancode c t).input_buf
    unfolding press
    press-IsLine scancode c t line = elim (Bool-cases ((scancode == 0x51) || (scancode == 0x50))) [
      | inl e ↦ rw (press, e) (subst IsLine (sym (scroll_down_line t)) line)
      | inr e ↦ elim (Bool-cases ((scancode == 0x49) || (scancode == 0x48))) [
        | inl f ↦ rw (press, e, f) (subst IsLine (sym (scroll_up_line t)) line)
        | inr f ↦ elim (Bool-cases (c == 0)) [
          | inl g ↦ rw (press, e, f, g) line
          | inr g ↦
              rw (press, e, f, g)
                (type_key-IsLine c (return_to_present ports t)
                  (subst IsLine (sym (return_line t)) line))
        ]
      ]
    ]

    -- Whatever the keyboard sends, whatever the keymaps hold and whatever a command does, a poll keeps
    -- the line that is typed at 255 characters or fewer, all of them printable, so that the NUL that
    -- ends it fits its buffer of 256 bytes.
    pub terminal_console-IsLine :
        (keyboards : ℕ → Keyboard) (count : ℕ) (s : KeymapState × Terminal D)
        → IsLine s.1.input_buf
        → IsLine (terminal_console ports run exit_code keyboards count s).1.input_buf
    unfolding terminal_console
    terminal_console-IsLine keyboards count (keys, t) line =
        let r = keyboard_get_scancode ports t.io in
        let t' = record t { io = r.1 } in
        let ready = if t'.prompt_shown then t' else print_prompt ports t' in
        let ready_line = prompted-IsLine t.prompt_shown t' line in
        elim (Bool-cases (r.0 == 0)) [
          | inl e ↦ rw (terminal_console, e) ready_line
          | inr e ↦ elim (Bool-cases (not (bit_and r.0 0x80 == 0))) [
            | inl f ↦ rw (terminal_console, e, f) ready_line
            | inr f ↦ rw (terminal_console, e, f) (press-IsLine r.0 _ ready ready_line)
          ]
        ]
