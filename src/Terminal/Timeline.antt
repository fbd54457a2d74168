-- ===== src/Terminal/Timeline.antt =====
-- The history and the screen as one row of lines, over which the screen is a window: the lines above
-- it, the 23 rows of the screen, the lines below it.
pub mod Present
pub mod Output
use ipo_os.Common.{
  ℕ, zero, suc, ◌+◌, ◌-◌, ◌*◌, ◌/◌, ◌%◌, ◌^◌, ◌≤◌, ◌<◌, min, ◌≡◌, refl, sym, ap, ◌∙◌, fun_ext, ◌≢◌,
  ◌↔◌, ◌⊎◌, inl, inr, Bool, true, false, not, ◌&&◌, ◌||◌, Option, none, some, List, [], ◌∷◌, ◌++◌,
  map, reverse, arith, ltb, leb, ◌==◌, if◌then◌else◌, Bool-cases, tests, lt→ltb, le→ltb, ltb→lt,
  leb→le, ltb→le, leb→lt, ==_iff, and_left, and_right, all_below, all_below_sound, length,
  get_elem?, set, take, drop, replicate, is_some, length-append, length-set, get_elem?-set_self,
  get_elem?-set_ne, u32_mod, add32, sub32,
}
use ipo_os.Memory.{Mem, get8, put8, load32, store32, fill, blit, zeros, Agree}
use ipo_os.Memory.Laws.{
  load32-store32, load32-store32_ne, get8-store32_ne, load32-put8_ne, get8-put8, get8-put8_ne,
  get8-put8_self, get8-fill_ne, load32-fill_ne, get8-fill, get8-blit, get8-blit_in, get8-blit_ne,
  load32-lt, get8-lt, load32-Agree,
}
use ipo_os.Driver.{Ports}
use ipo_os.Driver.Vga.{Cells, vga_show_cursor, vga_hide_cursor}
use native.Mathlib.Decide.{ℕ_discrete, dec_lt}
use ipo_os.Terminal.{
  Terminal, Buffer, read_line_from_vga, write_line_to_vga, forward, forward_all, back, scroll_up,
  scroll_down, return_to_present, shift_up, shift_down, terminal_auto_scroll, blank, vga_entry,
}
use ipo_os.Terminal.Closed.{shift_up_in, shift_up_ne, shift_down_in, shift_down_ne, blank_cells_lem}

-- Line `i` at column `col`.
abbrev pub timeline : {D : Type 0} → Terminal D → ℕ → ℕ → ℕ
timeline s i col =
    if ltb i s.top_buffer_count
    then s.terminal_top_buffer i col
    else if ltb i (s.top_buffer_count + 23)
    then s.vga ((2 + (i - s.top_buffer_count)) * 80 + col)
    else s.terminal_bottom_buffer (s.top_buffer_count + 22 + s.bottom_buffer_count - i) col

-- The number of lines.
abbrev pub extent : {D : Type 0} → Terminal D → ℕ
extent s = s.top_buffer_count + 23 + s.bottom_buffer_count

-- The same lines, and the same number of them.
pub record SameLines {D : Type 0} (s t : Terminal D) : Type 0 where
  pub size : extent t ≡ extent s
  pub line : (i col : ℕ) → i < extent s → col < 80 → timeline t i col ≡ timeline s i col

pub read_line_in :
    (row line l col : ℕ) (vga : Cells) (buffer : Buffer)
    → l ≡ line
    → col < 80
    → read_line_from_vga row line vga buffer l col ≡ vga (row * 80 + col)
unfolding read_line_from_vga
read_line_in row line l col vga buffer e lt =
    let hit : ((l == line) && ltb col 80) ≡ true = ground arith in rw hit

pub read_line_ne :
    (row line l col : ℕ) (vga : Cells) (buffer : Buffer)
    → l ≢ line
    → read_line_from_vga row line vga buffer l col ≡ buffer l col
unfolding read_line_from_vga
read_line_ne row line l col vga buffer ne =
    let miss : ((l == line) && ltb col 80) ≡ false = ground arith in rw miss

write_line_in :
    (row col a : ℕ) (line : ℕ → ℕ) (vga : Cells)
    → a ≡ row * 80 + col
    → col < 80
    → write_line_to_vga row line vga a ≡ line col
unfolding write_line_to_vga
write_line_in row col a line vga e lt =
    let hit : (leb (row * 80) a && ltb a (row * 80 + 80)) ≡ true = ground arith in
    rw hit (ap line (omega arith))

write_line_ne :
    (row a : ℕ) (line : ℕ → ℕ) (vga : Cells)
    → (a < row * 80) ⊎ (row * 80 + 80 ≤ a)
    → write_line_to_vga row line vga a ≡ vga a
unfolding write_line_to_vga
write_line_ne row a line vga out =
    let miss : (leb (row * 80) a && ltb a (row * 80 + 80)) ≡ false = ground arith in rw miss

module _ {D : Type 0} where
  pub above :
      (s : Terminal D) (i col : ℕ)
      → i < s.top_buffer_count
      → timeline s i col ≡ s.terminal_top_buffer i col
  above s i col lt = let e : ltb i s.top_buffer_count ≡ true = ground arith in rw e

  -- Row `r` of the window.
  pub within :
      (s : Terminal D) (i r col : ℕ)
      → i ≡ s.top_buffer_count + r
      → r < 23
      → timeline s i col ≡ s.vga ((2 + r) * 80 + col)
  within s i r col e lt =
      let n : ltb i s.top_buffer_count ≡ false = ground arith in
      let y : ltb i (s.top_buffer_count + 23) ≡ true = ground arith in
      rw (n, y) (ap s.vga (omega arith))

  -- Line `j` of the lower buffer.
  below :
      (s : Terminal D) (i j col : ℕ)
      → i + j ≡ s.top_buffer_count + 22 + s.bottom_buffer_count
      → j < s.bottom_buffer_count
      → timeline s i col ≡ s.terminal_bottom_buffer j col
  below s i j col e lt =
      let n : ltb i s.top_buffer_count ≡ false = ground arith in
      let m : ltb i (s.top_buffer_count + 23) ≡ false = ground arith in
      rw (n, m) (ap (λ k. s.terminal_bottom_buffer k col) (omega arith))

  -- `back` where the lower buffer has room.
  abbrev backed : Terminal D → Terminal D
  backed s = record s {
    terminal_bottom_buffer =
        read_line_from_vga 24 s.bottom_buffer_count s.vga s.terminal_bottom_buffer;
    bottom_buffer_count = s.bottom_buffer_count + 1;
    vga =
        write_line_to_vga 2 (s.terminal_top_buffer (s.top_buffer_count - 1))
          (shift_down 22 2 s.vga);
    top_buffer_count = s.top_buffer_count - 1;
  }

  back-backed : (s : Terminal D) → s.bottom_buffer_count < 1024 → back s ≡ backed s
  unfolding back
  back-backed s room = let fits : ltb s.bottom_buffer_count 1024 ≡ true = ground arith in rw fits

  timeline-backed :
      (s : Terminal D) (i col : ℕ)
      → 0 < s.top_buffer_count
      → i < extent s
      → col < 80
      → timeline (backed s) i col ≡ timeline s i col
  timeline-backed s i col some_above inside lt = elim (dec_lt i (s.top_buffer_count - 1)) [
    | yes a ↦ above (backed s) i col a ∙ sym (above s i col (omega arith))
    | no na ↦ elim (ℕ_discrete i (s.top_buffer_count - 1)) [
      | yes e ↦
          within (backed s) i 0 col (omega arith) (omega arith)
          ∙ write_line_in 2 col ((2 + 0) * 80 + col) _ _ (omega arith) lt
          ∙ ap (λ k. s.terminal_top_buffer k col) (sym e)
          ∙ sym (above s i col (omega arith))
      | no ne ↦ elim (dec_lt i (s.top_buffer_count + 22)) [
        | yes b ↦
            let r = i - s.top_buffer_count in
            within (backed s) i (r + 1) col (omega arith) (omega arith)
            ∙ write_line_ne 2 ((2 + (r + 1)) * 80 + col) _ _ (inr (omega arith))
            ∙ ap (shift_down 22 2 s.vga) (omega arith)
            ∙ shift_down_in 22 2 r col s.vga (omega arith) lt
            ∙ sym (within s i r col (omega arith) (omega arith))
        | no nb ↦ elim (ℕ_discrete i (s.top_buffer_count + 22)) [
          | yes e ↦
              below (backed s) i s.bottom_buffer_count col (omega arith) (omega arith)
              ∙ read_line_in 24 s.bottom_buffer_count s.bottom_buffer_count col s.vga
                  s.terminal_bottom_buffer refl lt
              ∙ sym (within s i 22 col (omega arith) (omega arith))
          | no n ↦
              let j = s.top_buffer_count + 22 + s.bottom_buffer_count - i in
              below (backed s) i j col (omega arith) (omega arith)
              ∙ read_line_ne 24 s.bottom_buffer_count j col s.vga s.terminal_bottom_buffer
                  (λ e. omega arith)
              ∙ sym (below s i j col (omega arith) (omega arith))
        ]
      ]
    ]
  ]

  timeline-forward :
      (s : Terminal D) (i col : ℕ)
      → 0 < s.bottom_buffer_count
      → i < extent s
      → col < 80
      → timeline (forward s) i col ≡ timeline s i col
  unfolding forward
  timeline-forward s i col some_below inside lt = elim (dec_lt i s.top_buffer_count) [
    | yes a ↦
        above (forward s) i col (omega arith)
        ∙ read_line_ne 2 s.top_buffer_count i col s.vga s.terminal_top_buffer (λ e. omega arith)
        ∙ sym (above s i col a)
    | no na ↦ elim (ℕ_discrete i s.top_buffer_count) [
      | yes e ↦
          above (forward s) i col (omega arith)
          ∙ read_line_in 2 s.top_buffer_count i col s.vga s.terminal_top_buffer e lt
          ∙ sym (within s i 0 col (omega arith) (omega arith))
      | no ne ↦ elim (dec_lt i (s.top_buffer_count + 23)) [
        | yes b ↦
            let r = i - s.top_buffer_count - 1 in
            within (forward s) i r col (omega arith) (omega arith)
            ∙ write_line_ne 24 ((2 + r) * 80 + col) _ _ (inl (omega arith))
            ∙ shift_up_in 22 2 r col s.vga (omega arith) lt
            ∙ ap s.vga (omega arith)
            ∙ sym (within s i (r + 1) col (omega arith) (omega arith))
        | no nb ↦ elim (ℕ_discrete i (s.top_buffer_count + 23)) [
          | yes e ↦
              within (forward s) i 22 col (omega arith) (omega arith)
              ∙ write_line_in 24 col ((2 + 22) * 80 + col) _ _ (omega arith) lt
              ∙ sym (below s i (s.bottom_buffer_count - 1) col (omega arith) (omega arith))
          | no n ↦
              let j = s.top_buffer_count + 22 + s.bottom_buffer_count - i in
              below (forward s) i j col (omega arith) (omega arith)
              ∙ sym (below s i j col (omega arith) (omega arith))
        ]
      ]
    ]
  ]

  -- Behind a scroll that is possible the lines are the same and the window stands one line higher.
  pub back-SameLines :
      (s : Terminal D)
      → 0 < s.top_buffer_count
      → s.bottom_buffer_count < 1024
      → SameLines s (back s)
        × ((back s).top_buffer_count ≡ s.top_buffer_count - 1)
        × ((back s).bottom_buffer_count ≡ s.bottom_buffer_count + 1)
  back-SameLines s some_above room = rw (back-backed s room) (
    record {
      size = omega arith;
      line = λ i col inside lt. timeline-backed s i col some_above inside lt;
    },
    refl,
    refl,
  )

  pub forward-SameLines :
      (s : Terminal D)
      → 0 < s.bottom_buffer_count
      → SameLines s (forward s)
        × ((forward s).top_buffer_count ≡ s.top_buffer_count + 1)
        × ((forward s).bottom_buffer_count ≡ s.bottom_buffer_count - 1)
  unfolding forward
  forward-SameLines s some_below = (
    record {
      size = omega arith;
      line = λ i col inside lt. timeline-forward s i col some_below inside lt;
    },
    refl,
    refl,
  )
