-- ===== src/Terminal/Putchar/Area.antt =====
-- `putchar_color` stays within the rows below the header.
use ipo_os.Common.{
  ℕ, ◌+◌, ◌*◌, ◌≤◌, ◌<◌, ◌≡◌, refl, ◌∙◌, ◌⊎◌, inl, inr, false, ◌&&◌, arith, ltb, leb, if◌then◌else◌,
  Bool-cases, leb→lt,
}
use ipo_os.Driver.{Ports}
use ipo_os.Driver.Vga.{Cells, put_cell, vga_get_cursor_position}
use ipo_os.Driver.Vga.Cursor.{IsCrtc, cursor, cursor-vga_set_cursor}
use ipo_os.Terminal.{Terminal, terminal_auto_scroll, shift_up, blank}
use ipo_os.Terminal.Closed.{shift_up_ne, blank_cells_lem}
use ipo_os.Terminal.Putchar.{safe_cursor, put_char, settle_cursor, putchar_color}

safe_cursor_bounds : (c : ℕ) → (160 ≤ safe_cursor c) × (safe_cursor c < 2000)
unfolding safe_cursor
safe_cursor_bounds c = ground arith

-- The cells outside the area, the header among them.
abbrev pub Outside : ℕ → Type 0
Outside a = (a < 160) ⊎ (2000 ≤ a)

put_char_bounds :
    (c fg bg at : ℕ) (vga : Cells)
    → 160 ≤ at
    → at < 2000
    → (160 ≤ (put_char c fg bg at vga).0) × ((put_char c fg bg at vga).0 ≤ 2000)
unfolding put_char
put_char_bounds c fg bg at vga low high = ground arith

put_char_ne :
    (c fg bg at a : ℕ) (vga : Cells)
    → 160 ≤ at
    → at < 2000
    → Outside a
    → (put_char c fg bg at vga).1 a ≡ vga a
unfolding put_char put_cell
put_char_ne c fg bg at a vga low high out = ground arith

module _ {D : Type 0} where
  auto_scroll_ne : (s : Terminal D) (a : ℕ) → Outside a → (terminal_auto_scroll s).vga a ≡ s.vga a
  unfolding terminal_auto_scroll
  auto_scroll_ne s a out =
      blank_cells_lem 80 1920 blank (shift_up 22 2 s.vga) a
      ∙ outside out
      ∙ shift_up_ne 22 2 a s.vga (past out)
    where
      outside :
          Outside a
          → (if leb 1920 a && ltb a (1920 + 80) then blank else shift_up 22 2 s.vga a)
            ≡ shift_up 22 2 s.vga a
      outside o = let e : (leb 1920 a && ltb a (1920 + 80)) ≡ false = ground arith in rw e

      past : Outside a → (a < 2 * 80) ⊎ ((2 + 22) * 80 ≤ a)
      past (inl h) = inl (omega arith)
      past (inr h) = inr (omega arith)

module _ {D : Type 0} (ports : Ports D) (crtc : IsCrtc ports) where
  -- The cursor is in the area, and the cells outside it are those of `s`.
  pub record InArea (s t : Terminal D) : Type 0 where
    pub low : 160 ≤ cursor ports crtc t.io
    pub high : cursor ports crtc t.io < 2000
    pub kept : (a : ℕ) → Outside a → t.vga a ≡ s.vga a

  settle_cursor-InArea :
      (at : ℕ) (s : Terminal D) → 160 ≤ at → at ≤ 2000 → InArea s (settle_cursor ports at s)
  unfolding settle_cursor
  settle_cursor-InArea at s low high = elim (Bool-cases (leb 2000 at)) [
    | inl full ↦
        let e = cursor-vga_set_cursor ports crtc 1920 (terminal_auto_scroll s).io (omega arith) in
        rw full (record {
          low = omega (arith, e);
          high = omega (arith, e);
          kept = λ a out. auto_scroll_ne s a out;
        })
    | inr room ↦
        let e = cursor-vga_set_cursor ports crtc at s.io (omega arith) in
        let inside : at < 2000 = leb→lt _ _ room in
        rw room (record { low = omega (arith, e); high = omega (arith, e); kept = λ a out. refl })
  ]

  -- On a display controller in order, wherever the cursor was and whatever the character is,
  -- `putchar_color` leaves the cursor in the area below the header and writes no cell outside it.
  pub putchar_color-InArea :
      (c fg bg : ℕ) (s : Terminal D) → InArea s (putchar_color ports c fg bg s)
  unfolding putchar_color
  putchar_color-InArea c fg bg s =
      let at = vga_get_cursor_position ports s.io in
      let (low, high) = safe_cursor_bounds at.0 in
      let put = put_char c fg bg (safe_cursor at.0) s.vga in
      let (low', high') = put_char_bounds c fg bg (safe_cursor at.0) s.vga low high in
      let inside = settle_cursor-InArea put.0 (record s { vga = put.1; io = at.1 }) low' high' in
      record {
        low = inside.low;
        high = inside.high;
        kept = λ a out.
            inside.kept a out ∙ put_char_ne c fg bg (safe_cursor at.0) a s.vga low high out;
      }
