-- ===== src/Terminal/Timeline/Output.antt =====
-- A new line at the bottom of the screen.
use ipo_os.Common.{
  ℕ, ◌+◌, ◌-◌, ◌*◌, ◌≤◌, ◌<◌, ◌≡◌, refl, sym, ap, ◌∙◌, inl, inr, true, false, ◌&&◌, arith, ltb, leb,
  if◌then◌else◌, Bool-cases,
}
use ipo_os.Driver.Vga.{Cells}
use native.Mathlib.Decide.{ℕ_discrete, dec_lt}
use ipo_os.Terminal.{
  Terminal, Buffer, read_line_from_vga, drop_line, terminal_auto_scroll, blank, blank_cells,
}
use ipo_os.Terminal.Closed.{shift_up_in, blank_cells_lem}
use ipo_os.Terminal.Timeline.{timeline, above, within, read_line_in, read_line_ne}

blank_in :
    (left at value a : ℕ) (vga : Cells)
    → at ≤ a
    → a < at + left
    → blank_cells left at value vga a ≡ value
blank_in left at value a vga low high =
    let e : (leb at a && ltb a (at + left)) ≡ true = ground arith in
    blank_cells_lem left at value vga a ∙ rw e

blank_ne : (left at value a : ℕ) (vga : Cells) → a < at → blank_cells left at value vga a ≡ vga a
blank_ne left at value a vga low =
    let e : (leb at a && ltb a (at + left)) ≡ false = ground arith in
    blank_cells_lem left at value vga a ∙ rw e

-- The lines that a full history loses.
abbrev pub lost : {D : Type 0} → Terminal D → ℕ
lost s = if ltb s.top_buffer_count 1024 then 0 else 1

module _ {D : Type 0} where
  -- A line of the upper buffer behind the call.
  abbrev saved : Terminal D → Buffer
  saved s =
      if ltb s.top_buffer_count 1024
      then read_line_from_vga 2 s.top_buffer_count s.vga s.terminal_top_buffer
      else read_line_from_vga 2 1023 s.vga (drop_line s.terminal_top_buffer)

  saved_kept :
      (s : Terminal D) (i col : ℕ)
      → s.top_buffer_count ≤ 1024
      → i + lost s < s.top_buffer_count
      → col < 80
      → saved s i col ≡ s.terminal_top_buffer (i + lost s) col
  unfolding drop_line
  saved_kept s i col few inside lt = elim (Bool-cases (ltb s.top_buffer_count 1024)) [
    | inl room ↦
        let inside' : i + 0 < s.top_buffer_count = rw room at inside in
        rw room (
          read_line_ne 2 s.top_buffer_count i col s.vga s.terminal_top_buffer (λ e. omega arith)
          ∙ ap (λ k. s.terminal_top_buffer k col) (omega arith))
    | inr full ↦
        let inside' : i + 1 < s.top_buffer_count = rw full at inside in
        let moves : (ltb i 1023 && ltb col 80) ≡ true = ground arith in
        rw full (
          read_line_ne 2 1023 i col s.vga (drop_line s.terminal_top_buffer) (λ e. omega arith)
          ∙ rw moves refl)
  ]

  saved_last :
      (s : Terminal D) (i col : ℕ)
      → s.top_buffer_count ≤ 1024
      → i + lost s ≡ s.top_buffer_count
      → col < 80
      → saved s i col ≡ s.vga (2 * 80 + col)
  saved_last s i col few e lt = elim (Bool-cases (ltb s.top_buffer_count 1024)) [
    | inl room ↦
        let e' : i + 0 ≡ s.top_buffer_count = rw room at e in
        rw room
          (read_line_in 2 s.top_buffer_count i col s.vga s.terminal_top_buffer (omega arith) lt)
    | inr full ↦
        let e' : i + 1 ≡ s.top_buffer_count = rw full at e in
        let at_end : i ≡ 1023 = ground arith in
        rw full (read_line_in 2 1023 i col s.vga (drop_line s.terminal_top_buffer) at_end lt)
  ]

  count_lem :
      (s : Terminal D) → (terminal_auto_scroll s).top_buffer_count + lost s ≡ s.top_buffer_count + 1
  unfolding terminal_auto_scroll
  count_lem s = ground arith

  -- With at most 1024 lines above the screen, `terminal_auto_scroll` moves every line above the screen
  -- and on it up by one row and ends with a blank row: none of these lines is lost while the history
  -- has room, and else the oldest one is. Behind it no line is held below the screen.
  pub terminal_auto_scroll_lem :
      (s : Terminal D)
      → s.top_buffer_count ≤ 1024
      → ((terminal_auto_scroll s).top_buffer_count + lost s ≡ s.top_buffer_count + 1)
        × ((terminal_auto_scroll s).bottom_buffer_count ≡ 0)
        × ((i col : ℕ)
            → i + lost s < s.top_buffer_count + 23
            → col < 80
            → timeline (terminal_auto_scroll s) i col ≡ timeline s (i + lost s) col)
        × ((col : ℕ) → col < 80 → (terminal_auto_scroll s).vga (24 * 80 + col) ≡ blank)
  unfolding terminal_auto_scroll
  terminal_auto_scroll_lem s few = (
    count_lem s,
    refl,
    (λ i col inside lt. kept i col inside lt),
    (λ col lt. blank_in 80 (24 * 80) blank (24 * 80 + col) _ (omega arith) (omega arith)),
  )
    where
      kept :
          (i col : ℕ)
          → i + lost s < s.top_buffer_count + 23
          → col < 80
          → timeline (terminal_auto_scroll s) i col ≡ timeline s (i + lost s) col
      kept i col inside lt = elim (dec_lt (i + lost s) s.top_buffer_count) [
        | yes a ↦
            above (terminal_auto_scroll s) i col (omega (arith, count_lem s))
            ∙ saved_kept s i col few a lt
            ∙ sym (above s (i + lost s) col a)
        | no na ↦ elim (ℕ_discrete (i + lost s) s.top_buffer_count) [
          | yes e ↦
              above (terminal_auto_scroll s) i col (omega (arith, count_lem s))
              ∙ saved_last s i col few e lt
              ∙ sym (within s (i + lost s) 0 col (omega arith) (omega arith))
          | no n ↦
              let r = i + lost s - s.top_buffer_count - 1 in
              within (terminal_auto_scroll s) i r col (omega (arith, count_lem s)) (omega arith)
              ∙ blank_ne 80 (24 * 80) blank ((2 + r) * 80 + col) _ (omega arith)
              ∙ shift_up_in 22 2 r col s.vga (omega arith) lt
              ∙ ap s.vga (omega arith)
              ∙ sym (within s (i + lost s) (r + 1) col (omega arith) (omega arith))
        ]
      ]
