-- ===== src/Terminal/Timeline/Present.antt =====
-- Scrolling and the way back to the present.
use ipo_os.Common.{
  ℕ, zero, suc, ◌+◌, ◌-◌, ◌*◌, ◌≤◌, ◌<◌, min, ◌≡◌, refl, sym, ◌∙◌, inl, inr, Bool, true, false,
  List, [], ◌∷◌, arith, ◌==◌, if◌then◌else◌, Bool-cases,
}
use ipo_os.Driver.{Ports}
use ipo_os.Driver.Vga.{vga_show_cursor, vga_hide_cursor}
use ipo_os.Terminal.{Terminal, forward, forward_all, scroll_up, scroll_down, return_to_present}
use ipo_os.Terminal.Timeline.{above, SameLines, back-SameLines, forward-SameLines, within}

SameLines-refl : {D : Type 0} (s : Terminal D) → SameLines s s
SameLines-refl s = record { size = refl; line = λ i col a b. refl }

SameLines-trans : {D : Type 0} (s t u : Terminal D) → SameLines s t → SameLines t u → SameLines s u
SameLines-trans s t u h k = record {
  size = k.size ∙ h.size;
  line = λ i col a b. k.line i col (omega (arith, h.size)) b ∙ h.line i col a b;
}

module _ {D : Type 0} where
  -- `n` rounds that are all possible.
  forward_all-SameLines :
      (n : ℕ) (s : Terminal D)
      → n ≡ s.bottom_buffer_count
      → SameLines s (forward_all n s)
        × ((forward_all n s).top_buffer_count ≡ s.top_buffer_count + n)
        × ((forward_all n s).bottom_buffer_count ≡ 0)
  unfolding forward_all
  forward_all-SameLines zero s e = (SameLines-refl s, omega arith, sym e)
  forward_all-SameLines (suc n) s e =
      let more : (s.bottom_buffer_count == 0) ≡ false = ground arith in
      let (lines, up, down) = forward-SameLines s (omega arith) in
      let (later, top, none_left) = forward_all-SameLines n (forward s) (omega (arith, down)) in
      rw (more, forward_all)
        (
          SameLines-trans s (forward s) (forward_all n (forward s)) lines later,
          omega (arith, up, top),
          none_left,
        )

module _ {D : Type 0} (ports : Ports D) where
  pub scroll_up-SameLines :
      (s : Terminal D)
      → s.top_buffer_count + s.bottom_buffer_count ≤ 1024
      → SameLines s (scroll_up ports s)
        × ((scroll_up ports s).top_buffer_count ≡ s.top_buffer_count - 1)
        × ((scroll_up ports s).bottom_buffer_count
            ≡ s.bottom_buffer_count + min 1 s.top_buffer_count)
  unfolding scroll_up
  scroll_up-SameLines s few = elim (Bool-cases (s.top_buffer_count == 0)) [
    | inl oldest ↦ rw oldest (SameLines-refl s, ground arith, ground arith)
    | inr more ↦
        let hidden = record s { io = vga_hide_cursor ports s.io } in
        let (lines, up, down) = back-SameLines hidden (ground arith) (ground arith) in
        rw more (record { size = lines.size; line = lines.line }, up, ground (arith, down))
  ]

  pub scroll_down-SameLines :
      (s : Terminal D)
      → SameLines s (scroll_down ports s)
        × ((scroll_down ports s).top_buffer_count
            ≡ s.top_buffer_count + min 1 s.bottom_buffer_count)
        × ((scroll_down ports s).bottom_buffer_count ≡ s.bottom_buffer_count - 1)
  unfolding scroll_down
  scroll_down-SameLines s = elim (Bool-cases (s.bottom_buffer_count == 0)) [
    | inl newest ↦ rw newest (SameLines-refl s, ground arith, ground arith)
    | inr more ↦
        let (lines, up, down) = forward-SameLines s (ground arith) in
        rw more (shown (forward s) lines (ground (arith, up)) down)
  ]
    where
      shown :
          (t : Terminal D)
          → SameLines s t
          → t.top_buffer_count ≡ s.top_buffer_count + min 1 s.bottom_buffer_count
          → t.bottom_buffer_count ≡ s.bottom_buffer_count - 1
          → SameLines s (
              if t.bottom_buffer_count == 0
              then record t { io = vga_show_cursor ports t.io }
              else t)
            × ((if t.bottom_buffer_count == 0
                  then record t { io = vga_show_cursor ports t.io }
                  else t).top_buffer_count
                ≡ s.top_buffer_count + min 1 s.bottom_buffer_count)
            × ((if t.bottom_buffer_count == 0
                  then record t { io = vga_show_cursor ports t.io }
                  else t).bottom_buffer_count
                ≡ s.bottom_buffer_count - 1)
      shown t lines a b = elim (Bool-cases (t.bottom_buffer_count == 0)) [
        | inl present ↦ rw present (record { size = lines.size; line = lines.line }, a, b)
        | inr past ↦ rw past (lines, a, b)
      ]

  -- Looking back and forth: with at most 1024 lines above and below the screen, `scroll_up` moves the
  -- window of the screen up by one line, unless there is none above it, and `scroll_down` moves it
  -- down by one, unless there is none below it; the lines that the buffers and the screen hold
  -- together stay as they are, each at its place.
  pub scroll-SameLines :
      (s : Terminal D)
      → s.top_buffer_count + s.bottom_buffer_count ≤ 1024
      → (SameLines s (scroll_up ports s)
          × ((scroll_up ports s).top_buffer_count ≡ s.top_buffer_count - 1)
          × ((scroll_up ports s).bottom_buffer_count
              ≡ s.bottom_buffer_count + min 1 s.top_buffer_count))
        × (SameLines s (scroll_down ports s)
            × ((scroll_down ports s).top_buffer_count
                ≡ s.top_buffer_count + min 1 s.bottom_buffer_count)
            × ((scroll_down ports s).bottom_buffer_count ≡ s.bottom_buffer_count - 1))
  scroll-SameLines s few = (scroll_up-SameLines s few, scroll_down-SameLines s)

  pub return_to_present-SameLines :
      (s : Terminal D)
      → SameLines s (return_to_present ports s)
        × ((return_to_present ports s).top_buffer_count
            ≡ s.top_buffer_count + s.bottom_buffer_count)
        × ((return_to_present ports s).bottom_buffer_count ≡ 0)
  unfolding return_to_present
  return_to_present-SameLines s = elim (Bool-cases (s.bottom_buffer_count == 0)) [
    | inl present ↦ rw present (SameLines-refl s, ground arith, ground arith)
    | inr past ↦
        let (lines, up, down) = forward_all-SameLines s.bottom_buffer_count s refl in
        rw past (record { size = lines.size; line = lines.line }, up, down)
  ]

  -- What the keys of the arrows do.
  abbrev pub scrolls : List Bool → Terminal D → Terminal D
  scrolls [] s = s
  scrolls (true ∷ keys) s = scrolls keys (scroll_up ports s)
  scrolls (false ∷ keys) s = scrolls keys (scroll_down ports s)

  scrolls-SameLines :
      (keys : List Bool) (s : Terminal D)
      → s.top_buffer_count + s.bottom_buffer_count ≤ 1024
      → SameLines s (scrolls keys s)
        × ((scrolls keys s).top_buffer_count + (scrolls keys s).bottom_buffer_count
            ≡ s.top_buffer_count + s.bottom_buffer_count)
  scrolls-SameLines [] s few = (SameLines-refl s, refl)
  scrolls-SameLines (true ∷ keys) s few =
      let (lines, up, down) = scroll_up-SameLines s few in
      let (later, sum) = scrolls-SameLines keys (scroll_up ports s) (omega (arith, up, down)) in
      (SameLines-trans s (scroll_up ports s) _ lines later, omega (arith, up, down, sum))
  scrolls-SameLines (false ∷ keys) s few =
      let (lines, up, down) = scroll_down-SameLines s in
      let (later, sum) = scrolls-SameLines keys (scroll_down ports s) (omega (arith, up, down)) in
      (SameLines-trans s (scroll_down ports s) _ lines later, omega (arith, up, down, sum))

  -- When the present is on the screen with at most 1024 lines above it, then behind any scrolling up
  -- and down `return_to_present` shows the same 23 rows again, with all the lines above them.
  pub return_to_present-scrolls :
      (keys : List Bool) (s : Terminal D)
      → s.bottom_buffer_count ≡ 0
      → s.top_buffer_count ≤ 1024
      → let t = return_to_present ports (scrolls keys s) in
        (t.bottom_buffer_count ≡ 0)
        × (t.top_buffer_count ≡ s.top_buffer_count)
        × ((r col : ℕ)
            → r < 23
            → col < 80
            → t.vga ((2 + r) * 80 + col) ≡ s.vga ((2 + r) * 80 + col))
        × ((l col : ℕ)
            → l < s.top_buffer_count
            → col < 80
            → t.terminal_top_buffer l col ≡ s.terminal_top_buffer l col)
  return_to_present-scrolls keys s present few =
      let (lines, sum) = scrolls-SameLines keys s (omega arith) in
      let (later, up, down) = return_to_present-SameLines (scrolls keys s) in
      let t = return_to_present ports (scrolls keys s) in
      let all = SameLines-trans s (scrolls keys s) t lines later in
      (
        down,
        omega (arith, up, sum),
        (λ r col lt lt'.
            sym (within t (s.top_buffer_count + r) r col (omega (arith, up, sum)) lt)
            ∙ all.line (s.top_buffer_count + r) col (omega arith) lt'
            ∙ within s (s.top_buffer_count + r) r col refl lt),
        (λ l col lt lt'.
            sym (above t l col (omega (arith, up, sum)))
            ∙ all.line l col (omega arith) lt'
            ∙ above s l col lt),
      )
