-- ===== src/Terminal/Reach.antt =====
-- What the terminal can reach by its own steps.
use ipo_os.Common.{ℕ, ◌+◌, ◌≤◌, Bool, List, arith}
use ipo_os.Driver.{Ports}
use ipo_os.Driver.Vga.{Cells}
use ipo_os.Terminal.{
  Terminal, terminal_auto_scroll, scroll_up, scroll_down, return_to_present, terminal_initialize,
}
use ipo_os.Terminal.Timeline.Present.{
  scroll_up-SameLines, scroll_down-SameLines, return_to_present-SameLines,
}

module _ {D : Type 0} (ports : Ports D) where
  -- A call of one of the terminal's operations, or a change that leaves the history alone: of the
  -- cells, the devices, the line that is typed.
  pub data Step : Terminal D → Terminal D → Type 0 where
    output : (s : Terminal D) → Step s (terminal_auto_scroll s)
    up : (s : Terminal D) → Step s (scroll_up ports s)
    down : (s : Terminal D) → Step s (scroll_down ports s)
    present : (s : Terminal D) → Step s (return_to_present ports s)
    restart : (s : Terminal D) → Step s (terminal_initialize ports s)
    draw : (s : Terminal D) (vga : Cells) (io : D) → Step s (record s { vga = vga; io = io })
    enter :
        (s : Terminal D) (line : List ℕ) (shown : Bool)
        → Step s (record s { input_buf = line; prompt_shown = shown })

  pub data Reach (s : Terminal D) : Terminal D → Type 0 where
    here : Reach s s
    next : {t u : Terminal D} → Reach s t → Step t u → Reach s u

  -- The lines above and below the screen fit one buffer together.
  abbrev pub IsBounded : Terminal D → Type 0
  IsBounded s = s.top_buffer_count + s.bottom_buffer_count ≤ 1024

  output-IsBounded : (s : Terminal D) → IsBounded s → IsBounded (terminal_auto_scroll s)
  unfolding terminal_auto_scroll
  output-IsBounded s h = ground arith

  Step-IsBounded : {s t : Terminal D} → Step s t → IsBounded s → IsBounded t
  unfolding terminal_initialize
  Step-IsBounded (output s) h = output-IsBounded s h
  Step-IsBounded (up s) h = let (lines, a, b) = scroll_up-SameLines ports s h in omega (arith, a, b)
  Step-IsBounded (down s) h =
      let (lines, a, b) = scroll_down-SameLines ports s in omega (arith, a, b)
  Step-IsBounded (present s) h =
      let (lines, a, b) = return_to_present-SameLines ports s in omega (arith, a, b)
  Step-IsBounded (restart s) h = omega arith
  Step-IsBounded (draw s vga io) h = h
  Step-IsBounded (enter s line shown) h = h

  start-IsBounded : (s : Terminal D) → IsBounded (terminal_initialize ports s)
  unfolding terminal_initialize
  start-IsBounded s = omega arith

  -- From `terminal_initialize` on, whatever is printed, typed and scrolled, the numbers of lines that
  -- the two history buffers hold are at most 1024 together.
  pub Reach-IsBounded :
      (s : Terminal D) {t : Terminal D} → Reach (terminal_initialize ports s) t → IsBounded t
  Reach-IsBounded s here = start-IsBounded s
  Reach-IsBounded s (next r st) = Step-IsBounded st (Reach-IsBounded s r)
