-- ===== src/Autorun.antt =====
-- The commands of the file /autorun, lib/c/kernel/autorun.c, which the kernel runs when it starts. The
-- run of a command is a parameter, `run`. The buffer is read before
-- the first command, and commands do not write to it. What `printf` prints is left out, and so is the name of the
-- command that only it uses.
use ipo_os.Common.{
  ℕ, zero, suc, ◌+◌, ◌-◌, ◌*◌, not, ◌||◌, Option, none, some, List, [], ◌∷◌, ltb, ◌==◌,
  if◌then◌else◌,
}
use ipo_os.Memory.{Mem, get8, put8}
use ipo_os.Fs.{size_of, is_dir}
use ipo_os.Fs.Dir.{Name}
use ipo_os.Process.Allocator.{Heap}
use ipo_os.Process.{Files, Kernel}
use ipo_os.Process.Image.{from, replaced}
use ipo_os.Terminal.Command.{skip_blanks}

abbrev pub autorun_path : Name
autorun_path = b'/' ∷ b'a' ∷ b'u' ∷ b't' ∷ b'o' ∷ b'r' ∷ b'u' ∷ b'n' ∷ []

abbrev pub autorun_buf_size : ℕ
autorun_buf_size = 10 * 1024 * 1024

abbrev pub autorun_line_size : ℕ
autorun_line_size = 512

unfoldable pub skip_line : List ℕ → List ℕ
skip_line [] = []
skip_line (c ∷ cs) = let rest = skip_line cs in if c == b'\n' then cs else rest

-- The characters of a line, `left` at most, and what follows them, the newline taken off.
unfoldable pub read_line : (left : ℕ) → List ℕ → List ℕ × List ℕ
read_line left [] = ([], [])
read_line zero (c ∷ cs) = if c == b'\n' then ([], cs) else ([], c ∷ cs)
read_line (suc left) (c ∷ cs) =
    let rest = read_line left cs in if c == b'\n' then ([], cs) else (c ∷ rest.0, rest.1)

-- The commands of the text, by rounds of the loop over its lines, each of which takes a character at
-- least.
unfoldable pub commands : (left : ℕ) → List ℕ → List (List ℕ)
commands zero text = []
commands (suc left) text = elim (skip_blanks text) [
  | [] ↦ []
  | c ∷ cs ↦
      let behind = commands left (skip_line (c ∷ cs)) in
      let next = commands left cs in
      let line = read_line (autorun_line_size - 1) (c ∷ cs) in
      let rest = commands left line.1 in
      if c == b'#' then behind else if c == b'\n' then next else line.0 ∷ rest
]

-- The characters of a buffer up to its NUL, `left` at most.
unfoldable pub text_at : Mem → (at left : ℕ) → List ℕ
text_at m at zero = []
text_at m at (suc left) =
    let rest = text_at m (at + 1) left in if get8 m at == 0 then [] else get8 m at ∷ rest

module _ {H F : Type 0} (heap : Heap H) (files : Files F)
    (run : List ℕ → Kernel H F → Kernel H F) where
  unfoldable pub run_all : List (List ℕ) → Kernel H F → Kernel H F
  run_all [] k = k
  run_all (line ∷ lines) k = run_all lines (run line k)

  -- Behind the read of `size` bytes.
  unfoldable pub run_text : (size buffer : ℕ) → Option (ℕ × Mem) → Kernel H F → Kernel H F
  run_text size buffer none k = record k { heap = heap.kfree buffer k.heap }
  run_text size buffer (some (bytes_read, bytes)) k =
      let read = replaced (heap.mem k.heap) buffer bytes in
      let text = put8 read (buffer + size) 0 in
      let k' =
        run_all (commands size (text_at text buffer size))
          (record k { heap = heap.set_mem text k.heap }) in
      if ltb bytes_read size || not (ltb bytes_read 0x80000000)
      then record k { heap = heap.kfree buffer (heap.set_mem read k.heap) }
      else record k' { heap = heap.kfree buffer k'.heap }

  -- Behind the allocation.
  unfoldable pub read_autorun : (size buffer : ℕ) → Kernel H F → Kernel H F
  read_autorun size buffer k =
      let o = files.open_file autorun_path k.files in
      elim o.0 [
        | none ↦ record k { heap = heap.kfree buffer k.heap; files = o.1 }
        | some fd ↦
            let r = files.read fd (from (heap.mem k.heap) buffer) size 0 o.1 in
            run_text size buffer r.0 (record k { files = r.1 })
      ]

  unfoldable pub autorun_init : Kernel H F → Kernel H F
  autorun_init k =
      let s = files.stat autorun_path k.files in
      let k' = record k { files = s.1 } in
      elim s.0 [
        | none ↦ k'
        | some stat ↦
            let size = size_of stat in
            let m = heap.kmalloc (size + 1) k'.heap in
            let k'' = record k' { heap = m.1 } in
            if is_dir stat || ltb autorun_buf_size size
            then k'
            else if m.0 == 0
            then k''
            else read_autorun size m.0 k''
      ]
