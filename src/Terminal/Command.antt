-- ===== src/Terminal/Command.antt =====
-- Commands: `resolve_command_path` and `try_execute_command` of lib/c/kernel/terminal.c, over the heap
-- and the files of Process. `path_resolve` is that of the file system. A command line is its characters
-- without the NUL, and an argument's text stands for the copy of it.
pub mod Arguments
use ipo_os.Common.{
  ℕ, zero, suc, ◌+◌, ◌-◌, Bool, true, false, not, ◌&&◌, ◌||◌, Option, none, some, List, [], ◌∷◌,
  ◌++◌, map, leb, ltb, ◌==◌, if◌then◌else◌, length, take,
}
use ipo_os.Common.Action.{Act}
use ipo_os.Fs.{is_dir}
use ipo_os.Fs.Dir.{Name}
use ipo_os.Fs.Path.{fs_canonicalize}
use ipo_os.Process.Allocator.{Heap}
use ipo_os.Process.{Files, Kernel}
use ipo_os.Process.Call.{Executed, refused, exited, process_exec}
use ipo_os.Terminal.Console.{Answer, not_found, succeeded, error}

-- A space or a tab.
unfoldable pub is_blank : ℕ → Bool
is_blank c = (c == b' ') || (c == b'\t')

unfoldable pub skip_blanks : List ℕ → List ℕ
skip_blanks [] = []
skip_blanks (c ∷ cs) = let rest = skip_blanks cs in if is_blank c then rest else c ∷ cs

-- The characters up to the first blank, `left` at most, and what follows them.
unfoldable pub read_word : (left : ℕ) → List ℕ → List ℕ × List ℕ
read_word zero cs = ([], cs)
read_word (suc left) [] = ([], [])
read_word (suc left) (c ∷ cs) =
    let rest = read_word left cs in if is_blank c then ([], c ∷ cs) else (c ∷ rest.0, rest.1)

unfoldable pub has_slash : List ℕ → Bool
has_slash [] = false
has_slash (c ∷ cs) = (c == b'/') || has_slash cs

abbrev pub starts_with : ℕ → List ℕ → Bool
starts_with x [] = false
starts_with x (c ∷ cs) = c == x

-- `to_check`, of 255 characters at most.
unfoldable pub to_check : List ℕ → List ℕ
to_check cmd =
    if starts_with b'/' cmd
    then take 255 cmd
    else if starts_with b'.' cmd || has_slash cmd
    then take 255 (b'/' ∷ cmd)
    else take 255 (b'/' ∷ b'a' ∷ b'p' ∷ b'p' ∷ b'/' ∷ cmd)

-- The copies of arguments, by address and text.
abbrev pub Copies : Type 0
Copies = List (ℕ × List ℕ)

-- The result of `process_exec` as an `int`.
unfoldable pub answer_of : Executed → Answer
answer_of (refused code) = error code
answer_of (exited pid) =
    if pid == 0
    then not_found
    else if leb 0x80000000 pid
    then error (0x100000000 - pid)
    else succeeded

module _ {H : Type 0} (heap : Heap H) where
  -- Ends the argument: its copy joins the others, where there is memory for it.
  unfoldable pub end_argument : List ℕ → Copies × H → Copies × H
  end_argument arg (copies, h) =
      let m = heap.kmalloc (length arg + 1) h in
      if m.0 == 0 then (copies, m.1) else (copies ++ (m.0, arg) ∷ [], m.1)

  -- `if (in_arg)`: whether `arg_buf` holds something.
  unfoldable pub end_if_any : List ℕ → Copies × H → Copies × H
  end_if_any [] s = s
  end_if_any (c ∷ cs) s = end_argument (c ∷ cs) s

  -- The loop over the arguments, with `arg_buf` and the copies so far; `argc` is one more than their
  -- number.
  unfoldable pub parse_arguments : List ℕ → (arg_buf : List ℕ) → Copies × H → Copies × H
  parse_arguments [] arg_buf s = end_if_any arg_buf s
  parse_arguments (c ∷ cs) arg_buf s =
      let longer = if ltb (length arg_buf) 511 then arg_buf ++ c ∷ [] else arg_buf in
      let inside = parse_arguments cs longer s in
      let between = parse_arguments cs [] (end_if_any arg_buf s) in
      if not (ltb (length s.0 + 1) 31)
      then end_if_any arg_buf s
      else if is_blank c
      then between
      else inside

  unfoldable pub free_copies : Copies → H → H
  free_copies [] h = h
  free_copies (copy ∷ copies) h = free_copies copies (heap.kfree copy.0 h)

module _ {H F : Type 0} (heap : Heap H) (files : Files F) (path_resolve : Name → Act F ℕ) where
  -- Whether the path is that of a file.
  unfoldable pub is_file : Name → F → Bool × F
  is_file path f =
      let r = path_resolve path f in
      elim r.0 [
        | none ↦ (false, r.1)
        | some inode ↦
            let s = files.stat path r.1 in
            (elim s.0 [ none ↦ false | some stat ↦ not (is_dir stat) ], s.1)
      ]

  -- The address of the path and the path, or NULL.
  unfoldable pub resolve_command_path : List ℕ → Kernel H F → Option (ℕ × Name) × Kernel H F
  resolve_command_path [] k = (none, k)
  resolve_command_path (c ∷ cs) k =
      let m = heap.kmalloc 256 k.heap in
      let canonical = fs_canonicalize (to_check (c ∷ cs)) 256 in
      let file = is_file canonical k.files in
      if m.0 == 0
      then (none, record k { heap = m.1 })
      else if file.0
      then (some (m.0, take 255 canonical), record k { heap = m.1; files = file.1 })
      else (none, record k { heap = heap.kfree m.0 m.1; files = file.1 })

  module _ (program : (entry_point argc argv : ℕ) → Kernel H F → ℕ × Kernel H F) where
    -- Behind `resolve_command_path`, with what follows the name.
    unfoldable pub run_command :
        (name rest : List ℕ) → Option (ℕ × Name) × Kernel H F → Answer × Kernel H F
    run_command name rest (none, k) = (not_found, k)
    run_command name rest (some (address, path), k) =
        let p = parse_arguments heap (skip_blanks rest) [] ([], k.heap) in
        let args = some name ∷ map (λ (copy : ℕ × List ℕ). some copy.1) p.0 in
        let r = process_exec heap files program path args (record k { heap = p.1 }) in
        (answer_of r.0, record r.1 { heap = heap.kfree address (free_copies heap p.0 r.1.heap) })

    -- The command line is not NULL.
    unfoldable pub try_execute_command : List ℕ → Kernel H F → Answer × Kernel H F
    try_execute_command cmdline k =
        let word = read_word 127 (skip_blanks cmdline) in
        run_command word.0 word.1 (resolve_command_path word.0 k)
