-- ===== src/Process/Call.antt =====
-- The run of a program: the arguments, `process_exec` and `process_cleanup` of lib/c/kernel/process.c.
use ipo_os.Common.{
  ℕ, zero, suc, ◌+◌, ◌*◌, true, false, Option, none, some, List, [], ◌∷◌, ◌==◌, if◌then◌else◌,
  length, take, add32,
}
use ipo_os.Memory.{Mem, put8, load32, store32, blit}
use ipo_os.Fs.Dir.{Name}
use ipo_os.Process.Allocator.{Heap}
use ipo_os.Process.{Files, Kernel, unlink, update, setup_stack, new_process, process_stack_top}
use ipo_os.Process.Image.{Loaded, failed, loaded, load_ipob_file}

abbrev pub max_argv_count : ℕ
max_argv_count = 64

-- An error by the number whose negative the code returns, or the number of the process that has returned.
pub data Executed : Type 0 where
  refused : ℕ → Executed
  exited : ℕ → Executed

-- Characters and a NUL.
unfoldable pub put_string : List ℕ → ℕ → Mem → Mem
put_string [] at m = put8 m at 0
put_string (c ∷ cs) at m = put_string cs (at + 1) (put8 m at c)

module _ {H F : Type 0} (heap : Heap H) (files : Files F) where
  -- The arguments from number `i` on, up to the first NULL; the number of arguments, or `none` where
  -- one cannot be allocated.
  unfoldable pub copy_arguments : (array i : ℕ) → List (Option (List ℕ)) → H → Option ℕ × H
  copy_arguments array i [] h = (some i, h)
  copy_arguments array i (none ∷ args) h = (some i, h)
  copy_arguments array i (some arg ∷ args) h =
      let m = heap.kmalloc (length arg + 1) h in
      elim (m.0 == 0) [
        | true ↦ (none, m.1)
        | false ↦
            copy_arguments array (i + 1) args
              (heap.set_mem (store32 (put_string arg m.0 (heap.mem m.1)) (array + 4 * i) m.0) m.1)
      ]

  -- The address of the arguments' array. No arguments, and an `argv` that is NULL, are [].
  unfoldable pub setup_arguments :
      (p : ℕ) → List (Option (List ℕ)) → Kernel H F → Option ℕ × Kernel H F
  setup_arguments p [] k = (some 0, update p (λ proc. record proc { argc = 0 }) k)
  setup_arguments p (arg ∷ args) k =
      let argv = take max_argv_count (arg ∷ args) in
      let m = heap.kmalloc ((length argv + 1) * 4) k.heap in
      elim (m.0 == 0) [
        | true ↦ (none, record k { heap = m.1 })
        | false ↦
            let c = copy_arguments m.0 0 argv m.1 in
            elim c.0 [
              | none ↦ (none, record k { heap = c.1 })
              | some n ↦ (
                some m.0,
                update p (λ proc. record proc { argc = n; argv_kernel = m.0 })
                    (record k { heap = heap.set_mem (store32 (heap.mem c.1) (m.0 + 4 * n) 0) c.1 }),
              )
            ]
      ]

  unfoldable pub free_arguments : (left array i : ℕ) → H → H
  free_arguments zero array i h = h
  free_arguments (suc left) array i h =
      let arg = load32 (heap.mem h) (array + 4 * i) in
      free_arguments left array (i + 1) (if arg == 0 then h else heap.kfree arg h)

  -- `proc` is not NULL.
  unfoldable pub process_cleanup : ℕ → Kernel H F → Kernel H F
  process_cleanup p k =
      let proc = k.processes p in
      let h = if proc.binary_base == 0 then k.heap else heap.kfree proc.binary_base k.heap in
      let h' =
        if proc.argv_kernel == 0
        then h
        else heap.kfree proc.argv_kernel (free_arguments proc.argc proc.argv_kernel 0 h) in
      record k { heap = heap.kfree p h'; process_list = unlink p k.process_list }

  module _ (program : (entry_point argc argv : ℕ) → Kernel H F → ℕ × Kernel H F) where
    -- The call, and what follows it. The number is read from the structure that was freed.
    unfoldable pub call_program : (p argv : ℕ) → Kernel H F → Executed × Kernel H F
    call_program p argv k =
        let proc = k.processes p in
        let r = program proc.entry_point proc.argc argv (record k { current_process = p }) in
        let k' = record r.1 { last_exit_code = r.0; current_process = k.current_process } in
        (exited (k'.processes p).pid, process_cleanup p k')

    -- Behind `setup_arguments`.
    unfoldable pub begin_main : ℕ → Option ℕ × Kernel H F → Executed × Kernel H F
    begin_main p (none, k) = (refused 7, process_cleanup p k)
    begin_main p (some argv, k) = call_program p argv (setup_stack p k)

    -- From `setup_arguments` on.
    unfoldable pub with_arguments :
        (p : ℕ) → List (Option (List ℕ)) → Kernel H F → Executed × Kernel H F
    with_arguments p args k = begin_main p (setup_arguments p args k)

    -- From the allocation of the program's memory on. `relocate_binary` does nothing and returns 0.
    unfoldable pub place_image :
        (p size entry_offset image : ℕ)
        → List (Option (List ℕ))
        → Kernel H F
        → Executed × Kernel H F
    place_image p size entry_offset image args k =
        let m = heap.kmalloc size k.heap in
        elim (m.0 == 0) [
          | true ↦ (refused 5, process_cleanup p (record k { heap = heap.kfree image m.1 }))
          | false ↦
              let mem = heap.mem m.1 in
              with_arguments p args (
                update p
                  (λ proc. record proc {
                    binary_base = m.0;
                    binary_size = size;
                    entry_point = add32 m.0 entry_offset;
                    stack_ptr = process_stack_top;
                  })
                  (record k {
                    heap = heap.kfree image (heap.set_mem (blit mem m.0 mem image size) m.1);
                  }))
        ]

    -- Behind `load_ipob_file`.
    unfoldable pub then_place :
        (p : ℕ) → List (Option (List ℕ)) → Kernel H F → Loaded × (H × F) → Executed × Kernel H F
    then_place p args k (failed code, (h, f)) =
        (refused code, process_cleanup p (record k { heap = h; files = f }))
    then_place p args k (loaded size entry_offset image, (h, f)) =
        place_image p size entry_offset image args (record k { heap = h; files = f })

    -- From `load_ipob_file` on.
    unfoldable pub execute :
        (p : ℕ) → Name → List (Option (List ℕ)) → Kernel H F → Executed × Kernel H F
    execute p path args k = then_place p args k (load_ipob_file heap files path (k.heap, k.files))

    -- The path is not NULL. 308 is `sizeof(process_t)`.
    unfoldable pub process_exec : Name → List (Option (List ℕ)) → Kernel H F → Executed × Kernel H F
    process_exec path args k =
        let m = heap.kmalloc 308 k.heap in
        elim (m.0 == 0) [
          | true ↦ (refused 2, record k { heap = m.1 })
          | false ↦ execute m.0 path args (new_process m.0 (record k { heap = m.1 }))
        ]

    unfoldable pub process_exec_simple : Name → Kernel H F → Executed × Kernel H F
    process_exec_simple path k = process_exec path [] k
