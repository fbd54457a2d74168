-- ===== src/Process/Exec.antt =====
-- `process_exec` gives everything back.
use ipo_os.Common.{
  ℕ, ◌≡◌, ◌≢◌, refl, sym, ap, ◌∙◌, true, false, Option, none, some, List, [], ◌∷◌, ◌⊎◌, inl, inr,
  ◌==◌, Bool-cases, arith, add32,
}
use ipo_os.Memory.{Mem, blit}
use mathlib.Core.Path.{subst}
use ipo_os.Fs.Dir.{Name}
use ipo_os.Process.Allocator.{Heap, IsCounted}
use ipo_os.Process.Owes.{
  Owes, nothing-Owes, kfree-Owes, null-Owes, kmalloc-Owes, set_mem-Owes, Owes-swap, Owes-trans,
  Owes-join,
}
use ipo_os.Process.Load.{LoadOwes, load_ipob_file-Owes}
use ipo_os.Process.{
  Files, Kernel, Process, update, unlink, new_process, setup_stack, process_stack_top,
}
use ipo_os.Process.Image.{Loaded, failed, loaded, load_ipob_file}
use ipo_os.Process.Call.{
  Executed, refused, exited, setup_arguments, process_cleanup, call_program, begin_main, then_place,
  with_arguments, place_image, execute, process_exec,
}

self_lem : (p : ℕ) → (p == p) ≡ true
self_lem p = ground arith

unlink_head : (p : ℕ) (list : List ℕ) → unlink p (p ∷ list) ≡ list
unfolding unlink
unlink_head p list = let e = self_lem p in rw (unlink, e) refl

module _ {H F : Type 0} (heap : Heap H) (calls : IsCounted heap) where
  -- A program that gives back to the heap what it takes, and leaves its own process structure and the
  -- list of processes as they are.
  pub record IsProgram (program : (entry_point argc argv : ℕ) → Kernel H F → ℕ × Kernel H F)
      : Type 0 where
    pub balanced :
        (e argc argv : ℕ) (k : Kernel H F)
        → Owes heap calls [] k.heap (program e argc argv k).1.heap
    pub keeps :
        (e argc argv : ℕ) (k : Kernel H F)
        → (program e argc argv k).1.processes k.current_process ≡ k.processes k.current_process
    pub keeps_list :
        (e argc argv : ℕ) (k : Kernel H F) → (program e argc argv k).1.process_list ≡ k.process_list

  -- A process without arguments at address `p` that has been put in the list since `k₀`, with the
  -- allocations that are owed.
  pub record Running (p : ℕ) (xs : List ℕ) (k₀ k : Kernel H F) : Type 0 where
    pub no_argv : (k.processes p).argv_kernel ≡ 0
    pub owes : Owes heap calls xs k₀.heap k.heap
    pub listed : k.process_list ≡ p ∷ k₀.process_list
    pub current : k.current_process ≡ k₀.current_process

  -- Since `k₀` the heap got everything back, and the list of processes and the current process are
  -- what they were.
  pub record Settled (k₀ k : Kernel H F) : Type 0 where
    pub released : Owes heap calls [] k₀.heap k.heap
    pub list : k.process_list ≡ k₀.process_list
    pub current : k.current_process ≡ k₀.current_process

  unlinked :
      {p : ℕ} {xs : List ℕ} {k₀ k : Kernel H F}
      → Running p xs k₀ k
      → unlink p k.process_list ≡ k₀.process_list
  unlinked {p} {xs} {k₀} {k} run = ap (unlink p) run.listed ∙ unlink_head p k₀.process_list

module _ {H F : Type 0} (heap : Heap H) (files : Files F) (calls : IsCounted heap) where
  blank-Settled :
      (p : ℕ) (k₀ k : Kernel H F)
      → Running heap calls p (p ∷ []) k₀ k
      → (k.processes p).binary_base ≡ 0
      → Settled heap calls k₀ (process_cleanup heap files p k)
  unfolding process_cleanup
  blank-Settled p k₀ k run base =
      let argv : ((k.processes p).argv_kernel == 0) ≡ true = ground (arith, run.no_argv) in
      let no_base : ((k.processes p).binary_base == 0) ≡ true = ground (arith, base) in
      record {
        released = rw (argv, no_base) (kfree-Owes heap calls p [] run.owes);
        list = unlinked heap calls run;
        current = run.current;
      }

  placed-Settled :
      (p : ℕ) (k₀ k : Kernel H F)
      → Running heap calls p ((k.processes p).binary_base ∷ p ∷ []) k₀ k
      → ((k.processes p).binary_base == 0) ≡ false
      → Settled heap calls k₀ (process_cleanup heap files p k)
  unfolding process_cleanup
  placed-Settled p k₀ k run base =
      let argv : ((k.processes p).argv_kernel == 0) ≡ true = ground (arith, run.no_argv) in
      record {
        released =
            rw (argv, base)
              (kfree-Owes heap calls p []
                (kfree-Owes heap calls (k.processes p).binary_base (p ∷ []) run.owes));
        list = unlinked heap calls run;
        current = run.current;
      }

update_self :
    {H F : Type 0} (p : ℕ) (change : Process → Process) (k : Kernel H F)
    → (update p change k).processes p ≡ change (k.processes p)
update_self p change k = let e = self_lem p in rw e refl

stack_self :
    {H F : Type 0} (p : ℕ) (k : Kernel H F)
    → (((setup_stack p k).processes p).binary_base ≡ (k.processes p).binary_base)
      × (((setup_stack p k).processes p).argv_kernel ≡ (k.processes p).argv_kernel)
unfolding setup_stack
stack_self p k = let e = self_lem p in rw e (refl, refl)

-- The ways to end that give everything back whatever the arguments are: all of them where there are
-- none, and else the errors but that of `setup_arguments`.
abbrev pub IsClean : List (Option (List ℕ)) → Executed → Type 0
IsClean args (refused code) = (code ≢ 7) ⊎ (args ≡ [])
IsClean args (exited pid) = args ≡ []

new_process_blank :
    {H F : Type 0} (p : ℕ) (k : Kernel H F)
    → (((new_process p k).processes p).binary_base ≡ 0)
      × (((new_process p k).processes p).argv_kernel ≡ 0)
unfolding new_process
new_process_blank p k = let e = self_lem p in rw e (refl, refl)

module _ {H F : Type 0} (heap : Heap H) (calls : IsCounted heap) where
  new_process-Running :
      (p : ℕ) (k₀ k : Kernel H F)
      → Owes heap calls (p ∷ []) k₀.heap k.heap
      → k.process_list ≡ k₀.process_list
      → k.current_process ≡ k₀.current_process
      → Running heap calls p (p ∷ []) k₀ (new_process p k)
  unfolding new_process
  new_process-Running p k₀ k owes list current = record {
    no_argv = (new_process_blank p k).1;
    owes = owes;
    listed = ap (λ l. p ∷ l) list;
    current = current;
  }

  -- The image in its place: the program's memory is allocated and the image released.
  placed-Running :
      (p n image entry_offset : ℕ) (mem : Mem) (k₀ k : Kernel H F)
      → ((heap.kmalloc n k.heap).0 == 0) ≡ false
      → Running heap calls p (image ∷ p ∷ []) k₀ k
      → let m = heap.kmalloc n k.heap in
        let change : Process → Process = λ proc. record proc {
          binary_base = m.0;
          binary_size = n;
          entry_point = add32 m.0 entry_offset;
          stack_ptr = process_stack_top;
        } in
        let k' = update p change (record k { heap = heap.kfree image (heap.set_mem mem m.1) }) in
        Running heap calls p ((k'.processes p).binary_base ∷ p ∷ []) k₀ k'
        × (((k'.processes p).binary_base == 0) ≡ false)
  placed-Running p n image entry_offset mem k₀ k e run =
      let self = self_lem p in
      let m = heap.kmalloc n k.heap in
      let owes = kfree-Owes heap calls image (m.0 ∷ p ∷ []) (
        Owes-swap heap calls m.0 image (p ∷ []) (
          set_mem-Owes heap calls mem (m.0 ∷ image ∷ p ∷ [])
            (kmalloc-Owes heap calls n (image ∷ p ∷ []) e run.owes))) in
      rw self (
        record {
          no_argv = rw self run.no_argv;
          owes = owes;
          listed = run.listed;
          current = run.current;
        },
        e,
      )

module _ {H F : Type 0} (heap : Heap H) (files : Files F) (calls : IsCounted heap)
    (program : (entry_point argc argv : ℕ) → Kernel H F → ℕ × Kernel H F)
    (well : IsProgram heap calls program) where
  call_program-Settled :
      (p argv : ℕ) (k₀ k : Kernel H F)
      → Running heap calls p ((k.processes p).binary_base ∷ p ∷ []) k₀ k
      → ((k.processes p).binary_base == 0) ≡ false
      → Settled heap calls k₀ (call_program heap files program p argv k).1
  unfolding call_program
  call_program-Settled p argv k₀ k run base =
      let proc = k.processes p in
      let k' = record k { current_process = p } in
      let r = program proc.entry_point proc.argc argv k' in
      let after = record r.1 { last_exit_code = r.0; current_process = k.current_process } in
      let same : r.1.processes p ≡ k.processes p = well.keeps proc.entry_point proc.argc argv k' in
      let based : (k.processes p).binary_base ≡ (r.1.processes p).binary_base =
        ap (λ (q : Process). q.binary_base) (sym same) in
      let ran : Running heap calls p ((k.processes p).binary_base ∷ p ∷ []) k₀ after = record {
        no_argv = ap (λ (q : Process). q.argv_kernel) same ∙ run.no_argv;
        owes =
            Owes-trans heap calls ((k.processes p).binary_base ∷ p ∷ []) run.owes
              (well.balanced proc.entry_point proc.argc argv k');
        listed = well.keeps_list proc.entry_point proc.argc argv k' ∙ run.listed;
        current = run.current;
      } in
      placed-Settled heap files calls p k₀ after
        (subst (λ b. Running heap calls p (b ∷ p ∷ []) k₀ after) based ran)
        (ap (λ b. b == 0) (sym based) ∙ base)

  with_arguments-Settled :
      (p : ℕ) (args : List (Option (List ℕ))) (k₀ k : Kernel H F)
      → Running heap calls p ((k.processes p).binary_base ∷ p ∷ []) k₀ k
      → ((k.processes p).binary_base == 0) ≡ false
      → IsClean args (with_arguments heap files program p args k).0
      → Settled heap calls k₀ (with_arguments heap files program p args k).1
  unfolding with_arguments begin_main setup_arguments setup_stack call_program
  with_arguments-Settled p [] k₀ k run base clean =
      let k' = update p (λ proc. record proc { argc = 0 }) k in
      let first = update_self p (λ proc. record proc { argc = 0 }) k in
      let (same_base, same_argv) = stack_self p k' in
      let based : (k.processes p).binary_base ≡ ((setup_stack p k').processes p).binary_base =
        sym (same_base ∙ ap (λ (q : Process). q.binary_base) first) in
      let ready : Running heap calls p ((k.processes p).binary_base ∷ p ∷ []) k₀
          (setup_stack p k') =
        record {
          no_argv = same_argv ∙ ap (λ (q : Process). q.argv_kernel) first ∙ run.no_argv;
          owes = run.owes;
          listed = run.listed;
          current = run.current;
        } in
      call_program-Settled p 0 k₀ (setup_stack p k')
        (subst (λ b. Running heap calls p (b ∷ p ∷ []) k₀ (setup_stack p k')) based ready)
        (ap (λ b. b == 0) (sym based) ∙ base)
  with_arguments-Settled p (arg ∷ args) k₀ k run base clean =
      unclean (setup_arguments heap files p (arg ∷ args) k) clean
    where
      unclean :
          (s : Option ℕ × Kernel H F)
          → IsClean (arg ∷ args) (begin_main heap files program p s).0
          → Settled heap calls k₀ (begin_main heap files program p s).1
      unclean (none, k) (inl ne) = elim (ne refl) [ ]
      unclean (none, k) (inr e) = cc e
      unclean (some argv, k) e = cc e

  place_image-Settled :
      (p size entry_offset image : ℕ) (args : List (Option (List ℕ))) (k₀ k : Kernel H F)
      → Running heap calls p (image ∷ p ∷ []) k₀ k
      → (k.processes p).binary_base ≡ 0
      → IsClean args (place_image heap files program p size entry_offset image args k).0
      → Settled heap calls k₀ (place_image heap files program p size entry_offset image args k).1
  unfolding place_image
  place_image-Settled p size entry_offset image args k₀ k run base =
      let m = heap.kmalloc size k.heap in
      elim (Bool-cases (m.0 == 0)) [
        | inl e ↦
            rw (place_image, e)
              (λ clean.
                blank-Settled heap files calls p k₀ (record k { heap = heap.kfree image m.1 })
                  (record {
                    no_argv = run.no_argv;
                    owes =
                        kfree-Owes heap calls image (p ∷ [])
                          (null-Owes heap calls size (image ∷ p ∷ []) e run.owes);
                    listed = run.listed;
                    current = run.current;
                  })
                  base)
        | inr e ↦
            let (ran, based) =
              placed-Running heap calls p size image entry_offset
                (blit (heap.mem m.1) m.0 (heap.mem m.1) image size) k₀ k e run in
            rw (place_image, e) (with_arguments-Settled p args k₀ _ ran based)
      ]

  then_place-Settled :
      (p : ℕ) (args : List (Option (List ℕ))) (k₀ k : Kernel H F) (l : Loaded × (H × F))
      → Running heap calls p (p ∷ []) k₀ k
      → (k.processes p).binary_base ≡ 0
      → LoadOwes heap files calls k.heap l
      → IsClean args (then_place heap files program p args k l).0
      → Settled heap calls k₀ (then_place heap files program p args k l).1
  unfolding then_place
  then_place-Settled p args k₀ k (failed code, (h, f)) run base owes clean =
      blank-Settled heap files calls p k₀ (record k { heap = h; files = f })
        (record {
          no_argv = run.no_argv;
          owes = Owes-trans heap calls (p ∷ []) run.owes owes;
          listed = run.listed;
          current = run.current;
        })
        base
  then_place-Settled p args k₀ k (loaded size entry_offset image, (h, f)) run base owes clean =
      place_image-Settled p size entry_offset image args k₀ (record k { heap = h; files = f })
        (record {
          no_argv = run.no_argv;
          owes = Owes-join heap calls image (p ∷ []) run.owes owes;
          listed = run.listed;
          current = run.current;
        })
        base clean

  -- With a heap whose calls are counted and a program that gives back what it takes, `process_exec`
  -- releases each of its own allocations as often as it was made, takes the process out of the list
  -- again and restores the current process: on every error but that of `setup_arguments`, and without
  -- arguments always, also when the program has run.
  pub process_exec-Settled :
      (path : Name) (args : List (Option (List ℕ))) (k : Kernel H F)
      → IsClean args (process_exec heap files program path args k).0
      → Settled heap calls k (process_exec heap files program path args k).1
  unfolding process_exec execute
  process_exec-Settled path args k =
      let m = heap.kmalloc 308 k.heap in
      let k' = new_process m.0 (record k { heap = m.1 }) in
      elim (Bool-cases (m.0 == 0)) [
        | inl e ↦
            rw (process_exec, e)
              (λ clean. record {
                released = null-Owes heap calls 308 [] e (nothing-Owes heap calls k.heap);
                list = refl;
                current = refl;
              })
        | inr e ↦
            rw (process_exec, e)
              (then_place-Settled m.0 args k k' (load_ipob_file heap files path (k'.heap, k'.files))
                (new_process-Running heap calls m.0 k (record k { heap = m.1 })
                  (kmalloc-Owes heap calls 308 [] e (nothing-Owes heap calls k.heap)) refl refl)
                (new_process_blank m.0 (record k { heap = m.1 })).0
                (load_ipob_file-Owes heap files calls path (k'.heap, k'.files)))
      ]
