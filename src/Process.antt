-- ===== src/Process.antt =====
-- Processes, lib/c/kernel/process.c and lib/h/kernel/process.h: a program is loaded from a file,
-- called with its arguments, and cleaned up. The heap and the file system are parameters (`Heap`,
-- `Files`), and so is the program, a function on the kernel's state. A process structure is a record,
-- found by its address. What `printf` and `serial_printf` print is left out.
pub mod Allocator
pub mod Image
pub mod Call
pub mod Owes
pub mod Load
pub mod Exec
pub mod Parts
mod Tests
use ipo_os.Common.{
  ℕ, zero, suc, ◌+◌, ◌-◌, ◌*◌, min, Bool, true, false, not, ◌||◌, Option, none, some, List, [], ◌∷◌,
  leb, ltb, ◌==◌, if◌then◌else◌, length, take, add32, sub32, map,
}
use ipo_os.Common.Int.{ℤ, pos, negsuc}
use ipo_os.Common.Action.{Act}
use ipo_os.Memory.{Mem, get8, put8, load32, store32, blit, zeros}
use ipo_os.CString.{memcmp}
use ipo_os.Fs.{Inode, size_of, is_dir}
use ipo_os.Fs.Dir.{Name}
use ipo_os.Process.Allocator.{Heap}
use Prim.Native.Nat.{bit_and}

abbrev pub process_stack_top : ℕ
process_stack_top = 0xC0000000

abbrev pub process_stack_size : ℕ
process_stack_size = 2 * 1024 * 1024

-- `ipo_fs_stat`, `ipo_fs_open` and `ipo_fs_read` of the file system. A read gets the buffer and
-- returns the number of bytes and the buffer.
pub record Files (F : Type 0) : Type 0 where
  pub stat : Name → Act F Inode
  pub open_file : Name → Act F ℕ
  pub read : (fd : ℕ) → Mem → (size offset : ℕ) → Act F (ℕ × Mem)

-- `process_t`. Its `next` is the order of the list of processes; the fields that the code never
-- writes are left out.
pub record Process : Type 0 where
  pub pid : ℕ
  pub binary_base : ℕ
  pub binary_size : ℕ
  pub entry_point : ℕ
  pub stack_ptr : ℕ
  pub stack_start : ℕ
  pub stack_size : ℕ
  pub argc : ℕ
  pub argv_kernel : ℕ
  pub is_running : ℕ

-- `memset(proc, 0, sizeof(process_t))`.
abbrev pub blank_process : Process
blank_process = record {
  pid = 0;
  binary_base = 0;
  binary_size = 0;
  entry_point = 0;
  stack_ptr = 0;
  stack_start = 0;
  stack_size = 0;
  argc = 0;
  argv_kernel = 0;
  is_running = 0;
}

-- The heap, the files, the process structures by address, and the static variables; NULL is 0.
pub record Kernel (H F : Type 0) : Type 0 where
  pub heap : H
  pub files : F
  pub processes : ℕ → Process
  pub process_list : List ℕ
  pub current_process : ℕ
  pub last_exit_code : ℕ
  pub next_pid : ℕ

-- Takes the first process at this address out of the list.
unfoldable pub unlink : ℕ → List ℕ → List ℕ
unlink p [] = []
unlink p (q ∷ list) = let rest = unlink p list in if q == p then list else q ∷ rest

module _ {H F : Type 0} where
  -- Changes the process at address `p`.
  abbrev pub update : ℕ → (Process → Process) → Kernel H F → Kernel H F
  update p change k = record k {
    processes = λ q. if q == p then change (k.processes p) else k.processes q;
  }

  unfoldable pub setup_stack : ℕ → Kernel H F → Kernel H F
  setup_stack p k =
      update p
        (λ proc. record proc {
          stack_ptr = process_stack_top;
          stack_start = process_stack_top - process_stack_size;
          stack_size = process_stack_size;
        })
        k

  -- The new process at address `p`, at the head of the list.
  unfoldable pub new_process : ℕ → Kernel H F → Kernel H F
  new_process p k =
      update p (λ _. record blank_process { pid = k.next_pid; is_running = 1 })
        (record k { next_pid = add32 k.next_pid 1; process_list = p ∷ k.process_list })

abbrev pub process_get_exit_code : {H F : Type 0} → Kernel H F → ℕ
process_get_exit_code k = k.last_exit_code

abbrev pub process_get_current : {H F : Type 0} → Kernel H F → ℕ
process_get_current k = k.current_process
