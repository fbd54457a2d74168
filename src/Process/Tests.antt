-- ===== src/Process/Tests.antt =====
-- Runs of the processes.
use ipo_os.Kmalloc.{
  State, kmalloc, kfree, scan, find_free_block, finish, split_block, take_block,
  new_block as block_of, kmalloc_init,
}
use ipo_os.Process.Parts.{kernel_heap}
use ipo_os.Common.{◌≡◌, ℕ, ◌+◌, ◌≤◌, refl, some, [], ◌∷◌, ◌==◌, if◌then◌else◌}
use ipo_os.Memory.{Mem, zeros, load32, get8, store32, blit, put8, fill}
use ipo_os.CString.{memcmp}
use ipo_os.Fs.{with_mode, with_size}
use ipo_os.Process.Allocator.{Heap, Counted, counted, counted-IsCounted}
use ipo_os.Process.Owes.{nothing-Owes}
use ipo_os.Process.Load.{IsHeader, load_ipob_file-IsHeader}
use ipo_os.Process.Exec.{IsProgram, Settled, process_exec-Settled}
use ipo_os.Process.{Files, Kernel, blank_process, new_process, setup_stack, unlink}
use ipo_os.Process.Image.{
  ipob_magic, check_header, then_read, read_chunks, checked, read_image, load_inode, load_ipob_file,
}
use ipo_os.Process.Call.{
  process_exec, execute, then_place, place_image, with_arguments, begin_main, setup_arguments,
  call_program, process_cleanup, free_arguments, exited, copy_arguments, put_string,
}

-- The kernel's heap before its first use.
abbrev cold : State
cold = record { heap_start = 0; heap_used = 0; mem = zeros }

abbrev machine : Kernel (Counted State) (Unit {0})
machine = record {
  heap = record { heap = cold; allocations = λ a. 0; releases = λ a. 0 };
  files = tt;
  processes = λ p. blank_process;
  process_list = [];
  current_process = 0;
  last_exit_code = 0;
  next_pid = 1;
}

-- A heap that only grows, from its next address and its memory.
abbrev bump : Heap (ℕ × Mem)
bump = record {
  kmalloc = λ n h. (h.0, (h.0 + n, h.1));
  kfree = λ p h. h;
  mem = λ h. h.1;
  set_mem = λ m h. (h.0, m);
}

abbrev unused : Counted (ℕ × Mem)
unused = record { heap = (4096, zeros); allocations = λ a. 0; releases = λ a. 0 }

-- One file, a program of 24 bytes whose entry is behind its header.
abbrev disk : Files (Unit {0})
disk = record {
  stat = λ path f. (some (with_size (with_mode zeros 2) 24), f);
  open_file = λ path f. (some 3, f);
  read = λ fd buffer size offset f. (some (size, λ a. if a == 8 then 20 else ipob_magic a), f);
}

load_ipob_file-IsHeader_example :
    (20 ≤ 24)
    × (24 ≤ 536870912)
    × IsHeader 24 20 4096
        ((counted bump).mem (load_ipob_file (counted bump) disk (b'a' ∷ []) (unused, tt)).1.0)
unfolding load_ipob_file load_inode load32 store32 read_image checked read_chunks then_read
    check_header memcmp
load_ipob_file-IsHeader_example =
    load_ipob_file-IsHeader (counted bump) disk (b'a' ∷ []) (unused, tt) 24 20 4096 refl

-- A program that returns 7.
abbrev seven :
    (entry_point argc argv : ℕ)
    → Kernel (Counted State) (Unit {0})
    → ℕ × Kernel (Counted State) (Unit {0})
seven entry_point argc argv k = (7, k)

abbrev seven-IsProgram : IsProgram (counted kernel_heap) (counted-IsCounted kernel_heap) seven
seven-IsProgram = record {
  balanced =
      λ e argc argv k. nothing-Owes (counted kernel_heap) (counted-IsCounted kernel_heap) k.heap;
  keeps = λ e argc argv k. refl;
  keeps_list = λ e argc argv k. refl;
}

process_exec-Settled_example :
    Settled
      (counted kernel_heap)
      (counted-IsCounted kernel_heap)
      machine
      (process_exec (counted kernel_heap) disk seven (b'a' ∷ []) [] machine).1
unfolding process_exec execute then_place load_ipob_file load_inode load32 store32 new_process
    read_image checked read_chunks then_read check_header memcmp place_image with_arguments
    begin_main setup_arguments setup_stack call_program process_cleanup blit get8 put8 unlink
    free_arguments copy_arguments put_string kmalloc kfree scan find_free_block finish split_block
    take_block block_of kmalloc_init fill
process_exec-Settled_example =
    process_exec-Settled (counted kernel_heap) disk (counted-IsCounted kernel_heap) seven
      seven-IsProgram (b'a' ∷ []) [] machine refl

-- With an argument.
argument_passed :
    (process_exec (counted kernel_heap) disk seven (b'a' ∷ []) (some (b'a' ∷ []) ∷ []) machine).0
    ≡ exited 1
unfolding process_exec execute then_place load_ipob_file load_inode load32 store32 new_process
    read_image checked read_chunks then_read check_header memcmp place_image with_arguments
    begin_main setup_arguments setup_stack call_program process_cleanup blit get8 put8 unlink
    free_arguments copy_arguments put_string kmalloc kfree scan find_free_block finish split_block
    take_block block_of kmalloc_init fill
argument_passed = refl
