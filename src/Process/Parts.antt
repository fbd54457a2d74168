-- ===== src/Process/Parts.antt =====
-- The heap and the files of the kernel as processes use them: Kmalloc and Fs fill the interfaces.
use ipo_os.Common.{ℕ, Option, none, some}
use ipo_os.Memory.{Mem}
use ipo_os.Kmalloc.{State, kmalloc, kfree}
use ipo_os.Fs.{Ata, Fs}
use ipo_os.Fs.File.{ipo_fs_open, ipo_fs_read}
use ipo_os.Fs.Tree.{ipo_fs_stat}
use ipo_os.Process.Allocator.{Heap}
use ipo_os.Process.{Files}

-- A scan of a heap in order never runs out of fuel; one that does returns NULL here.
abbrev pub allocated_or_null : State → Option (ℕ × State) → ℕ × State
allocated_or_null s none = (0, s)
allocated_or_null s (some r) = r

abbrev pub kernel_heap : Heap State
kernel_heap = record {
  kmalloc = λ n s. allocated_or_null s (kmalloc n s);
  kfree = kfree;
  mem = λ s. s.mem;
  set_mem = λ m s. record s { mem = m };
}

-- `tmp` is what the uninitialised sector buffer of a read holds.
abbrev pub kernel_files : {D : Type 0} → Ata D → (tmp : Mem) → Files (Fs D)
kernel_files ata tmp = record {
  stat = ipo_fs_stat ata;
  open_file = ipo_fs_open ata;
  read = λ fd buffer size offset. ipo_fs_read ata fd buffer tmp size offset;
}
