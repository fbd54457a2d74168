-- ===== src/Process/Image.antt =====
-- The image of a program: `load_ipob_file` of lib/c/kernel/process.c.
use ipo_os.Common.{
  ℕ, zero, suc, ◌+◌, ◌-◌, ◌*◌, min, Bool, true, false, not, ◌||◌, Option, none, some, leb, ltb,
  ◌==◌, if◌then◌else◌, sub32,
}
use ipo_os.Common.Int.{ℤ, pos, negsuc}
use ipo_os.Memory.{Mem, load32}
use ipo_os.CString.{memcmp}
use ipo_os.Fs.{Inode, size_of, is_dir}
use ipo_os.Fs.Dir.{Name}
use ipo_os.Process.Allocator.{Heap}
use ipo_os.Process.{Files}

abbrev pub max_process_size : ℕ
max_process_size = 512 * 1024 * 1024

abbrev pub ipob_header_size : ℕ
ipob_header_size = 20

-- An error by the number whose negative the code returns, or the size, the entry offset and the
-- address of the image.
pub data Loaded : Type 0 where
  failed : ℕ → Loaded
  loaded : (size entry_offset image : ℕ) → Loaded

-- Memory from an address on, and back.
abbrev pub from : Mem → ℕ → Mem
from m at a = m (at + a)

abbrev pub replaced : Mem → ℕ → Mem → Mem
replaced m at buffer a = if leb at a then buffer (a - at) else m a

-- "IPO_B" and three NULs.
abbrev pub ipob_magic : Mem
ipob_magic a =
    if a == 0
    then b'I'
    else if a == 1
    then b'P'
    else if a == 2
    then b'O'
    else if a == 3
    then b'_'
    else if a == 4
    then b'B'
    else 0

abbrev pub is_zero : ℤ → Bool
is_zero (pos n) = n == 0
is_zero (negsuc n) = false

-- The tests of the header.
unfoldable pub check_header : (image size : ℕ) → Mem → Option ℕ
check_header image size m =
    if not (is_zero (memcmp m image ipob_magic 0 8))
    then none
    else if leb size (load32 m (image + 8))
    then none
    else some (load32 m (image + 8))

module _ {H F : Type 0} (heap : Heap H) (files : Files F) where
  -- A round behind its read: the bytes are in memory, and `go` is the rest of the loop.
  unfoldable pub then_read :
      (go : ℕ → H × F → Option ℕ × (H × F))
      → (image total_read : ℕ) → H
      → Option (ℕ × Mem) × F
      → Option ℕ × (H × F)
  then_read go image total_read h (none, f) = (none, (h, f))
  then_read go image total_read h (some (bytes_read, buffer), f) =
      let h' = heap.set_mem (replaced (heap.mem h) (image + total_read) buffer) h in
      elim ((bytes_read == 0) || leb 0x80000000 bytes_read) [
        | true ↦ (none, (h', f))
        | false ↦ go (total_read + bytes_read) (h', f)
      ]

  -- Rounds of the loop over the chunks of the file; each reads one byte at least. The number of bytes
  -- read, or `none` where a read fails.
  unfoldable pub read_chunks :
      (left : ℕ) → (fd size image total_read : ℕ) → H × F → Option ℕ × (H × F)
  read_chunks zero fd size image total_read s = (some total_read, s)
  read_chunks (suc left) fd size image total_read s = elim (leb size total_read) [
    | true ↦ (some total_read, s)
    | false ↦ then_read (read_chunks left fd size image) image total_read s.0 (
        files.read fd (from (heap.mem s.0) (image + total_read))
          (min (sub32 size total_read) (64 * 1024)) total_read s.1)
  ]

  -- `load_ipob_file` behind the loop.
  unfoldable pub checked : (size image : ℕ) → Option ℕ × (H × F) → Loaded × (H × F)
  checked size image (none, (h, f)) = (failed 4, (heap.kfree image h, f))
  checked size image (some total_read, (h, f)) = elim (check_header image size (heap.mem h)) [
    | none ↦ (failed 2, (heap.kfree image h, f))
    | some entry_offset ↦ (loaded size entry_offset image, (h, f))
  ]

  -- `load_ipob_file` behind the allocation.
  unfoldable pub read_image : Name → (size image : ℕ) → H × F → Loaded × (H × F)
  read_image path size image (h, f) =
      let o = files.open_file path f in
      elim o.0 [
        | none ↦ (failed 4, (heap.kfree image h, o.1))
        | some fd ↦ checked size image (read_chunks size fd size image 0 (h, o.1))
      ]

  -- `load_ipob_file` behind `ipo_fs_stat`.
  unfoldable pub load_inode : Name → Inode → H × F → Loaded × (H × F)
  load_inode path inode (h, f) =
      let size = size_of inode in
      elim (is_dir inode || ltb size ipob_header_size || ltb max_process_size size) [
        | true ↦ (failed 1, (h, f))
        | false ↦
            let m = heap.kmalloc size h in
            elim (m.0 == 0) [
              | true ↦ (failed 3, (m.1, f))
              | false ↦ read_image path size m.0 (m.1, f)
            ]
      ]

  unfoldable pub load_ipob_file : Name → H × F → Loaded × (H × F)
  load_ipob_file path (h, f) =
      let s = files.stat path f in
      elim s.0 [ none ↦ (failed 1, (h, s.1)) | some inode ↦ load_inode path inode (h, s.1) ]
