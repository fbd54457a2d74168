-- ===== src/Kmalloc.antt =====
-- The kernel allocator, lib/c/memory/kmalloc.c: a row of blocks from `heap_start` on, each behind a
-- header of 12 bytes (`size` at 0, `magic` at 4, `is_free` at 8), scanned first-fit, split when a
-- free block is larger than asked, never merged. Sizes are 32-bit and wrap.
pub mod Blocks
pub mod Scan
pub mod Reserve
pub mod Alloc
pub mod Free
pub mod Overlap
mod Tests
use ipo_os.Common.{
  ℕ, zero, suc, ◌+◌, add32, Option, ◌-◌, if◌then◌else◌, none, ltb, leb, ◌==◌, sub32, some, not,
  ◌&&◌, u32_mod,
}
use ipo_os.Memory.{Mem, put8, load32, store32, fill, get8}

abbrev pub kmalloc_heap_start : ℕ
kmalloc_heap_start = 0x1000000

abbrev pub kmalloc_heap_size : ℕ
kmalloc_heap_size = 0x4000000

abbrev pub kmalloc_magic : ℕ
kmalloc_magic = 0xDEADBEEF

abbrev pub kmalloc_freed_magic : ℕ
kmalloc_freed_magic = 0xDEADC0DE

-- `sizeof(kmalloc_block_t)` on the i386: 4 + 4 + 1, padded to a multiple of 4.
abbrev pub block_header_size : ℕ
block_header_size = 12

-- The two static variables, and the memory that they stand in. `heap_start` is 0 for NULL.
pub record State : Type 0 where
  pub heap_start : ℕ
  pub heap_used : ℕ
  pub mem : Mem

unfoldable pub kmalloc_init : State → State
kmalloc_init s = record s { heap_start = kmalloc_heap_start; heap_used = 0 }

-- What a scan ends with: a block, NULL, or no end within the fuel.
pub data Found : Type 0 where
  block : ℕ → Found
  null : Found
  out_of_fuel : Found

-- The loop of `find_free_block`; the fuel bounds its rounds.
unfoldable pub scan : ℕ → State → ℕ → ℕ → Found
scan zero s size ptr = out_of_fuel
scan (suc fuel) s size ptr =
    let rest = scan fuel s size (add32 ptr (load32 s.mem ptr)) in
    if ltb (sub32 ptr s.heap_start) s.heap_used
    then if not (load32 s.mem (ptr + 4) == kmalloc_magic)
        && not (load32 s.mem (ptr + 4) == kmalloc_freed_magic)
      then null
      else if not (get8 s.mem (ptr + 8) == 0)
          && leb (add32 size block_header_size) (load32 s.mem ptr)
      then block ptr
      else rest
    else null

-- Each round of the scan passes a block, and a heap in order holds at most `heap_used` blocks.
unfoldable pub find_free_block : State → ℕ → Found
find_free_block s size = scan (s.heap_used + 1) s size s.heap_start

unfoldable pub split_block : Mem → ℕ → ℕ → Mem
split_block m p needed_size =
    let total_needed = add32 needed_size block_header_size in
    let remainder = add32 p total_needed in
    if leb (load32 m p) total_needed
    then m
    else store32
        (put8
          (store32 (store32 m remainder (sub32 (load32 m p) total_needed)) (remainder + 4)
            kmalloc_magic)
          (remainder + 8) 1)
        p total_needed

-- The branch of `kmalloc` that takes a free block.
unfoldable pub take_block : Mem → ℕ → ℕ → Mem
take_block m p size =
    put8 (if ltb (add32 size block_header_size) (load32 m p) then split_block m p size else m)
      (p + 8) 0

-- The header that `kmalloc` writes at the heap's end.
unfoldable pub new_block : Mem → ℕ → ℕ → Mem
new_block m p total_needed =
    put8 (store32 (store32 m p total_needed) (p + 4) kmalloc_magic) (p + 8) 0

-- `memset(ptr, 0, size)` and the return of `ptr`. A clear that passes the end of the address space
-- goes on at address 0 and takes the kernel with it: there is no result.
abbrev pub cleared : Mem → (ptr size : ℕ) → State → Option (ℕ × State)
cleared m ptr size s =
    if ltb u32_mod (ptr + size) then none else some (ptr, record s { mem = fill m ptr 0 size })

-- The cases of `kmalloc` behind the scan. `none` stands for a scan that does not end and for a clear
-- that takes the kernel with it; the pointer 0 is NULL.
unfoldable pub finish : Found → ℕ → State → Option (ℕ × State)
finish out_of_fuel size s = none
finish null size s =
    let total_needed = add32 size block_header_size in
    let p = add32 s.heap_start s.heap_used in
    if leb kmalloc_heap_size (add32 s.heap_used total_needed)
    then some (0, s)
    else cleared (new_block s.mem p total_needed) (p + block_header_size) size
        (record s { heap_used = add32 s.heap_used total_needed })
finish (block p) size s = cleared (take_block s.mem p size) (p + block_header_size) size s

unfoldable pub kmalloc : ℕ → State → Option (ℕ × State)
kmalloc size s =
    let ready = if s.heap_start == 0 then kmalloc_init s else s in
    if size == 0 then some (0, s) else finish (find_free_block ready size) size ready

unfoldable pub kfree : ℕ → State → State
kfree ptr s =
    let p = ptr - block_header_size in
    if ptr == 0
    then s
    else if not (load32 s.mem (p + 4) == kmalloc_magic)
    then s
    else if not (get8 s.mem (p + 8) == 0)
    then s
    else record s { mem = store32 (put8 s.mem (p + 8) 1) (p + 4) kmalloc_freed_magic }
