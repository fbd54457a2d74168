-- ===== src/Kmalloc/Tests.antt =====
-- Runs of the allocator, and its theorems at concrete heaps.
use ipo_os.Common.{ℕ, ◌+◌, ◌≡◌, refl, ◌≢◌, true, false, none, some, List, [], ◌∷◌, arith}
use ipo_os.Memory.{Mem, get8, put8, load32, store32, fill, zeros}
use ipo_os.Kmalloc.{
  State, kmalloc, kmalloc_init, kfree, kmalloc_magic, kmalloc_freed_magic, finish, find_free_block,
  scan, new_block,
}
use ipo_os.Kmalloc.Blocks.{Block, IsHeap, allocate, locate, no_sliver}
use ipo_os.Kmalloc.Alloc.{Allocated, kmalloc-allocate}
use ipo_os.Kmalloc.Free.{kfree-release, kfree_reused, release, starts, tagged_fit}
use ipo_os.Kmalloc.Overlap.{kmalloc_sliver, kmalloc-zeroed}

-- A header in a memory.
abbrev header : Mem → ℕ → ℕ → ℕ → ℕ → Mem
header m p size magic free = put8 (store32 (store32 m p size) (p + 4) magic) (p + 8) free

-- A freed block of 60 bytes, one of 20 in use behind it.
abbrev two_blocks : Mem
two_blocks = header (header zeros 0x1000000 60 0xDEADC0DE 1) 0x100003C 20 0xDEADBEEF 0

abbrev heap : State
heap = record { heap_start = 0x1000000; heap_used = 80; mem = two_blocks }

abbrev blocks : List Block
blocks =
    (record { size = 60; tagged = true; free = true })
    ∷ (record { size = 20; tagged = false; free = false })
    ∷ []

heap-IsHeap : IsHeap heap blocks
unfolding load32 get8 put8 store32
heap-IsHeap = record {
  started = refl;
  bounded = omega arith;
  chain = (
    record { size_at = refl; magic_at = refl; free_at = refl; holds = omega arith },
    (record { size_at = refl; magic_at = refl; free_at = refl; holds = omega arith }, refl),
  );
}

-- The pointers that a run returns.
pointers : ℕ → ℕ → State → List ℕ
unfolding kmalloc
pointers a b s = elim (kmalloc a s) [
  | none ↦ []
  | some (p, s1) ↦ elim (kmalloc b (kfree p s1)) [ none ↦ [] | some (q, s2) ↦ p ∷ q ∷ [] ]
]

cold_start :
    pointers 100 40 (record { heap_start = 0; heap_used = 0; mem = zeros })
    ≡ 0x100000C ∷ 0x100000C ∷ []
unfolding pointers kmalloc_init finish find_free_block scan kfree new_block load32 get8 put8 store32
    fill
cold_start = refl

kmalloc-allocate_example :
    (r : ℕ × State) × (kmalloc 20 heap ≡ some r) × Allocated (allocate 32 0x1000000 80 blocks) r
unfolding no_sliver
kmalloc-allocate_example =
    kmalloc-allocate heap blocks 20 heap-IsHeap (omega arith) (omega arith) refl

kfree-release_example : IsHeap (kfree (0x100003C + 12) heap) (release 0x100003C 0x1000000 blocks)
unfolding starts
kfree-release_example = kfree-release heap blocks 0x100003C heap-IsHeap refl

kfree_reused_example :
    (r : ℕ × State) × (kmalloc 20 heap ≡ some r) × (r.0 ≡ 0x1000000 + 12) × (kfree r.0 r.1 ≡ r.1)
unfolding locate no_sliver tagged_fit
kfree_reused_example =
    kfree_reused heap blocks 20 0x1000000 heap-IsHeap (omega arith) (omega arith) refl refl refl

kmalloc_sliver_example :
    (out : ℕ × State) × (kmalloc 44 heap ≡ some out)
    × (out.0 ≡ 0x1000000 + 12)
    × (load32 out.1.mem (0x1000000 + (44 + 12 + 4) + 4) ≢ kmalloc_magic)
    × (load32 out.1.mem (0x1000000 + (44 + 12 + 4) + 4) ≢ kmalloc_freed_magic)
unfolding locate load32 get8 put8 store32
kmalloc_sliver_example =
    kmalloc_sliver heap blocks 44 0x1000000 4 heap-IsHeap (omega arith) (omega arith) refl refl
      (omega arith) (omega arith)

-- The first block of an empty heap.
abbrev granted : ℕ × State
granted = (
  0x100000C,
  record {
    heap_start = 0x1000000;
    heap_used = 32;
    mem = fill (header zeros 0x1000000 32 0xDEADBEEF 0) 0x100000C 0 20;
  },
)

first_block : kmalloc 20 (record { heap_start = 0; heap_used = 0; mem = zeros }) ≡ some granted
unfolding kmalloc kmalloc_init finish find_free_block scan new_block
first_block = refl

kmalloc-zeroed_example : get8 granted.1.mem 0x1000010 ≡ 0
kmalloc-zeroed_example =
    kmalloc-zeroed 20 (record { heap_start = 0; heap_used = 0; mem = zeros }) granted first_block
      (omega arith) 0x1000010 (omega arith) (omega arith)
