-- ===== src/Process/Allocator.antt =====
-- What processes ask of the heap (lib/c/memory/kmalloc.c, the module Kmalloc), and the calls of it
-- that are counted.
use ipo_os.Common.{ℕ, ◌+◌, ◌≡◌, refl, if◌then◌else◌, ◌==◌}
use ipo_os.Memory.{Mem}

-- `kmalloc` returns 0 for NULL; `mem` is the memory, `set_mem` puts another in its place.
pub record Heap (H : Type 0) : Type 0 where
  pub kmalloc : ℕ → H → ℕ × H
  pub kfree : ℕ → H → H
  pub mem : H → Mem
  pub set_mem : Mem → H → H

-- How often `kmalloc` has returned an address, and how often `kfree` was given it.
pub record IsCounted {H : Type 0} (heap : Heap H) : Type 0 where
  pub allocated : H → ℕ → ℕ
  pub freed : H → ℕ → ℕ
  pub kmalloc-allocated :
      (n a : ℕ) (h : H)
      → allocated (heap.kmalloc n h).1 a ≡ (
          if (heap.kmalloc n h).0 == 0
          then allocated h a
          else if a == (heap.kmalloc n h).0
          then allocated h a + 1
          else allocated h a)
  pub kmalloc-freed : (n a : ℕ) (h : H) → freed (heap.kmalloc n h).1 a ≡ freed h a
  pub kfree-allocated : (p a : ℕ) (h : H) → allocated (heap.kfree p h) a ≡ allocated h a
  pub kfree-freed :
      (p a : ℕ) (h : H) → freed (heap.kfree p h) a ≡ (if a == p then freed h a + 1 else freed h a)
  pub set_mem-allocated : (m : Mem) (a : ℕ) (h : H) → allocated (heap.set_mem m h) a ≡ allocated h a
  pub set_mem-freed : (m : Mem) (a : ℕ) (h : H) → freed (heap.set_mem m h) a ≡ freed h a

-- A heap with its two counts.
pub record Counted (H : Type 0) : Type 0 where
  pub heap : H
  pub allocations : ℕ → ℕ
  pub releases : ℕ → ℕ

abbrev pub counted : {H : Type 0} → Heap H → Heap (Counted H)
counted under = record {
  kmalloc = λ n c.
      let r = under.kmalloc n c.heap in
      (
        r.0,
        record c {
          heap = r.1;
          allocations = λ a.
              if r.0 == 0
              then c.allocations a
              else if a == r.0
              then c.allocations a + 1
              else c.allocations a;
        },
      );
  kfree = λ p c. record c {
    heap = under.kfree p c.heap;
    releases = λ a. if a == p then c.releases a + 1 else c.releases a;
  };
  mem = λ c. under.mem c.heap;
  set_mem = λ m c. record c { heap = under.set_mem m c.heap };
}

abbrev pub counted-IsCounted : {H : Type 0} (under : Heap H) → IsCounted (counted under)
counted-IsCounted under = record {
  allocated = λ c. c.allocations;
  freed = λ c. c.releases;
  kmalloc-allocated = λ n a h. refl;
  kmalloc-freed = λ n a h. refl;
  kfree-allocated = λ p a h. refl;
  kfree-freed = λ p a h. refl;
  set_mem-allocated = λ m a h. refl;
  set_mem-freed = λ m a h. refl;
}
