-- ===== src/Process/Owes.antt =====
-- What is owed to the heap: the addresses that `kmalloc` returned and `kfree` was not yet given.
use ipo_os.Common.{ℕ, ◌+◌, ◌≡◌, true, false, List, [], ◌∷◌, arith, ◌==◌, if◌then◌else◌}
use ipo_os.Memory.{Mem}
use ipo_os.Process.Allocator.{Heap, IsCounted}

-- How often an address is in a list.
abbrev pub times : List ℕ → ℕ → ℕ
times [] a = 0
times (x ∷ xs) a = (if a == x then 1 else 0) + times xs a

module _ {H : Type 0} (heap : Heap H) (calls : IsCounted heap) where
  -- From `h` to `h'` the addresses `xs` were allocated and not released, and every other allocation
  -- was released.
  pub record Owes (xs : List ℕ) (h h' : H) : Type 0 where
    pub balance :
        (a : ℕ)
        → calls.allocated h' a + calls.freed h a
          ≡ calls.allocated h a + calls.freed h' a + times xs a

  pub nothing-Owes : (h : H) → Owes [] h h
  nothing-Owes h = record { balance = λ a. omega arith }

  pub kfree-Owes :
      {h h' : H} (p : ℕ) (xs : List ℕ) → Owes (p ∷ xs) h h' → Owes xs h (heap.kfree p h')
  kfree-Owes {h} {h'} p xs owes = record {
    balance = λ a.
        let e = owes.balance a in
        let f = calls.kfree-allocated p a h' in
        let g = calls.kfree-freed p a h' in ground (arith, e, f, g);
  }

  pub Owes-swap :
      {h h' : H} (p q : ℕ) (xs : List ℕ) → Owes (p ∷ q ∷ xs) h h' → Owes (q ∷ p ∷ xs) h h'
  Owes-swap p q xs owes = record { balance = λ a. omega (arith, owes.balance a) }

  pub null-Owes :
      {h h' : H} (n : ℕ) (xs : List ℕ)
      → ((heap.kmalloc n h').0 == 0) ≡ true
      → Owes xs h h'
      → Owes xs h (heap.kmalloc n h').1
  null-Owes {h} {h'} n xs z owes = record {
    balance = λ a.
        let e = owes.balance a in
        let f = calls.kmalloc-allocated n a h' in
        let g = calls.kmalloc-freed n a h' in ground (arith, e, f, g);
  }

  pub kmalloc-Owes :
      {h h' : H} (n : ℕ) (xs : List ℕ)
      → ((heap.kmalloc n h').0 == 0) ≡ false
      → Owes xs h h'
      → Owes ((heap.kmalloc n h').0 ∷ xs) h (heap.kmalloc n h').1
  kmalloc-Owes {h} {h'} n xs z owes = record {
    balance = λ a.
        let e = owes.balance a in
        let f = calls.kmalloc-allocated n a h' in
        let g = calls.kmalloc-freed n a h' in ground (arith, e, f, g);
  }

  pub set_mem-Owes :
      {h h' : H} (m : Mem) (xs : List ℕ) → Owes xs h h' → Owes xs h (heap.set_mem m h')
  set_mem-Owes {h} {h'} m xs owes = record {
    balance = λ a.
        let e = owes.balance a in
        let f = calls.set_mem-allocated m a h' in
        let g = calls.set_mem-freed m a h' in omega (arith, e, f, g);
  }

  pub Owes-trans : {h h' h'' : H} (xs : List ℕ) → Owes xs h h' → Owes [] h' h'' → Owes xs h h''
  Owes-trans xs first then_ = record {
    balance = λ a. let e = first.balance a in let f = then_.balance a in omega (arith, e, f);
  }

  pub Owes-join :
      {h h' h'' : H} (p : ℕ) (xs : List ℕ)
      → Owes xs h h'
      → Owes (p ∷ []) h' h''
      → Owes (p ∷ xs) h h''
  Owes-join p xs first then_ = record {
    balance = λ a. let e = first.balance a in let f = then_.balance a in omega (arith, e, f);
  }
