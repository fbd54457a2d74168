-- ===== src/Kmalloc/Alloc.antt =====
-- `kmalloc` against the abstract allocator.
use ipo_os.Common.{
  ltb, ℕ, ◌+◌, ◌<◌, ◌≡◌, refl, ◌∙◌, inl, inr, true, false, Option, none, some, List, [], ◌∷◌, ◌++◌,
  arith, leb, ◌==◌, if◌then◌else◌, Bool-cases, leb→lt, u32_mod, add32,
}
use ipo_os.Memory.{Mem, fill, Agree}
use ipo_os.Memory.Laws.{
  load32-store32, load32-store32_ne, get8-store32_ne, load32-put8_ne, get8-put8_ne, get8-put8_self,
  get8-fill_ne, load32-fill_ne,
}
use ipo_os.Kmalloc.{
  State, kmalloc, finish, new_block, kmalloc_heap_size, block, null, kmalloc_magic,
}
use ipo_os.Kmalloc.Blocks.{
  Block, Chain, IsHeap, Chain-Agree, locate, reserve, no_sliver, allocate, fresh, HeaderAt,
}
use ipo_os.Kmalloc.Scan.{found, find_free_block-locate}
use ipo_os.Kmalloc.Reserve.{locate-Target, taken, taken-reserve}

-- A row of blocks, and one more behind it.
Chain-append :
    (m : Mem) (p : ℕ) (bs : List Block) (q : ℕ) (b : Block) (e : ℕ)
    → Chain m p bs q
    → HeaderAt m q b
    → q + b.size ≡ e
    → Chain m p (bs ++ (b ∷ [])) e
Chain-append m p [] q b e c h end = rw c (h, end)
Chain-append m p (x ∷ bs) q b e (hx, c) h end = (hx, Chain-append m (p + x.size) bs q b e c h end)

-- `new_block` and the `memset` behind it.
abbrev pub grown : Mem → ℕ → ℕ → Mem
grown m q size = fill (new_block m q (size + 12)) (q + 12) 0 size

grown-HeaderAt :
    (m : Mem) (q size : ℕ) → size + 12 < u32_mod → HeaderAt (grown m q size) q (fresh (size + 12))
unfolding new_block
grown-HeaderAt m q size word = record {
  size_at =
      load32-fill_ne _ (q + 12) 0 size q (omega arith)
      ∙ load32-put8_ne _ (q + 8) 0 q (omega arith)
      ∙ load32-store32_ne _ (q + 4) kmalloc_magic q (omega arith)
      ∙ load32-store32 m q (size + 12)
      ∙ omega arith;
  magic_at =
      load32-fill_ne _ (q + 12) 0 size (q + 4) (omega arith)
      ∙ load32-put8_ne _ (q + 8) 0 (q + 4) (omega arith)
      ∙ load32-store32 _ (q + 4) kmalloc_magic;
  free_at = get8-fill_ne _ (q + 12) 0 size (q + 8) (omega arith) ∙ get8-put8_self _ (q + 8) 0;
  holds = omega arith;
}

grown-Agree : (m : Mem) (q size lo : ℕ) → Agree m (grown m q size) lo q
unfolding new_block
grown-Agree m q size lo a low high =
    get8-fill_ne _ (q + 12) 0 size a (omega arith)
    ∙ get8-put8_ne _ (q + 8) 0 a (omega arith)
    ∙ get8-store32_ne _ (q + 4) kmalloc_magic a (omega arith)
    ∙ get8-store32_ne m q (size + 12) a (omega arith)

-- What a call returns, and the heap behind it.
pub record Allocated (outcome : ℕ × List Block) (r : ℕ × State) : Type 0 where
  pub pointer : r.0 ≡ outcome.0
  pub heap : IsHeap r.1 outcome.1

module _ (s : State) (bs : List Block) (size : ℕ) (h : IsHeap s bs)
    (word : s.heap_used + size + 12 < u32_mod) where
  finish_found :
      (q : ℕ)
      → locate (size + 12) s.heap_start bs ≡ some q
      → no_sliver (size + 12) bs ≡ true
      → (r : ℕ × State) × (finish (block q) size s ≡ some r)
        × Allocated (q + 12, reserve (size + 12) bs) r
  unfolding finish
  finish_found q at room =
      let t = locate-Target s.mem (size + 12) s.heap_start q bs _ h.chain at room in
      let fits : ltb u32_mod (q + 12 + size) ≡ false =
        ground (arith, t.inside, t.room, h.started, h.bounded) in
      rw fits (
        (q + 12, record s { mem = taken s.mem q size }),
        refl,
        record {
          pointer = refl;
          heap = record {
            started = h.started;
            bounded = h.bounded;
            chain =
                taken-reserve s.mem size s.heap_start q bs _ h.chain
                  (omega (arith, h.started, h.bounded)) at room;
          };
        },
      )

  finish_null :
      (r : ℕ × State) × (finish null size s ≡ some r)
      × Allocated
          (if leb kmalloc_heap_size (s.heap_used + (size + 12))
            then (0, bs)
            else (s.heap_start + s.heap_used + 12, bs ++ (fresh (size + 12) ∷ [])))
          r
  unfolding finish
  finish_null =
      let total : add32 size 12 ≡ size + 12 = omega arith in
      let sum : add32 s.heap_used (size + 12) ≡ s.heap_used + (size + 12) = omega arith in
      let place : add32 s.heap_start s.heap_used ≡ s.heap_start + s.heap_used =
        omega (arith, h.started, h.bounded) in
      elim (Bool-cases (leb kmalloc_heap_size (s.heap_used + (size + 12)))) [
        | inl full ↦ rw (total, sum, full) ((0, s), refl, record { pointer = refl; heap = h })
        | inr more ↦
            let fits : ltb u32_mod (s.heap_start + s.heap_used + 12 + size) ≡ false =
              ground (arith, h.started, h.bounded, more) in
            rw (total, sum, place, more, fits)
              (
                (
                  s.heap_start + s.heap_used + 12,
                  record s {
                    heap_used = s.heap_used + (size + 12);
                    mem = grown s.mem (s.heap_start + s.heap_used) size;
                  },
                ),
                refl,
                record {
                  pointer = refl;
                  heap = record {
                    started = h.started;
                    bounded = leb→lt _ _ more;
                    chain =
                        Chain-append _ s.heap_start bs (s.heap_start + s.heap_used)
                          (fresh (size + 12)) _
                          (Chain-Agree s.mem _ s.heap_start bs _
                            (grown-Agree s.mem _ size s.heap_start) h.chain)
                          (grown-HeaderAt s.mem _ size (omega arith)) (omega arith);
                  };
                },
              )
      ]

-- On a heap in order, for a request whose size with the heap in use fits a word, and which does not
-- leave a sliver of 1 to 8 bytes of the block that it splits, `kmalloc` returns: the pointer and the
-- blocks are those of first fit, else of growth at the end, else NULL and the blocks as they were.
pub kmalloc-allocate :
    (s : State) (bs : List Block) (size : ℕ)
    → IsHeap s bs
    → 0 < size
    → s.heap_used + size + 12 < u32_mod
    → no_sliver (size + 12) bs ≡ true
    → (r : ℕ × State) × (kmalloc size s ≡ some r)
      × Allocated (allocate (size + 12) s.heap_start s.heap_used bs) r
unfolding kmalloc allocate
kmalloc-allocate s bs size h pos word room =
    let ready : (s.heap_start == 0) ≡ false = ground (arith, h.started) in
    let asked : (size == 0) ≡ false = ground arith in
    rw (ready, asked, find_free_block-locate s bs size h (omega arith))
      (go (locate (size + 12) s.heap_start bs) refl)
  where
    go :
        (o : Option ℕ)
        → locate (size + 12) s.heap_start bs ≡ o
        → (r : ℕ × State) × (finish (found o) size s ≡ some r)
          × Allocated
              (elim o [
                | some q ↦ (q + 12, reserve (size + 12) bs)
                | none ↦
                    if leb kmalloc_heap_size (s.heap_used + (size + 12))
                    then (0, bs)
                    else (s.heap_start + s.heap_used + 12, bs ++ (fresh (size + 12) ∷ []))
              ])
              r
    go none e = finish_null s bs size h word
    go (some q) e = finish_found s bs size h word q e room
