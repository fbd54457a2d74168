-- ===== src/Kmalloc/Scan.antt =====
-- `find_free_block` against the list of blocks.
use ipo_os.Common.{
  ℕ, zero, suc, ◌+◌, ◌≤◌, ◌<◌, ◌≡◌, refl, ◌∙◌, Bool, true, false, not, ◌&&◌, Option, none, some,
  List, [], ◌∷◌, arith, ltb, leb, ◌==◌, if◌then◌else◌, lt→ltb, length, u32_mod, add32, sub32,
}
use ipo_os.Kmalloc.{
  State, Found, block, null, scan, find_free_block, kmalloc_heap_start, kmalloc_heap_size,
  kmalloc_magic, kmalloc_freed_magic, load32,
}
use ipo_os.Kmalloc.Blocks.{Block, Chain, IsHeap, Chain-le, locate, fits, HeaderAt, magic_of, flag}

abbrev pub found : Option ℕ → Found
found none = null
found (some q) = block q

module _ (s : State) (size : ℕ) (fits_word : size + 12 < u32_mod) where
  scan-end :
      (fuel : ℕ) (p : ℕ)
      → s.heap_start ≡ kmalloc_heap_start
      → s.heap_used < kmalloc_heap_size
      → p ≡ s.heap_start + s.heap_used
      → scan (suc fuel) s size p ≡ null
  unfolding scan
  scan-end fuel p start bound e = ground arith

  scan-step :
      (fuel : ℕ) (p : ℕ) (b : Block) (rest : Found)
      → s.heap_start ≡ kmalloc_heap_start
      → s.heap_used < kmalloc_heap_size
      → s.heap_start ≤ p
      → p + b.size ≤ s.heap_start + s.heap_used
      → HeaderAt s.mem p b
      → scan fuel s size (p + b.size) ≡ rest
      → scan (suc fuel) s size p ≡ (if fits (size + 12) b then block p else rest)
  unfolding scan
  scan-step fuel p b rest start bound low high h ih =
      let step : add32 p (load32 s.mem p) ≡ p + b.size = rw h.size_at (omega arith) in
      let total : add32 size 12 ≡ size + 12 = omega arith in
      let live : ltb (sub32 p s.heap_start) s.heap_used ≡ true =
        rw start (lt→ltb _ _ (omega (arith, h.holds))) in
      rw (step, ih, total, live, h.size_at, h.magic_at, h.free_at) (tests_agree b.tagged b.free)
    where
      tests_agree :
          (tagged free : Bool)
          → (if not (magic_of tagged == kmalloc_magic)
                && not (magic_of tagged == kmalloc_freed_magic)
              then null
              else if not (flag free == 0) && leb (size + 12) b.size
              then block p
              else rest)
            ≡ (if free && leb (size + 12) b.size then block p else rest)
      tests_agree true true = refl
      tests_agree true false = refl
      tests_agree false true = refl
      tests_agree false false = refl

  scan-locate :
      (bs : List Block) (fuel p : ℕ)
      → s.heap_start ≡ kmalloc_heap_start
      → s.heap_used < kmalloc_heap_size
      → s.heap_start ≤ p
      → Chain s.mem p bs (s.heap_start + s.heap_used)
      → length bs < fuel
      → scan fuel s size p ≡ found (locate (size + 12) p bs)
  unfolding locate
  scan-locate bs zero p start bound low c enough = absurd (omega arith)
  scan-locate [] (suc fuel) p start bound low c enough = scan-end fuel p start bound c
  scan-locate (b ∷ bs) (suc fuel) p start bound low (h, c) enough =
      let le = Chain-le s.mem (p + b.size) bs _ c in
      let ih = scan-locate bs fuel (p + b.size) start bound (omega arith) c (omega arith) in
      scan-step fuel p b _ start bound low (omega arith) h ih ∙ choose (fits (size + 12) b)
    where
      choose :
          (hit : Bool)
          → (if hit then block p else found (locate (size + 12) (p + b.size) bs))
            ≡ found (if hit then some p else locate (size + 12) (p + b.size) bs)
      choose true = refl
      choose false = refl

-- On a heap in order `find_free_block` ends, and returns the first free block that is large enough,
-- or NULL where there is none.
pub find_free_block-locate :
    (s : State) (bs : List Block) (size : ℕ)
    → IsHeap s bs
    → size + 12 < u32_mod
    → find_free_block s size ≡ found (locate (size + 12) s.heap_start bs)
unfolding find_free_block
find_free_block-locate s bs size h word =
    let le = Chain-le s.mem s.heap_start bs _ h.chain in
    scan-locate s size word bs (s.heap_used + 1) s.heap_start h.started h.bounded (omega arith)
      h.chain (omega arith)
