-- ===== src/Kmalloc/Free.antt =====
-- `kfree` against the list of blocks, and the blocks that it refuses to take back.
use ipo_os.Common.{
  ltb, ℕ, ◌+◌, ◌-◌, ◌≤◌, ◌<◌, ◌≡◌, refl, ap, ◌∙◌, ◌⊎◌, inl, inr, Bool, true, false, not, ◌||◌, some,
  List, [], ◌∷◌, arith, ◌==◌, if◌then◌else◌, Bool-cases, ==_iff, u32_mod,
}
use ipo_os.Memory.{Mem, get8, put8, load32, store32}
use ipo_os.Memory.Laws.{
  load32-store32, load32-store32_ne, get8-store32_ne, load32-put8_ne, get8-put8_ne, get8-put8_self,
}
use mathlib.Core.Path.{subst}
use ipo_os.Kmalloc.{State, kmalloc, kfree, kmalloc_magic, kmalloc_freed_magic, finish}
use ipo_os.Kmalloc.Blocks.{
  Block, HeaderAt, Chain, IsHeap, Chain-Agree, HeaderAt-Agree, locate, no_sliver, fits, magic_of,
  flag,
}
use ipo_os.Kmalloc.Scan.{find_free_block-locate}
use ipo_os.Kmalloc.Reserve.{taken, taken-IsHeader, taken-IsSplit, locate-Target}

-- A header at `q` begins one of the blocks from `p` on.
unfoldable pub starts : ℕ → ℕ → List Block → Bool
starts q p [] = false
starts q p (b ∷ bs) = if p == q then true else starts q (p + b.size) bs

abbrev pub released : Block → Block
released b = if b.tagged || b.free then b else record b { tagged = true; free = true }

-- The blocks with the one at `q` given back.
unfoldable pub release : ℕ → ℕ → List Block → List Block
release q p [] = []
release q p (b ∷ bs) = if p == q then released b ∷ bs else (b ∷ release q (p + b.size) bs)

module _ (s : State) (q : ℕ) where
  kfree_header :
      (b : Block)
      → HeaderAt s.mem q b
      → kfree (q + 12) s ≡ (
          if b.tagged || b.free
          then s
          else record s { mem = store32 (put8 s.mem (q + 8) 1) (q + 4) kmalloc_freed_magic })
  unfolding kfree
  kfree_header b h =
      let ne : (q + 12 == 0) ≡ false = ground arith in
      let back : q + 12 - 12 ≡ q = omega arith in
      rw (ne, back, h.magic_at, h.free_at) (cases b.tagged b.free)
    where
      cases :
          (tagged free : Bool)
          → (if not (magic_of tagged == kmalloc_magic)
              then s
              else if not (flag free == 0)
              then s
              else record s { mem = store32 (put8 s.mem (q + 8) 1) (q + 4) kmalloc_freed_magic })
            ≡ (if tagged || free
                then s
                else record s { mem = store32 (put8 s.mem (q + 8) 1) (q + 4) kmalloc_freed_magic })
      cases true free = refl
      cases false true = refl
      cases false false = refl

abbrev marked : Mem → ℕ → Mem
marked m q = store32 (put8 m (q + 8) 1) (q + 4) kmalloc_freed_magic

marked-elsewhere : (m : Mem) (q a : ℕ) → (a < q) ⊎ (q + 9 ≤ a) → get8 (marked m q) a ≡ get8 m a
marked-elsewhere m q a off =
    get8-store32_ne _ (q + 4) kmalloc_freed_magic a (omega arith)
    ∙ get8-put8_ne m (q + 8) 1 a (omega arith)

marked-HeaderAt :
    (m : Mem) (q : ℕ) (b : Block)
    → HeaderAt m q b
    → HeaderAt (marked m q) q (record b { tagged = true; free = true })
marked-HeaderAt m q b h = record {
  size_at =
      load32-store32_ne _ (q + 4) kmalloc_freed_magic q (omega arith)
      ∙ load32-put8_ne m (q + 8) 1 q (omega arith)
      ∙ h.size_at;
  magic_at = load32-store32 _ (q + 4) kmalloc_freed_magic;
  free_at =
      get8-store32_ne _ (q + 4) kmalloc_freed_magic (q + 8) (omega arith)
      ∙ get8-put8_self m (q + 8) 1;
  holds = h.holds;
}

-- The memory behind `kfree` for a block `b` at `q`.
abbrev after : Mem → ℕ → Block → Mem
after m q b = if b.tagged || b.free then m else marked m q

after-elsewhere :
    (m : Mem) (q : ℕ) (b : Block) (a : ℕ) → (a < q) ⊎ (q + 9 ≤ a) → get8 (after m q b) a ≡ get8 m a
after-elsewhere m q b a off = elim (Bool-cases (b.tagged || b.free)) [
  | inl kept ↦ rw kept
  | inr gone ↦ rw gone (marked-elsewhere m q a off)
]

after-HeaderAt :
    (m : Mem) (q : ℕ) (b : Block) → HeaderAt m q b → HeaderAt (after m q b) q (released b)
after-HeaderAt m q b h = elim (Bool-cases (b.tagged || b.free)) [
  | inl kept ↦ rw kept h
  | inr gone ↦ rw gone (marked-HeaderAt m q b h)
]

size-released : (b : Block) → (released b).size ≡ b.size
size-released b = ground arith

-- The block that stands at `q`.
block_at :
    (m : Mem) (q p : ℕ) (bs : List Block) (e : ℕ)
    → Chain m p bs e
    → starts q p bs ≡ true
    → (b : Block) × HeaderAt m q b × Chain (after m q b) p (release q p bs) e × (p ≤ q)
unfolding starts release
block_at m q p [] e c at = cc
block_at m q p (b ∷ bs) e (h, c) at = elim (Bool-cases (p == q)) [
  | inl here ↦
      let same : p ≡ q = (==_iff p q).0 here in
      let big = h.holds in
      rw here (
        subst
          (λ x. (y : Block) × HeaderAt m x y × Chain (after m x y) p (released b ∷ bs) e × (p ≤ x))
          same
          (
            b,
            h,
            (
              after-HeaderAt m p b h,
              rw (size-released b) (
                  Chain-Agree m (after m p b) (p + b.size) bs e
                    (λ a lo hi. after-elsewhere m p b a (inr (omega arith))) c),
            ),
            omega arith,
          ))
  | inr other ↦
      let next : starts q (p + b.size) bs ≡ true = rw other at at in
      let (x, hx, cx, le) = block_at m q (p + b.size) bs e c next in
      let big = h.holds in
      rw other (
        x,
        hx,
        (
          HeaderAt-Agree m (after m q x) p (p + 9) b
              (λ a lo hi. after-elsewhere m q x a (inl (omega arith))) (omega arith) h,
          cx,
        ),
        omega arith,
      )
]

-- On a heap in order, `kfree` of the pointer of a block marks that block free, unless its header
-- bears the freed magic or it is free already, and changes the header of no other block.
pub kfree-release :
    (s : State) (bs : List Block) (q : ℕ)
    → IsHeap s bs
    → starts q s.heap_start bs ≡ true
    → IsHeap (kfree (q + 12) s) (release q s.heap_start bs)
kfree-release s bs q h at =
    let (b, hb, c, le) = block_at s.mem q s.heap_start bs _ h.chain at in
    rw (kfree_header s q b hb) (go b (b.tagged || b.free) refl c)
  where
    go :
        (b : Block) (keep : Bool)
        → (b.tagged || b.free) ≡ keep
        → Chain
            (after s.mem q b)
            s.heap_start
            (release q s.heap_start bs)
            (s.heap_start + s.heap_used)
        → IsHeap
            (if b.tagged || b.free then s else record s { mem = marked s.mem q })
            (release q s.heap_start bs)
    go b true e c = rw e (record { started = h.started; bounded = h.bounded; chain = rw e at c })
    go b false e c = rw e (record { started = h.started; bounded = h.bounded; chain = rw e at c })

-- The first free block of `total` bytes bears the freed magic.
unfoldable pub tagged_fit : ℕ → List Block → Bool
tagged_fit total [] = false
tagged_fit total (b ∷ bs) = if fits total b then b.tagged else tagged_fit total bs

tagged_header :
    (m : Mem) (total p q : ℕ) (bs : List Block) (e : ℕ)
    → Chain m p bs e
    → locate total p bs ≡ some q
    → tagged_fit total bs ≡ true
    → (b : Block) × HeaderAt m q b × (b.tagged ≡ true)
unfolding locate tagged_fit
tagged_header m total p q [] e c at t = cc
tagged_header m total p q (b ∷ bs) e (h, c) at t = elim (Bool-cases (fits total b)) [
  | inl hit ↦
      let found : some p ≡ some q = rw hit at at in
      let here : p ≡ q = cc found in (b, rw (← here) h, rw hit at t)
  | inr miss ↦ tagged_header m total (p + b.size) q bs e c (rw miss at at) (rw miss at t)
]

-- A freed block that is taken again keeps the freed magic.
taken-magic :
    (m : Mem) (q size : ℕ) (b : Block)
    → HeaderAt m q b
    → (b.size ≡ size + 12) ⊎ (size + 12 + 9 ≤ b.size)
    → q + b.size < u32_mod
    → load32 (taken m q size) (q + 4) ≡ magic_of b.tagged
taken-magic m q size b h (inl whole) word = (taken-IsHeader m q size b h whole word).magic_at
taken-magic m q size b h (inr room) word = (taken-IsSplit m q size b h room word).0.magic_at

module _ (s : State) (bs : List Block) (size q : ℕ) where
  -- A block that was freed and is allocated again is never given back: when first fit finds a block
  -- with the freed magic, `kmalloc` returns it, and `kfree` of the pointer that it returns changes
  -- nothing.
  pub kfree_reused :
      IsHeap s bs
      → 0 < size
      → s.heap_used + size + 12 < u32_mod
      → locate (size + 12) s.heap_start bs ≡ some q
      → no_sliver (size + 12) bs ≡ true
      → tagged_fit (size + 12) bs ≡ true
      → (r : ℕ × State) × (kmalloc size s ≡ some r) × (r.0 ≡ q + 12) × (kfree r.0 r.1 ≡ r.1)
  unfolding kmalloc finish kfree
  kfree_reused h pos word at room tag =
      let ready : (s.heap_start == 0) ≡ false = ground (arith, h.started) in
      let asked : (size == 0) ≡ false = ground arith in
      let (b, hb, is_tagged) = tagged_header s.mem (size + 12) s.heap_start q bs _ h.chain at tag in
      let t = locate-Target s.mem (size + 12) s.heap_start q bs _ h.chain at room in
      let magic : load32 (taken s.mem q size) (q + 4) ≡ kmalloc_freed_magic =
        taken-magic s.mem q size b hb (rw hb.size_at at t.room)
          (omega (arith, t.inside, hb.size_at, h.started, h.bounded))
        ∙ ap magic_of is_tagged in
      let fits : ltb u32_mod (q + 12 + size) ≡ false =
        ground (arith, t.inside, t.room, h.started, h.bounded) in
      rw (ready, asked, find_free_block-locate s bs size h (omega arith), at, fits)
        ((q + 12, record s { mem = taken s.mem q size }), refl, refl, refused magic)
    where
      refused :
          load32 (taken s.mem q size) (q + 4) ≡ kmalloc_freed_magic
          → kfree (q + 12) (record s { mem = taken s.mem q size })
            ≡ record s { mem = taken s.mem q size }
      refused e =
          let ne : (q + 12 == 0) ≡ false = ground arith in
          let back : q + 12 - 12 ≡ q = omega arith in rw (ne, back, e)
