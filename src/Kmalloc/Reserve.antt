-- ===== src/Kmalloc/Reserve.antt =====
-- Taking and splitting a free block, in memory and on the list.
use ipo_os.Common.{
  ℕ, ◌+◌, ◌-◌, ◌≤◌, ◌<◌, ◌≡◌, refl, ap, ◌∙◌, ◌⊎◌, inl, inr, true, false, ◌||◌, some, List, [], ◌∷◌,
  arith, ltb, leb, ◌==◌, if◌then◌else◌, Bool-cases, ==_iff, length, u32_mod, add32, sub32,
}
use ipo_os.Memory.{Mem, get8, put8, load32, store32, fill}
use ipo_os.Memory.Laws.{
  load32-store32, load32-store32_ne, get8-store32_ne, load32-put8_ne, get8-put8_ne, get8-put8_self,
  get8-fill_ne, load32-fill_ne,
}
use ipo_os.Kmalloc.{take_block, split_block, kmalloc_magic}
use ipo_os.Kmalloc.Blocks.{
  Block, Chain, HeaderAt, Chain-le, Chain-Agree, HeaderAt-Agree, locate, reserve, no_sliver,
  Chain-le, Chain-Agree, HeaderAt-Agree, fits,
}

-- `take_block` and the `memset` behind it.
abbrev pub taken : Mem → ℕ → ℕ → Mem
taken m p size = fill (take_block m p size) (p + 12) 0 size

module _ (m : Mem) (p size : ℕ) where
  pub taken_exact :
      size + 12 < u32_mod
      → load32 m p ≡ size + 12
      → taken m p size ≡ fill (put8 m (p + 8) 0) (p + 12) 0 size
  unfolding take_block
  taken_exact word e =
      let total : add32 size 12 ≡ size + 12 = omega arith in
      let no_split : ltb (size + 12) (size + 12) ≡ false = ground arith in rw (total, e, no_split)

  pub taken_split :
      (z : ℕ)
      → load32 m p ≡ z
      → size + 12 < z
      → p + z < u32_mod
      → taken m p size
        ≡ fill
            (put8
              (store32
                (put8
                  (store32
                    (store32 m (p + (size + 12)) (z - (size + 12)))
                    (p + (size + 12) + 4)
                    kmalloc_magic)
                  (p + (size + 12) + 8)
                  1)
                p
                (size + 12))
              (p + 8)
              0)
            (p + 12)
            0
            size
  unfolding take_block split_block
  taken_split z e less word =
      let total : add32 size 12 ≡ size + 12 = omega arith in
      let rest : add32 p (size + 12) ≡ p + (size + 12) = omega arith in
      let left : sub32 z (size + 12) ≡ z - (size + 12) = omega arith in
      let split : ltb (size + 12) z ≡ true = ground arith in
      let more : leb z (size + 12) ≡ false = ground arith in rw (total, e, split, rest, more, left)

  -- Only bytes of the block are written.
  pub taken-elsewhere :
      (z a : ℕ)
      → load32 m p ≡ z
      → (z ≡ size + 12) ⊎ (size + 12 + 9 ≤ z)
      → p + z < u32_mod
      → (a < p) ⊎ (p + z ≤ a)
      → get8 (taken m p size) a ≡ get8 m a
  taken-elsewhere z a e (inl whole) word off =
      ap (λ (n : Mem). get8 n a) (taken_exact (omega arith) (e ∙ whole))
      ∙ get8-fill_ne _ (p + 12) 0 size a (omega arith)
      ∙ get8-put8_ne m (p + 8) 0 a (omega arith)
  taken-elsewhere z a e (inr room) word off =
      ap (λ (n : Mem). get8 n a) (taken_split z e (omega arith) word)
      ∙ get8-fill_ne _ (p + 12) 0 size a (omega arith)
      ∙ get8-put8_ne _ (p + 8) 0 a (omega arith)
      ∙ get8-store32_ne _ p (size + 12) a (omega arith)
      ∙ get8-put8_ne _ (p + (size + 12) + 8) 1 a (omega arith)
      ∙ get8-store32_ne _ (p + (size + 12) + 4) kmalloc_magic a (omega arith)
      ∙ get8-store32_ne m (p + (size + 12)) (z - (size + 12)) a (omega arith)

  pub taken-IsHeader :
      (b : Block)
      → HeaderAt m p b
      → b.size ≡ size + 12
      → p + b.size < u32_mod
      → HeaderAt (taken m p size) p (record b { free = false })
  taken-IsHeader b h whole word = rw (taken_exact (omega arith) (h.size_at ∙ whole)) (record {
    size_at =
        load32-fill_ne _ (p + 12) 0 size p (omega arith)
        ∙ load32-put8_ne m (p + 8) 0 p (omega arith)
        ∙ h.size_at;
    magic_at =
        load32-fill_ne _ (p + 12) 0 size (p + 4) (omega arith)
        ∙ load32-put8_ne m (p + 8) 0 (p + 4) (omega arith)
        ∙ h.magic_at;
    free_at = get8-fill_ne _ (p + 12) 0 size (p + 8) (omega arith) ∙ get8-put8_self m (p + 8) 0;
    holds = h.holds;
  })

  pub taken-IsSplit :
      (b : Block)
      → HeaderAt m p b
      → size + 12 + 9 ≤ b.size
      → p + b.size < u32_mod
      → HeaderAt (taken m p size) p (record b { size = size + 12; free = false })
        × HeaderAt
            (taken m p size)
            (p + (size + 12))
            (record { size = b.size - (size + 12); tagged = false; free = true })
  taken-IsSplit b h room word = rw (taken_split b.size h.size_at (omega arith) word) (
    record {
      size_at =
          load32-fill_ne _ (p + 12) 0 size p (omega arith)
          ∙ load32-put8_ne _ (p + 8) 0 p (omega arith)
          ∙ load32-store32 _ p (size + 12)
          ∙ omega arith;
      magic_at =
          load32-fill_ne _ (p + 12) 0 size (p + 4) (omega arith)
          ∙ load32-put8_ne _ (p + 8) 0 (p + 4) (omega arith)
          ∙ load32-store32_ne _ p (size + 12) (p + 4) (omega arith)
          ∙ load32-put8_ne _ (p + (size + 12) + 8) 1 (p + 4) (omega arith)
          ∙ load32-store32_ne _ (p + (size + 12) + 4) kmalloc_magic (p + 4) (omega arith)
          ∙ load32-store32_ne m (p + (size + 12)) (b.size - (size + 12)) (p + 4) (omega arith)
          ∙ h.magic_at;
      free_at = get8-fill_ne _ (p + 12) 0 size (p + 8) (omega arith) ∙ get8-put8_self _ (p + 8) 0;
      holds = omega arith;
    },
    record {
      size_at =
          load32-fill_ne _ (p + 12) 0 size (p + (size + 12)) (omega arith)
          ∙ load32-put8_ne _ (p + 8) 0 (p + (size + 12)) (omega arith)
          ∙ load32-store32_ne _ p (size + 12) (p + (size + 12)) (omega arith)
          ∙ load32-put8_ne _ (p + (size + 12) + 8) 1 (p + (size + 12)) (omega arith)
          ∙ load32-store32_ne _ (p + (size + 12) + 4) kmalloc_magic (p + (size + 12)) (omega arith)
          ∙ load32-store32 m (p + (size + 12)) (b.size - (size + 12))
          ∙ omega arith;
      magic_at =
          load32-fill_ne _ (p + 12) 0 size (p + (size + 12) + 4) (omega arith)
          ∙ load32-put8_ne _ (p + 8) 0 (p + (size + 12) + 4) (omega arith)
          ∙ load32-store32_ne _ p (size + 12) (p + (size + 12) + 4) (omega arith)
          ∙ load32-put8_ne _ (p + (size + 12) + 8) 1 (p + (size + 12) + 4) (omega arith)
          ∙ load32-store32 _ (p + (size + 12) + 4) kmalloc_magic;
      free_at =
          get8-fill_ne _ (p + 12) 0 size (p + (size + 12) + 8) (omega arith)
          ∙ get8-put8_ne _ (p + 8) 0 (p + (size + 12) + 8) (omega arith)
          ∙ get8-store32_ne _ p (size + 12) (p + (size + 12) + 8) (omega arith)
          ∙ get8-put8_self _ (p + (size + 12) + 8) 1;
      holds = omega arith;
    },
  )

-- The case of `taken-reserve` where the block is the first of the row.
taken_here :
    (m : Mem) (size p : ℕ) (b : Block) (bs : List Block) (e : ℕ)
    → HeaderAt m p b
    → Chain m (p + b.size) bs e
    → e < u32_mod
    → p + b.size + length bs ≤ e
    → ((b.size == (size + 12)) || leb (size + 12 + 9) b.size) ≡ true
    → Chain
        (taken m p size)
        p
        (if b.size == (size + 12)
          then record b { free = false } ∷ bs
          else (record b { size = size + 12; free = false }
              ∷ (record { size = b.size - (size + 12); tagged = false; free = true } ∷ bs)))
        e
taken_here m size p b bs e h c word le fine = elim (Bool-cases (b.size == (size + 12))) [
  | inl same ↦
      let whole : b.size ≡ size + 12 = (==_iff _ _).0 same in
      rw same (
        taken-IsHeader m p size b h whole (omega arith),
        Chain-Agree m (taken m p size) (p + b.size) bs e
            (λ a lo hi.
              taken-elsewhere m p size b.size a h.size_at (inl whole) (omega arith) (inr lo))
            c,
      )
  | inr other ↦
      let room : size + 12 + 9 ≤ b.size = ground arith in
      let (first, second) = taken-IsSplit m p size b h room (omega arith) in
      let next : p + (size + 12) + (b.size - (size + 12)) ≡ p + b.size = omega arith in
      rw other (
        first,
        (
          second,
          rw next (
              Chain-Agree m (taken m p size) (p + b.size) bs e
                (λ a lo hi.
                  taken-elsewhere m p size b.size a h.size_at (inr room) (omega arith) (inr lo))
                c),
        ),
      )
]

-- What is known of the block that `locate` finds.
pub record Target (m : Mem) (total p q e : ℕ) : Type 0 where
  pub above : p ≤ q
  pub inside : q + load32 m q ≤ e
  pub room : (load32 m q ≡ total) ⊎ (total + 9 ≤ load32 m q)

pub locate-Target :
    (m : Mem) (total p q : ℕ) (bs : List Block) (e : ℕ)
    → Chain m p bs e
    → locate total p bs ≡ some q
    → no_sliver total bs ≡ true
    → Target m total p q e
unfolding locate no_sliver
locate-Target m total p q [] e c at room = cc
locate-Target m total p q (b ∷ bs) e (h, c) at room = elim (Bool-cases (fits total b)) [
  | inl hit ↦
      let found : some p ≡ some q = rw hit at at in
      let here : p ≡ q = cc found in
      let le = Chain-le m (p + b.size) bs e c in
      let fine : ((b.size == total) || leb (total + 9) b.size) ≡ true = rw hit at room in
      rw (← here) (record {
        above = omega arith;
        inside = omega (arith, h.size_at);
        room = rw h.size_at (sizes b.size total fine);
      })
  | inr miss ↦
      let t = locate-Target m total (p + b.size) q bs e c (rw miss at at) (rw miss at room) in
      record { above = omega (arith, t.above); inside = t.inside; room = t.room }
]
  where
    sizes : (z t : ℕ) → ((z == t) || leb (t + 9) z) ≡ true → (z ≡ t) ⊎ (t + 9 ≤ z)
    sizes z t h = ground arith

-- Taking the first block that fits keeps the row of blocks in order, and makes of it the list that
-- `reserve` makes.
pub taken-reserve :
    (m : Mem) (size p q : ℕ) (bs : List Block) (e : ℕ)
    → Chain m p bs e
    → e < u32_mod
    → locate (size + 12) p bs ≡ some q
    → no_sliver (size + 12) bs ≡ true
    → Chain (taken m q size) p (reserve (size + 12) bs) e
unfolding locate reserve no_sliver
taken-reserve m size p q [] e c word at room = cc
taken-reserve m size p q (b ∷ bs) e (h, c) word at room = elim (Bool-cases (fits (size + 12) b)) [
  | inl hit ↦
      let found : some p ≡ some q = rw hit at at in
      let here : p ≡ q = cc found in
      let fine : ((b.size == (size + 12)) || leb (size + 12 + 9) b.size) ≡ true = rw hit at room in
      let le = Chain-le m (p + b.size) bs e c in
      rw (hit, ← here) (taken_here m size p b bs e h c word le fine)
  | inr miss ↦
      let at' : locate (size + 12) (p + b.size) bs ≡ some q = rw miss at at in
      let room' : no_sliver (size + 12) bs ≡ true = rw miss at room in
      let t = locate-Target m (size + 12) (p + b.size) q bs e c at' room' in
      rw miss (
        HeaderAt-Agree m (taken m q size) p (p + 9) b
            (λ a lo hi.
              taken-elsewhere m q size (load32 m q) a refl t.room (omega (arith, t.inside))
                (inl (omega (arith, t.above, h.holds))))
            (omega arith) h,
        taken-reserve m size (p + b.size) q bs e c word at' room',
      )
]
