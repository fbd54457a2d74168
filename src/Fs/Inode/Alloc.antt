-- ===== src/Fs/Inode/Alloc.antt =====
-- `allocate_block`, `free_block` and `allocate_inode` on a disk in order.
use ipo_os.Memory.Laws.{cut-zeros}
use ipo_os.Common.{
  ℕ, zero, suc, ◌+◌, ◌-◌, ◌/◌, ◌≤◌, ◌<◌, ◌≡◌, refl, sym, ap, ◌∙◌, ◌≢◌, inl, inr, Bool, true, false,
  Option, none, some, arith, ltb, ◌==◌, if◌then◌else◌, Bool-cases, lt→ltb, add32, sub32,
}
use ipo_os.Memory.{zeros}
use ipo_os.Fs.{Ata, Fs}
use ipo_os.Fs.Block.{
  IsDisk, content, written, block_write-written, content-written_self, content-written_ne,
}
use native.Mathlib.Decide.{ℕ_discrete}
use ipo_os.Fs.Layout.{IsLaidOut, data_blocks}
use ipo_os.Fs.Inode.{allocate_block_from, allocate_block}
use ipo_os.Fs.Bitmap.Laws.{
  bit_of, bit_set, bitmap_get-bit_of, bitmap_set-bit_set, bit_of-bit_set, bit_in,
}

-- The first of `left` numbers from `i` on at which `taken` is false.
unfoldable pub first_clear : (ℕ → Bool) → ℕ → ℕ → Option ℕ
first_clear taken zero i = none
first_clear taken (suc left) i =
    let rest = first_clear taken left (i + 1) in if taken i then rest else some i

pub first_clear_sound :
    (taken : ℕ → Bool) (left i k : ℕ)
    → first_clear taken left i ≡ some k
    → (i ≤ k) × (k < i + left) × (taken k ≡ false)
unfolding first_clear
first_clear_sound taken zero i k e = cc
first_clear_sound taken (suc left) i k e = elim (Bool-cases (taken i)) [
  | inl busy ↦ ground (arith, first_clear_sound taken left (i + 1) k (rw busy at e))
  | inr clear ↦
      let here : some i ≡ some k = rw clear at e in
      let same : i ≡ k = cc here in (omega arith, omega arith, rw (← same) clear)
]

-- Everything before it is taken.
pub first_clear_least :
    (taken : ℕ → Bool) (left i k j : ℕ)
    → first_clear taken left i ≡ some k
    → i ≤ j
    → j < k
    → taken j ≡ true
unfolding first_clear
first_clear_least taken zero i k j e low high = cc
first_clear_least taken (suc left) i k j e low high = elim (Bool-cases (taken i)) [
  | inl busy ↦ elim (ℕ_discrete i j) [
    | yes same ↦ rw (← same) busy
    | no n ↦ first_clear_least taken left (i + 1) k j (rw busy at e) (omega arith) high
  ]
  | inr clear ↦
      let here : some i ≡ some k = rw clear at e in
      let same : i ≡ k = cc here in absurd (omega arith)
]

-- None: everything is taken.
pub first_clear-none :
    (taken : ℕ → Bool) (left i j : ℕ)
    → first_clear taken left i ≡ none
    → i ≤ j
    → j < i + left
    → taken j ≡ true
unfolding first_clear
first_clear-none taken zero i j e low high = absurd (omega arith)
first_clear-none taken (suc left) i j e low high = elim (Bool-cases (taken i)) [
  | inl busy ↦ elim (ℕ_discrete i j) [
    | yes same ↦ rw (← same) busy
    | no n ↦ first_clear-none taken left (i + 1) j (rw busy at e) (omega arith) (omega arith)
  ]
  | inr clear ↦ let here : some i ≡ none = rw clear at e in cc here
]

module _ {D : Type 0} (ata : Ata D) (disk : IsDisk ata) (s : Fs D)
    (h : IsLaidOut disk.sectors s) where
  -- The state behind the allocation of data block `k`.
  abbrev pub block_taken : ℕ → Fs D
  block_taken k =
      written ata disk (bit_set ata disk s s.sb.block_bitmap_start k true)
        (s.sb.data_blocks_start + k) zeros

  abbrev pub block_outcome : Option ℕ → Option ℕ × Fs D
  block_outcome none = (none, s)
  block_outcome (some k) = (some (s.sb.data_blocks_start + k), block_taken k)

  allocate_block_from-first_clear :
      (left i : ℕ)
      → i + left ≤ data_blocks s.sb
      → allocate_block_from ata left i s
        ≡ block_outcome (first_clear (bit_of ata disk s s.sb.block_bitmap_start) left i)
  unfolding allocate_block_from first_clear
  allocate_block_from-first_clear zero i inside = refl
  allocate_block_from-first_clear (suc left) i inside =
      let low : s.fs_start_lba + (s.sb.block_bitmap_start + i / 4096) < disk.sectors =
        omega (arith, h.block_bits, h.table, h.data_area, h.addresses) in
      let at : add32 s.sb.data_blocks_start i ≡ s.sb.data_blocks_start + i =
        omega (arith, h.addresses) in
      let small : ltb (s.sb.data_blocks_start + i) 0x80000000 ≡ true =
        lt→ltb _ _ (omega (arith, h.addresses)) in
      elim (Bool-cases (bit_of ata disk s s.sb.block_bitmap_start i)) [
        | inl busy ↦
            rw (bitmap_get-bit_of ata disk s s.sb.block_bitmap_start i low, busy)
              (allocate_block_from-first_clear left (i + 1) (omega arith))
        | inr clear ↦ rw (
          bitmap_get-bit_of ata disk s s.sb.block_bitmap_start i low,
          clear,
          bitmap_set-bit_set ata disk s s.sb.block_bitmap_start i low true,
          at,
          block_write-written ata disk (bit_set ata disk s s.sb.block_bitmap_start i true)
              (s.sb.data_blocks_start + i) zeros (omega (arith, h.addresses)),
          small,
        )
      ]

  -- `allocate_block` takes the first data block whose bit is clear: it sets that bit, writes zeros
  -- over the block and returns its number; it fails and changes nothing when every bit is set.
  pub allocate_block-first_clear :
      allocate_block ata s
      ≡ block_outcome (first_clear (bit_of ata disk s s.sb.block_bitmap_start) (data_blocks s.sb) 0)
  unfolding allocate_block
  allocate_block-first_clear =
      let total : sub32 s.sb.fs_size_blocks s.sb.data_blocks_start ≡ data_blocks s.sb =
        omega (arith, h.data_area, h.addresses) in
      rw total (allocate_block_from-first_clear (data_blocks s.sb) 0 (omega arith))

  -- Data block `k` was free in `s` and is the one that `t` has taken, cleared.
  pub record IsTaken (k : ℕ) (t : Fs D) : Type 0 where
    pub inside : k < data_blocks s.sb
    pub was_clear : bit_of ata disk s s.sb.block_bitmap_start k ≡ false
    pub first : (j : ℕ) → j < k → bit_of ata disk s s.sb.block_bitmap_start j ≡ true
    pub bits :
        (j : ℕ)
        → j < data_blocks s.sb
        → bit_of ata disk t s.sb.block_bitmap_start j
          ≡ (if k == j then true else bit_of ata disk s s.sb.block_bitmap_start j)
    pub cleared : content ata disk t (s.sb.data_blocks_start + k) ≡ zeros
    pub others :
        (m : ℕ)
        → m < s.sb.fs_size_blocks
        → m ≢ s.sb.data_blocks_start + k
        → m ≢ s.sb.block_bitmap_start + k / 4096
        → content ata disk t m ≡ content ata disk s m
    pub same_sb : t.sb ≡ s.sb
    pub same_start : t.fs_start_lba ≡ s.fs_start_lba

  pub block_taken-IsTaken :
      (k : ℕ)
      → first_clear (bit_of ata disk s s.sb.block_bitmap_start) (data_blocks s.sb) 0 ≡ some k
      → IsTaken k (block_taken k)
  block_taken-IsTaken k e =
      let (_, below, clear) = first_clear_sound _ (data_blocks s.sb) 0 k e in
      record {
        inside = omega arith;
        was_clear = clear;
        first = λ j lt. first_clear_least _ (data_blocks s.sb) 0 k j e (omega arith) lt;
        bits = λ j lt.
            ap (λ b. bit_in b j)
              (content-written_ne ata disk (bit_set ata disk s s.sb.block_bitmap_start k true)
                (s.sb.data_blocks_start + k) (s.sb.block_bitmap_start + j / 4096) zeros
                (omega (arith, h.addresses)) (low j lt) (omega (arith, h.block_bits, h.table)))
            ∙ bit_of-bit_set ata disk s s.sb.block_bitmap_start k (low k (omega arith)) true j
                (low j lt);
        cleared =
            content-written_self ata disk (bit_set ata disk s s.sb.block_bitmap_start k true)
              (s.sb.data_blocks_start + k) zeros (omega (arith, h.addresses))
            ∙ cut-zeros;
        others = λ m lt a b.
            content-written_ne ata disk (bit_set ata disk s s.sb.block_bitmap_start k true)
              (s.sb.data_blocks_start + k) m zeros (omega (arith, h.addresses))
              (omega (arith, h.addresses)) (λ e. a (sym e))
            ∙ content-written_ne ata disk s (s.sb.block_bitmap_start + k / 4096) m _
                (low k (omega arith)) (omega (arith, h.addresses)) (λ e. b (sym e));
        same_sb = refl;
        same_start = refl;
      }
    where
      low :
          (j : ℕ)
          → j < data_blocks s.sb
          → s.fs_start_lba + (s.sb.block_bitmap_start + j / 4096) < disk.sectors
      low j lt = omega (arith, h.block_bits, h.table, h.data_area, h.addresses)

  -- On a disk in order with the areas laid out, the block that `allocate_block` returns was free and
  -- is the first that was; behind the call its bit is set and no other, it holds zeros, and every
  -- block but it and its block of the bitmap is as it was.
  pub allocate_block-IsTaken :
      (n : ℕ) (t : Fs D)
      → allocate_block ata s ≡ (some n, t)
      → (s.sb.data_blocks_start ≤ n) × IsTaken (n - s.sb.data_blocks_start) t
  allocate_block-IsTaken n t e = go _ refl (sym allocate_block-first_clear ∙ e)
    where
      go :
          (o : Option ℕ)
          → first_clear (bit_of ata disk s s.sb.block_bitmap_start) (data_blocks s.sb) 0 ≡ o
          → block_outcome o ≡ (some n, t)
          → (s.sb.data_blocks_start ≤ n) × IsTaken (n - s.sb.data_blocks_start) t
      go none f q = cc (ap (λ (x : Option ℕ × Fs D). x.0) q)
      go (some k) f q =
          let head : some (s.sb.data_blocks_start + k) ≡ some n =
            ap (λ (x : Option ℕ × Fs D). x.0) q in
          let number : s.sb.data_blocks_start + k ≡ n = cc head in
          let state : block_taken k ≡ t = ap (λ (x : Option ℕ × Fs D). x.1) q in
          let index : k ≡ n - s.sb.data_blocks_start = omega arith in
          (omega arith, rw (← index, ← state) (block_taken-IsTaken k f))
