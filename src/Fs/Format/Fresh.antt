-- ===== src/Fs/Format/Fresh.antt =====
-- The bitmaps while `ipo_fs_format` makes the first files: the numbers that are taken are those below
-- the next one. The state is that of a file system `b` whose disk is `d`.
use ipo_os.Common.{
  arith, ℕ, zero, suc, ◌+◌, ◌-◌, ◌/◌, ◌^◌, ◌≤◌, ◌<◌, ◌≡◌, ◌≢◌, refl, sym, ap, ◌∙◌, inl, inr, Bool,
  true, false, some, ltb, ◌==◌, if◌then◌else◌, Bool-cases, lt→ltb,
}
use ipo_os.Memory.{Mem, zeros}
use ipo_os.Fs.{Ata, Fs, Inode}
use ipo_os.Fs.Block.{IsDisk, content-written_ne}
use ipo_os.Fs.Layout.{IsLaidOut, InTable, data_blocks}
use ipo_os.Fs.Inode.{write_inode, allocate_block, allocate_inode_from, allocate_inode}
use ipo_os.Fs.Inode.Alloc.{
  first_clear, allocate_block-first_clear, block_taken-IsTaken, block_outcome,
}
use ipo_os.Fs.Inode.Table.{inode_set, write_inode-inode_set}
use ipo_os.Fs.Bitmap.Laws.{
  bit_in, bit_of, bit_set, bitmap_get-bit_of, bitmap_set-bit_set, bit_of-bit_set,
}
use ipo_os.Fs.File.Owned.{on, block, taken, data_at, put, laid, block-put_ne}
use ipo_os.Fs.File.Placing.{allocated}

first_clear-below :
    (free : ℕ → Bool) (left i k : ℕ)
    → ((j : ℕ) → i ≤ j → j < i + left → free j ≡ ltb j k)
    → i ≤ k
    → k < i + left
    → first_clear free left i ≡ some k
unfolding first_clear
first_clear-below free zero i k same from below = absurd (omega arith)
first_clear-below free (suc left) i k same from below = elim (Bool-cases (ltb i k)) [
  | inl busy ↦
      let here : free i ≡ true = same i (omega arith) (omega arith) ∙ busy in
      rw here (
        first_clear-below free left (i + 1) k (λ j a z. same j (omega arith) (omega arith))
          (ground arith) (omega arith))
  | inr clear ↦
      let here : free i ≡ false = same i (omega arith) (omega arith) ∙ clear in
      let same_number : i ≡ k = ground arith in rw here (ap some same_number)
]

module _ {D : Type 0} (ata : Ata D) (disk : IsDisk ata) (b : Fs D)
    (h : IsLaidOut disk.sectors b) where
  abbrev at : D → Fs D
  at d = on ata disk b d

  -- Whether inode `j + 1` is taken.
  abbrev pub inode_taken : D → ℕ → Bool
  inode_taken d j = bit_of ata disk (on ata disk b d) b.sb.inode_bitmap_start j

  -- The first `k` data blocks and the first `n` inodes are taken, and no other.
  pub record IsFresh (k n : ℕ) (d : D) : Type 0 where
    pub blocks : (j : ℕ) → j < data_blocks b.sb → taken ata disk b d j ≡ ltb j k
    pub inodes : (j : ℕ) → j < b.sb.inode_count → inode_taken d j ≡ ltb j n

  pub IsFresh-same :
      (k n : ℕ) (d d' : D)
      → ((m : ℕ)
          → m < b.sb.inode_table_start
          → 1 ≤ m
          → block ata disk b d' m ≡ block ata disk b d m)
      → IsFresh k n d
      → IsFresh k n d'
  IsFresh-same k n d d' same f = record {
    blocks = λ j lt.
        ap (λ x. bit_in x j)
          (same (b.sb.block_bitmap_start + j / 4096) (omega (arith, h.block_bits))
            (omega (arith, h.inode_bits)))
        ∙ f.blocks j lt;
    inodes = λ j lt.
        ap (λ x. bit_in x j)
          (same (b.sb.inode_bitmap_start + j / 4096) (omega (arith, h.block_bits, h.inode_bits))
            (omega (arith, h.super)))
        ∙ f.inodes j lt;
  }

  -- A write behind the bitmaps leaves them as they are.
  pub IsFresh-put :
      (k n : ℕ) (d : D) (m : ℕ) (buf : Mem)
      → b.sb.inode_table_start ≤ m
      → m < b.sb.fs_size_blocks
      → IsFresh k n d
      → IsFresh k n (put ata disk b d m buf)
  IsFresh-put k n d m buf above lt f =
      IsFresh-same k n d (put ata disk b d m buf)
        (λ x below some_block.
          block-put_ne ata disk b h d m x buf lt (omega (arith, h.table, h.data_area))
            (omega arith))
        f

  -- The disk behind `write_inode`.
  abbrev pub put_inode : D → ℕ → Inode → D
  put_inode d i n = (inode_set ata disk (on ata disk b d) i n).disk

  pub write_inode-put_inode :
      (d : D) (i : ℕ) (n : Inode)
      → InTable b.sb i
      → write_inode ata i n (at d) ≡ (some tt, at (put_inode d i n))
  write_inode-put_inode d i n here =
      write_inode-inode_set ata disk (at d) (laid ata disk b h d) i here n

  pub IsFresh-put_inode :
      (k n : ℕ) (d : D) (i : ℕ) (inode : Inode)
      → InTable b.sb i
      → IsFresh k n d
      → IsFresh k n (put_inode d i inode)
  IsFresh-put_inode k n d i inode here f =
      IsFresh-put k n d (b.sb.inode_table_start + (i - 1) / 6) _ (omega arith)
        (omega (arith, here.inside, h.data_area)) f

  module _ (k n : ℕ) (d : D) (f : IsFresh k n d) where
    -- The next block.
    first_block :
        k < data_blocks b.sb → first_clear (taken ata disk b d) (data_blocks b.sb) 0 ≡ some k
    first_block lt =
        first_clear-below (taken ata disk b d) (data_blocks b.sb) 0 k
          (λ j from below. f.blocks j (omega arith)) (omega arith) (omega arith)

    pub allocate_block-allocated :
        k < data_blocks b.sb
        → allocate_block ata (at d) ≡ (some (data_at ata disk b k), at (allocated ata disk b h d k))
    allocate_block-allocated lt =
        allocate_block-first_clear ata disk (at d) (laid ata disk b h d)
        ∙ ap (block_outcome ata disk (at d) (laid ata disk b h d)) (first_block lt)

    pub block-allocated :
        k < data_blocks b.sb
        → (m : ℕ) → m < b.sb.fs_size_blocks
        → m ≢ data_at ata disk b k
        → m ≢ b.sb.block_bitmap_start + k / 4096
        → block ata disk b (allocated ata disk b h d k) m ≡ block ata disk b d m
    block-allocated lt m below ne ne' =
        (block_taken-IsTaken ata disk (at d) (laid ata disk b h d) k (first_block lt)).others m
          below ne ne'

    pub IsFresh-allocated : k < data_blocks b.sb → IsFresh (k + 1) n (allocated ata disk b h d k)
    IsFresh-allocated lt =
        let t = block_taken-IsTaken ata disk (at d) (laid ata disk b h d) k (first_block lt) in
        record {
          blocks = λ j below.
              t.bits j below
              ∙ ap (λ (x : Bool). if k == j then true else x) (f.blocks j below)
              ∙ next j;
          inodes = λ j below.
              ap (λ x. bit_in x j)
                (block-allocated lt (b.sb.inode_bitmap_start + j / 4096)
                  (omega (arith, h.inode_bits, h.block_bits, h.table, h.data_area))
                  (omega (arith, h.inode_bits, h.block_bits, h.table))
                  (omega (arith, h.inode_bits)))
              ∙ f.inodes j below;
        }
      where
        next : (j : ℕ) → (if k == j then true else ltb j k) ≡ ltb j (k + 1)
        next j = ground arith

    -- The disk behind the bit of inode `n + 1`, and behind `allocate_inode`.
    abbrev pub numbered : D
    numbered = (bit_set ata disk (at d) b.sb.inode_bitmap_start n true).disk

    abbrev pub with_new_inode : D
    with_new_inode = put_inode numbered (n + 1) zeros

    bit_low :
        (j : ℕ)
        → j < b.sb.inode_count
        → b.fs_start_lba + (b.sb.inode_bitmap_start + j / 4096) < disk.sectors
    bit_low j lt = omega (arith, h.inode_bits, h.block_bits, h.table, h.data_area, h.addresses)

    module _ (here : InTable b.sb (n + 1)) (small : n + 1 < 2 ^ 31) where
      allocate_inode_from-numbered :
          (left i : ℕ)
          → i ≤ n
          → n < i + left
          → i + left ≤ b.sb.inode_count
          → allocate_inode_from ata left i (at d) ≡ (some (n + 1), at with_new_inode)
      unfolding allocate_inode_from
      allocate_inode_from-numbered zero i from below inside = absurd (omega arith)
      allocate_inode_from-numbered (suc left) i from below inside =
          let read =
            bitmap_get-bit_of ata disk (at d) b.sb.inode_bitmap_start i (bit_low i (omega arith)) in
          let bit = f.inodes i (omega arith) in
          elim (Bool-cases (ltb i n)) [
            | inl busy ↦
                let busy' : inode_taken d i ≡ true = bit ∙ busy in
                rw (read, busy')
                  (allocate_inode_from-numbered left (i + 1) (ground arith) (omega arith)
                    (omega arith))
            | inr clear ↦
                let clear' : inode_taken d i ≡ false = bit ∙ clear in
                let same : i ≡ n = ground arith in
                rw (read, clear')
                  (rw
                    (
                      same,
                      bitmap_set-bit_set ata disk (at d) b.sb.inode_bitmap_start n
                          (bit_low n (omega (arith, here.known))) true,
                      write_inode-put_inode numbered (n + 1) zeros here,
                      lt→ltb (n + 1) 0x80000000 small,
                    )
                    refl)
          ]

      pub allocate_inode-numbered : allocate_inode ata (at d) ≡ (some (n + 1), at with_new_inode)
      unfolding allocate_inode
      allocate_inode-numbered =
          allocate_inode_from-numbered b.sb.inode_count 0 (omega arith) (omega (arith, here.known))
            (omega arith)

      pub block-numbered :
          (m : ℕ)
          → m < b.sb.fs_size_blocks
          → m ≢ b.sb.inode_bitmap_start + n / 4096
          → block ata disk b numbered m ≡ block ata disk b d m
      block-numbered m lt ne =
          content-written_ne ata disk (at d) (b.sb.inode_bitmap_start + n / 4096) m _
            (bit_low n (omega (arith, here.known))) (omega (arith, h.addresses)) (λ e. ne (sym e))

      pub IsFresh-numbered : IsFresh k (n + 1) numbered
      IsFresh-numbered = record {
        blocks = λ j lt.
            ap (λ x. bit_in x j)
              (block-numbered (b.sb.block_bitmap_start + j / 4096)
                (omega (arith, h.block_bits, h.table, h.data_area))
                (omega (arith, h.inode_bits, here.known)))
            ∙ f.blocks j lt;
        inodes = λ j lt.
            bit_of-bit_set ata disk (at d) b.sb.inode_bitmap_start n
              (bit_low n (omega (arith, here.known))) true j (bit_low j lt)
            ∙ ap (λ (x : Bool). if n == j then true else x) (f.inodes j lt)
            ∙ next j;
      }
        where
          next : (j : ℕ) → (if n == j then true else ltb j n) ≡ ltb j (n + 1)
          next j = ground arith

      pub IsFresh-with_new_inode : IsFresh k (n + 1) with_new_inode
      IsFresh-with_new_inode =
          IsFresh-put_inode k (n + 1) numbered (n + 1) zeros here IsFresh-numbered
