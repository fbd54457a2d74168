-- ===== src/Fs/Format/Made.antt =====
-- `ipo_fs_format` from its first write to its last, on a disk in order.
use ipo_os.Common.{
  arith, ℕ, ◌+◌, ◌-◌, ◌≤◌, ◌<◌, ◌≡◌, refl, ap, ◌∙◌, fun_ext, Option, inl, inr, none, some, sub32,
  ltb, Bool-cases,
}
use ipo_os.Memory.{Mem, zeros}
use ipo_os.Fs.{Ata, Fs, Superblock}
use ipo_os.Fs.Block.{IsDisk, written, block_write-written}
use ipo_os.Fs.Layout.{IsLaidOut, InTable}
use ipo_os.Fs.File.Owned.{on, block}
use ipo_os.Common.Action.{Act, modify, and_then, ◌>>◌}
use ipo_os.Fs.Format.{clear_blocks, plan, ipo_fs_format, superblock_bytes}
use ipo_os.Fs.Format.Blank.{clear_blocks-zeros}
use ipo_os.Fs.Format.Complete.{IsMade, blank-IsFresh, first_files, first_files-IsMade}

-- A call that succeeds, and what follows it.
after :
    {S B : Type 0} (m : Act S (Unit {0})) (k : Act S B) (s t : S)
    → m s ≡ (some tt, t)
    → (m >> k) s ≡ k t
after m k s t e = ap (λ r. and_then r (λ _. k)) e

module _ {S B : Type 0} (m n : Act S (Unit {0})) (k : Act S B) where
  then_assoc : (s : S) → (m >> (n >> k)) s ≡ ((m >> n) >> k) s
  then_assoc s = go (m s)
    where
      go :
          (r : Option (Unit {0}) × S)
          → and_then r (λ _. n >> k) ≡ and_then (and_then r (λ _. n)) (λ _. k)
      go (none, t) = refl
      go (some a, t) = refl

-- Three calls that succeed together, and what follows them.
after_three :
    {S B : Type 0} (m n p : Act S (Unit {0})) (k : Act S B) (s t : S)
    → (m >> (n >> p)) s ≡ (some tt, t)
    → (m >> (n >> (p >> k))) s ≡ k t
after_three m n p k s t e =
    ap (λ x. (m >> x) s) (fun_ext (then_assoc n p k))
    ∙ then_assoc m (n >> p) k s
    ∙ after (m >> (n >> p)) k s t e

module _ {D : Type 0} (ata : Ata D) (disk : IsDisk ata) (s : Fs D) (junk tail : Mem)
    (lba total_blocks total_inodes : ℕ) (sb : Superblock)
    (planned : plan total_blocks total_inodes ≡ some sb) where
  -- The state with the new superblock.
  abbrev pub base : Fs D
  base = record s { fs_start_lba = lba; sb = sb }

  -- The state behind the first superblock.
  abbrev begun : Fs D
  begun = written ata disk (record s { fs_start_lba = lba }) 0 (superblock_bytes sb junk)

  abbrev clear_inode_bits : Act (Fs D) (Unit {0})
  clear_inode_bits = clear_blocks ata (sub32 sb.block_bitmap_start 1) 1

  abbrev clear_block_bits : Act (Fs D) (Unit {0})
  clear_block_bits =
      clear_blocks ata (sub32 sb.inode_table_start sb.block_bitmap_start) sb.block_bitmap_start

  abbrev clear_table : Act (Fs D) (Unit {0})
  clear_table =
      clear_blocks ata (sub32 sb.data_blocks_start sb.inode_table_start) sb.inode_table_start

  module _ (h : IsLaidOut disk.sectors base) where
    clears-blank :
        (d : D) × ((clear_inode_bits >> (clear_block_bits >> clear_table)) begun
          ≡ (some tt, record begun { disk = d }))
        × ((m : ℕ) → 1 ≤ m → m < sb.inode_table_start → block ata disk base d m ≡ zeros)
    clears-blank =
        let n1 : sub32 sb.block_bitmap_start 1 ≡ sb.block_bitmap_start - 1 =
          omega (arith, h.inode_bits, h.block_bits, h.table, h.data_area, h.addresses) in
        let n2 : sub32 sb.inode_table_start sb.block_bitmap_start
            ≡ sb.inode_table_start - sb.block_bitmap_start =
          omega (arith, h.block_bits, h.table, h.data_area, h.addresses) in
        let n3 : sub32 sb.data_blocks_start sb.inode_table_start
            ≡ sb.data_blocks_start - sb.inode_table_start =
          omega (arith, h.table, h.data_area, h.addresses) in
        let (d1, e1, c1, o1) =
          clear_blocks-zeros ata disk (sb.block_bitmap_start - 1) 1 begun
            (omega (arith, h.inode_bits, h.block_bits, h.table, h.data_area, h.addresses)) in
        let (d2, e2, c2, o2) =
          clear_blocks-zeros ata disk (sb.inode_table_start - sb.block_bitmap_start)
            sb.block_bitmap_start (record begun { disk = d1 })
            (omega (arith, h.block_bits, h.table, h.data_area, h.addresses)) in
        let (d3, e3, c3, o3) =
          clear_blocks-zeros ata disk (sb.data_blocks_start - sb.inode_table_start)
            sb.inode_table_start (record begun { disk = d2 })
            (omega (arith, h.table, h.data_area, h.addresses)) in
        (
          d3,
          after clear_inode_bits (clear_block_bits >> clear_table) begun _
                (ap (λ n. clear_blocks ata n 1 begun) n1 ∙ e1)
              ∙ after clear_block_bits clear_table (record begun { disk = d1 }) _
                  (ap (λ n. clear_blocks ata n sb.block_bitmap_start (record begun { disk = d1 }))
                      n2
                    ∙ e2)
              ∙ ap (λ n. clear_blocks ata n sb.inode_table_start (record begun { disk = d2 })) n3
              ∙ e3,
          (λ m low below.
              o3 m (omega (arith, h.table, h.data_area, h.addresses)) (inl below)
              ∙ elim (Bool-cases (ltb m sb.block_bitmap_start)) [
                | inl first ↦
                    o2 m (omega (arith, h.table, h.data_area, h.addresses)) (inl (ground arith))
                    ∙ c1 m low (ground arith)
                | inr second ↦ c2 m (ground arith) (ground arith)
              ]),
        )

    module _ (three : InTable sb 3) (some_data : sb.data_blocks_start + 2 ≤ sb.fs_size_blocks) where
      ipo_fs_format_steps :
          (d d' : D)
          → (clear_inode_bits >> (clear_block_bits >> clear_table)) begun
            ≡ (some tt, record begun { disk = d })
          → first_files ata disk base h three some_data tail (on ata disk base d)
            ≡ (some tt, on ata disk base d')
          → ipo_fs_format ata junk tail lba total_blocks total_inodes s
            ≡ (some tt, on ata disk base d')
      unfolding ipo_fs_format
      ipo_fs_format_steps d d' cleared made =
          let e0 =
            block_write-written ata disk (record s { fs_start_lba = lba }) 0
              (superblock_bytes sb junk)
              (omega
                (arith, h.super, h.inode_bits, h.block_bits, h.table, h.data_area, h.addresses)) in
          rw (planned, ipo_fs_format)
            (rw e0 (
              after_three clear_inode_bits clear_block_bits clear_table
                (modify (λ t. record t { sb = sb })
                  >> first_files ata disk base h three some_data tail)
                begun (record begun { disk = d }) cleared
              ∙ made))

      pub ipo_fs_format-IsMade :
          (d : D) × (ipo_fs_format ata junk tail lba total_blocks total_inodes s
            ≡ (some tt, on ata disk base d))
          × IsMade ata disk base h three some_data tail d
      ipo_fs_format-IsMade =
          let (d, cleared, blank) = clears-blank in
          let (d', files, made) =
            first_files-IsMade ata disk base h three some_data tail d
              (blank-IsFresh ata disk base h three some_data d blank) in
          (d', ipo_fs_format_steps d d' cleared files, made)
