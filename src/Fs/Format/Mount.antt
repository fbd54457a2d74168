-- ===== src/Fs/Format/Mount.antt =====
-- The superblock on the disk, and mounting.
use ipo_os.Common.{
  ℕ, ◌+◌, ◌≤◌, ◌<◌, ◌≡◌, refl, ap, ◌∙◌, inl, true, some, arith, ◌==◌, ==_iff, u32_mod,
}
use ipo_os.Memory.{cut, Mem, get8, load32, store32, blit, zeros}
use ipo_os.Memory.Laws.{
  load32-cut, load32-store32, load32-store32_ne, get8-store32_ne, get8-blit_in,
}
use ipo_os.Fs.{Ata, Fs, Superblock}
use ipo_os.Fs.Block.{sector_bytes, IsDisk, content, block_read-content}
use ipo_os.Common.Int.{pos}
use ipo_os.CString.{strncmp}
use ipo_os.CString.Compare.{strncmp-same}
use ipo_os.Fs.Dir.{text}
use ipo_os.Fs.Format.{superblock_bytes, superblock_of, ipo_fs_mount, ipo_fs_magic_str}

-- The numbers of a superblock fit their words.
pub record IsWords (sb : Superblock) : Type 0 where
  pub fs_size_blocks : sb.fs_size_blocks < u32_mod
  pub block_size : sb.block_size < u32_mod
  pub inode_count : sb.inode_count < u32_mod
  pub inode_bitmap_start : sb.inode_bitmap_start < u32_mod
  pub block_bitmap_start : sb.block_bitmap_start < u32_mod
  pub inode_table_start : sb.inode_table_start < u32_mod
  pub data_blocks_start : sb.data_blocks_start < u32_mod

-- Equal magic bytes and numbers.
pub record IsSame (a b : Superblock) : Type 0 where
  pub magic : (i : ℕ) → i < 8 → get8 a.magic i ≡ get8 b.magic i
  pub fs_size_blocks : a.fs_size_blocks ≡ b.fs_size_blocks
  pub block_size : a.block_size ≡ b.block_size
  pub inode_count : a.inode_count ≡ b.inode_count
  pub inode_bitmap_start : a.inode_bitmap_start ≡ b.inode_bitmap_start
  pub block_bitmap_start : a.block_bitmap_start ≡ b.block_bitmap_start
  pub inode_table_start : a.inode_table_start ≡ b.inode_table_start
  pub data_blocks_start : a.data_blocks_start ≡ b.data_blocks_start

-- The word at `q`, below the last word stored.
behind : (m : Mem) (p v q w : ℕ) → q + 4 ≤ p → load32 m q ≡ w → load32 (store32 m p v) q ≡ w
behind m p v q w apart e = load32-store32_ne m p v q (inl apart) ∙ e

last : (m : Mem) (p v : ℕ) → v < u32_mod → load32 (store32 m p v) p ≡ v
last m p v lt = load32-store32 m p v ∙ omega arith

-- A superblock is read back as it was written, whatever stands behind it in the sector.
pub superblock_of-superblock_bytes :
    (sb : Superblock) (junk : Mem)
    → IsWords sb
    → IsSame (superblock_of (superblock_bytes sb junk)) sb
unfolding superblock_of superblock_bytes
superblock_of-superblock_bytes sb junk w = record {
  magic = λ i lt. magic_lem i lt;
  fs_size_blocks = behind _ 32 sb.data_blocks_start 8 sb.fs_size_blocks (omega arith) (
      behind _ 28 sb.inode_table_start 8 sb.fs_size_blocks (omega arith) (
        behind _ 24 sb.block_bitmap_start 8 sb.fs_size_blocks (omega arith) (
          behind _ 20 sb.inode_bitmap_start 8 sb.fs_size_blocks (omega arith) (
            behind _ 16 sb.inode_count 8 sb.fs_size_blocks (omega arith) (
              behind _ 12 sb.block_size 8 sb.fs_size_blocks (omega arith)
                (last _ 8 sb.fs_size_blocks w.fs_size_blocks))))));
  block_size = behind _ 32 sb.data_blocks_start 12 sb.block_size (omega arith) (
      behind _ 28 sb.inode_table_start 12 sb.block_size (omega arith) (
        behind _ 24 sb.block_bitmap_start 12 sb.block_size (omega arith) (
          behind _ 20 sb.inode_bitmap_start 12 sb.block_size (omega arith) (
            behind _ 16 sb.inode_count 12 sb.block_size (omega arith)
              (last _ 12 sb.block_size w.block_size)))));
  inode_count = behind _ 32 sb.data_blocks_start 16 sb.inode_count (omega arith) (
      behind _ 28 sb.inode_table_start 16 sb.inode_count (omega arith) (
        behind _ 24 sb.block_bitmap_start 16 sb.inode_count (omega arith) (
          behind _ 20 sb.inode_bitmap_start 16 sb.inode_count (omega arith)
            (last _ 16 sb.inode_count w.inode_count))));
  inode_bitmap_start = behind _ 32 sb.data_blocks_start 20 sb.inode_bitmap_start (omega arith) (
      behind _ 28 sb.inode_table_start 20 sb.inode_bitmap_start (omega arith) (
        behind _ 24 sb.block_bitmap_start 20 sb.inode_bitmap_start (omega arith)
          (last _ 20 sb.inode_bitmap_start w.inode_bitmap_start)));
  block_bitmap_start = behind _ 32 sb.data_blocks_start 24 sb.block_bitmap_start (omega arith) (
      behind _ 28 sb.inode_table_start 24 sb.block_bitmap_start (omega arith)
        (last _ 24 sb.block_bitmap_start w.block_bitmap_start));
  inode_table_start =
      behind _ 32 sb.data_blocks_start 28 sb.inode_table_start (omega arith)
        (last _ 28 sb.inode_table_start w.inode_table_start);
  data_blocks_start = last _ 32 sb.data_blocks_start w.data_blocks_start;
}
  where
    magic_lem :
        (i : ℕ) → i < 8 → get8 (blit zeros 0 (superblock_bytes sb junk) 0 8) i ≡ get8 sb.magic i
    magic_lem i lt =
        ap (get8 (blit zeros 0 (superblock_bytes sb junk) 0 8)) (omega arith)
        ∙ get8-blit_in zeros 0 (superblock_bytes sb junk) 0 8 i lt
        ∙ ap (get8 (superblock_bytes sb junk)) (omega arith)
        ∙ get8-store32_ne _ 32 sb.data_blocks_start i (omega arith)
        ∙ get8-store32_ne _ 28 sb.inode_table_start i (omega arith)
        ∙ get8-store32_ne _ 24 sb.block_bitmap_start i (omega arith)
        ∙ get8-store32_ne _ 20 sb.inode_bitmap_start i (omega arith)
        ∙ get8-store32_ne _ 16 sb.inode_count i (omega arith)
        ∙ get8-store32_ne _ 12 sb.block_size i (omega arith)
        ∙ get8-store32_ne _ 8 sb.fs_size_blocks i (omega arith)
        ∙ ap (get8 (blit junk 0 sb.magic 0 8)) (omega arith)
        ∙ get8-blit_in junk 0 sb.magic 0 8 i lt
        ∙ ap (get8 sb.magic) (omega arith)

magic_lem :
    (m : Mem) (i : ℕ) → i < 8 → get8 (blit zeros 0 (cut m) 0 8) i ≡ get8 (blit zeros 0 m 0 8) i
unfolding get8 blit cut
magic_lem m i lt = ground arith

-- A superblock that is read from a sector.
superblock_of-cut :
    (m : Mem) (sb : Superblock) → IsSame (superblock_of m) sb → IsSame (superblock_of (cut m)) sb
unfolding superblock_of
superblock_of-cut m sb same = record {
  magic = λ i lt. magic_lem m i lt ∙ same.magic i lt;
  fs_size_blocks = load32-cut m 8 (omega arith) ∙ same.fs_size_blocks;
  block_size = load32-cut m 12 (omega arith) ∙ same.block_size;
  inode_count = load32-cut m 16 (omega arith) ∙ same.inode_count;
  inode_bitmap_start = load32-cut m 20 (omega arith) ∙ same.inode_bitmap_start;
  block_bitmap_start = load32-cut m 24 (omega arith) ∙ same.block_bitmap_start;
  inode_table_start = load32-cut m 28 (omega arith) ∙ same.inode_table_start;
  data_blocks_start = load32-cut m 32 (omega arith) ∙ same.data_blocks_start;
}

module _ {D : Type 0} (ata : Ata D) (disk : IsDisk ata) where
  pub ipo_fs_mount-superblock :
      (s : Fs D) (lba : ℕ) (sb : Superblock) (junk : Mem)
      → lba < disk.sectors
      → sector_bytes (disk.sector s.disk lba) ≡ cut (superblock_bytes sb junk)
      → IsWords sb
      → ((i : ℕ) → i < 8 → get8 sb.magic i ≡ get8 (text ipo_fs_magic_str) i)
      → sb.block_size ≡ 512
      → (t : Fs D) × (ipo_fs_mount ata lba s ≡ (some tt, t))
        × (t.fs_mounted ≡ true)
        × (t.fs_start_lba ≡ lba)
        × (t.disk ≡ s.disk)
        × IsSame t.sb sb
  unfolding ipo_fs_mount
  ipo_fs_mount-superblock s lba sb junk low on_disk w magic size =
      let ready : Fs D = record s { fs_start_lba = lba } in
      let got : content ata disk ready 0 ≡ cut (superblock_bytes sb junk) =
        ap (λ k. sector_bytes (disk.sector s.disk k)) (omega arith) ∙ on_disk in
      let same = superblock_of-cut _ _ (superblock_of-superblock_bytes sb junk w) in
      let good : strncmp (superblock_of (cut (superblock_bytes sb junk))).magic 0
            (text ipo_fs_magic_str) 0 6
          ≡ pos 0 =
        strncmp-same (superblock_of (cut (superblock_bytes sb junk))).magic 0
          (text ipo_fs_magic_str) 0 6
          (λ i lt. same.magic (0 + i) (omega arith) ∙ magic (0 + i) (omega arith)) in
      let sized : ((superblock_of (cut (superblock_bytes sb junk))).block_size == 512) ≡ true =
        (==_iff _ _).1 (same.block_size ∙ size) in
      rw (block_read-content ata disk ready 0 (omega arith), got, good, sized)
        (
          record ready { sb = superblock_of (cut (superblock_bytes sb junk)); fs_mounted = true },
          refl,
          refl,
          refl,
          refl,
          same,
        )
