-- ===== src/Fs/Format.antt =====
-- `ipo_fs_format` and `ipo_fs_mount` of lib/c/file_system/ipo_api.c. `junk` and `tail` are the memory
-- behind the 36 bytes of the two superblocks, of which a sector's write takes 476 bytes.
pub mod Room
pub mod Fresh
pub mod Root
pub mod Entries
pub mod Progress
pub mod Blank
pub mod Complete
pub mod Laid
pub mod Made
pub mod Mounted
pub mod Kernel
pub mod Layout
pub mod Mount
mod Tests
use ipo_os.Common.{
  ℕ, zero, suc, ◌+◌, ◌-◌, ◌*◌, ◌/◌, ◌%◌, true, ◌||◌, Option, none, some, [], ◌∷◌, ltb, leb, ◌==◌,
  if◌then◌else◌, u32_mod, add32, sub32,
}
use ipo_os.Memory.{Mem, put8, load32, store32, fill, blit, zeros}
use ipo_os.Common.Action.{Act, pure, fail, ◌>>=◌, ◌>>◌, attempt, guard, modify}
use ipo_os.Fs.{
  Ata, Fs, Superblock, ipo_fs_block_size, ipo_inode_type_dir, ipo_inode_type_file,
  ipo_inode_flag_protected, inode_size, with_mode, with_size, with_links, with_direct,
}
use ipo_os.Fs.Block.{block_read, block_write}
use ipo_os.CString.{strncmp}
use ipo_os.Common.Int.{is_zero}
use ipo_os.Fs.Dir.{Name, text, dir_add_entry, dir_entry_size}
use ipo_os.Fs.Bitmap.{bitmap_set}
use ipo_os.Fs.Inode.{write_inode, allocate_inode, allocate_block}

-- IPO_FS_MAGIC_STR.
abbrev pub ipo_fs_magic_str : Name
ipo_fs_magic_str = b'I' ∷ b'P' ∷ b'O' ∷ b'_' ∷ b'F' ∷ b'S' ∷ []

abbrev pub app : Name
app = b'a' ∷ b'p' ∷ b'p' ∷ []

abbrev pub autorun : Name
autorun = b'a' ∷ b'u' ∷ b't' ∷ b'o' ∷ b'r' ∷ b'u' ∷ b'n' ∷ []

-- `(n + d - 1) / d`.
abbrev pub blocks_for : ℕ → ℕ → ℕ
blocks_for n d = add32 n (d - 1) / d

abbrev pub bits_per_block : ℕ
bits_per_block = 4096

unfoldable pub inode_table_blocks : ℕ → ℕ
inode_table_blocks total_inodes = blocks_for (total_inodes * inode_size % u32_mod) ipo_fs_block_size

unfoldable pub inode_bitmap_blocks : ℕ → ℕ
inode_bitmap_blocks total_inodes = blocks_for total_inodes bits_per_block

-- `total_blocks - 1 - inode_bitmap_blocks - block_bitmap_blocks - inode_table_blocks`.
unfoldable pub data_blocks_left : (total_blocks inode_bits block_bits table : ℕ) → ℕ
data_blocks_left total_blocks inode_bits block_bits table =
    sub32 (sub32 (sub32 (sub32 total_blocks 1) inode_bits) block_bits) table

-- The loop that settles the blocks of the block bitmap, `iter` rounds of it.
unfoldable pub settle : (iter total_blocks inode_bits block_bits table : ℕ) → ℕ
settle zero total_blocks inode_bits block_bits table = block_bits
settle (suc iter) total_blocks inode_bits block_bits table =
    let nb =
      blocks_for (data_blocks_left total_blocks inode_bits block_bits table) bits_per_block in
    let rest = settle iter total_blocks inode_bits nb table in
    if nb == block_bits then block_bits else rest

-- The superblock that `ipo_fs_format` computes, or none where it returns false before it writes.
unfoldable pub plan : (total_blocks total_inodes : ℕ) → Option Superblock
plan total_blocks total_inodes =
    let table = inode_table_blocks total_inodes in
    let inode_bits = inode_bitmap_blocks total_inodes in
    let block_bits = settle 8 total_blocks inode_bits 1 table in
    let left = data_blocks_left total_blocks inode_bits block_bits table in
    if ltb total_blocks 10
    then none
    else if (left == 0) || leb 0x80000000 left
    then none
    else some (record {
      magic = text ipo_fs_magic_str;
      fs_size_blocks = total_blocks;
      block_size = ipo_fs_block_size;
      inode_count = total_inodes;
      inode_bitmap_start = 1;
      block_bitmap_start = add32 1 inode_bits;
      inode_table_start = add32 (add32 1 inode_bits) block_bits;
      data_blocks_start = add32 (add32 (add32 1 inode_bits) block_bits) table;
    })

-- `struct ipo_superblock` as bytes, and `memcpy(&sb, buf, sizeof(sb))`.
unfoldable pub superblock_bytes : Superblock → Mem → Mem
superblock_bytes sb junk =
    let head = store32 (store32 (blit junk 0 sb.magic 0 8) 8 sb.fs_size_blocks) 12 sb.block_size in
    let middle = store32 (store32 head 16 sb.inode_count) 20 sb.inode_bitmap_start in
    store32 (store32 (store32 middle 24 sb.block_bitmap_start) 28 sb.inode_table_start) 32
      sb.data_blocks_start

unfoldable pub superblock_of : Mem → Superblock
superblock_of buf = record {
  magic = blit zeros 0 buf 0 8;
  fs_size_blocks = load32 buf 8;
  block_size = load32 buf 12;
  inode_count = load32 buf 16;
  inode_bitmap_start = load32 buf 20;
  block_bitmap_start = load32 buf 24;
  inode_table_start = load32 buf 28;
  data_blocks_start = load32 buf 32;
}

-- An entry of `dots` dots for a directory.
unfoldable pub dots_entry : Mem → ℕ → ℕ → ℕ → Mem
dots_entry buf o ino dots =
    fill (put8 (put8 (store32 buf o ino) (o + 4) ipo_inode_type_dir) (o + 5) dots) (o + 8) b'.' dots

-- The entries `.` and `..` in a block of zeros.
unfoldable pub dots_block : ℕ → ℕ → Mem
dots_block inode_no parent = dots_entry (dots_entry zeros 0 inode_no 1) dir_entry_size parent 2

module _ {D : Type 0} (ata : Ata D) where
  unfoldable pub write_dir_dots : ℕ → ℕ → ℕ → Act (Fs D) (Unit {0})
  write_dir_dots inode_no parent block = do
    attempt (block_write ata block (dots_block inode_no parent))
    pure tt

  -- Zeros over the blocks `start`, `start + 1`, …
  unfoldable pub clear_blocks : (left start : ℕ) → Act (Fs D) (Unit {0})
  clear_blocks zero start = pure tt
  clear_blocks (suc left) start = do block_write ata start zeros; clear_blocks left (add32 start 1)

  -- An inode of a directory with its block of `.` and `..`, whose parent is the root.
  unfoldable pub make_dir : ℕ → ℕ → Act (Fs D) (Unit {0})
  make_dir inode_no mode = do
    let empty = with_links (with_size (with_mode zeros mode) 0) 2
    attempt (write_inode ata inode_no empty)
    block ← allocate_block ata
    write_dir_dots inode_no 1 block
    attempt (write_inode ata inode_no (with_size (with_direct empty 0 block) (dir_entry_size * 2)))
    pure tt

  unfoldable pub ipo_fs_format :
      (junk tail : Mem) → (disk_start_lba total_blocks total_inodes : ℕ) → Act (Fs D) (Unit {0})
  ipo_fs_format junk tail disk_start_lba total_blocks total_inodes =
      elim (plan total_blocks total_inodes) [
        | none ↦ fail
        | some sb ↦ do
          modify (λ s. record s { fs_start_lba = disk_start_lba })
          block_write ata 0 (superblock_bytes sb junk)
          clear_blocks (sub32 sb.block_bitmap_start 1) 1
          clear_blocks (sub32 sb.inode_table_start sb.block_bitmap_start) sb.block_bitmap_start
          clear_blocks (sub32 sb.data_blocks_start sb.inode_table_start) sb.inode_table_start
          modify (λ s. record s { sb = sb })
          attempt (bitmap_set ata sb.inode_bitmap_start 0 true)
          make_dir 1 ipo_inode_type_dir
          app_ino ← allocate_inode ata
          make_dir app_ino (ipo_inode_type_dir + ipo_inode_flag_protected)
          dir_add_entry ata 1 app app_ino ipo_inode_type_dir
          autorun_ino ← allocate_inode ata
          attempt (
              write_inode ata autorun_ino (
                with_links
                  (with_size (with_mode zeros (ipo_inode_type_file + ipo_inode_flag_protected)) 0)
                  1))
          dir_add_entry ata 1 autorun autorun_ino ipo_inode_type_file
          block_write ata 0 (superblock_bytes sb tail)
      ]

  -- The superblock is taken before it is looked at.
  unfoldable pub ipo_fs_mount : ℕ → Act (Fs D) (Unit {0})
  ipo_fs_mount disk_start_lba = do
    modify (λ s. record s { fs_start_lba = disk_start_lba })
    buf ← block_read ata 0
    modify (λ s. record s { sb = superblock_of buf })
    guard (is_zero (strncmp (superblock_of buf).magic 0 (text ipo_fs_magic_str) 0 6))
    guard ((superblock_of buf).block_size == ipo_fs_block_size)
    modify (λ s. record s { fs_mounted = true })
