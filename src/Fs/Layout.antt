-- ===== src/Fs/Layout.antt =====
-- The areas of a mounted file system: superblock, inode bitmap, block bitmap, inode table, data.
use ipo_os.Common.{ℕ, ◌+◌, ◌-◌, ◌/◌, ◌≤◌, ◌<◌}
use ipo_os.Fs.{Fs, Superblock}

abbrev pub data_blocks : Superblock → ℕ
data_blocks sb = sb.fs_size_blocks - sb.data_blocks_start

-- The areas stand in this order, each is large enough, and they lie on a disk of `sectors` sectors.
pub record IsLaidOut {D : Type 0} (sectors : ℕ) (s : Fs D) : Type 0 where
  pub super : 1 ≤ s.sb.inode_bitmap_start
  pub inode_bits : s.sb.inode_bitmap_start + (s.sb.inode_count - 1) / 4096 < s.sb.block_bitmap_start
  pub block_bits : s.sb.block_bitmap_start + (data_blocks s.sb - 1) / 4096 < s.sb.inode_table_start
  pub table : s.sb.inode_table_start ≤ s.sb.data_blocks_start
  pub data_area : s.sb.data_blocks_start ≤ s.sb.fs_size_blocks
  pub addresses : s.fs_start_lba + s.sb.fs_size_blocks ≤ sectors

-- There is an inode `i`, and the block that holds it lies in the inode table. Six inodes go into a
-- block, which is less than the table is planned with, so this is more than a number that there is.
pub record InTable (sb : Superblock) (i : ℕ) : Type 0 where
  pub positive : 0 < i
  pub known : i ≤ sb.inode_count
  pub inside : sb.inode_table_start + (i - 1) / 6 < sb.data_blocks_start
