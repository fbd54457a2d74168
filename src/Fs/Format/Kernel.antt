-- ===== src/Fs/Format/Kernel.antt =====
-- The disk that the kernel formats.
use ipo_os.Common.{◌≡◌, refl, some}
use ipo_os.Fs.{Superblock}
use ipo_os.Fs.Dir.{text}
use ipo_os.Fs.Format.{
  plan, settle, data_blocks_left, inode_bitmap_blocks, inode_table_blocks, ipo_fs_magic_str,
}

-- The plan of the disk that the kernel formats: 10000 blocks and 1024 inodes.
abbrev pub kernel_disk : Superblock
kernel_disk = record {
  magic = text ipo_fs_magic_str;
  fs_size_blocks = 10000;
  block_size = 512;
  inode_count = 1024;
  inode_bitmap_start = 1;
  block_bitmap_start = 2;
  inode_table_start = 5;
  data_blocks_start = 157;
}

pub kernel_plan : plan 10000 1024 ≡ some kernel_disk
unfolding plan settle data_blocks_left inode_bitmap_blocks inode_table_blocks
kernel_plan = refl
