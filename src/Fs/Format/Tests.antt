-- ===== src/Fs/Format/Tests.antt =====
-- Formatting and mounting a drive behind the disk driver.
use ipo_os.Common.{arith, ◌≡◌, refl, true, some}
use ipo_os.Memory.{zeros}
use ipo_os.Fs.{Fs, Superblock}
use ipo_os.Fs.Layout.{IsLaidOut}
use ipo_os.Fs.Dir.{text}
use ipo_os.Fs.Format.{
  plan, settle, data_blocks_left, inode_bitmap_blocks, inode_table_blocks, ipo_fs_magic_str,
  ipo_fs_format, ipo_fs_mount,
}
use ipo_os.Fs.Format.Room.{HasRoom, plan-HasRoom}
use ipo_os.Fs.Format.Kernel.{kernel_disk, kernel_plan}
use ipo_os.Fs.Format.Mount.{IsSame}
use ipo_os.Fs.Format.Mounted.{HasFiles, ipo_fs_mount-ipo_fs_format}
use ipo_os.Fs.Tests.{Disk, mounted}
use ipo_os.Fs.Driven.{driven, driven-IsDisk}

-- A disk on which the sizes of the bitmap and of the data go to and fro: 4097 data blocks, 4096 bits.
abbrev short_disk : Superblock
short_disk = record {
  magic = text ipo_fs_magic_str;
  fs_size_blocks = 4102;
  block_size = 512;
  inode_count = 12;
  inode_bitmap_start = 1;
  block_bitmap_start = 2;
  inode_table_start = 3;
  data_blocks_start = 5;
}

short_plan : plan 4102 12 ≡ some short_disk
unfolding plan settle data_blocks_left inode_bitmap_blocks inode_table_blocks
short_plan = refl

plan-HasRoom_example : HasRoom short_disk
plan-HasRoom_example = plan-HasRoom 4102 12 short_disk short_plan (omega arith) (omega arith)

ipo_fs_mount-ipo_fs_format_example :
    (t u : Fs Disk) × (ipo_fs_format driven zeros zeros 2048 10000 1024 mounted ≡ (some tt, t))
    × (ipo_fs_mount driven 2048 t ≡ (some tt, u))
    × (u.fs_mounted ≡ true)
    × IsSame u.sb kernel_disk
    × IsLaidOut driven-IsDisk.sectors u
    × HasFiles driven u
ipo_fs_mount-ipo_fs_format_example =
    ipo_fs_mount-ipo_fs_format driven driven-IsDisk mounted zeros zeros 2048 10000 1024 kernel_disk
      kernel_plan (omega arith) (omega arith) (omega arith) (omega arith) (omega arith)
