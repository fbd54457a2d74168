-- ===== src/Boot/Tests.antt =====
-- The start of the kernel on an empty drive, through the disk driver.
use ipo_os.Fs.Driven.{driven, driven-IsDisk}
use ipo_os.Fs.Block.{sector_bytes}
use ipo_os.Common.{arith, ℕ, ◌≡◌, ◌⊎◌, true, false, some, []}
use ipo_os.Memory.{cut, Mem, zeros}
use ipo_os.Fs.{Fs}
use ipo_os.Fs.Layout.{IsLaidOut}
use ipo_os.Fs.Format.Kernel.{kernel_disk}
use ipo_os.Fs.Format.Mounted.{HasFiles}
use ipo_os.Boot.{ensure_fs_mounted}
use ipo_os.Boot.Mounted.{is_superblock, ensure_fs_mounted_lem}

abbrev Disk : Type 0
Disk = ℕ → Mem

abbrev switched_on : Fs Disk
switched_on = record {
  disk = λ k. zeros;
  sb = kernel_disk;
  fs_start_lba = 0;
  fs_mounted = false;
  fds = [];
}

ensure_fs_mounted_lem_example :
    (u : Fs Disk) × (ensure_fs_mounted driven zeros zeros switched_on ≡ (some tt, u))
    × (u.fs_mounted ≡ true)
    × (((is_superblock driven driven-IsDisk (sector_bytes (cut zeros)) ≡ true)
          × (u.disk ≡ λ k. zeros))
        ⊎ ((is_superblock driven driven-IsDisk (sector_bytes (cut zeros)) ≡ false)
            × IsLaidOut driven-IsDisk.sectors u
            × HasFiles driven u))
ensure_fs_mounted_lem_example =
    ensure_fs_mounted_lem driven driven-IsDisk switched_on zeros zeros (omega arith)
