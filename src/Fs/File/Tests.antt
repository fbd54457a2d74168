-- ===== src/Fs/File/Tests.antt =====
-- Writes to a file on a drive behind the disk driver, and the theorems about them at concrete states.
use ipo_os.Common.{true, ◌∷◌, [], ◌==◌, if◌then◌else◌}
use ipo_os.Memory.{Mem, store32, fill, blit, zeros}
use ipo_os.Fs.{Fs, Inode}
use ipo_os.Fs.File.{ipo_fs_write}
use ipo_os.Fs.Tests.{Disk, mounted}
use ipo_os.Fs.Driven.{driven}

-- A file of 5 bytes in block 5. Blocks 6 and 7 are taken too.
abbrev short_inode : Inode
short_inode = store32 (store32 (store32 zeros 0 2) 4 5) 12 5

abbrev shared : Fs Disk
shared = record mounted {
  disk = λ k. if k == 103 then blit zeros 76 short_inode 0 76 else mounted.disk k;
  fds = record { used = true; inode = 2; offset = 0 } ∷ [];
}

-- 600 bytes from byte 3 on: block 5 is there, the other is allocated.
abbrev letters : Mem
letters = fill zeros 0 65 600

abbrev written_to : Fs Disk
written_to = (ipo_fs_write driven 0 letters zeros 600 3 shared).1
