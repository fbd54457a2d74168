-- ===== src/Fs/File/Isolation.antt =====
-- What `ipo_fs_write` of lib/c/file_system/ipo_api.c does to the disk as a whole, where it writes into
-- the direct blocks of a file: how far it gets, and whose blocks it touches.
use ipo_os.Common.{ℕ}
use ipo_os.Fs.{Ata, Fs, Inode}
use ipo_os.Fs.Block.{IsDisk}
use ipo_os.Fs.Layout.{IsLaidOut}
use ipo_os.Fs.Inode.Table.{inode_at}
use ipo_os.Fs.File.Owned.{Foreign}

module _ {D : Type 0} (ata : Ata D) (disk : IsDisk ata) (s : Fs D)
    (h : IsLaidOut disk.sectors s) where
  -- Data block `j` is taken and belongs to another file than inode `ino`.
  abbrev pub IsOthers : (ino j : ℕ) → Type 0
  IsOthers ino j = Foreign ata disk s (inode_at ata disk s ino) s.disk j
