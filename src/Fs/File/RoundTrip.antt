-- ===== src/Fs/File/RoundTrip.antt =====
-- What a program that writes to a file and reads it back relies on: `ipo_fs_write` and `ipo_fs_read`
-- of lib/c/file_system/ipo_api.c over the direct blocks of a file, on a disk in order.
use ipo_os.Common.{ℕ, ◌+◌, ◌-◌, ◌≤◌, ◌<◌, ◌≡◌, sym, ap, ◌∙◌, some, arith}
use ipo_os.Memory.{Mem}
use ipo_os.Fs.{Ata, Fs, Inode, direct_of}
use ipo_os.Fs.Block.{IsDisk}
use ipo_os.Fs.Layout.{IsLaidOut, InTable}
use ipo_os.Fs.Inode.Table.{inode_at}
use ipo_os.Fs.File.{open_inode}
use ipo_os.Fs.File.Owned.{on, taken, Owns}
use ipo_os.Fs.File.WriteBack.{Wrote}
use ipo_os.Fs.File.Written.{closed, taken-closed, direct-last}

module _ {D : Type 0} (ata : Ata D) (disk : IsDisk ata) (s : Fs D)
    (h : IsLaidOut disk.sectors s) where
  module _ (fd ino : ℕ) (opened : open_inode s.fds fd ≡ some ino) (here : InTable s.sb ino)
      (owns : Owns ata disk s (inode_at ata disk s ino) s.disk) (offset size : ℕ) (buffer : Mem)
      (some_bytes : 0 < size) (direct : offset + size ≤ 3072) where
    -- The state behind the call.
    abbrev pub last : ℕ → Inode → D → Fs D
    last n inode d =
        on ata disk s (
          closed ata disk s h fd ino opened here owns offset size buffer some_bytes direct n inode
            d)

    pub Owns-last :
        (n : ℕ) (inode : Inode) (d : D)
        → Wrote ata disk s h offset size buffer (inode_at ata disk s ino) s.disk n inode d
        → Owns ata disk
            (last n inode d)
            (inode_at ata disk (last n inode d) ino)
            (last n inode d).disk
    Owns-last n inode d w = record {
      inside = λ k lt there.
          let (a, z) = w.owns.inside k lt (λ e. there (same k lt ∙ e)) in
          (omega (arith, same k lt), omega (arith, same k lt));
      held = λ k lt there.
          let (a, z) = w.owns.inside k lt (λ e. there (same k lt ∙ e)) in
          ap (λ (x : ℕ). taken ata disk s (last n inode d).disk (x - s.sb.data_blocks_start))
            (same k lt)
          ∙ taken-closed ata disk s h fd ino opened here owns offset size buffer some_bytes direct n
              inode d (direct_of inode k - s.sb.data_blocks_start) (omega arith)
          ∙ w.owns.held k lt (λ e. there (same k lt ∙ e));
      apart = λ j k lj lk ne there e.
          w.owns.apart j k lj lk ne (λ z. there (same j lj ∙ z)) (sym (same j lj) ∙ e ∙ same k lk);
    }
      where
        same :
            (k : ℕ)
            → k < 6
            → direct_of (inode_at ata disk (last n inode d) ino) k ≡ direct_of inode k
        same k lt =
            direct-last ata disk s h fd ino opened here owns offset size buffer some_bytes direct n
              inode d k lt
