-- ===== src/Boot/Mounted.antt =====
-- `ensure_fs_mounted` on a disk in order.
use ipo_os.Common.{
  ◌≤◌, ◌+◌, arith, ℕ, ◌<◌, ◌≡◌, refl, ap, ◌⊎◌, inl, inr, Bool, true, false, none, some, Bool-cases,
  ◌==◌, ◌&&◌, if◌then◌else◌,
}
use ipo_os.Memory.{Mem}
use ipo_os.Fs.{Ata, Fs}
use ipo_os.Common.Int.{is_zero}
use ipo_os.CString.{strncmp}
use ipo_os.Fs.Block.{sector_bytes, IsDisk, content, block_read-content}
use ipo_os.Fs.Layout.{IsLaidOut}
use ipo_os.Fs.Dir.{text}
use ipo_os.Fs.Format.{ipo_fs_mount, superblock_of, ipo_fs_magic_str}
use ipo_os.Fs.Format.Kernel.{kernel_disk, kernel_plan}
use ipo_os.Fs.Format.Mounted.{HasFiles, ipo_fs_mount-ipo_fs_format}
use ipo_os.Boot.{ensure_fs_mounted, fs_start_sector}

module _ {D : Type 0} (ata : Ata D) (disk : IsDisk ata) where
  -- The block that `ipo_fs_mount` looks at holds a superblock.
  abbrev pub is_superblock : Mem → Bool
  is_superblock buf =
      is_zero (strncmp (superblock_of buf).magic 0 (text ipo_fs_magic_str) 0 6)
      && ((superblock_of buf).block_size == 512)

  -- The state that `ipo_fs_mount` leaves, where it refuses the block and where it takes it.
  abbrev pub looked : ℕ → Fs D → Fs D
  looked lba s = record s {
    fs_start_lba = lba;
    sb = superblock_of (sector_bytes (disk.sector s.disk lba));
  }

  ipo_fs_mount_cases :
      (lba : ℕ) (s : Fs D)
      → lba < disk.sectors
      → ipo_fs_mount ata lba s ≡ (
          if is_superblock (sector_bytes (disk.sector s.disk lba))
          then (some tt, record (looked lba s) { fs_mounted = true })
          else (none, looked lba s))
  unfolding ipo_fs_mount
  ipo_fs_mount_cases lba s low =
      let ready : Fs D = record s { fs_start_lba = lba } in
      let first : content ata disk ready 0 ≡ sector_bytes (disk.sector s.disk lba) =
        ap (λ k. sector_bytes (disk.sector s.disk k)) (omega arith) in
      let magic = is_zero (
        strncmp (superblock_of (sector_bytes (disk.sector s.disk lba))).magic 0
          (text ipo_fs_magic_str) 0 6) in
      let size = (superblock_of (sector_bytes (disk.sector s.disk lba))).block_size == 512 in
      let read = block_read-content ata disk ready 0 (omega arith) in
      elim (Bool-cases magic) [
        | inr wrong ↦ rw (read, first, wrong) refl
        | inl right ↦ elim (Bool-cases size) [
          | inr other ↦ rw (read, first, right, other) refl
          | inl fits ↦ rw (read, first, right, fits) refl
        ]
      ]

  -- On a disk in order of 12048 sectors at least, whatever it holds and whatever stood in memory, `ensure_fs_mounted` ends with a
  -- mounted file system. Where the block at which the file system begins holds a superblock, the disk
  -- is left as it was; where it does not, the disk is formatted, its areas are laid out and its root
  -- holds `app` and `autorun`.
  pub ensure_fs_mounted_lem :
      (s : Fs D) (junk tail : Mem)
      → fs_start_sector + 10000 ≤ disk.sectors
      → (u : Fs D) × (ensure_fs_mounted ata junk tail s ≡ (some tt, u))
        × (u.fs_mounted ≡ true)
        × (((is_superblock (sector_bytes (disk.sector s.disk fs_start_sector)) ≡ true)
              × (u.disk ≡ s.disk))
            ⊎ ((is_superblock (sector_bytes (disk.sector s.disk fs_start_sector)) ≡ false)
                × IsLaidOut disk.sectors u
                × HasFiles ata u))
  unfolding ensure_fs_mounted
  ensure_fs_mounted_lem s junk tail large =
      let mount = ipo_fs_mount_cases fs_start_sector s (omega arith) in
      elim (Bool-cases (is_superblock (sector_bytes (disk.sector s.disk fs_start_sector)))) [
        | inl there ↦
            let e : ipo_fs_mount ata fs_start_sector s
                ≡ (some tt, record (looked fs_start_sector s) { fs_mounted = true }) =
              rw there at mount in
            (
              record (looked fs_start_sector s) { fs_mounted = true },
              rw e refl,
              refl,
              inl (there, refl),
            )
        | inr absent ↦
            let e : ipo_fs_mount ata fs_start_sector s ≡ (none, looked fs_start_sector s) =
              rw absent at mount in
            let (t, u, formatted, mounted, marked, same, laid, files) =
              ipo_fs_mount-ipo_fs_format ata disk (looked fs_start_sector s) junk tail
                fs_start_sector 10000 1024 kernel_disk kernel_plan (omega arith) (omega arith)
                (omega arith) (omega arith) (omega arith) in
            (u, rw e (rw formatted (rw mounted refl)), marked, inr (absent, laid, files))
      ]
