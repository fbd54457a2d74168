-- ===== src/Fs/Block.antt =====
-- The block layer, lib/c/file_system/ipo_block.c, over the disk driver.
use ipo_os.Common.{
  ◌-◌, false, fun_ext, ap, refl, Bool-cases, inl, inr, ◌≤◌, ℕ, ◌+◌, ◌^◌, ◌<◌, ◌≡◌, ◌∙◌, Bool, true,
  some, arith, ◌==◌, if◌then◌else◌, add32, ◌≢◌,
}
use ipo_os.Memory.{Mem, zeros, blit, cut}
use ipo_os.Common.Action.{Act, pure, ◌>>=◌, ◌>>◌, guard}
use ipo_os.Fs.{Ata, Fs}

-- A buffer of the 512 bytes of a sector.
abbrev pub sector_bytes : Mem → Mem
sector_bytes m = blit zeros 0 m 0 512

module _ {D : Type 0} (ata : Ata D) where
  -- `block_read` as a caller sees it that does not test its result: the buffer, which has the 512 bytes
  -- of a sector everywhere, as it then is.
  unfoldable pub block_read_raw : ℕ → Mem → Act (Fs D) (Bool × Mem)
  block_read_raw i buf s =
      let (ok, b, d) = ata.read (add32 s.fs_start_lba i) buf s.disk in
      (some (ok, sector_bytes b), record s { disk = d })

  -- `block_read` where a failure returns: what the buffer held before is never read.
  unfoldable pub block_read : ℕ → Act (Fs D) Mem
  unfolding block_read_raw
  block_read i = do (ok, b) ← block_read_raw i zeros; guard ok; pure b

  unfoldable pub block_write : ℕ → Mem → Act (Fs D) (Unit {0})
  block_write i buf s =
      let (ok, d) = ata.write (add32 s.fs_start_lba i) buf s.disk in
      guard ok (record s { disk = d })

-- A disk in order, of a number of sectors that 28 bits can address: it reads back the 512 bytes that
-- were written last, and is behind a read as it was before, as a drive is that is idle between calls.
pub record IsDisk {D : Type 0} (ata : Ata D) : Type 0 where
  pub sectors : ℕ
  pub sectors-le : sectors ≤ 2 ^ 28
  pub sector : D → ℕ → Mem
  pub reads :
      (lba : ℕ) (buf : Mem) (d : D)
      → lba < sectors
      → ata.read lba buf d ≡ (true, blit buf 0 (sector d lba) 0 512, d)
  pub bytes : (d : D) (k a : ℕ) → sector d k a < 256
  pub writes : (lba : ℕ) (buf : Mem) (d : D) → lba < sectors → (ata.write lba buf d).0 ≡ true
  pub sector-write :
      (lba k : ℕ) (buf : Mem) (d : D)
      → lba < sectors
      → k < sectors
      → sector (ata.write lba buf d).1 k ≡ (if lba == k then cut buf else sector d k)

pub sector_bytes-blit : (buf m : Mem) → sector_bytes (blit buf 0 m 0 512) ≡ sector_bytes m
unfolding blit
sector_bytes-blit buf m = fun_ext (λ a. ground arith)

pub sector_bytes-cut : (m : Mem) → sector_bytes (cut m) ≡ cut m
unfolding blit cut
sector_bytes-cut m = fun_ext (λ a. ground arith)

module _ {D : Type 0} (ata : Ata D) (disk : IsDisk ata) where
  -- Block `i` of the file system.
  abbrev pub content : Fs D → ℕ → Mem
  content s i = sector_bytes (disk.sector s.disk (s.fs_start_lba + i))

  abbrev pub written : Fs D → ℕ → Mem → Fs D
  written s i buf = record s { disk = (ata.write (s.fs_start_lba + i) buf s.disk).1 }

  pub block_read-content :
      (s : Fs D) (i : ℕ)
      → s.fs_start_lba + i < disk.sectors
      → block_read ata i s ≡ (some (content s i), s)
  unfolding block_read
  block_read-content s i low =
      let e : add32 s.fs_start_lba i ≡ s.fs_start_lba + i = omega (arith, disk.sectors-le) in
      rw (e, disk.reads (s.fs_start_lba + i) zeros s.disk low)
        (ap (λ (b : Mem). (some b, s))
          (sector_bytes-blit zeros (disk.sector s.disk (s.fs_start_lba + i))))

  pub block_write-written :
      (s : Fs D) (i : ℕ) (buf : Mem)
      → s.fs_start_lba + i < disk.sectors
      → block_write ata i buf s ≡ (some tt, written s i buf)
  unfolding block_write
  block_write-written s i buf low =
      let e : add32 s.fs_start_lba i ≡ s.fs_start_lba + i = omega (arith, disk.sectors-le) in
      rw (e, disk.writes (s.fs_start_lba + i) buf s.disk low)

  pub content-written :
      (s : Fs D) (i k : ℕ) (buf : Mem)
      → s.fs_start_lba + i < disk.sectors
      → s.fs_start_lba + k < disk.sectors
      → content (written s i buf) k ≡ (if i == k then cut buf else content s k)
  content-written s i k buf a b =
      ap sector_bytes (disk.sector-write (s.fs_start_lba + i) (s.fs_start_lba + k) buf s.disk a b)
      ∙ elim (Bool-cases (i == k)) [
        | inl same ↦
            let there : (s.fs_start_lba + i == s.fs_start_lba + k) ≡ true = ground arith in
            rw (there, same) (sector_bytes-cut buf)
        | inr other ↦
            let apart : (s.fs_start_lba + i == s.fs_start_lba + k) ≡ false = ground arith in
            rw (apart, other) refl
      ]

  pub content-written_self :
      (s : Fs D) (i : ℕ) (buf : Mem)
      → s.fs_start_lba + i < disk.sectors
      → content (written s i buf) i ≡ cut buf
  content-written_self s i buf a = content-written s i i buf a a ∙ ground arith

  pub content-written_ne :
      (s : Fs D) (i k : ℕ) (buf : Mem)
      → s.fs_start_lba + i < disk.sectors
      → s.fs_start_lba + k < disk.sectors
      → i ≢ k
      → content (written s i buf) k ≡ content s k
  content-written_ne s i k buf a b ne = content-written s i k buf a b ∙ ground arith

  pub content-lt : (s : Fs D) (i a : ℕ) → content s i a < 256
  unfolding blit
  content-lt s i a = ground (arith, disk.bytes s.disk (s.fs_start_lba + i) (0 + (a - 0)))
