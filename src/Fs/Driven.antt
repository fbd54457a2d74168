-- ===== src/Fs/Driven.antt =====
-- The block layer on the disk driver itself: the transfers of lib/c/driver/ata.c on a drive of 20480
-- sectors (Driver.Ata.Drive) are a disk in order.
use ipo_os.Common.{
  arith, ◌≡◌, refl, ap, ◌∙◌, fun_ext, Bool, true, false, Option, some, none, ◌==◌, Bool-cases, inl,
  inr,
}
use ipo_os.Memory.{Mem, blit, cut}
use ipo_os.Memory.Laws.{cut-lt}
use ipo_os.Driver.Ata.{AtaState, ata_read_sectors_lba28, ata_write_sectors_lba28}
use ipo_os.Driver.Ata.Drive.{
  Drive, idle, addressed, reading, writing, Sectors, drive, with_drive, filled,
  ata_read_sectors_lba28-filled, ata_write_sectors_lba28-stored,
}
use ipo_os.Fs.{Ata}
use ipo_os.Fs.Block.{IsDisk}

abbrev contents : Drive → Sectors
contents (idle d) = d
contents (addressed d a b c h) = d
contents (reading d lba n) = d
contents (writing d lba n) = d

abbrev read_outcome : Mem → Option (Bool × Mem) × AtaState Drive → Bool × Mem × Sectors
read_outcome buf (none, s) = (false, buf, contents s.io)
read_outcome buf (some (ok, b), s) = (ok, b, contents s.io)

abbrev write_outcome : Option Bool × AtaState Drive → Bool × Sectors
write_outcome (none, s) = (false, contents s.io)
write_outcome (some ok, s) = (ok, contents s.io)

-- The driver's transfers of one sector, the drive being idle before the call.
abbrev pub driven : Ata Sectors
driven = record {
  read =
      λ lba buf d. read_outcome buf (ata_read_sectors_lba28 drive lba 1 buf (with_drive (idle d)));
  write =
      λ lba buf d. write_outcome (ata_write_sectors_lba28 drive lba 1 buf (with_drive (idle d)));
}

pub filled-blit : (buf m : Mem) → filled buf m 0 ≡ blit buf 0 (cut m) 0 512
unfolding filled blit cut
filled-blit buf m = fun_ext (λ a. ground arith)

pub cut-filled : (buf m : Mem) → cut (filled m buf 0) ≡ cut buf
unfolding filled cut
cut-filled buf m = fun_ext (λ a. ground arith)

abbrev pub driven-IsDisk : IsDisk driven
driven-IsDisk = record {
  sectors = 20480;
  sectors-le = omega arith;
  sector = λ d k. cut (d k);
  bytes = λ d k a. cut-lt (d k) a;
  reads = λ lba buf d low.
      ap (read_outcome buf) (ata_read_sectors_lba28-filled d lba buf low)
      ∙ ap (λ (b : Mem). (true, b, d)) (filled-blit buf (d lba));
  writes =
      λ lba buf d low. ap (λ r. (write_outcome r).0) (ata_write_sectors_lba28-stored d lba buf low);
  sector-write = λ lba k buf d low low'.
      ap (λ r. cut ((write_outcome r).1 k)) (ata_write_sectors_lba28-stored d lba buf low)
      ∙ elim (Bool-cases (k == lba)) [
        | inl hit ↦
            let hit' : (lba == k) ≡ true = ground arith in rw (hit, hit') (cut-filled buf (d k))
        | inr miss ↦ let miss' : (lba == k) ≡ false = ground arith in rw (miss, miss') refl
      ];
}
