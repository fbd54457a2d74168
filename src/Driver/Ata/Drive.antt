-- ===== src/Driver/Ata/Drive.antt =====
-- A drive behind the ports of the primary channel, and the transfers of lib/c/driver/ata.c on it: it
-- takes the address and the command, hands out or takes the 256 words of a sector, and is idle again.
use ipo_os.Common.{
  arith, ℕ, zero, suc, ◌+◌, ◌-◌, ◌*◌, ◌/◌, ◌%◌, ◌^◌, ◌≤◌, ◌<◌, ◌≡◌, refl, sym, ap, ◌∙◌, fun_ext,
  true, some, leb, ltb, ◌==◌, ◌&&◌, if◌then◌else◌, Bool-cases, inl, inr,
}
use ipo_os.Memory.{Mem, get8, put8}
use ipo_os.Driver.{Ports}
use ipo_os.Driver.Ata.{
  AtaState, ata_io_wait, bsy_rounds, ata_wait_bsy_clear, drq_rounds, ata_wait_drq, select,
  read_words, read_sectors, ata_read_sectors_lba28, write_words, write_sectors, flush,
  ata_write_sectors_lba28,
}

-- The sectors of a drive, by number.
abbrev pub Sectors : Type 0
Sectors = ℕ → Mem

-- The drive between two calls, with an address, and with `suc n` words still to come or to go.
pub data Drive : Type 0 where
  idle : Sectors → Drive
  addressed : Sectors → (a b c h : ℕ) → Drive
  reading : Sectors → (lba n : ℕ) → Drive
  writing : Sectors → (lba n : ℕ) → Drive

-- The status: ready, and with data while words are left.
abbrev status : Drive → ℕ
status (idle d) = 0x40
status (addressed d a b c h) = 0x40
status (reading d lba n) = 0x48
status (writing d lba n) = 0x48

abbrev latched : ℕ → ℕ → Sectors → (a b c h : ℕ) → Drive
latched port v d a b c h =
    if port == 0x1F3
    then addressed d v b c h
    else if port == 0x1F4
    then addressed d a v c h
    else if port == 0x1F5
    then addressed d a b v h
    else if port == 0x1F6
    then addressed d a b c (v % 16)
    else addressed d a b c h

abbrev latch : ℕ → ℕ → Drive → Drive
latch port v (idle d) = latched port v d 0 0 0 0
latch port v (addressed d a b c h) = latched port v d a b c h
latch port v (reading d lba n) = reading d lba n
latch port v (writing d lba n) = writing d lba n

abbrev command : ℕ → Drive → Drive
command v (idle d) = idle d
command v (addressed d a b c h) =
    let lba = a + 256 * b + 65536 * c + 16777216 * h in
    if v == 0x20 then reading d lba 255 else if v == 0x30 then writing d lba 255 else idle d
command v (reading d lba n) = reading d lba n
command v (writing d lba n) = writing d lba n

-- The drive with `n` words left.
abbrev still_reading : Sectors → (lba n : ℕ) → Drive
still_reading d lba zero = idle d
still_reading d lba (suc n) = reading d lba n

abbrev still_writing : Sectors → (lba n : ℕ) → Drive
still_writing d lba zero = idle d
still_writing d lba (suc n) = writing d lba n

abbrev word_at : Mem → ℕ → ℕ
word_at m p = get8 m p + 256 * get8 m (p + 1)

abbrev with_word : Mem → ℕ → ℕ → Mem
with_word m p v = put8 (put8 m p (v % 256)) (p + 1) (v / 256 % 256)

abbrev next_word : Drive → ℕ × Drive
next_word (reading d lba n) = (word_at (d lba) (512 - 2 * suc n), still_reading d lba n)
next_word (idle d) = (0, idle d)
next_word (addressed d a b c h) = (0, addressed d a b c h)
next_word (writing d lba n) = (0, writing d lba n)

abbrev put_word : ℕ → Drive → Drive
put_word v (writing d lba n) =
    still_writing (λ k. if k == lba then with_word (d k) (512 - 2 * suc n) v else d k) lba n
put_word v (idle d) = idle d
put_word v (addressed d a b c h) = addressed d a b c h
put_word v (reading d lba n) = reading d lba n

abbrev pub drive : Ports Drive
drive = record {
  inb = λ port s. (if port == 0x1F7 then status s else 0, s);
  inw = λ port s. next_word s;
  outb = λ port v s. if port == 0x1F7 then command v s else latch port v s;
  outw = λ port v s. put_word v s;
}

-- The driver's state, with one drive found.
abbrev pub with_drive : Drive → AtaState Drive
with_drive s = record { io = s; ata_device_count = 1 }

-- `buf` with the bytes of `m` from `p` up to the end of the sector.
unfoldable pub filled : Mem → Mem → ℕ → Mem
filled buf m p a = if leb p a && ltb a 512 then m a % 256 else buf a

filled_end : (buf m : Mem) (p : ℕ) → p ≡ 512 → filled buf m p ≡ buf
unfolding filled
filled_end buf m p e = fun_ext (λ a. ground arith)

filled_step :
    (buf m : Mem) (p v : ℕ)
    → p + 2 ≤ 512
    → v ≡ word_at m p
    → filled (with_word buf p v) m (p + 2) ≡ filled buf m p
unfolding filled put8 get8
filled_step buf m p v le e = fun_ext (λ a. ground arith)

read_words-filled :
    (d : Sectors) (lba left p : ℕ) (buf : Mem)
    → p + 2 * left ≡ 512
    → read_words drive left p buf (with_drive (still_reading d lba left))
      ≡ (some (filled buf (d lba) p), with_drive (idle d))
unfolding read_words
read_words-filled d lba zero p buf e =
    ap (λ (b : Mem). (some b, with_drive (idle d))) (sym (filled_end buf (d lba) p (omega arith)))
read_words-filled d lba (suc left) p buf e =
    let w = word_at (d lba) (512 - 2 * suc left) in
    read_words-filled d lba left (p + 2) (with_word buf p w) (omega arith)
    ∙ ap (λ (b : Mem). (some b, with_drive (idle d)))
        (filled_step buf (d lba) p w (omega arith) (ap (word_at (d lba)) (omega arith)))

-- The sectors with the bytes of a buffer from `p` on in one of them.
abbrev pub stored : Sectors → ℕ → Mem → ℕ → Sectors
stored d lba buf p k = if k == lba then filled (d k) buf p else d k

write_words-stored :
    (left : ℕ) (d : Sectors) (lba p : ℕ) (buf : Mem)
    → p + 2 * left ≡ 512
    → write_words drive left p buf (with_drive (still_writing d lba left))
      ≡ (some tt, with_drive (idle (stored d lba buf p)))
unfolding write_words
write_words-stored zero d lba p buf e =
    ap (λ (x : Sectors). (some tt, with_drive (idle x)))
      (fun_ext (λ k. elim (Bool-cases (k == lba)) [
        | inl hit ↦ rw hit (sym (filled_end (d k) buf p (omega arith)))
        | inr miss ↦ rw miss refl
      ]))
write_words-stored (suc left) d lba p buf e =
    let v = word_at buf p in
    let place : 512 - 2 * suc left ≡ p = omega arith in
    rw place (
      write_words-stored left (λ k. if k == lba then with_word (d k) p v else d k) lba (p + 2) buf
        (omega arith)
      ∙ ap (λ (x : Sectors). (some tt, with_drive (idle x)))
          (fun_ext (λ k. elim (Bool-cases (k == lba)) [
            | inl hit ↦ rw hit (filled_step (d k) buf p v (omega arith) refl)
            | inr miss ↦ rw miss refl
          ])))

-- The address that the drive takes.
abbrev address : ℕ → ℕ
address lba = lba % 256 + 256 * (lba / 2 ^ 8 % 256) + 65536 * (lba / 2 ^ 16 % 256) + 16777216 * 0

address_self : (lba : ℕ) → lba < 20480 → address lba ≡ lba
address_self lba low = omega arith

pub ata_read_sectors_lba28-filled :
    (d : Sectors) (lba : ℕ) (buf : Mem)
    → lba < 20480
    → ata_read_sectors_lba28 drive lba 1 buf (with_drive (idle d))
      ≡ (some (true, filled buf (d lba) 0), with_drive (idle d))
unfolding ata_read_sectors_lba28 select ata_io_wait ata_wait_bsy_clear bsy_rounds read_sectors
    ata_wait_drq drq_rounds
ata_read_sectors_lba28-filled d lba buf low =
    let top : lba / 2 ^ 24 % 16 ≡ 0 = omega arith in
    rw (top, address_self lba low, read_words-filled d lba 256 0 buf refl) refl

pub ata_write_sectors_lba28-stored :
    (d : Sectors) (lba : ℕ) (buf : Mem)
    → lba < 20480
    → ata_write_sectors_lba28 drive lba 1 buf (with_drive (idle d))
      ≡ (some true, with_drive (idle (stored d lba buf 0)))
unfolding ata_write_sectors_lba28 select ata_io_wait ata_wait_bsy_clear bsy_rounds write_sectors
    ata_wait_drq drq_rounds flush
ata_write_sectors_lba28-stored d lba buf low =
    let top : lba / 2 ^ 24 % 16 ≡ 0 = omega arith in
    rw (top, address_self lba low, write_words-stored 256 d lba 0 buf refl) refl
