-- ===== src/Driver/Ata/Identify.antt =====
-- The drives of lib/c/driver/ata.c: `ata_identify`, `ata_init` and what returns their results. The
-- fields of a device that the code never writes, and what `printf` prints, are left out.
use ipo_os.Common.{
  ℕ, zero, suc, ◌+◌, ◌*◌, ◌/◌, ◌%◌, Bool, true, false, Option, none, some, leb, ◌==◌, if◌then◌else◌,
}
use ipo_os.Common.Action.{Act, pure, ◌>>=◌, ◌>>◌, modify, lift}
use ipo_os.Memory.{Mem, get8, put8, zeros}
use ipo_os.Driver.{Ports}
use ipo_os.Driver.Ata.{
  AtaState, ata_primary_base, inb, inw, outb, ata_io_wait, ata_wait_bsy_clear, ata_wait_drq,
}
use Prim.Native.Nat.{bit_and}

-- `ata_device_t`.
pub record AtaDevice : Type 0 where
  pub present : ℕ
  pub channel : ℕ
  pub drive : ℕ
  pub type : ℕ
  pub capacity_sectors : ℕ
  pub model : Mem
  pub serial : Mem

-- `ata_devices` and `identify_buf`.
pub record Drives : Type 0 where
  pub ata_devices : ℕ → AtaDevice
  pub identify_buf : ℕ → ℕ

-- The characters of `left` words, the high byte of a word first.
unfoldable pub put_words : (identify_buf : ℕ → ℕ) → (left offset p : ℕ) → Mem → Mem
put_words identify_buf zero offset p dst = dst
put_words identify_buf (suc left) offset p dst =
    let w = identify_buf offset in
    put_words identify_buf left (offset + 1) (p + 2)
      (put8 (put8 dst p (w / 256 % 256)) (p + 1) (w % 256))

-- Blanks in front of character `p` become NULs, from the last one on.
unfoldable pub trim : (p : ℕ) → Mem → Mem
trim zero dst = dst
trim (suc i) dst = let rest = trim i (put8 dst i 0) in if get8 dst i == b' ' then rest else dst

unfoldable pub ata_read_string : (identify_buf : ℕ → ℕ) → Mem → (offset words : ℕ) → Mem
ata_read_string identify_buf dst offset words =
    trim (2 * words) (put8 (put_words identify_buf words offset 0 dst) (2 * words) 0)

-- 48 bits of the capacity where the drive has them, else 28.
unfoldable pub capacity : (ℕ → ℕ) → ℕ
capacity w =
    if bit_and (w 83) 0x400 == 0
    then w 60 + w 61 * 65536
    else w 100 + w 101 * 65536 + w 102 * 4294967296 + w 103 * 281474976710656

abbrev pub device_of : (ℕ → ℕ) → (drive : ℕ) → AtaDevice
device_of identify_buf drive = record {
  present = 1;
  channel = 0;
  drive = drive;
  type = 1;
  capacity_sectors = capacity identify_buf;
  model = ata_read_string identify_buf zeros 27 20;
  serial = ata_read_string identify_buf zeros 10 10;
}

module _ {D : Type 0} (ports : Ports D) where
  -- `left` words from word `i` of `identify_buf` on.
  unfoldable pub identify_words : (left i : ℕ) → Act (Drives × AtaState D) (Unit {0})
  identify_words zero i = pure tt
  identify_words (suc left) i = do
    w ← lift (inw ports ata_primary_base)
    modify (λ s.
        (record s.0 { identify_buf = λ j. if j == i then w % 65536 else s.0.identify_buf j }, s.1))
    identify_words left (i + 1)

  -- Behind the words.
  abbrev pub add_device : (drive : ℕ) → Drives × AtaState D → Drives × AtaState D
  add_device drive s = (
    record s.0 {
      ata_devices = λ j.
          if j == s.1.ata_device_count then device_of s.0.identify_buf drive else s.0.ata_devices j;
    },
    record s.1 { ata_device_count = (s.1.ata_device_count + 1) % 256 },
  )

  -- Behind the test of the status.
  unfoldable pub identify_ready : (drive : ℕ) → Act (Drives × AtaState D) Bool
  identify_ready drive = do
    idle ← lift (ata_wait_bsy_clear ports)
    elim idle [
      | false ↦ pure false
      | true ↦ do
        ready ← lift (ata_wait_drq ports)
        elim ready [
          | false ↦ pure false
          | true ↦ do identify_words 256 0; modify (add_device drive); pure true
        ]
    ]

  unfoldable pub ata_identify : (drive : ℕ) → Act (Drives × AtaState D) Bool
  ata_identify drive = do
    lift (outb ports (ata_primary_base + 6) (if drive == 0 then 0xA0 else 0xB0))
    lift (ata_io_wait ports)
    lift (outb ports (ata_primary_base + 2) 0)
    lift (outb ports (ata_primary_base + 3) 0)
    lift (outb ports (ata_primary_base + 4) 0)
    lift (outb ports (ata_primary_base + 5) 0)
    lift (outb ports (ata_primary_base + 7) 0xEC)
    lift (ata_io_wait ports)
    status ← lift (inb ports (ata_primary_base + 7))
    elim (status == 0) [ true ↦ pure false | false ↦ identify_ready drive ]

  -- The master and the slave of the primary channel.
  unfoldable pub ata_init : Act (Drives × AtaState D) (Unit {0})
  ata_init = do
    modify (λ s. (s.0, record s.1 { ata_device_count = 0 }))
    ata_identify 0
    ata_identify 1
    pure tt

abbrev pub ata_get_device_count : {D : Type 0} → Drives × AtaState D → ℕ
ata_get_device_count s = s.1.ata_device_count

-- `none` is NULL.
abbrev pub ata_get_device : {D : Type 0} → (index : ℕ) → Drives × AtaState D → Option AtaDevice
ata_get_device index s =
    if leb s.1.ata_device_count index then none else some (s.0.ata_devices index)
