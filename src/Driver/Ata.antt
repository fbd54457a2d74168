-- ===== src/Driver/Ata.antt =====
-- Transfers of lib/c/driver/ata.c: reads and writes of sectors by programmed I/O on the primary
-- channel. The buffer is not NULL. What `printf` prints is left out.
pub mod Bounds
pub mod Drive
pub mod Identify
use ipo_os.Common.{
  ℕ, zero, suc, ◌+◌, ◌-◌, ◌*◌, ◌/◌, ◌%◌, ◌^◌, ◌≤◌, ◌<◌, min, ◌≡◌, refl, sym, ap, ◌∙◌, fun_ext, ◌≢◌,
  ◌↔◌, ◌⊎◌, inl, inr, Bool, true, false, not, ◌&&◌, ◌||◌, Option, none, some, List, [], ◌∷◌, ◌++◌,
  map, reverse, arith, ltb, leb, ◌==◌, if◌then◌else◌, Bool-cases, tests, lt→ltb, le→ltb, ltb→lt,
  leb→le, ltb→le, leb→lt, ==_iff, and_left, and_right, all_below, all_below_sound, length,
  get_elem?, set, take, drop, replicate, is_some, length-append, length-set, get_elem?-set_self,
  get_elem?-set_ne, u32_mod, add32, sub32,
}
use ipo_os.Memory.{Mem, get8, put8, load32, store32, fill, blit, zeros, Agree}
use ipo_os.Common.Action.{
  Act, pure, fail, and_then, ◌>>=◌, ◌>>◌, attempt, guard, asks, modify, lift,
}
use ipo_os.Driver.{Ports}
use Prim.Native.Nat.{bit_and, bit_or}

abbrev pub ata_primary_base : ℕ
ata_primary_base = 0x1F0

abbrev pub ata_primary_ctrl : ℕ
ata_primary_ctrl = 0x3F6

-- The devices, and the number of drives that `ata_init` found.
pub record AtaState (D : Type 0) : Type 0 where
  pub io : D
  pub ata_device_count : ℕ

module _ {D : Type 0} (ports : Ports D) where
  abbrev pub inb : ℕ → Act (AtaState D) ℕ
  inb port s = (some (ports.inb port s.io).0, record s { io = (ports.inb port s.io).1 })

  abbrev pub inw : ℕ → Act (AtaState D) ℕ
  inw port s = (some (ports.inw port s.io).0, record s { io = (ports.inw port s.io).1 })

  abbrev pub outb : ℕ → ℕ → Act (AtaState D) (Unit {0})
  outb port v s = (some tt, record s { io = ports.outb port v s.io })

  abbrev pub outw : ℕ → ℕ → Act (AtaState D) (Unit {0})
  outw port v s = (some tt, record s { io = ports.outw port v s.io })

  unfoldable pub ata_io_wait : Act (AtaState D) (Unit {0})
  ata_io_wait = do
    inb ata_primary_ctrl
    inb ata_primary_ctrl
    inb ata_primary_ctrl
    inb ata_primary_ctrl
    pure tt

  -- `left` rounds of `ata_wait_bsy_clear`.
  unfoldable pub bsy_rounds : ℕ → Act (AtaState D) Bool
  bsy_rounds zero = pure false
  bsy_rounds (suc left) = do
    st ← inb (ata_primary_base + 7)
    elim (bit_and st 0x80 == 0) [ true ↦ pure true | false ↦ bsy_rounds left ]

  unfoldable pub ata_wait_bsy_clear : Act (AtaState D) Bool
  ata_wait_bsy_clear = bsy_rounds 100000

  unfoldable pub drq_rounds : ℕ → Act (AtaState D) Bool
  drq_rounds zero = do inb (ata_primary_base + 7); pure false
  drq_rounds (suc left) = do
    st ← inb (ata_primary_base + 7)
    elim (bit_and st 0x01 == 0) [
      | false ↦ pure false
      | true ↦ elim (bit_and st 0x08 == 0) [
        | false ↦ pure true
        | true ↦ do ata_io_wait; drq_rounds left
      ]
    ]

  unfoldable pub ata_wait_drq : Act (AtaState D) Bool
  ata_wait_drq = drq_rounds 100000

  -- The drive, the sector count and the address, behind which the device is waited for.
  unfoldable pub select : (lba count : ℕ) → Act (AtaState D) Bool
  select lba count = do
    s ← asks (λ s. s)
    let drive_bit = if ltb 1 s.ata_device_count then 0x10 else 0
    outb (ata_primary_base + 6) (bit_or (bit_or 0xE0 drive_bit) (lba / 2 ^ 24 % 16))
    ata_io_wait
    outb (ata_primary_base + 2) count
    outb (ata_primary_base + 3) (lba % 256)
    outb (ata_primary_base + 4) (lba / 2 ^ 8 % 256)
    outb (ata_primary_base + 5) (lba / 2 ^ 16 % 256)
    ata_wait_bsy_clear

  -- `left` words from the data port to the buffer, little-endian.
  unfoldable pub read_words : (left at : ℕ) → Mem → Act (AtaState D) Mem
  read_words zero at buf = pure buf
  read_words (suc left) at buf = do
    w ← inw ata_primary_base
    read_words left (at + 2) (put8 (put8 buf at (w % 256)) (at + 1) (w / 256 % 256))

  unfoldable pub read_sectors : (left at : ℕ) → Mem → Act (AtaState D) (Bool × Mem)
  read_sectors zero at buf = pure (true, buf)
  read_sectors (suc left) at buf = do
    ready ← ata_wait_drq
    elim ready [
      | false ↦ pure (false, buf)
      | true ↦ do buf' ← read_words 256 at buf; read_sectors left (at + 512) buf'
    ]

  -- Whether it succeeds, and the buffer as it leaves it.
  unfoldable pub ata_read_sectors_lba28 : (lba count : ℕ) → Mem → Act (AtaState D) (Bool × Mem)
  ata_read_sectors_lba28 lba count buf = do
    s ← asks (λ s. s)
    elim ((count == 0) || (s.ata_device_count == 0)) [
      | true ↦ pure (false, buf)
      | false ↦ do
        ready ← select lba count
        elim ready [
          | false ↦ pure (false, buf)
          | true ↦ do outb (ata_primary_base + 7) 0x20; read_sectors count 0 buf
        ]
    ]

  unfoldable pub write_words : (left at : ℕ) → Mem → Act (AtaState D) (Unit {0})
  write_words zero at buf = pure tt
  write_words (suc left) at buf = do
    outw ata_primary_base (get8 buf at + 256 * get8 buf (at + 1))
    write_words left (at + 2) buf

  -- `while (retry < 5 && !ata_wait_drq(base))`, and whether it ended before 5.
  unfoldable pub retry_drq : ℕ → Act (AtaState D) Bool
  retry_drq zero = pure false
  retry_drq (suc left) = do
    ready ← ata_wait_drq
    elim ready [ true ↦ pure true | false ↦ do ata_io_wait; retry_drq left ]

  unfoldable pub write_sectors : (left at : ℕ) → Mem → Act (AtaState D) Bool
  write_sectors zero at buf = pure true
  write_sectors (suc left) at buf = do
    first ← ata_wait_drq
    ready ← elim first [ true ↦ pure true | false ↦ retry_drq 5 ]
    elim ready [
      | false ↦ pure false
      | true ↦ do write_words 256 at buf; ata_io_wait; write_sectors left (at + 512) buf
    ]

  unfoldable pub flush : Act (AtaState D) Bool
  flush = do
    outb (ata_primary_base + 7) 0xE7
    ata_io_wait
    ready ← ata_wait_bsy_clear
    elim ready [
      | false ↦ pure false
      | true ↦ do st ← inb (ata_primary_base + 7); pure (bit_and st 0x01 == 0)
    ]

  unfoldable pub ata_write_sectors_lba28 : (lba count : ℕ) → Mem → Act (AtaState D) Bool
  ata_write_sectors_lba28 lba count buf = do
    s ← asks (λ s. s)
    elim ((count == 0) || (s.ata_device_count == 0)) [
      | true ↦ pure false
      | false ↦ do
        ready ← select lba count
        elim ready [
          | false ↦ pure false
          | true ↦ do
            outb (ata_primary_base + 7) 0x30
            done ← write_sectors count 0 buf
            elim done [ false ↦ pure false | true ↦ flush ]
        ]
    ]
