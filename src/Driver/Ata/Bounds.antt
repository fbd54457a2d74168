-- ===== src/Driver/Ata/Bounds.antt =====
-- The transfers end, and a read stays within its sectors.
use ipo_os.Common.{
  ◌%◌, ℕ, zero, suc, ◌+◌, ◌*◌, ◌/◌, ◌≤◌, ◌≡◌, refl, ◌∙◌, Bool, true, false, ◌||◌, Option, none,
  some, arith, ◌==◌,
}
use ipo_os.Memory.{Mem, get8, put8}
use ipo_os.Memory.Laws.{get8-put8_ne}
use ipo_os.Common.Action.{Act, pure, and_then, ◌>>=◌, ◌>>◌}
use ipo_os.Driver.{Ports}
use Prim.Native.Nat.{bit_and}
use ipo_os.Driver.Ata.{
  AtaState, ata_read_sectors_lba28, read_sectors, read_words, ata_wait_drq, drq_rounds, bsy_rounds,
  ata_wait_bsy_clear, select, ata_io_wait, outb, ata_primary_base,
}

abbrev Returns : {A : Type 0} → Option A → Type 0
Returns none = ⊥
Returns (some _) = Unit {0}

-- A result, with a buffer that is as it was from `hi` on.
abbrev pub Keeps : ℕ → Mem → Option (Bool × Mem) → Type 0
Keeps hi buf none = ⊥
Keeps hi buf (some (ok, b)) = (a : ℕ) → hi ≤ a → get8 b a ≡ get8 buf a

Keeps-trans :
    (hi : ℕ) (buf buf' : Mem) (o : Option (Bool × Mem))
    → ((a : ℕ) → hi ≤ a → get8 buf' a ≡ get8 buf a)
    → Keeps hi buf' o
    → Keeps hi buf o
Keeps-trans hi buf buf' none same k = k
Keeps-trans hi buf buf' (some (ok, b)) same k = λ a out. k a out ∙ same a out

-- The words read, and that the buffer is as it was from `hi` on.
abbrev Filled : ℕ → Mem → Option Mem → Type 0
Filled hi buf none = ⊥
Filled hi buf (some b) = (a : ℕ) → hi ≤ a → get8 b a ≡ get8 buf a

Filled-trans :
    (hi : ℕ) (buf buf' : Mem) (o : Option Mem)
    → ((a : ℕ) → hi ≤ a → get8 buf' a ≡ get8 buf a)
    → Filled hi buf' o
    → Filled hi buf o
Filled-trans hi buf buf' none same k = k
Filled-trans hi buf buf' (some b) same k = λ a out. k a out ∙ same a out

Filled-le :
    (hi top : ℕ) (buf : Mem) (o : Option Mem) → hi ≤ top → Filled hi buf o → Filled top buf o
Filled-le hi top buf none le k = k
Filled-le hi top buf (some b) le k = λ a out. k a (omega arith)

Keeps-le :
    (hi top : ℕ) (buf : Mem) (o : Option (Bool × Mem)) → hi ≤ top → Keeps hi buf o → Keeps top buf o
Keeps-le hi top buf none le k = k
Keeps-le hi top buf (some (ok, b)) le k = λ a out. k a (omega arith)

module _ {D : Type 0} (ports : Ports D) where
  bsy_rounds-Returns : (left : ℕ) (s : AtaState D) → Returns (bsy_rounds ports left s).0
  unfolding bsy_rounds
  bsy_rounds-Returns zero s = tt
  bsy_rounds-Returns (suc left) s =
      go (bit_and (ports.inb 0x1F7 s.io).0 0x80 == 0) (bsy_rounds-Returns left)
    where
      go :
          (b : Bool)
          → ((t : AtaState D) → Returns (bsy_rounds ports left t).0)
          → Returns
              (elim b as (λ _. Act (AtaState D) Bool) [
                | true ↦ pure true
                | false ↦ bsy_rounds ports left
              ]
                (record s { io = (ports.inb 0x1F7 s.io).1 })).0
      go true ih = tt
      go false ih = ih _

  drq_rounds-Returns : (left : ℕ) (s : AtaState D) → Returns (drq_rounds ports left s).0
  unfolding drq_rounds ata_io_wait
  drq_rounds-Returns zero s = tt
  drq_rounds-Returns (suc left) s =
      go (bit_and (ports.inb 0x1F7 s.io).0 0x01 == 0) (bit_and (ports.inb 0x1F7 s.io).0 0x08 == 0)
        (drq_rounds-Returns left)
    where
      go :
          (e d : Bool)
          → ((t : AtaState D) → Returns (drq_rounds ports left t).0)
          → Returns
              (elim e as (λ _. Act (AtaState D) Bool) [
                | false ↦ pure false
                | true ↦ elim d as (λ _. Act (AtaState D) Bool) [
                  | false ↦ pure true
                  | true ↦ do ata_io_wait ports; drq_rounds ports left
                ]
              ]
                (record s { io = (ports.inb 0x1F7 s.io).1 })).0
      go false d ih = tt
      go true false ih = tt
      go true true ih = ih _

  ata_wait_drq-Returns : (s : AtaState D) → Returns (ata_wait_drq ports s).0
  unfolding ata_wait_drq
  ata_wait_drq-Returns s = drq_rounds-Returns 100000 s

  select-Returns : (lba count : ℕ) (s : AtaState D) → Returns (select ports lba count s).0
  unfolding select ata_wait_bsy_clear ata_io_wait
  select-Returns lba count s = bsy_rounds-Returns 100000 _

  read_words-Filled :
      (left at : ℕ) (buf : Mem) (s : AtaState D)
      → Filled (at + 2 * left) buf (read_words ports left at buf s).0
  unfolding read_words
  read_words-Filled zero at buf s = λ a out. refl
  read_words-Filled (suc left) at buf s =
      let w = (ports.inw ata_primary_base s.io).0 in
      Filled-trans (at + 2 * suc left) buf (put8 (put8 buf at (w % 256)) (at + 1) (w / 256 % 256)) _
        (λ a out.
          get8-put8_ne (put8 buf at (w % 256)) (at + 1) (w / 256 % 256) a (omega arith)
          ∙ get8-put8_ne buf at (w % 256) a (omega arith))
        (Filled-le (at + 2 + 2 * left) (at + 2 * suc left) _ _ (omega arith)
          (read_words-Filled left (at + 2) _ _))

  read_sectors-Keeps :
      (left at : ℕ) (buf : Mem) (s : AtaState D)
      → Keeps (at + 512 * left) buf (read_sectors ports left at buf s).0
  unfolding read_sectors
  read_sectors-Keeps zero at buf s = λ a out. refl
  read_sectors-Keeps (suc left) at buf s =
      go (ata_wait_drq ports s).0 (ata_wait_drq ports s).1 (ata_wait_drq-Returns s)
        (read_sectors-Keeps left (at + 512))
    where
      behind :
          (o : Option Mem) (t : AtaState D)
          → Filled (at + 2 * 256) buf o
          → ((b : Mem) (u : AtaState D)
              → Keeps (at + 512 + 512 * left) b (read_sectors ports left (at + 512) b u).0)
          → Keeps (at + 512 * suc left) buf (and_then (o, t) (read_sectors ports left (at + 512))).0
      behind none t f ih = f
      behind (some b) t f ih =
          Keeps-trans (at + 512 * suc left) buf b _ (λ a out. f a (omega arith))
            (Keeps-le (at + 512 + 512 * left) (at + 512 * suc left) b _ (omega arith) (ih b t))

      go :
          (o : Option Bool) (t : AtaState D)
          → Returns o
          → ((b : Mem) (u : AtaState D)
              → Keeps (at + 512 + 512 * left) b (read_sectors ports left (at + 512) b u).0)
          → Keeps
              (at + 512 * suc left)
              buf
              (and_then
                (o, t)
                (λ r. elim r as (λ _. Act (AtaState D) (Bool × Mem)) [
                  | false ↦ pure (false, buf)
                  | true ↦ do
                    buf' ← read_words ports 256 at buf
                    read_sectors ports left (at + 512) buf'
                ])).0
      go none t h ih = absurd h
      go (some false) t h ih = λ a out. refl
      go (some true) t h ih =
          behind (read_words ports 256 at buf t).0 (read_words ports 256 at buf t).1
            (read_words-Filled 256 at buf t) ih

  -- Whatever the devices answer, `ata_read_sectors_lba28` ends with a result, and it has not written
  -- behind the first `512 * count` bytes of the buffer.
  pub ata_read_sectors_lba28-Keeps :
      (lba count : ℕ) (buf : Mem) (s : AtaState D)
      → Keeps (512 * count) buf (ata_read_sectors_lba28 ports lba count buf s).0
  unfolding ata_read_sectors_lba28
  ata_read_sectors_lba28-Keeps lba count buf s = first ((count == 0) || (s.ata_device_count == 0))
    where
      chosen :
          (o : Option Bool) (t : AtaState D)
          → Returns o
          → Keeps
              (512 * count)
              buf
              (and_then
                (o, t)
                (λ r. elim r as (λ _. Act (AtaState D) (Bool × Mem)) [
                  | false ↦ pure (false, buf)
                  | true ↦ do outb ports (ata_primary_base + 7) 0x20; read_sectors ports count 0 buf
                ])).0
      chosen none t h = absurd h
      chosen (some false) t h = λ a out. refl
      chosen (some true) t h =
          Keeps-le (0 + 512 * count) (512 * count) buf _ (omega arith)
            (read_sectors-Keeps count 0 buf _)

      first :
          (b : Bool)
          → Keeps
              (512 * count)
              buf
              (elim b as (λ _. Act (AtaState D) (Bool × Mem)) [
                | true ↦ pure (false, buf)
                | false ↦ do
                  ready ← select ports lba count
                  elim ready [
                    | false ↦ pure (false, buf)
                    | true ↦ do
                      outb ports (ata_primary_base + 7) 0x20
                      read_sectors ports count 0 buf
                  ]
              ]
                s).0
      first true = λ a out. refl
      first false =
          chosen (select ports lba count s).0 (select ports lba count s).1
            (select-Returns lba count s)
