-- ===== src/Fs/File.antt =====
-- Open files of lib/c/file_system/ipo_api.c: `ipo_fs_open`, `ipo_fs_read`, `ipo_fs_write`. A file
-- descriptor is an `int` read as unsigned, so that a negative one is not below 32. `tmp` is the sector
-- buffer on the stack: the reads into it are not tested.
pub mod Bounds
pub mod Owned
pub mod Placing
pub mod RoundTrip
pub mod Written
mod Tests
pub mod Isolation
pub mod Rounds
pub mod ReadBack
pub mod WriteBack
use ipo_os.Common.{
  ℕ, zero, suc, ◌+◌, ◌-◌, ◌/◌, ◌%◌, min, true, false, not, Option, none, some, List, [], ◌∷◌, ltb,
  leb, ◌==◌, if◌then◌else◌, get_elem?, set, add32, sub32,
}
use ipo_os.Memory.{Mem, blit}
use mathlib.Core.Option
use ipo_os.Common.Action.{Act, pure, fail, ◌>>=◌, ◌>>◌, attempt, guard, asks, modify}
use ipo_os.Fs.{Ata, Fs, Fd, Inode, ipo_fs_block_size, size_of, with_size, is_dir}
use ipo_os.Fs.Block.{block_read_raw, block_write}
use ipo_os.Fs.Dir.{Name, on_inode}
use ipo_os.Fs.Path.{path_resolve}
use ipo_os.Fs.Inode.{read_inode, write_inode}
use ipo_os.Fs.DataBlock.{get_data_block_for_inode}

-- The first descriptor of the table that is not in use.
unfoldable pub first_unused : List Fd → Option ℕ
first_unused [] = none
first_unused (f ∷ fs) = if f.used then Option.map suc (first_unused fs) else some 0

-- `fds[fd].inode`, for a descriptor below 32 that is in use.
unfoldable pub open_inode : List Fd → ℕ → Option ℕ
open_inode fds fd = elim (get_elem? fds fd) [
  | none ↦ none
  | some f ↦ if f.used then some f.inode else none
]

abbrev pub opened : ℕ → Fd
opened ino = record { used = true; inode = ino; offset = 0 }

abbrev pub last_block : ℕ → ℕ → ℕ
last_block offset size = sub32 (add32 offset size) 1 / ipo_fs_block_size

-- The rounds of `for (b = first_block; b <= last_block; b++)`.
abbrev pub rounds : ℕ → ℕ → ℕ
rounds offset size = last_block offset size + 1 - offset / ipo_fs_block_size

-- `block_offset` and the bytes that a round moves, `moved` bytes being done.
abbrev pub offset_in : ℕ → ℕ → ℕ
offset_in offset b = if b == offset / ipo_fs_block_size then offset % ipo_fs_block_size else 0

abbrev pub chunk : ℕ → ℕ → ℕ → ℕ → ℕ
chunk offset size b moved = min (ipo_fs_block_size - offset_in offset b) (sub32 size moved)

-- The bytes to read of the `size` asked for: those up to the end of the file.
abbrev pub clip : Inode → ℕ → ℕ → ℕ
clip inode offset size =
    if ltb (size_of inode) (add32 offset size) then size_of inode - offset else size

module _ {D : Type 0} (ata : Ata D) where
  unfoldable pub ipo_fs_open : Name → Act (Fs D) ℕ
  ipo_fs_open path = do
    s ← asks (λ s. s)
    guard s.fs_mounted
    ino ← path_resolve ata path
    inode ← read_inode ata ino
    guard (not (is_dir inode))
    elim (first_unused s.fds) [
      | none ↦ fail
      | some i ↦ do modify (λ t. record t { fds = set t.fds i (opened ino) }); pure i
    ]

  unfoldable pub read_from :
      (offset size : ℕ)
      → Inode
      → (left b : ℕ) → (copied : ℕ) → (buffer tmp : Mem) → Act (Fs D) (ℕ × Mem)
  read_from offset size inode zero b copied buffer tmp = pure (copied, buffer)
  read_from offset size inode (suc left) b copied buffer tmp = do
    phys ← attempt (on_inode ata inode (get_data_block_for_inode ata b false))
    elim phys [
      | none ↦ pure (copied, buffer)
      | some p ↦ do
        (_, sector) ← block_read_raw ata p tmp
        let n = chunk offset size b copied
        read_from offset size inode left (b + 1) (add32 copied n)
            (blit buffer copied sector (offset_in offset b) n) sector
    ]

  -- The number of bytes read, and the buffer.
  unfoldable pub ipo_fs_read :
      (fd : ℕ) → (buffer tmp : Mem) → (size offset : ℕ) → Act (Fs D) (ℕ × Mem)
  ipo_fs_read fd buffer tmp size offset = do
    s ← asks (λ s. s)
    elim (open_inode s.fds fd) [
      | none ↦ fail
      | some ino ↦ do
        inode ← read_inode ata ino
        let count = clip inode offset size
        if leb (size_of inode) offset
            then pure (0, buffer)
            else read_from offset count inode (rounds offset count) (offset / ipo_fs_block_size) 0
                buffer tmp
    ]

  -- A call on the caller's inode, whatever it returns.
  unfoldable pub step_inode : Inode → Act (Inode × Fs D) ℕ → Act (Fs D) (Option ℕ × Inode)
  step_inode inode m s = (some ((m (inode, s)).0, (m (inode, s)).1.0), (m (inode, s)).1.1)

  unfoldable pub write_from :
      (offset size : ℕ)
      → (buffer : Mem) → (left b : ℕ) → (moved : ℕ) → Inode
      → (tmp : Mem) → Act (Fs D) (ℕ × Inode)
  write_from offset size buffer zero b moved inode tmp = pure (moved, inode)
  write_from offset size buffer (suc left) b moved inode tmp = do
    (phys, inode') ← step_inode inode (get_data_block_for_inode ata b true)
    elim phys [
      | none ↦ pure (moved, inode')
      | some p ↦ do
        (_, old) ← block_read_raw ata p tmp
        let n = chunk offset size b moved
        let sector = blit old (offset_in offset b) buffer moved n
        attempt (block_write ata p sector)
        write_from offset size buffer left (b + 1) (add32 moved n) inode' sector
    ]

  unfoldable pub ipo_fs_write : (fd : ℕ) → (buffer tmp : Mem) → (size offset : ℕ) → Act (Fs D) ℕ
  ipo_fs_write fd buffer tmp size offset = do
    s ← asks (λ s. s)
    elim (open_inode s.fds fd) [
      | none ↦ fail
      | some ino ↦ do
        inode ← read_inode ata ino
        (moved, inode') ←
            write_from offset size buffer (rounds offset size) (offset / ipo_fs_block_size) 0 inode
              tmp
        let end = add32 offset moved
        attempt (
            write_inode ata ino (if ltb (size_of inode') end then with_size inode' end else inode'))
        pure moved
    ]
