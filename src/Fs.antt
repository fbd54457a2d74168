-- ===== src/Fs.antt =====
-- The file system: its state (lib/c/file_system/ipo_state.c, lib/h/file_system/ipo_fs.h) and what it
-- asks of the disk driver. Structures that the code casts from a sector buffer stay bytes, with a
-- function for each field.
pub mod Block
pub mod Driven
pub mod Bitmap
pub mod Inode
pub mod DataBlock
pub mod Layout
pub mod Dir
pub mod Path
pub mod File
pub mod Tree
pub mod Format
pub mod Listing
mod Tests
use ipo_os.Common.{
  ℕ, zero, suc, ◌+◌, ◌-◌, ◌*◌, ◌/◌, ◌%◌, ◌^◌, ◌≤◌, ◌<◌, min, ◌≡◌, refl, sym, ap, ◌∙◌, fun_ext, ◌≢◌,
  ◌↔◌, ◌⊎◌, inl, inr, Bool, true, false, not, ◌&&◌, ◌||◌, Option, none, some, List, [], ◌∷◌, ◌++◌,
  map, reverse, arith, ltb, leb, ◌==◌, if◌then◌else◌, Bool-cases, tests, lt→ltb, le→ltb, ltb→lt,
  leb→le, ltb→le, leb→lt, ==_iff, all_below, all_below_sound, length, get_elem?, set, take, drop,
  replicate, is_some, length-append, length-set, get_elem?-set_self, get_elem?-set_ne, u32_mod,
  add32, sub32,
}
use ipo_os.Common.Action.{
  Act, pure, fail, and_then, ◌>>=◌, ◌>>◌, attempt, guard, asks, modify, lift,
}
use ipo_os.Memory.{Mem, get8, put8, load32, store32, fill, blit, zeros, Agree}

abbrev pub ipo_fs_block_size : ℕ
ipo_fs_block_size = 512

abbrev pub ipo_fs_max_name : ℕ
ipo_fs_max_name = 64

abbrev pub ipo_fs_direct_blocks : ℕ
ipo_fs_direct_blocks = 6

abbrev pub ipo_inode_type_dir : ℕ
ipo_inode_type_dir = 1

abbrev pub ipo_inode_type_file : ℕ
ipo_inode_type_file = 2

abbrev pub ipo_inode_flag_protected : ℕ
ipo_inode_flag_protected = 0x80000000

abbrev pub ipo_max_fds : ℕ
ipo_max_fds = 32

-- `ata_read_sectors_lba28` and `ata_write_sectors_lba28` for one sector. A read is given the buffer
-- as it is and returns it as the driver leaves it, also when it fails.
pub record Ata (D : Type 0) : Type 0 where
  pub read : ℕ → Mem → D → Bool × Mem × D
  pub write : ℕ → Mem → D → Bool × D

pub record Superblock : Type 0 where
  pub magic : Mem
  pub fs_size_blocks : ℕ
  pub block_size : ℕ
  pub inode_count : ℕ
  pub inode_bitmap_start : ℕ
  pub block_bitmap_start : ℕ
  pub inode_table_start : ℕ
  pub data_blocks_start : ℕ

-- `struct ipo_fd`. Nothing uses the field `flags`.
pub record Fd : Type 0 where
  pub used : Bool
  pub inode : ℕ
  pub offset : ℕ

pub record Fs (D : Type 0) : Type 0 where
  pub disk : D
  pub sb : Superblock
  pub fs_start_lba : ℕ
  pub fs_mounted : Bool
  pub fds : List Fd

-- `struct ipo_inode`, 76 bytes.
abbrev pub Inode : Type 0
Inode = Mem

abbrev pub inode_size : ℕ
inode_size = 76

abbrev pub inodes_per_block : ℕ
inodes_per_block = 6

abbrev pub mode_of : Inode → ℕ
mode_of n = load32 n 0

abbrev pub size_of : Inode → ℕ
size_of n = load32 n 4

abbrev pub links_of : Inode → ℕ
links_of n = load32 n 8

abbrev pub direct_of : Inode → ℕ → ℕ
direct_of n i = load32 n (12 + 4 * i)

abbrev pub indirect_of : Inode → ℕ
indirect_of n = load32 n 36

abbrev pub double_indirect_of : Inode → ℕ
double_indirect_of n = load32 n 40

abbrev pub with_mode : Inode → ℕ → Inode
with_mode n v = store32 n 0 v

abbrev pub with_size : Inode → ℕ → Inode
with_size n v = store32 n 4 v

abbrev pub with_links : Inode → ℕ → Inode
with_links n v = store32 n 8 v

abbrev pub with_direct : Inode → ℕ → ℕ → Inode
with_direct n i v = store32 n (12 + 4 * i) v

abbrev pub with_indirect : Inode → ℕ → Inode
with_indirect n v = store32 n 36 v

abbrev pub with_double_indirect : Inode → ℕ → Inode
with_double_indirect n v = store32 n 40 v

-- `(mode & IPO_INODE_TYPE_DIR) != 0` and `mode & IPO_INODE_FLAG_PROTECTED`.
abbrev pub is_dir : Inode → Bool
is_dir n = mode_of n % 2 == 1

abbrev pub is_protected : Inode → Bool
is_protected n = leb ipo_inode_flag_protected (mode_of n)

-- A `uint32_t` returned as an `int`: negative from 2^31 on, which every caller takes for an error.
abbrev pub as_int : {S : Type 0} → ℕ → Act S ℕ
as_int v = if ltb v 0x80000000 then pure v else fail

-- `ipo_fs_init`. The table's other fields keep their values.
pub ipo_fs_init : {D : Type 0} → Fs D → Fs D
ipo_fs_init s = record s {
  sb = record {
    magic = zeros;
    fs_size_blocks = 0;
    block_size = 0;
    inode_count = 0;
    inode_bitmap_start = 0;
    block_bitmap_start = 0;
    inode_table_start = 0;
    data_blocks_start = 0;
  };
  fs_mounted = false;
  fds = map {A = Fd} (λ f. record f { used = false }) s.fds;
}
