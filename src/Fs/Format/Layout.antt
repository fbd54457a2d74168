-- ===== src/Fs/Format/Layout.antt =====
-- The areas that `ipo_fs_format` plans.
use ipo_os.Common.{
  ℕ, zero, suc, ◌+◌, ◌-◌, ◌*◌, ◌^◌, ◌≤◌, ◌<◌, ◌≡◌, refl, inl, inr, ◌||◌, none, some, arith, ltb,
  leb, ◌==◌, if◌then◌else◌, Bool-cases, u32_mod, add32,
}
use ipo_os.Fs.{Superblock}
use mathlib.Core.Path.{subst}
use ipo_os.Fs.Dir.{text}
use ipo_os.Fs.Inode.{inode_block}
use ipo_os.Fs.Format.{
  ipo_fs_magic_str, plan, settle, data_blocks_left, inode_bitmap_blocks, inode_table_blocks,
  blocks_for, bits_per_block,
}

pub settle-le :
    (iter total inode_bits block_bits table : ℕ)
    → block_bits ≤ 2 ^ 20
    → settle iter total inode_bits block_bits table ≤ 2 ^ 20
unfolding settle
settle-le zero total inode_bits block_bits table h = h
settle-le (suc iter) total inode_bits block_bits table h = elim (Bool-cases (nb == block_bits)) [
  | inl e ↦ rw e h
  | inr n ↦ rw n (settle-le iter total inode_bits nb table (omega arith))
]
  where
    nb : ℕ
    nb = blocks_for (data_blocks_left total inode_bits block_bits table) bits_per_block

-- What the areas of a plan satisfy.
pub record IsPlan (total_blocks total_inodes : ℕ) (sb : Superblock) : Type 0 where
  pub size : sb.fs_size_blocks ≡ total_blocks
  pub count : sb.inode_count ≡ total_inodes
  pub super : sb.inode_bitmap_start ≡ 1
  pub inode_bits : total_inodes ≤ 4096 * (sb.block_bitmap_start - 1)
  pub bitmaps : 1 ≤ sb.block_bitmap_start
  pub tables : sb.block_bitmap_start ≤ sb.inode_table_start
  pub table : sb.inode_table_start + inode_table_blocks total_inodes ≡ sb.data_blocks_start
  pub bytes : 76 * total_inodes ≤ 512 * inode_table_blocks total_inodes
  pub tight : 512 * inode_table_blocks total_inodes < 76 * total_inodes + 512
  pub data_area : sb.data_blocks_start < total_blocks

inj : (a b : Superblock) → some a ≡ some b → a ≡ b
inj a b e = cc

ne : (a : Superblock) → (none ≡ some a) → ⊥
ne a e = cc

-- The superblock that a plan with `bits` blocks of block bitmap makes.
abbrev pub planned : (total_blocks total_inodes bits : ℕ) → Superblock
planned total_blocks total_inodes bits = record {
  magic = text ipo_fs_magic_str;
  fs_size_blocks = total_blocks;
  block_size = 512;
  inode_count = total_inodes;
  inode_bitmap_start = 1;
  block_bitmap_start = add32 1 (inode_bitmap_blocks total_inodes);
  inode_table_start = add32 (add32 1 (inode_bitmap_blocks total_inodes)) bits;
  data_blocks_start =
      add32 (add32 (add32 1 (inode_bitmap_blocks total_inodes)) bits)
        (inode_table_blocks total_inodes);
}

planned-IsPlan :
    (total_blocks total_inodes bits : ℕ)
    → total_blocks < 2 ^ 31
    → total_inodes * 76 + 511 < u32_mod
    → bits ≤ 2 ^ 20
    → 0
      < data_blocks_left total_blocks
          (inode_bitmap_blocks total_inodes)
          bits
          (inode_table_blocks total_inodes)
    → data_blocks_left total_blocks
        (inode_bitmap_blocks total_inodes)
        bits
        (inode_table_blocks total_inodes)
      < 2 ^ 31
    → IsPlan total_blocks total_inodes (planned total_blocks total_inodes bits)
unfolding inode_bitmap_blocks inode_table_blocks data_blocks_left
planned-IsPlan total_blocks total_inodes bits few word small some_left bounded = record {
  size = refl;
  count = refl;
  super = refl;
  inode_bits = omega arith;
  bitmaps = omega arith;
  tables = omega arith;
  table = omega arith;
  bytes = omega arith;
  tight = omega arith;
  data_area = omega arith;
}

-- The blocks of the block bitmap.
abbrev pub settled : (total_blocks total_inodes : ℕ) → ℕ
settled total_blocks total_inodes =
    settle 8 total_blocks (inode_bitmap_blocks total_inodes) 1 (inode_table_blocks total_inodes)

-- The data blocks that a plan leaves.
abbrev pub left_over : (total_blocks total_inodes : ℕ) → ℕ
left_over total_blocks total_inodes =
    data_blocks_left total_blocks (inode_bitmap_blocks total_inodes)
      (settled total_blocks total_inodes) (inode_table_blocks total_inodes)

pub plan-planned :
    (total_blocks total_inodes : ℕ) (sb : Superblock)
    → plan total_blocks total_inodes ≡ some sb
    → (planned total_blocks total_inodes (settled total_blocks total_inodes) ≡ sb)
      × (0 < left_over total_blocks total_inodes)
      × (left_over total_blocks total_inodes < 2 ^ 31)
unfolding plan
plan-planned total_blocks total_inodes sb e =
    go (settled total_blocks total_inodes) (left_over total_blocks total_inodes) e
  where
    go :
        (bits left : ℕ)
        → (if ltb total_blocks 10
            then none
            else if (left == 0) || leb 0x80000000 left
            then none
            else some (planned total_blocks total_inodes bits))
          ≡ some sb
        → (planned total_blocks total_inodes bits ≡ sb) × (0 < left) × (left < 2 ^ 31)
    go bits left e = elim (Bool-cases (ltb total_blocks 10)) [
      | inl few' ↦ absurd (ne _ (rw few' at e))
      | inr enough ↦ elim (Bool-cases ((left == 0) || leb 0x80000000 left)) [
        | inl bad ↦ absurd (ne _ (rw (enough, bad) at e))
        | inr fine ↦ (inj _ _ (rw (enough, fine) at e), ground arith, ground arith)
      ]
    ]

-- For fewer than 2^31 blocks and an inode table whose bytes fit a word, the superblock that
-- `ipo_fs_format` computes holds the numbers asked for, its areas follow one another without a gap,
-- the inode bitmap has a bit for each inode, the inode table has the bytes of all inodes, and the data
-- area is not empty and ends with the disk.
pub plan-IsPlan :
    (total_blocks total_inodes : ℕ) (sb : Superblock)
    → plan total_blocks total_inodes ≡ some sb
    → total_blocks < 2 ^ 31
    → total_inodes * 76 + 511 < u32_mod
    → IsPlan total_blocks total_inodes sb
plan-IsPlan total_blocks total_inodes sb e few word =
    let (same, some_left, bounded) = plan-planned total_blocks total_inodes sb e in
    let small : settled total_blocks total_inodes ≤ 2 ^ 20 = settle-le 8 _ _ 1 _ (omega arith) in
    subst (IsPlan total_blocks total_inodes) same (
      planned-IsPlan total_blocks total_inodes (settled total_blocks total_inodes) few word small
        some_left bounded)

-- The inode table has room for the bytes of the inodes, but a block holds only six of them: from 110
-- inodes on, the block of the last inode of a plan is not in the inode table, but at the start of the
-- data area or behind it.
pub inode_block-le-data :
    (total_blocks total_inodes : ℕ) (sb : Superblock)
    → plan total_blocks total_inodes ≡ some sb
    → total_blocks < 2 ^ 31
    → total_inodes * 76 + 511 < u32_mod
    → 110 ≤ total_inodes
    → sb.data_blocks_start ≤ inode_block sb total_inodes
inode_block-le-data total_blocks total_inodes sb e few word many =
    let p = plan-IsPlan total_blocks total_inodes sb e few word in
    omega (arith, p.table, p.tight, p.data_area)
