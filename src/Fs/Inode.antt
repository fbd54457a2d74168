-- ===== src/Fs/Inode.antt =====
-- Inodes and the allocation of inodes and blocks, lib/c/file_system/ipo_inode.c up to `free_block`.
-- A call whose result the code does not test stands under `attempt`.
pub mod Alloc
pub mod Table
use ipo_os.Common.{
  ℕ, zero, suc, ◌+◌, ◌-◌, ◌*◌, ◌/◌, ◌%◌, min, Bool, true, false, not, ◌||◌, ltb, ◌==◌,
  if◌then◌else◌, add32, sub32,
}
use ipo_os.Memory.{Mem, load32, blit, zeros}
use ipo_os.Common.Action.{Act, pure, fail, ◌>>=◌, ◌>>◌, attempt, guard, asks}
use ipo_os.Fs.{
  Ata, Fs, Superblock, Inode, ipo_fs_block_size, ipo_fs_direct_blocks, inode_size, inodes_per_block,
  size_of, direct_of, indirect_of, with_direct, with_indirect, as_int,
}
use ipo_os.Fs.Block.{block_read_raw, block_read, block_write}
use ipo_os.Fs.Bitmap.{bitmap_get, bitmap_set}

-- The block of inode `inode_no`, and its place in that block.
abbrev pub inode_block : Superblock → ℕ → ℕ
inode_block sb inode_no = add32 sb.inode_table_start ((inode_no - 1) / inodes_per_block)

abbrev pub inode_offset : ℕ → ℕ
inode_offset inode_no = (inode_no - 1) % inodes_per_block * inode_size

-- `inode_no == 0 || inode_no > sb.inode_count`.
abbrev pub no_such_inode : Superblock → ℕ → Bool
no_such_inode sb inode_no = inode_no == 0 || ltb sb.inode_count inode_no

module _ {D : Type 0} (ata : Ata D) where
  unfoldable pub read_inode : ℕ → Act (Fs D) Inode
  read_inode inode_no = do
    sb ← asks (λ s. s.sb)
    guard (not (no_such_inode sb inode_no))
    buf ← block_read ata (inode_block sb inode_no)
    pure (blit zeros 0 buf (inode_offset inode_no) inode_size)

  unfoldable pub write_inode : ℕ → Inode → Act (Fs D) (Unit {0})
  write_inode inode_no inode = do
    sb ← asks (λ s. s.sb)
    guard (not (no_such_inode sb inode_no))
    buf ← block_read ata (inode_block sb inode_no)
    block_write ata (inode_block sb inode_no) (blit buf (inode_offset inode_no) inode 0 inode_size)

  -- The loop of `allocate_inode` from inode `i + 1` on, with `left` inodes to go.
  unfoldable pub allocate_inode_from : ℕ → ℕ → Act (Fs D) ℕ
  allocate_inode_from zero i = fail
  allocate_inode_from (suc left) i = do
    sb ← asks (λ s. s.sb)
    taken ← bitmap_get ata sb.inode_bitmap_start i
    elim taken [
      | true ↦ allocate_inode_from left (i + 1)
      | false ↦ do
        bitmap_set ata sb.inode_bitmap_start i true
        attempt (write_inode (i + 1) zeros)
        as_int (i + 1)
    ]

  unfoldable pub allocate_inode : Act (Fs D) ℕ
  allocate_inode = do sb ← asks (λ s. s.sb); allocate_inode_from sb.inode_count 0

  -- The loop of `allocate_block` from data block `i` on, with `left` blocks to go.
  unfoldable pub allocate_block_from : ℕ → ℕ → Act (Fs D) ℕ
  allocate_block_from zero i = fail
  allocate_block_from (suc left) i = do
    sb ← asks (λ s. s.sb)
    taken ← bitmap_get ata sb.block_bitmap_start i
    elim taken [
      | true ↦ allocate_block_from left (i + 1)
      | false ↦ do
        bitmap_set ata sb.block_bitmap_start i true
        block_write ata (add32 sb.data_blocks_start i) zeros
        as_int (add32 sb.data_blocks_start i)
    ]

  unfoldable pub allocate_block : Act (Fs D) ℕ
  allocate_block = do
    sb ← asks (λ s. s.sb)
    allocate_block_from (sub32 sb.fs_size_blocks sb.data_blocks_start) 0

  unfoldable pub free_block : ℕ → Act (Fs D) (Unit {0})
  free_block phys_block = do
    sb ← asks (λ s. s.sb)
    guard (not (ltb phys_block sb.data_blocks_start))
    bitmap_set ata sb.block_bitmap_start (phys_block - sb.data_blocks_start) false

  -- Clears the bit of a block number that is not 0, and passes over a failure.
  unfoldable pub release_block : ℕ → Act (Fs D) (Unit {0})
  release_block phys = do
    sb ← asks (λ s. s.sb)
    if phys == 0 then pure tt else do
      attempt (bitmap_set ata sb.block_bitmap_start (sub32 phys sb.data_blocks_start) false)
      pure tt

  -- The direct blocks from `i` on, with `left` of them to go.
  unfoldable pub free_direct : ℕ → ℕ → Inode → Act (Fs D) Inode
  free_direct zero i inode = pure inode
  free_direct (suc left) i inode = do
    release_block (direct_of inode i)
    free_direct left (i + 1) (if direct_of inode i == 0 then inode else with_direct inode i 0)

  -- The block numbers of an indirect block from entry `i` on, with `left` of them to go.
  unfoldable pub free_pointers : ℕ → ℕ → Mem → Act (Fs D) (Unit {0})
  free_pointers zero i ibuf = pure tt
  free_pointers (suc left) i ibuf = do
    release_block (load32 ibuf (4 * i))
    free_pointers left (i + 1) ibuf

  -- `ibuf` is what the stack holds: the read of the indirect block is not tested.
  unfoldable pub free_indirect : Mem → Inode → Act (Fs D) Inode
  free_indirect ibuf inode = if indirect_of inode == 0 then pure inode else do
    (_, ptrs) ← block_read_raw ata (indirect_of inode) ibuf
    free_pointers 128 0 ptrs
    release_block (indirect_of inode)
    pure (with_indirect inode 0)

  -- The double indirect block is not looked at.
  unfoldable pub free_inode : Mem → ℕ → Act (Fs D) (Unit {0})
  free_inode ibuf inode_no = do
    sb ← asks (λ s. s.sb)
    guard (not (no_such_inode sb inode_no))
    inode ← read_inode inode_no
    let nblocks = add32 (size_of inode) 511 / ipo_fs_block_size
    inode ← free_direct (min ipo_fs_direct_blocks nblocks) 0 inode
    inode ← free_indirect ibuf inode
    attempt (bitmap_set ata sb.inode_bitmap_start (inode_no - 1) false)
    attempt (write_inode inode_no inode)
    pure tt
