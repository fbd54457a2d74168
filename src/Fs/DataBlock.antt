-- ===== src/Fs/DataBlock.antt =====
-- `get_data_block_for_inode` of lib/c/file_system/ipo_inode.c: the block of a file's logical block,
-- through the direct numbers, the indirect and the double indirect block. The caller's inode is part
-- of the state, since it keeps what was written to it also when the call fails.
use ipo_os.Common.{ℕ, ◌-◌, ◌*◌, ◌/◌, ◌%◌, Bool, true, false, ltb, leb, ◌==◌, if◌then◌else◌}
use ipo_os.Memory.{load32, store32, zeros}
use ipo_os.Common.Action.{Act, pure, fail, ◌>>=◌, ◌>>◌, attempt, guard, asks, modify, lift}
use ipo_os.Fs.{
  Ata, Fs, Inode, ipo_fs_direct_blocks, direct_of, indirect_of, double_indirect_of, with_direct,
  with_indirect, with_double_indirect, as_int,
}
use ipo_os.Fs.Block.{block_read, block_write}
use ipo_os.Fs.Inode.{allocate_block}

-- `IPO_FS_BLOCK_SIZE / 4`.
abbrev pub per_block : ℕ
per_block = 128

module _ {D : Type 0} (ata : Ata D) where
  abbrev Step : Type 0 → Type 0
  Step A = Act (Inode × Fs D) A

  -- `if (!alloc) return -1; allocate_block()`.
  unfoldable pub new_block : Bool → Act (Fs D) ℕ
  new_block alloc = do guard alloc; allocate_block ata

  -- The number `read` from a pointer block, or a new block's that is written there. `clear` is the
  -- `block_write` of zeros that the code makes for a new pointer block, behind that write.
  unfoldable pub pointer : Bool → Bool → ℕ → ℕ → Act (Fs D) ℕ
  pointer alloc clear table i = do
    buf ← block_read ata table
    if load32 buf (4 * i) == 0
        then (do
          phys ← new_block alloc
          attempt (block_write ata table (store32 buf (4 * i) phys))
          if clear then (do attempt (block_write ata phys zeros); pure phys) else pure phys)
        else pure (load32 buf (4 * i))

  unfoldable pub direct_block : ℕ → Bool → Act (Inode × Fs D) ℕ
  direct_block i alloc = do
    inode ← asks (λ s. s.0)
    if direct_of inode i == 0
        then (do
          phys ← lift (new_block alloc)
          modify (λ s. (with_direct s.0 i phys, s.1))
          pure phys)
        else as_int (direct_of inode i)

  -- The number of the inode's indirect block (`double` false) or double indirect block.
  unfoldable pub table_block : Bool → Bool → Act (Inode × Fs D) ℕ
  table_block double alloc = do
    inode ← asks (λ s. s.0)
    let number = if double then double_indirect_of inode else indirect_of inode
    if number == 0
        then (do
          table ← lift (new_block alloc)
          modify (λ s.
              (if double then with_double_indirect s.0 table else with_indirect s.0 table, s.1))
          attempt (lift (block_write ata table zeros))
          pure table)
        else pure number

  unfoldable pub single_indirect : ℕ → Bool → Act (Inode × Fs D) ℕ
  single_indirect idx alloc = do
    table ← table_block false alloc
    phys ← lift (pointer alloc false table idx)
    as_int phys

  unfoldable pub double_indirect : ℕ → Bool → Act (Inode × Fs D) ℕ
  double_indirect idx alloc = do
    double ← table_block true alloc
    single ← lift (pointer alloc true double (idx / per_block))
    phys ← lift (pointer alloc false single (idx % per_block))
    as_int phys

  unfoldable pub get_data_block_for_inode : ℕ → Bool → Act (Inode × Fs D) ℕ
  get_data_block_for_inode logical_index alloc =
      let idx = logical_index - ipo_fs_direct_blocks in
      if ltb logical_index ipo_fs_direct_blocks
      then direct_block logical_index alloc
      else if ltb idx per_block
      then single_indirect idx alloc
      else if leb (per_block * per_block) (idx - per_block)
      then fail
      else double_indirect (idx - per_block) alloc
