-- ===== src/Fs/Dir/Added.antt =====
-- `dir_add_entry` on a disk in order: what it leaves on the disk.
use ipo_os.Common.{
  arith, ℕ, ◌+◌, ◌*◌, ◌/◌, ◌%◌, ◌≤◌, ◌<◌, ◌≡◌, ◌≢◌, refl, sym, ap, ◌∙◌, true, Option, none, some,
  add32,
}
use ipo_os.Memory.{Mem}
use ipo_os.Fs.{Ata, Fs, Inode, direct_of, size_of, with_size}
use ipo_os.Fs.Block.{IsDisk, content, written, block_read-content, block_write-written}
use ipo_os.Fs.Layout.{IsLaidOut}
use ipo_os.Fs.Inode.Table.{inode_at, inode_set, read_inode-inode_at, write_inode-inode_set}
use ipo_os.Fs.File.Placing.{get_data_block-there}
use ipo_os.Fs.DataBlock.{get_data_block_for_inode}
use ipo_os.Fs.Dir.{
  Name, Entry, with_inode, dir_find_entry, dir_add_entry, put_entry, is_valid_filename,
}
use ipo_os.Fs.Dir.Lookup.{IsRow, IsDirectory, row_block, row_place, row_found, dir_find_entry-first}
use ipo_os.Fs.Dir.Naming.{IsEntry}

module _ {D : Type 0} (ata : Ata D) (disk : IsDisk ata) where
  -- A directory of `count` entries whose blocks lie apart from one another in the data area, that of
  -- the next entry among them.
  pub record CanGrow (s : Fs D) (i count : ℕ) : Type 0 where
    pub directory : IsDirectory ata disk s i count
    pub row : IsRow ata disk s (inode_at ata disk s i) (count + 1)
    pub above :
        (j : ℕ) → j ≤ count → s.sb.data_blocks_start ≤ direct_of (inode_at ata disk s i) (j / 7)
    pub apart :
        (j : ℕ)
        → j ≤ count
        → j / 7 ≢ count / 7
        → direct_of (inode_at ata disk s i) (j / 7) ≢ direct_of (inode_at ata disk s i) (count / 7)
    pub entries :
        (j : ℕ)
        → j < count
        → IsEntry (row_block ata disk s (inode_at ata disk s i) j) (row_place ata disk j)

  -- Where no entry has the name, the search leaves the state as it was.
  pub absent :
      (s : Fs D) (i count : ℕ) (name : Name)
      → IsDirectory ata disk s i count
      → (dir_find_entry ata i name s).0 ≡ none
      → dir_find_entry ata i name s ≡ (none, s)
  absent s i count name d fresh =
      let e = dir_find_entry-first ata disk s i count name d in
      e ∙ kept s (inode_at ata disk s i) _ (ap (λ (r : Option Entry × Fs D). r.0) (sym e) ∙ fresh)
    where
      kept :
          (s : Fs D) (din : Inode) (o : Option ℕ)
          → (row_found ata disk s din o).0 ≡ none
          → row_found ata disk s din o ≡ (none, s)
      kept s din none e = refl
      kept s din (some j) e = cc

  module _ (s : Fs D) (i count : ℕ) (g : CanGrow s i count) where
    abbrev pub din : Inode
    din = inode_at ata disk s i

    -- The block of the new entry.
    abbrev pub target : ℕ
    target = direct_of din (count / 7)

    module _ (name : Name) (inode_no type : ℕ) where
      abbrev pub new_block_bytes : Mem
      new_block_bytes = put_entry (content ata disk s target) (count % 7 * 72) name inode_no type

      abbrev pub entered : Fs D
      entered = written ata disk s target new_block_bytes

      abbrev pub larger : Inode
      larger = with_size din (72 * count + 72)

      abbrev pub added : Fs D
      added = inode_set ata disk entered i larger

      pub low : s.fs_start_lba + target < disk.sectors
      low = omega (arith, g.row.inside count (omega arith), g.directory.laid.addresses)

      pub laid_entered : IsLaidOut disk.sectors entered
      laid_entered = record {
        super = g.directory.laid.super;
        inode_bits = g.directory.laid.inode_bits;
        block_bits = g.directory.laid.block_bits;
        table = g.directory.laid.table;
        data_area = g.directory.laid.data_area;
        addresses = g.directory.laid.addresses;
      }

      block_step :
          with_inode ata din (get_data_block_for_inode ata (count / 7) true) s
          ≡ (some (target, din), s)
      unfolding with_inode
      block_step =
          let there =
            get_data_block-there ata (count / 7) true din s (omega (arith, g.row.few))
              (g.row.there count (omega arith)) (omega (arith, low)) in
          rw (there, with_inode) (rw there refl)

      pub dir_add_entry-added :
          is_valid_filename name ≡ true
          → (dir_find_entry ata i name s).0 ≡ none
          → dir_add_entry ata i name inode_no type s ≡ (some tt, added)
      unfolding dir_add_entry
      dir_add_entry-added valid fresh =
          let d = g.directory in
          let entries : size_of din / 72 ≡ count = omega (arith, d.size) in
          let grown : add32 (size_of din) 72 ≡ 72 * count + 72 = omega (arith, d.size, g.row.few) in
          rw
            (
              read_inode-inode_at ata disk s d.laid i d.known,
              d.kind,
              valid,
              absent s i count name d fresh,
              entries,
              block_step,
              block_read-content ata disk s target low,
            )
            (rw
              (
                block_write-written ata disk s target new_block_bytes low,
                grown,
                write_inode-inode_set ata disk entered laid_entered i d.known larger,
              )
              refl)
