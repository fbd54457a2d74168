-- ===== src/Fs/Format/Complete.antt =====
-- On a disk in order `ipo_fs_format` succeeds, and leaves a file system with its first files.
use ipo_os.Common.{arith, ℕ, ◌+◌, ◌/◌, ◌≤◌, ◌<◌, ◌≡◌, refl, ap, ◌∙◌, true, false, some, ltb}
use ipo_os.Memory.{cut, Mem, zeros}
use ipo_os.Fs.{
  Ata, Fs, ipo_inode_type_dir, ipo_inode_type_file, ipo_inode_flag_protected, with_links, with_size,
  with_mode,
}
use ipo_os.Fs.Block.{IsDisk, block_write, block_write-written}
use ipo_os.Fs.Layout.{IsLaidOut, InTable}
use ipo_os.Fs.Bitmap.{bitmap_set}
use ipo_os.Fs.Bitmap.Laws.{bit_in, bitmap_set-bit_set}
use ipo_os.Fs.File.Owned.{on, block, put, block-put_self}
use ipo_os.Fs.Dir.{dir_add_entry}
use ipo_os.Common.Action.{Act, ◌>>=◌, ◌>>◌, attempt}
use ipo_os.Fs.Inode.{write_inode, allocate_inode}
use ipo_os.Fs.Format.{make_dir, superblock_bytes, app, autorun}
use ipo_os.Fs.Format.Fresh.{IsFresh, numbered, IsFresh-numbered}
use ipo_os.Fs.Format.Progress.{
  IsMaking, super_step, root_step, dir_step, inode_step, write_step, entry_step,
}
use ipo_os.Fs.Format.Blank.{
  dots_rows, app_rows, first_rows, app_free, autorun_free, app_entries, dots_entries, app_valid,
  autorun_valid, bit_in-zeros,
}

module _ {D : Type 0} (ata : Ata D) (disk : IsDisk ata) (b : Fs D) (h : IsLaidOut disk.sectors b)
    (three : InTable b.sb 3) (some_data : b.sb.data_blocks_start + 2 ≤ b.sb.fs_size_blocks) where
  abbrev at : D → Fs D
  at d = on ata disk b d

  pub one : InTable b.sb 1
  one = record {
    positive = omega arith;
    known = omega (arith, three.known);
    inside = omega (arith, three.inside);
  }

  two : InTable b.sb 2
  two = record {
    positive = omega arith;
    known = omega (arith, three.known);
    inside = omega (arith, three.inside);
  }

  pub data_here : b.sb.data_blocks_start < b.sb.fs_size_blocks
  data_here = omega arith

  -- Behind the loops that clear the bitmaps.
  pub blank-IsFresh :
      (d : D)
      → ((m : ℕ) → 1 ≤ m → m < b.sb.inode_table_start → block ata disk b d m ≡ zeros)
      → IsFresh ata disk b h 0 0 d
  blank-IsFresh d blank = record {
    blocks = λ j lt.
        ap (λ x. bit_in x j)
          (blank (b.sb.block_bitmap_start + j / 4096) (omega (arith, h.inode_bits))
            (omega (arith, h.block_bits)))
        ∙ bit_in-zeros j
        ∙ none_below j;
    inodes = λ j lt.
        ap (λ x. bit_in x j)
          (blank (b.sb.inode_bitmap_start + j / 4096) (omega (arith, h.super))
            (omega (arith, h.inode_bits, h.block_bits)))
        ∙ bit_in-zeros j
        ∙ none_below j;
  }
    where
      none_below : (j : ℕ) → false ≡ ltb j 0
      none_below j = ground arith

  -- What follows the first superblock and the cleared blocks.
  abbrev pub first_files : Mem → Act (Fs D) (Unit {0})
  first_files tail = do
    attempt (bitmap_set ata b.sb.inode_bitmap_start 0 true)
    make_dir ata 1 ipo_inode_type_dir
    app_ino ← allocate_inode ata
    make_dir ata app_ino (ipo_inode_type_dir + ipo_inode_flag_protected)
    dir_add_entry ata 1 app app_ino ipo_inode_type_dir
    autorun_ino ← allocate_inode ata
    attempt (
        write_inode ata autorun_ino (
          with_links
            (with_size (with_mode zeros (ipo_inode_type_file + ipo_inode_flag_protected)) 0) 1))
    dir_add_entry ata 1 autorun autorun_ino ipo_inode_type_file
    block_write ata 0 (superblock_bytes b.sb tail)

  -- What `ipo_fs_format` leaves.
  pub record IsMade (tail : Mem) (d : D) : Type 0 where
    pub super : block ata disk b d 0 ≡ cut (superblock_bytes b.sb tail)
    pub making : IsMaking ata disk b h one data_here 2 3 4 first_rows d

  pub first_files-IsMade :
      (tail : Mem) (d : D)
      → IsFresh ata disk b h 0 0 d
      → (d' : D) × (first_files tail (at d) ≡ (some tt, at d')) × IsMade tail d'
  first_files-IsMade tail d f =
      let d1 = numbered ata disk b h 0 0 d f in
      let e1 =
        bitmap_set-bit_set ata disk (at d) b.sb.inode_bitmap_start 0
          (omega (arith, h.inode_bits, h.block_bits, h.table, h.data_area, h.addresses)) true in
      let f1 = IsFresh-numbered ata disk b h 0 0 d f one (omega arith) in
      let (d2, e2, p2) = root_step ata disk b h one data_here 1 d1 f1 in
      let (d3, e3, p3) =
        inode_step ata disk b h one data_here 1 1 2 dots_rows d2 p2 two (omega arith)
          (omega arith) in
      let (d4, e4, p4) =
        dir_step ata disk b h one data_here 1 2 2 dots_rows d3 p3 2
          (ipo_inode_type_dir + ipo_inode_flag_protected) two (omega arith) (omega arith)
          (omega arith) in
      let (d5, e5, p5) =
        entry_step ata disk b h one data_here 2 2 2 dots_rows d4 p4 app 2 ipo_inode_type_dir
          (omega arith) dots_entries app_valid app_free in
      let (d6, e6, p6) =
        inode_step ata disk b h one data_here 2 2 3 app_rows d5 p5 three (omega arith)
          (omega arith) in
      let inode =
        with_links (with_size (with_mode zeros (ipo_inode_type_file + ipo_inode_flag_protected)) 0)
          1 in
      let (d7, e7, p7) =
        write_step ata disk b h one data_here 2 3 3 app_rows d6 p6 3 inode three (omega arith) in
      let (d8, e8, p8) =
        entry_step ata disk b h one data_here 2 3 3 app_rows d7 p7 autorun 3 ipo_inode_type_file
          (omega arith) app_entries autorun_valid autorun_free in
      let e9 =
        block_write-written ata disk (at d8) 0 (superblock_bytes b.sb tail)
          (omega (arith, h.addresses)) in
      (
        put ata disk b d8 0 (superblock_bytes b.sb tail),
        rw (e1, e2) (rw (e3, e4) (rw (e5, e6) (rw (e7, e8) (rw e9 refl)))),
        record {
          super = block-put_self ata disk b h d8 0 (superblock_bytes b.sb tail) (omega arith);
          making =
              super_step ata disk b h one data_here 2 3 4 first_rows d8 p8
                (superblock_bytes b.sb tail);
        },
      )
