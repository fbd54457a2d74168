-- ===== src/Fs/Format/Progress.antt =====
-- The steps by which `ipo_fs_format` makes the first files, each from a state in order to the next.
use ipo_os.Common.{arith, ℕ, ◌+◌, ◌*◌, ◌^◌, ◌≤◌, ◌<◌, ◌≡◌, ◌≢◌, true, false, some}
use ipo_os.Memory.{cut, Mem, zeros}
use ipo_os.Fs.{Ata, Fs, Inode}
use ipo_os.Fs.Block.{IsDisk}
use ipo_os.Fs.Layout.{IsLaidOut, InTable, data_blocks}
use ipo_os.Fs.Inode.{write_inode, allocate_inode}
use ipo_os.Fs.File.Owned.{on, put, block-put_ne}
use ipo_os.Fs.Dir.{Name, dir_add_entry, is_valid_filename, put_entry, is_named}
use ipo_os.Fs.Dir.Naming.{IsEntry}
use ipo_os.Fs.Format.{make_dir, dots_block}
use ipo_os.Fs.Format.Root.{
  IsRoot, IsRoot-apart, IsRoot-put_inode, IsRoot-made, IsRoot-root_made, made, make_dir-made,
  IsFresh-made, root_made,
}
use ipo_os.Fs.Format.Entries.{
  with_entry, dir_add_entry-with_entry, IsRoot-with_entry, IsFresh-with_entry,
}
use ipo_os.Fs.Format.Fresh.{
  IsFresh, IsFresh-same, IsFresh-put_inode, put_inode, write_inode-put_inode, numbered,
  with_new_inode, allocate_inode-numbered, block-numbered, IsFresh-with_new_inode,
}

module _ {D : Type 0} (ata : Ata D) (disk : IsDisk ata) (b : Fs D) (h : IsLaidOut disk.sectors b)
    (one : InTable b.sb 1) (some_data : b.sb.data_blocks_start < b.sb.fs_size_blocks) where
  abbrev at : D → Fs D
  at d = on ata disk b d

  -- The first `k` data blocks and the first `n` inodes are taken, and the root directory has `count`
  -- entries, in its block `rows`.
  pub record IsMaking (k n count : ℕ) (rows : Mem) (d : D) : Type 0 where
    pub fresh : IsFresh ata disk b h k n d
    pub root : IsRoot ata disk b h one some_data count rows d

  pub root_step :
      (n : ℕ) (d : D)
      → IsFresh ata disk b h 0 n d
      → (d' : D) × (make_dir ata 1 1 (at d) ≡ (some tt, at d'))
        × IsMaking 1 n 2 (cut (dots_block 1 1)) d'
  root_step n d f = (
    root_made ata disk b h one some_data n d f,
    make_dir-made ata disk b h one some_data 0 n d f 1 1 one (omega arith),
    record {
      fresh = IsFresh-made ata disk b h one some_data 0 n d f 1 1 one (omega arith);
      root = IsRoot-root_made ata disk b h one some_data n d f;
    },
  )

  module _ (k n count : ℕ) (rows : Mem) (d : D) (p : IsMaking k n count rows d) where
    pub dir_step :
        (i mode : ℕ)
        → InTable b.sb i
        → i ≢ 1
        → 1 ≤ k
        → k < data_blocks b.sb
        → (d' : D) × (make_dir ata i mode (at d) ≡ (some tt, at d'))
          × IsMaking (k + 1) n count rows d'
    dir_step i mode here ne later room = (
      made ata disk b h one some_data k n d p.fresh i mode here room,
      make_dir-made ata disk b h one some_data k n d p.fresh i mode here room,
      record {
        fresh = IsFresh-made ata disk b h one some_data k n d p.fresh i mode here room;
        root =
            IsRoot-made ata disk b h one some_data k n d p.fresh i mode here room count rows later
              ne p.root;
      },
    )

    pub inode_step :
        InTable b.sb (n + 1)
        → 1 ≤ n
        → n + 1 < 2 ^ 31
        → (d' : D) × (allocate_inode ata (at d) ≡ (some (n + 1), at d'))
          × IsMaking k (n + 1) count rows d'
    inode_step here later small = (
      with_new_inode ata disk b h k n d p.fresh,
      allocate_inode-numbered ata disk b h k n d p.fresh here small,
      record {
        fresh = IsFresh-with_new_inode ata disk b h k n d p.fresh here small;
        root =
            IsRoot-put_inode ata disk b h one some_data count rows
              (numbered ata disk b h k n d p.fresh) (n + 1) zeros here (omega arith)
              (IsRoot-apart ata disk b h one some_data count rows d
                (numbered ata disk b h k n d p.fresh)
                (block-numbered ata disk b h k n d p.fresh here small (b.sb.inode_table_start + 0)
                  (omega (arith, one.inside, h.data_area))
                  (omega (arith, here.known, h.inode_bits, h.block_bits)))
                (block-numbered ata disk b h k n d p.fresh here small b.sb.data_blocks_start
                  some_data (omega (arith, here.known, h.inode_bits, h.block_bits, h.table)))
                p.root);
      },
    )

    pub write_step :
        (i : ℕ) (inode : Inode)
        → InTable b.sb i
        → i ≢ 1
        → (d' : D) × (write_inode ata i inode (at d) ≡ (some tt, at d'))
          × IsMaking k n count rows d'
    write_step i inode here ne = (
      put_inode ata disk b h d i inode,
      write_inode-put_inode ata disk b h d i inode here,
      record {
        fresh = IsFresh-put_inode ata disk b h k n d i inode here p.fresh;
        root = IsRoot-put_inode ata disk b h one some_data count rows d i inode here ne p.root;
      },
    )

    pub entry_step :
        (name : Name) (inode_no type : ℕ)
        → count ≤ 6
        → ((j : ℕ) → j < count → IsEntry rows (j * 72))
        → is_valid_filename name ≡ true
        → ((j : ℕ) → j < count → is_named rows (j * 72) name ≡ false)
        → (d' : D) × (dir_add_entry ata 1 name inode_no type (at d) ≡ (some tt, at d'))
          × IsMaking k n (count + 1) (cut (put_entry rows (count * 72) name inode_no type)) d'
    entry_step name inode_no type few entries valid free = (
      with_entry ata disk b h one some_data count rows d few p.root entries name inode_no type,
      dir_add_entry-with_entry ata disk b h one some_data count rows d few p.root entries name
          inode_no type valid free,
      record {
        fresh =
            IsFresh-with_entry ata disk b h one some_data count rows d few p.root entries name
              inode_no type k n p.fresh;
        root =
            IsRoot-with_entry ata disk b h one some_data count rows d few p.root entries name
              inode_no type;
      },
    )

    pub super_step : (buf : Mem) → IsMaking k n count rows (put ata disk b d 0 buf)
    super_step buf = record {
      fresh =
          IsFresh-same ata disk b h k n d (put ata disk b d 0 buf)
            (λ m below some_block.
              block-put_ne ata disk b h d 0 m buf (omega arith)
                (omega (arith, h.table, h.data_area)) (omega arith))
            p.fresh;
      root =
          IsRoot-apart ata disk b h one some_data count rows d (put ata disk b d 0 buf)
            (block-put_ne ata disk b h d 0 (b.sb.inode_table_start + 0) buf (omega arith)
              (omega (arith, one.inside, h.data_area)) (omega (arith, h.block_bits)))
            (block-put_ne ata disk b h d 0 b.sb.data_blocks_start buf (omega arith) some_data
              (omega (arith, h.block_bits, h.table)))
            p.root;
    }
