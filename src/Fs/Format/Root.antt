-- ===== src/Fs/Format/Root.antt =====
-- The root directory while `ipo_fs_format` makes the first files, and `make_dir`.
use ipo_os.Common.{
  arith, ℕ, ◌+◌, ◌-◌, ◌*◌, ◌/◌, ◌≤◌, ◌<◌, ◌≡◌, ◌≢◌, refl, ap, ◌∙◌, false, some, ◌==◌, if◌then◌else◌,
  u32_mod,
}
use ipo_os.Memory.{cut, Mem, get8, load32, store32, zeros, blit}
use ipo_os.Memory.Laws.{load32-Agree}
use ipo_os.Fs.{
  Ata, Fs, Inode, mode_of, size_of, direct_of, with_mode, with_size, with_links, with_direct,
}
use ipo_os.Fs.Block.{IsDisk, block_write-written}
use ipo_os.Fs.Layout.{IsLaidOut, InTable, data_blocks}
use ipo_os.Fs.Inode.{inode_offset}
use ipo_os.Fs.Inode.Table.{inode_at, inode_at-inode_set}
use ipo_os.Fs.File.Owned.{on, block, put, laid, block-put_self, block-put_ne}
use ipo_os.Fs.File.Placing.{allocated}
use ipo_os.Fs.Format.{make_dir, write_dir_dots, dots_block}
use ipo_os.Fs.Format.Fresh.{
  IsFresh, IsFresh-put, IsFresh-put_inode, IsFresh-allocated, put_inode, write_inode-put_inode,
  allocate_block-allocated, block-allocated,
}

-- The inode of a directory that has no block yet, and of one with its first block.
abbrev pub empty_dir : ℕ → Inode
empty_dir mode = with_links (with_size (with_mode zeros mode) 0) 2

abbrev pub made_dir : (mode block : ℕ) → Inode
made_dir mode block = with_size (with_direct (empty_dir mode) 0 block) 144

made_dir-mode : (mode block : ℕ) → mode < u32_mod → mode_of (made_dir mode block) ≡ mode
unfolding load32 get8 store32
made_dir-mode mode block lt = ground arith

made_dir-direct : (mode block : ℕ) → block < u32_mod → direct_of (made_dir mode block) 0 ≡ block
unfolding load32 get8 store32
made_dir-direct mode block lt = ground arith

made_dir-size : (mode block : ℕ) → size_of (made_dir mode block) ≡ 144
unfolding load32 get8 store32
made_dir-size mode block = ground arith

module _ {D : Type 0} (ata : Ata D) (disk : IsDisk ata) (b : Fs D) (h : IsLaidOut disk.sectors b)
    (one : InTable b.sb 1) (some_data : b.sb.data_blocks_start < b.sb.fs_size_blocks) where
  abbrev at : D → Fs D
  at d = on ata disk b d

  abbrev root_inode : D → Inode
  root_inode d = inode_at ata disk (on ata disk b d) 1

  -- The root directory has `count` entries, all in the first data block, which holds `rows`.
  pub record IsRoot (count : ℕ) (rows : Mem) (d : D) : Type 0 where
    pub mode : mode_of (inode_at ata disk (on ata disk b d) 1) ≡ 1
    pub size : size_of (inode_at ata disk (on ata disk b d) 1) ≡ 72 * count
    pub first : direct_of (inode_at ata disk (on ata disk b d) 1) 0 ≡ b.sb.data_blocks_start
    pub holds : block ata disk b d b.sb.data_blocks_start ≡ rows

  IsRoot-same :
      (count : ℕ) (rows : Mem) (d d' : D)
      → ((a : ℕ) → a < 76 → get8 (root_inode d') a ≡ get8 (root_inode d) a)
      → block ata disk b d' b.sb.data_blocks_start ≡ block ata disk b d b.sb.data_blocks_start
      → IsRoot count rows d
      → IsRoot count rows d'
  IsRoot-same count rows d d' bytes rows_same r = record {
    mode = field 0 (omega arith) ∙ r.mode;
    size = field 4 (omega arith) ∙ r.size;
    first = field 12 (omega arith) ∙ r.first;
    holds = rows_same ∙ r.holds;
  }
    where
      field : (p : ℕ) → p + 4 ≤ 76 → load32 (root_inode d') p ≡ load32 (root_inode d) p
      field p le =
          load32-Agree (root_inode d) (root_inode d') 0 76 p (λ a low high. bytes a high)
            (omega arith) le

  -- What leaves the first block of the inode table and the first data block leaves the root.
  pub IsRoot-apart :
      (count : ℕ) (rows : Mem) (d d' : D)
      → block ata disk b d' (b.sb.inode_table_start + 0)
        ≡ block ata disk b d (b.sb.inode_table_start + 0)
      → block ata disk b d' b.sb.data_blocks_start ≡ block ata disk b d b.sb.data_blocks_start
      → IsRoot count rows d
      → IsRoot count rows d'
  IsRoot-apart count rows d d' table rows_same r =
      IsRoot-same count rows d d'
        (λ a lt. ap (λ (m : Mem). get8 (blit zeros 0 m (inode_offset 1) 76) a) table) rows_same r

  pub IsRoot-put_inode :
      (count : ℕ) (rows : Mem) (d : D) (i : ℕ) (inode : Inode)
      → InTable b.sb i
      → i ≢ 1
      → IsRoot count rows d
      → IsRoot count rows (put_inode ata disk b h d i inode)
  IsRoot-put_inode count rows d i inode here ne r =
      IsRoot-same count rows d (put_inode ata disk b h d i inode)
        (λ a lt.
          inode_at-inode_set ata disk (at d) (laid ata disk b h d) i here inode 1 a one lt
          ∙ other a)
        (block-put_ne ata disk b h d (b.sb.inode_table_start + (i - 1) / 6) b.sb.data_blocks_start _
          (omega (arith, here.inside, h.data_area)) (omega (arith, some_data))
          (omega (arith, here.inside)))
        r
    where
      other :
          (a : ℕ) → (if i == 1 then get8 inode a else get8 (root_inode d) a) ≡ get8 (root_inode d) a
      other a = let miss : (i == 1) ≡ false = ground arith in rw miss refl

  module _ (k n : ℕ) (d : D) (f : IsFresh ata disk b h k n d) (i mode : ℕ) (here : InTable b.sb i)
      (room : k < data_blocks b.sb) where
    abbrev emptied : D
    emptied = put_inode ata disk b h d i (empty_dir mode)

    abbrev with_block : D
    with_block = allocated ata disk b h emptied k

    abbrev with_dots : D
    with_dots = put ata disk b with_block (b.sb.data_blocks_start + k) (dots_block i 1)

    -- The disk behind `make_dir`.
    abbrev pub made : D
    made = put_inode ata disk b h with_dots i (made_dir mode (b.sb.data_blocks_start + k))

    fresh_emptied : IsFresh ata disk b h k n emptied
    fresh_emptied = IsFresh-put_inode ata disk b h k n d i (empty_dir mode) here f

    pub make_dir-made : make_dir ata i mode (at d) ≡ (some tt, at made)
    unfolding make_dir write_dir_dots
    make_dir-made =
        let dots =
          block_write-written ata disk (at with_block) (b.sb.data_blocks_start + k) (dots_block i 1)
            (omega (arith, h.addresses)) in
        rw
          (
            write_inode-put_inode ata disk b h d i (empty_dir mode) here,
            allocate_block-allocated ata disk b h k n emptied fresh_emptied room,
          )
          (rw
            (
              dots,
              write_inode-put_inode ata disk b h with_dots i
                  (made_dir mode (b.sb.data_blocks_start + k)) here,
            )
            refl)

    pub IsFresh-made : IsFresh ata disk b h (k + 1) n made
    IsFresh-made =
        IsFresh-put_inode ata disk b h (k + 1) n with_dots i
          (made_dir mode (b.sb.data_blocks_start + k)) here
          (IsFresh-put ata disk b h (k + 1) n with_block (b.sb.data_blocks_start + k)
            (dots_block i 1) (omega (arith, h.table)) (omega arith)
            (IsFresh-allocated ata disk b h k n emptied fresh_emptied room))

    made-holds : block ata disk b made (b.sb.data_blocks_start + k) ≡ cut (dots_block i 1)
    made-holds =
        block-put_ne ata disk b h with_dots (b.sb.inode_table_start + (i - 1) / 6)
          (b.sb.data_blocks_start + k) _ (omega (arith, here.inside, h.data_area)) (omega arith)
          (omega (arith, here.inside))
        ∙ block-put_self ata disk b h with_block (b.sb.data_blocks_start + k) (dots_block i 1)
            (omega arith)

    -- A directory that is not the root leaves the root as it is.
    pub IsRoot-made :
        (count : ℕ) (rows : Mem) → 1 ≤ k → i ≢ 1 → IsRoot count rows d → IsRoot count rows made
    IsRoot-made count rows later ne r =
        IsRoot-put_inode count rows with_dots i (made_dir mode (b.sb.data_blocks_start + k)) here ne
          (IsRoot-apart count rows with_block with_dots
            (block-put_ne ata disk b h with_block (b.sb.data_blocks_start + k)
              (b.sb.inode_table_start + 0) (dots_block i 1) (omega arith)
              (omega (arith, one.inside, h.data_area)) (omega (arith, one.inside)))
            (block-put_ne ata disk b h with_block (b.sb.data_blocks_start + k)
              b.sb.data_blocks_start (dots_block i 1) (omega arith) some_data (omega arith))
            (IsRoot-apart count rows emptied with_block
              (block-allocated ata disk b h k n emptied fresh_emptied room
                (b.sb.inode_table_start + 0) (omega (arith, one.inside, h.data_area))
                (omega (arith, one.inside)) (omega (arith, h.block_bits)))
              (block-allocated ata disk b h k n emptied fresh_emptied room b.sb.data_blocks_start
                some_data (omega arith) (omega (arith, h.block_bits, h.table)))
              (IsRoot-put_inode count rows d i (empty_dir mode) here ne r)))

  -- The root, when it has been made.
  module _ (n : ℕ) (d : D) (f : IsFresh ata disk b h 0 n d) where
    abbrev pub root_made : D
    root_made = made 0 n d f 1 1 one (omega arith)

    root_bytes :
        (a : ℕ)
        → a < 76
        → get8 (root_inode root_made) a ≡ get8 (made_dir 1 (b.sb.data_blocks_start + 0)) a
    root_bytes a lt =
        inode_at-inode_set ata disk _ (laid ata disk b h _) 1 one
          (made_dir 1 (b.sb.data_blocks_start + 0)) 1 a one lt

    root_field :
        (p : ℕ)
        → p + 4 ≤ 76
        → load32 (root_inode root_made) p ≡ load32 (made_dir 1 (b.sb.data_blocks_start + 0)) p
    root_field p le =
        load32-Agree (made_dir 1 (b.sb.data_blocks_start + 0)) (root_inode root_made) 0 76 p
          (λ a low high. root_bytes a high) (omega arith) le

    pub IsRoot-root_made : IsRoot 2 (cut (dots_block 1 1)) root_made
    IsRoot-root_made = record {
      mode = root_field 0 (omega arith) ∙ made_dir-mode 1 _ (omega arith);
      size = root_field 4 (omega arith) ∙ made_dir-size 1 _;
      first =
          root_field 12 (omega arith)
          ∙ made_dir-direct 1 (b.sb.data_blocks_start + 0) (omega (arith, h.addresses))
          ∙ omega arith;
      holds = ap (block ata disk b root_made) start ∙ made-holds 0 n d f 1 1 one (omega arith);
    }
      where
        start : b.sb.data_blocks_start ≡ b.sb.data_blocks_start + 0
        start = omega arith
