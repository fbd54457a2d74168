-- ===== src/Fs/File/Owned.antt =====
-- The blocks that an inode owns directly, on a disk in order. The state is that of a file system `s`
-- whose disk is `d`: nothing else of it changes.
use ipo_os.Common.{ℕ, ◌+◌, ◌-◌, ◌/◌, ◌%◌, ◌≤◌, ◌<◌, ◌≡◌, ◌≢◌, refl, sym, ap, ◌∙◌, Bool, true, arith}
use ipo_os.Memory.{cut, Mem, get8}
use ipo_os.Fs.{Ata, Fs, Inode, direct_of, size_of}
use ipo_os.Fs.Block.{IsDisk, content, content-written_self, content-written_ne}
use ipo_os.Fs.Bitmap.Laws.{bit_of, bit_in}
use ipo_os.Fs.Layout.{IsLaidOut, data_blocks}

module _ {D : Type 0} (ata : Ata D) (disk : IsDisk ata) (s : Fs D) where
  abbrev pub on : D → Fs D
  on d = record s { disk = d }

  -- Block `m` of the file system.
  abbrev pub block : D → ℕ → Mem
  block d m = content ata disk (on d) m

  -- Whether data block `j` is taken.
  abbrev pub taken : D → ℕ → Bool
  taken d j = bit_of ata disk (on d) s.sb.block_bitmap_start j

  abbrev pub data_at : ℕ → ℕ
  data_at j = s.sb.data_blocks_start + j

  -- The disk behind a write of block `m`.
  abbrev pub put : D → ℕ → Mem → D
  put d m buf = (ata.write (s.fs_start_lba + m) buf d).1

  -- The blocks of an inode's direct numbers lie among the data blocks, are taken, and are different
  -- from one another.
  pub record Owns (inode : Inode) (d : D) : Type 0 where
    pub inside :
        (k : ℕ)
        → k < 6
        → direct_of inode k ≢ 0
        → (s.sb.data_blocks_start ≤ direct_of inode k) × (direct_of inode k < s.sb.fs_size_blocks)
    pub held :
        (k : ℕ)
        → k < 6
        → direct_of inode k ≢ 0
        → taken d (direct_of inode k - s.sb.data_blocks_start) ≡ true
    pub apart :
        (j k : ℕ)
        → j < 6
        → k < 6
        → j ≢ k
        → direct_of inode j ≢ 0
        → direct_of inode j ≢ direct_of inode k

  -- Data block `j` is taken, and not by this inode.
  pub record Foreign (inode : Inode) (d : D) (j : ℕ) : Type 0 where
    pub inside : j < data_blocks s.sb
    pub held : taken d j ≡ true
    pub other : (k : ℕ) → k < 6 → direct_of inode k ≢ data_at j

  -- What becomes of an inode and its blocks where only block `b` of it may get another content: the
  -- other blocks of it that are there stay as they are, and so do those of all other inodes.
  pub record Stepped (b : ℕ) (inode inode' : Inode) (d d' : D) : Type 0 where
    pub owns : Owns inode' d'
    pub there : direct_of inode' b ≢ 0
    pub own :
        (k : ℕ)
        → k < 6
        → k ≢ b
        → direct_of inode k ≢ 0
        → (direct_of inode' k ≡ direct_of inode k)
          × (block d' (direct_of inode k) ≡ block d (direct_of inode k))
    pub foreign :
        (j : ℕ)
        → Foreign inode d j
        → Foreign inode' d' j × (block d' (data_at j) ≡ block d (data_at j))
    pub same_size : size_of inode' ≡ size_of inode
    pub table :
        (m : ℕ) → s.sb.inode_table_start ≤ m → m < s.sb.data_blocks_start → block d' m ≡ block d m

  -- The bytes from `offset` on, `n` of them, are those of `buffer`.
  pub record Filled (offset : ℕ) (buffer : Mem) (n : ℕ) (inode : Inode) (d : D) : Type 0 where
    pub there : (i : ℕ) → i < n → direct_of inode ((offset + i) / 512) ≢ 0
    pub byte :
        (i : ℕ)
        → i < n
        → get8 (block d (direct_of inode ((offset + i) / 512))) ((offset + i) % 512) ≡ get8 buffer i

  pub Stepped-refl :
      (b : ℕ) (inode : Inode) (d : D)
      → direct_of inode b ≢ 0
      → Owns inode d
      → Stepped b inode inode d d
  Stepped-refl b inode d there o = record {
    owns = o;
    there = there;
    own = λ k lt ne there'. (refl, refl);
    foreign = λ j f. (f, refl);
    same_size = refl;
    table = λ m low high. refl;
  }

  pub Stepped-trans :
      (b : ℕ) (n n' n'' : Inode) (d d' d'' : D)
      → Stepped b n n' d d'
      → Stepped b n' n'' d' d''
      → Stepped b n n'' d d''
  Stepped-trans b n n' n'' d d' d'' u v = record {
    owns = v.owns;
    there = v.there;
    own = λ k lt ne there.
        let (e, c) = u.own k lt ne there in
        let (e', c') = v.own k lt ne (λ z. there (sym e ∙ z)) in
        (e' ∙ e, ap (block d'') (sym e) ∙ c' ∙ ap (block d') e ∙ c);
    foreign = λ j f. let (g, c) = u.foreign j f in let (g', c') = v.foreign j g in (g', c' ∙ c);
    same_size = v.same_size ∙ u.same_size;
    table = λ m low high. v.table m low high ∙ u.table m low high;
  }

  module _ (h : IsLaidOut disk.sectors s) where
    -- The areas of `s` are those of every such state.
    abbrev pub laid : (d : D) → IsLaidOut disk.sectors (on d)
    laid d = record {
      super = h.super;
      inode_bits = h.inode_bits;
      block_bits = h.block_bits;
      table = h.table;
      data_area = h.data_area;
      addresses = h.addresses;
    }

    pub block-put_self :
        (d : D) (m : ℕ) (buf : Mem) → m < s.sb.fs_size_blocks → block (put d m buf) m ≡ cut buf
    block-put_self d m buf lt =
        content-written_self ata disk (on d) m buf (omega (arith, h.addresses))

    pub block-put_ne :
        (d : D) (m x : ℕ) (buf : Mem)
        → m < s.sb.fs_size_blocks
        → x < s.sb.fs_size_blocks
        → m ≢ x
        → block (put d m buf) x ≡ block d x
    block-put_ne d m x buf lt lt' ne =
        content-written_ne ata disk (on d) m x buf (omega (arith, h.addresses))
          (omega (arith, h.addresses)) ne

    -- The bitmap does not change with a data block.
    pub taken-put :
        (d : D) (m j : ℕ) (buf : Mem)
        → s.sb.data_blocks_start ≤ m
        → m < s.sb.fs_size_blocks
        → j < data_blocks s.sb
        → taken (put d m buf) j ≡ taken d j
    taken-put d m j buf above lt lt' =
        ap (λ b. bit_in b j)
          (block-put_ne d m (s.sb.block_bitmap_start + j / 4096) buf lt
            (omega (arith, h.block_bits, h.table, h.data_area))
            (omega (arith, h.block_bits, h.table)))

    -- A block that an inode owns gets another content.
    pub put-Stepped :
        (b : ℕ) (inode : Inode) (d : D) (buf : Mem)
        → b < 6
        → direct_of inode b ≢ 0
        → Owns inode d
        → Stepped b inode inode d (put d (direct_of inode b) buf)
    put-Stepped b inode d buf lt there o =
        let (above, below) = o.inside b lt there in
        record {
          owns = record {
            inside = o.inside;
            held = λ k lt' ne.
                let (a, z) = o.inside k lt' ne in
                taken-put d (direct_of inode b) (direct_of inode k - s.sb.data_blocks_start) buf
                  above below (omega (arith, a, z))
                ∙ o.held k lt' ne;
            apart = o.apart;
          };
          there = there;
          own = λ k lt' ne there'.
              let (a, z) = o.inside k lt' there' in
              (
                refl,
                block-put_ne d (direct_of inode b) (direct_of inode k) buf below z
                    (λ e. o.apart k b lt' lt ne there' (sym e)),
              );
          foreign = λ j f. (
            record {
              inside = f.inside;
              held = taken-put d (direct_of inode b) j buf above below f.inside ∙ f.held;
              other = f.other;
            },
            block-put_ne d (direct_of inode b) (data_at j) buf below (omega (arith, f.inside))
                (f.other b lt),
          );
          same_size = refl;
          table = λ m low high.
              block-put_ne d (direct_of inode b) m buf below (omega (arith, h.data_area))
                (omega (arith, above));
        }
