-- ===== src/Fs/Dir/Grown.antt =====
-- The directory behind `dir_add_entry`, and everything else on the disk.
use ipo_os.Common.{
  arith, ℕ, ◌+◌, ◌-◌, ◌*◌, ◌/◌, ◌%◌, ◌≤◌, ◌<◌, ◌≡◌, ◌≢◌, sym, ap, ◌∙◌, inl, inr, ◌==◌,
  if◌then◌else◌, length,
}
use native.Mathlib.Decide.{ℕ_discrete}
use ipo_os.Memory.{cut, Mem, get8, load32, blit, zeros, Agree}
use ipo_os.Fs.Inode.{inode_offset}
use ipo_os.Memory.Laws.{cut_cell, low_byte, load32-store32, load32-store32_ne, load32-Agree}
use ipo_os.Fs.{Ata, Fs, Inode, mode_of, direct_of, size_of, with_size}
use ipo_os.Fs.Block.{content-lt, IsDisk, content, content-written_self, content-written_ne}
use ipo_os.Fs.Layout.{InTable}
use ipo_os.Fs.Inode.Table.{inode_at, inode_at-inode_set}
use ipo_os.Fs.Dir.{Name}
use ipo_os.Fs.Dir.Lookup.{IsDirectory, row_block, row_place, row_named}
use ipo_os.Fs.Dir.Naming.{is_named-Agree, put_entry-out}
use ipo_os.Fs.Dir.Added.{CanGrow, din, target, new_block_bytes, entered, added, laid_entered}

module _ {D : Type 0} (ata : Ata D) (disk : IsDisk ata) (s : Fs D) (i count : ℕ)
    (g : CanGrow ata disk s i count) (name : Name) (inode_no type : ℕ) where
  -- The directory's inode, the block of the new entry and the state behind the call.
  abbrev pub old_inode : Inode
  old_inode = din ata disk s i count g

  abbrev pub place : ℕ
  place = target ata disk s i count g

  abbrev pub between : Fs D
  between = entered ata disk s i count g name inode_no type

  abbrev pub behind : Fs D
  behind = added ata disk s i count g name inode_no type

  abbrev pub new_bytes : Mem
  new_bytes = new_block_bytes ata disk s i count g name inode_no type

  abbrev table_block : ℕ
  table_block = s.sb.inode_table_start + (i - 1) / 6

  place-lt : place < s.sb.fs_size_blocks
  place-lt = g.row.inside count (omega arith)

  place-above : table_block < place
  place-above = omega (arith, g.above count (omega arith), g.directory.known.inside)

  pub content-behind :
      (m : ℕ)
      → m < s.sb.fs_size_blocks
      → m ≢ place
      → m ≢ table_block
      → content ata disk behind m ≡ content ata disk s m
  content-behind m lt a b =
      content-written_ne ata disk between table_block m _
        (omega (arith, place-lt, place-above, g.directory.laid.addresses))
        (omega (arith, g.directory.laid.addresses)) (λ e. b (sym e))
      ∙ content-written_ne ata disk s place m _
          (omega (arith, place-lt, g.directory.laid.addresses))
          (omega (arith, g.directory.laid.addresses)) (λ e. a (sym e))

  pub content-behind-place : content ata disk behind place ≡ cut new_bytes
  content-behind-place =
      content-written_ne ata disk between table_block place _
        (omega (arith, place-lt, place-above, g.directory.laid.addresses))
        (omega (arith, place-lt, g.directory.laid.addresses)) (omega (arith, place-above))
      ∙ content-written_self ata disk s place _
          (omega (arith, place-lt, g.directory.laid.addresses))

  -- Every byte of the inode table is as it was, but for the size of the directory.
  inode-behind :
      (j a : ℕ)
      → InTable s.sb j
      → a < 76
      → get8 (inode_at ata disk behind j) a ≡ (
          if i == j
          then get8 (with_size old_inode (72 * count + 72)) a
          else get8 (inode_at ata disk s j) a)
  inode-behind j a there lt =
      let kept : content ata disk between (s.sb.inode_table_start + (j - 1) / 6)
          ≡ content ata disk s (s.sb.inode_table_start + (j - 1) / 6) =
        content-written_ne ata disk s place (s.sb.inode_table_start + (j - 1) / 6) _
          (omega (arith, place-lt, g.directory.laid.addresses))
          (omega (
            arith,
            there.inside,
            place-lt,
            g.above count (omega arith),
            g.directory.laid.addresses,
          ))
          (omega (arith, there.inside, g.above count (omega arith))) in
      inode_at-inode_set ata disk between (laid_entered ata disk s i count g name inode_no type) i
        g.directory.known (with_size old_inode (72 * count + 72)) j a there lt
      ∙ ap
          (λ (m : Mem).
            if i == j
            then get8 (with_size old_inode (72 * count + 72)) a
            else get8 (blit zeros 0 m (inode_offset j) 76) a)
          kept

  field :
      (p : ℕ)
      → p + 4 ≤ 76
      → load32 (inode_at ata disk behind i) p ≡ load32 (with_size old_inode (72 * count + 72)) p
  field p le =
      load32-Agree (with_size old_inode (72 * count + 72)) (inode_at ata disk behind i) 0 76 p
        (λ a low high. inode-behind i a g.directory.known high ∙ ground arith) (omega arith) le

  pub size-behind : size_of (inode_at ata disk behind i) ≡ 72 * (count + 1)
  size-behind =
      field 4 (omega arith)
      ∙ load32-store32 old_inode 4 (72 * count + 72)
      ∙ omega (arith, g.row.few)

  pub mode-behind : mode_of (inode_at ata disk behind i) ≡ mode_of old_inode
  mode-behind =
      field 0 (omega arith) ∙ load32-store32_ne old_inode 4 (72 * count + 72) 0 (inl (omega arith))

  pub direct-behind :
      (k : ℕ) → k < 6 → direct_of (inode_at ata disk behind i) k ≡ direct_of old_inode k
  direct-behind k lt =
      field (12 + 4 * k) (omega arith)
      ∙ load32-store32_ne old_inode 4 (72 * count + 72) (12 + 4 * k) (inr (omega arith))

  -- The blocks of the directory.
  pub row_direct :
      (j : ℕ)
      → j ≤ count
      → direct_of (inode_at ata disk behind i) (j / 7) ≡ direct_of old_inode (j / 7)
  row_direct j le = direct-behind (j / 7) (omega (arith, g.row.few))

  -- An entry that was there stands in the block as it did.
  pub row-same :
      (j a : ℕ)
      → j < count
      → length name < 64
      → row_place ata disk j ≤ a
      → a < row_place ata disk j + 72
      → row_block ata disk behind (inode_at ata disk behind i) j a
        ≡ row_block ata disk s old_inode j a
  row-same j a lt short from below =
      ap (λ m. content ata disk behind m a) (row_direct j (omega arith))
      ∙ elim (ℕ_discrete (j / 7) (count / 7)) [
        | yes same ↦
            ap (λ x. content ata disk behind (direct_of old_inode x) a) same
            ∙ ap (λ (m : Mem). m a) content-behind-place
            ∙ cut_cell new_bytes a (omega arith)
            ∙ ap (λ (x : ℕ). x % 256)
                (put_entry-out (content ata disk s place) (count % 7 * 72) name inode_no type a
                  short (inl (omega arith)))
            ∙ low_byte (content-lt ata disk s place a)
            ∙ ap (λ x. content ata disk s (direct_of old_inode x) a) (sym same)
        | no other ↦
            ap (λ (m : Mem). m a)
              (content-behind (direct_of old_inode (j / 7)) (g.row.inside j (omega arith))
                (g.apart j (omega arith) other)
                (omega (arith, g.above j (omega arith), g.directory.known.inside)))
      ]

  pub row-Agree :
      (j : ℕ)
      → j < count
      → length name < 64
      → Agree
          (row_block ata disk s old_inode j)
          (row_block ata disk behind (inode_at ata disk behind i) j)
          (row_place ata disk j)
          (row_place ata disk j + 72)
  unfolding get8
  row-Agree j lt short a from below = ap (λ (x : ℕ). x % 256) (row-same j a lt short from below)

  -- The entry that was added.
  pub row-added : row_block ata disk behind (inode_at ata disk behind i) count ≡ cut new_bytes
  row-added = ap (content ata disk behind) (row_direct count (omega arith)) ∙ content-behind-place

  pub row_named-behind :
      (j : ℕ) (other : Name)
      → j < count
      → length name < 64
      → row_named ata disk behind (inode_at ata disk behind i) other j
        ≡ row_named ata disk s old_inode other j
  row_named-behind j other lt short =
      is_named-Agree (row_block ata disk s old_inode j)
        (row_block ata disk behind (inode_at ata disk behind i) j) (row_place ata disk j) other
        (row-Agree j lt short) (g.entries j lt)

  pub IsDirectory-behind : IsDirectory ata disk behind i (count + 1)
  IsDirectory-behind = record {
    laid = record {
      super = g.directory.laid.super;
      inode_bits = g.directory.laid.inode_bits;
      block_bits = g.directory.laid.block_bits;
      table = g.directory.laid.table;
      data_area = g.directory.laid.data_area;
      addresses = g.directory.laid.addresses;
    };
    known = g.directory.known;
    kind = ap (λ (m : ℕ). m % 2 == 1) mode-behind ∙ g.directory.kind;
    size = size-behind;
    row = record {
      few = g.row.few;
      there = λ j lt e. g.row.there j lt (sym (row_direct j (omega arith)) ∙ e);
      inside = λ j lt. omega (arith, row_direct j (omega arith), g.row.inside j lt);
    };
  }
