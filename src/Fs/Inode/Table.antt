-- ===== src/Fs/Inode/Table.antt =====
-- The inode table on a disk in order.
use ipo_os.Common.{
  ℕ, ◌+◌, ◌-◌, ◌/◌, ◌<◌, ◌≡◌, sym, ap, ◌∙◌, ◌≢◌, true, false, some, arith, ◌==◌, if◌then◌else◌,
}
use ipo_os.Memory.{Mem, get8, blit, zeros}
use ipo_os.Memory.Laws.{get8-cut, get8-blit_in, get8-blit_ne}
use ipo_os.Fs.{Ata, Fs, Inode}
use ipo_os.Fs.Block.{
  IsDisk, content, written, block_read-content, block_write-written, content-written_self,
  content-written_ne,
}
use mathlib.Core.Path.{subst}
use native.Mathlib.Decide.{ℕ_discrete}
use ipo_os.Fs.Layout.{IsLaidOut, InTable}
use ipo_os.Fs.Inode.{read_inode, write_inode, inode_block, inode_offset, no_such_inode}

module _ {D : Type 0} (ata : Ata D) (disk : IsDisk ata) where
  abbrev pub table_content : Fs D → ℕ → Mem
  table_content s i = content ata disk s (s.sb.inode_table_start + (i - 1) / 6)

  -- Inode `i` as it stands on the disk.
  abbrev pub inode_at : Fs D → ℕ → Inode
  inode_at s i = blit zeros 0 (table_content s i) (inode_offset i) 76

  abbrev pub inode_set : Fs D → ℕ → Inode → Fs D
  inode_set s i n =
      written ata disk s (s.sb.inode_table_start + (i - 1) / 6)
        (blit (table_content s i) (inode_offset i) n 0 76)

  byte_of :
      (s : Fs D) (j a : ℕ)
      → a < 76
      → get8 (inode_at s j) a ≡ get8 (table_content s j) (inode_offset j + a)
  byte_of s j a lt =
      ap (λ (x : ℕ). get8 (inode_at s j) x) (omega arith)
      ∙ get8-blit_in zeros 0 (table_content s j) (inode_offset j) 76 a lt

  module _ (s : Fs D) (h : IsLaidOut disk.sectors s) (i : ℕ) (here : InTable s.sb i) where
    low : s.fs_start_lba + (s.sb.inode_table_start + (i - 1) / 6) < disk.sectors
    low = omega (arith, here.inside, h.data_area, h.addresses)

    place : inode_block s.sb i ≡ s.sb.inode_table_start + (i - 1) / 6
    place = omega (arith, here.inside, h.data_area, h.addresses)

    exists : no_such_inode s.sb i ≡ false
    exists = ground (arith, here.positive, here.known)

    pub read_inode-inode_at : read_inode ata i s ≡ (some (inode_at s i), s)
    unfolding read_inode
    read_inode-inode_at = rw (exists, place, block_read-content ata disk s _ low)

    pub write_inode-inode_set : (n : Inode) → write_inode ata i n s ≡ (some tt, inode_set s i n)
    unfolding write_inode
    write_inode-inode_set n =
        rw (exists, place, block_read-content ata disk s _ low)
          (block_write-written ata disk s _ _ low)

    -- Byte `a` of inode `j` behind a write of inode `i`.
    pub inode_at-inode_set :
        (n : Inode) (j a : ℕ)
        → InTable s.sb j
        → a < 76
        → get8 (inode_at (inode_set s i n) j) a
          ≡ (if i == j then get8 n a else get8 (inode_at s j) a)
    inode_at-inode_set n j a there lt = byte_of (inode_set s i n) j a lt ∙ elim (ℕ_discrete i j) [
      | yes same ↦
          let hit : (i == j) ≡ true = ground arith in
          rw hit (
            subst (λ x. get8 (table_content (inode_set s i n) x) (inode_offset x + a) ≡ get8 n a)
              same
              (ap (λ (m : Mem). get8 m (inode_offset i + a))
                  (content-written_self ata disk s (s.sb.inode_table_start + (i - 1) / 6)
                    (blit (table_content s i) (inode_offset i) n 0 76) low)
                ∙ get8-cut _ (inode_offset i + a) (omega arith)
                ∙ get8-blit_in (table_content s i) (inode_offset i) n 0 76 a lt
                ∙ ap (get8 n) (omega arith)))
      | no ne ↦
          let miss : (i == j) ≡ false = ground arith in
          rw miss (neighbour (ℕ_discrete ((i - 1) / 6) ((j - 1) / 6)) ne ∙ sym (byte_of s j a lt))
    ]
      where
        neighbour :
            Dec ((i - 1) / 6 ≡ (j - 1) / 6)
            → i ≢ j
            → get8 (table_content (inode_set s i n) j) (inode_offset j + a)
              ≡ get8 (table_content s j) (inode_offset j + a)
        neighbour (yes block) ne =
            subst
              (λ x.
                get8 (content ata disk (inode_set s i n) (s.sb.inode_table_start + x))
                  (inode_offset j + a)
                ≡ get8 (content ata disk s (s.sb.inode_table_start + x)) (inode_offset j + a))
              block
              (ap (λ (m : Mem). get8 m (inode_offset j + a))
                  (content-written_self ata disk s (s.sb.inode_table_start + (i - 1) / 6)
                    (blit (table_content s i) (inode_offset i) n 0 76) low)
                ∙ get8-cut _ (inode_offset j + a) (omega arith)
                ∙ get8-blit_ne (table_content s i) (inode_offset i) n 0 76 (inode_offset j + a)
                    (omega arith))
        neighbour (no other) ne =
            ap (λ (m : Mem). get8 m (inode_offset j + a))
              (content-written_ne ata disk s (s.sb.inode_table_start + (i - 1) / 6)
                (s.sb.inode_table_start + (j - 1) / 6)
                (blit (table_content s i) (inode_offset i) n 0 76) low
                (omega (arith, here.inside, h.data_area, h.addresses)) (omega arith))

  -- On a disk in order with the areas laid out, for inodes whose blocks lie in the inode table:
  -- `write_inode` succeeds, and `read_inode` of any such inode then succeeds and returns the 76 bytes that were written if it is the same inode, and those that
  -- it returned before if it is another.
  pub read_inode-write_inode :
      (s : Fs D) (i j : ℕ) (n : Inode)
      → IsLaidOut disk.sectors s
      → InTable s.sb i
      → InTable s.sb j
      → (t : Fs D) × (old new : Inode) × (write_inode ata i n s ≡ (some tt, t))
        × (read_inode ata j s ≡ (some old, s))
        × (read_inode ata j t ≡ (some new, t))
        × ((a : ℕ) → a < 76 → get8 new a ≡ (if i == j then get8 n a else get8 old a))
  read_inode-write_inode s i j n h here there = (
    inode_set s i n,
    inode_at s j,
    inode_at (inode_set s i n) j,
    write_inode-inode_set s h i here n,
    read_inode-inode_at s h j there,
    read_inode-inode_at (inode_set s i n)
        (record {
          super = h.super;
          inode_bits = h.inode_bits;
          block_bits = h.block_bits;
          table = h.table;
          data_area = h.data_area;
          addresses = h.addresses;
        })
        j there,
    λ a lt. inode_at-inode_set s h i here n j a there lt,
  )
