-- ===== src/Fs/File/Written.antt =====
-- What `ipo_fs_write` leaves, for the direct blocks of a file on a disk in order.
use ipo_os.Common.{
  ℕ, ◌+◌, ◌-◌, ◌*◌, ◌/◌, ◌≤◌, ◌<◌, ◌≡◌, ◌≢◌, sym, ap, ◌∙◌, inr, Option, some, arith, add32, ltb,
  if◌then◌else◌,
}
use ipo_os.Memory.{Mem, get8, Agree}
use mathlib.Core.Path.{subst}
use ipo_os.Fs.Bitmap.Laws.{bit_in}
use ipo_os.Memory.Laws.{load32-store32, load32-store32_ne, load32-Agree}
use ipo_os.Fs.{Ata, Fs, Inode, direct_of, size_of, with_size}
use ipo_os.Fs.Block.{IsDisk}
use ipo_os.Fs.Layout.{IsLaidOut, InTable, data_blocks}
use ipo_os.Fs.Inode.Table.{
  inode_at, inode_set, read_inode-inode_at, write_inode-inode_set, inode_at-inode_set,
}
use ipo_os.Fs.File.{ipo_fs_write, open_inode, rounds}
use ipo_os.Common.Action.{and_then}
use ipo_os.Fs.File.Bounds.{writes_through, put_back}
use ipo_os.Fs.File.Rounds.{Round-start}
use ipo_os.Fs.File.Owned.{on, block, taken, laid, Owns, block-put_ne}
use ipo_os.Fs.File.WriteBack.{Wrote, write_from-Wrote}

-- The inode that `ipo_fs_write` puts back, `n` bytes being written.
abbrev pub grown : (offset n : ℕ) → Inode → Inode
grown offset n inode =
    if ltb (size_of inode) (add32 offset n) then with_size inode (add32 offset n) else inode

pub size-grown :
    (offset n : ℕ) (inode : Inode) → offset + n ≤ 3072 → offset + n ≤ size_of (grown offset n inode)
size-grown offset n inode le =
    let word = load32-store32 inode 4 (add32 offset n) in ground (arith, word)

direct-grown :
    (offset n : ℕ) (inode : Inode) (k : ℕ) → direct_of (grown offset n inode) k ≡ direct_of inode k
direct-grown offset n inode k =
    let miss = load32-store32_ne inode 4 (add32 offset n) (12 + 4 * k) (inr (omega arith)) in
    ground (arith, miss)

module _ {D : Type 0} (ata : Ata D) (disk : IsDisk ata) (s : Fs D)
    (h : IsLaidOut disk.sectors s) where
  module _ (fd ino : ℕ) (opened : open_inode s.fds fd ≡ some ino) (here : InTable s.sb ino)
      (owns : Owns ata disk s (inode_at ata disk s ino) s.disk) (offset size : ℕ) (buffer : Mem)
      (some_bytes : 0 < size) (direct : offset + size ≤ 3072) where
    -- The disk once the inode is put back.
    abbrev pub closed : ℕ → Inode → D → D
    closed n inode d = (inode_set ata disk (on ata disk s d) ino (grown offset n inode)).disk

    put_back_step :
        (d : D) (n : ℕ) (inode : Inode)
        → put_back ata ino offset (n, inode) (on ata disk s d)
          ≡ (some n, on ata disk s (closed n inode d))
    put_back_step d n inode = rw (
        write_inode-inode_set ata disk (on ata disk s d) (laid ata disk s h d) ino here
          (grown offset n inode))

    pub ipo_fs_write-Wrote :
        (tmp : Mem)
        → (n : ℕ) × (inode : Inode) × (d : D) × (ipo_fs_write ata fd buffer tmp size offset s
            ≡ (some n, on ata disk s (closed n inode d)))
          × Wrote ata disk s h offset size buffer (inode_at ata disk s ino) s.disk n inode d
    ipo_fs_write-Wrote tmp =
        let (n, inode, d, e, w) =
          write_from-Wrote ata disk s h offset size buffer some_bytes direct (rounds offset size)
            (offset / 512) 0 (inode_at ata disk s ino) tmp s.disk
            (Round-start offset size some_bytes direct) owns
            (record {
              there = λ i lt. absurd (omega arith);
              byte = λ i lt. absurd (omega arith);
            }) in
        (
          n,
          inode,
          d,
          writes_through ata fd buffer tmp size offset s ino (inode_at ata disk s ino) s opened
                (read_inode-inode_at ata disk s h ino here)
              ∙ ap (λ r. and_then r (put_back ata ino offset)) e
              ∙ put_back_step d n inode,
          w,
        )

    -- Any result of the call is that of `ipo_fs_write-Wrote`.
    pub written_by :
        (tmp : Mem) (n : ℕ) (t : Fs D)
        → ipo_fs_write ata fd buffer tmp size offset s ≡ (some n, t)
        → (inode : Inode) × (d : D) × (on ata disk s (closed n inode d) ≡ t)
          × Wrote ata disk s h offset size buffer (inode_at ata disk s ino) s.disk n inode d
    written_by tmp n t e =
        let (n', inode, d, e', w) = ipo_fs_write-Wrote tmp in
        let head : some n' ≡ some n = ap (λ (x : Option ℕ × Fs D). x.0) (sym e' ∙ e) in
        let count : n' ≡ n = cc head in
        let state : on ata disk s (closed n' inode d) ≡ t =
          ap (λ (x : Option ℕ × Fs D). x.1) (sym e' ∙ e) in
        (
          inode,
          d,
          ap (λ (k : ℕ). on ata disk s (closed k inode d)) (sym count) ∙ state,
          subst
              (λ (k : ℕ).
                Wrote ata disk s h offset size buffer (inode_at ata disk s ino) s.disk k inode d)
              count w,
        )

    module _ (n : ℕ) (inode : Inode) (d : D) where
      abbrev last : Fs D
      last = on ata disk s (closed n inode d)

      -- Only the block of the inode changes as it is put back.
      pub block-closed :
          (x : ℕ)
          → x < s.sb.fs_size_blocks
          → s.sb.inode_table_start + (ino - 1) / 6 ≢ x
          → block ata disk s (closed n inode d) x ≡ block ata disk s d x
      block-closed x lt ne =
          block-put_ne ata disk s h d (s.sb.inode_table_start + (ino - 1) / 6) x _
            (omega (arith, h.table, h.data_area)) lt ne

      pub block-closed_data :
          (x : ℕ)
          → s.sb.data_blocks_start ≤ x
          → x < s.sb.fs_size_blocks
          → block ata disk s (closed n inode d) x ≡ block ata disk s d x
      block-closed_data x low lt = block-closed x lt (omega (arith, h.table))

      pub taken-closed :
          (j : ℕ)
          → j < data_blocks s.sb
          → taken ata disk s (closed n inode d) j ≡ taken ata disk s d j
      taken-closed j lt =
          ap (λ b. bit_in b j)
            (block-closed (s.sb.block_bitmap_start + j / 4096)
              (omega (arith, h.block_bits, h.table, h.data_area)) (omega (arith, h.block_bits)))

      put_inode : Agree (grown offset n inode) (inode_at ata disk last ino) 0 76
      put_inode a low high =
          inode_at-inode_set ata disk (on ata disk s d) (laid ata disk s h d) ino here
            (grown offset n inode) ino a here high
          ∙ ground arith

      pub direct-last :
          (k : ℕ) → k < 6 → direct_of (inode_at ata disk last ino) k ≡ direct_of inode k
      direct-last k lt =
          load32-Agree (grown offset n inode) (inode_at ata disk last ino) 0 76 (12 + 4 * k)
            put_inode (omega arith) (omega arith)
          ∙ direct-grown offset n inode k

      pub size-last : n ≤ size → offset + n ≤ size_of (inode_at ata disk last ino)
      size-last le =
          let grows = size-grown offset n inode (omega arith) in
          let same =
            load32-Agree (grown offset n inode) (inode_at ata disk last ino) 0 76 4 put_inode
              (omega arith) (omega arith) in
          omega (arith, grows, same)

      -- Another inode of the table is as it was.
      pub inode-last :
          (i a : ℕ)
          → InTable s.sb i
          → i ≢ ino
          → a < 76
          → get8 (inode_at ata disk last i) a ≡ get8 (inode_at ata disk (on ata disk s d) i) a
      inode-last i a there ne lt =
          inode_at-inode_set ata disk (on ata disk s d) (laid ata disk s h d) ino here
            (grown offset n inode) i a there lt
          ∙ ground arith
