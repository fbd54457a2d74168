-- ===== src/Fs/File/ReadBack.antt =====
-- The loop of `ipo_fs_read` over the direct blocks of a file, on a disk in order.
use ipo_os.Common.{
  ℕ, zero, suc, ◌+◌, ◌-◌, ◌/◌, ◌%◌, ◌≤◌, ◌<◌, ◌≡◌, ◌≢◌, refl, sym, ap, ◌∙◌, false, inl, some, arith,
  add32,
}
use ipo_os.Memory.{Mem, get8, blit}
use ipo_os.Memory.Laws.{get8-blit_in, get8-blit_ne}
use native.Mathlib.Decide.{dec_lt}
use ipo_os.Fs.{Ata, Fs, Inode, direct_of}
use ipo_os.Fs.Block.{IsDisk}
use ipo_os.Fs.Layout.{IsLaidOut}
use ipo_os.Fs.Dir.{on_inode}
use ipo_os.Fs.DataBlock.{get_data_block_for_inode}
use ipo_os.Fs.File.{read_from, chunk, offset_in}
use ipo_os.Fs.File.Rounds.{Round, block-lt, chunk_pos, moved_fits, Round-next, this_block}
use ipo_os.Fs.File.Owned.{on, block, Filled}
use ipo_os.Fs.File.Placing.{get_data_block-there}
use ipo_os.Fs.File.WriteBack.{block_read_raw-block}

module _ {D : Type 0} (ata : Ata D) (disk : IsDisk ata) (s : Fs D)
    (h : IsLaidOut disk.sectors s) where
  module _ (offset size : ℕ) (some_bytes : 0 < size) (direct : offset + size ≤ 3072) (buffer : Mem)
      (inode : Inode) (d : D)
      (below : (k : ℕ) → k < 6 → direct_of inode k ≢ 0 → direct_of inode k < s.sb.fs_size_blocks)
      (f : Filled ata disk s offset buffer size inode d) where
    -- The first `n` bytes of `out` have been read.
    abbrev Read : ℕ → Mem → Type 0
    Read n out = (i : ℕ) → i < n → get8 out i ≡ get8 buffer i

    -- The buffer behind a round.
    abbrev filled : (b copied : ℕ) → Mem → Mem
    filled b copied out =
        blit out copied (block ata disk s d (direct_of inode b)) (offset_in offset b)
          (chunk offset size b copied)

    module _ (left b copied : ℕ) (r : Round offset size (suc left) b copied) where
      here : (offset + copied) / 512 ≡ b
      here =
          (this_block offset size some_bytes direct left b copied r copied (omega arith)
            (omega (arith, chunk_pos offset size some_bytes direct left b copied r))).0

      there : direct_of inode b ≢ 0
      there z =
          f.there copied
            (omega (
              arith,
              chunk_pos offset size some_bytes direct left b copied r,
              moved_fits offset size some_bytes direct left b copied r,
            ))
            (ap (direct_of inode) here ∙ z)

      block_there :
          on_inode ata inode (get_data_block_for_inode ata b false) (on ata disk s d)
          ≡ (some (direct_of inode b), on ata disk s d)
      unfolding on_inode
      block_there =
          let lt = block-lt offset size some_bytes direct left b copied r in
          let small : direct_of inode b < s.sb.fs_size_blocks = below b lt there in
          rw (
            get_data_block-there ata b false inode (on ata disk s d) lt there
              (omega (arith, h.addresses)))

      read_step :
          (out tmp : Mem)
          → read_from ata offset size inode (suc left) b copied out tmp (on ata disk s d)
            ≡ read_from ata offset size inode left
                (b + 1)
                (copied + chunk offset size b copied)
                (filled b copied out)
                (block ata disk s d (direct_of inode b))
                (on ata disk s d)
      unfolding read_from
      read_step out tmp =
          let lt = block-lt offset size some_bytes direct left b copied r in
          let small : direct_of inode b < s.sb.fs_size_blocks = below b lt there in
          let sum : add32 copied (chunk offset size b copied)
              ≡ copied + chunk offset size b copied =
            omega (arith, moved_fits offset size some_bytes direct left b copied r) in
          rw (block_there, block_read_raw-block ata disk s h d (direct_of inode b) tmp small, sum)

      Read-round :
          (out : Mem)
          → Read copied out
          → Read (copied + chunk offset size b copied) (filled b copied out)
      Read-round out before i lt = elim (dec_lt i copied) [
        | yes old ↦
            get8-blit_ne out copied (block ata disk s d (direct_of inode b)) (offset_in offset b)
              (chunk offset size b copied) i (inl old)
            ∙ before i old
        | no now ↦
            let (eb, eo) =
              this_block offset size some_bytes direct left b copied r i (omega arith) lt in
            ap (get8 (filled b copied out)) (omega arith)
            ∙ get8-blit_in out copied (block ata disk s d (direct_of inode b)) (offset_in offset b)
                (chunk offset size b copied) (i - copied) (omega arith)
            ∙ ap (get8 (block ata disk s d (direct_of inode b))) (sym eo)
            ∙ ap (λ (k : ℕ). get8 (block ata disk s d (direct_of inode k)) ((offset + i) % 512))
                (sym eb)
            ∙ f.byte i (omega (arith, moved_fits offset size some_bytes direct left b copied r))
      ]

    pub read_from-Filled :
        (left b copied : ℕ) (out tmp : Mem)
        → Round offset size left b copied
        → Read copied out
        → (out' : Mem) × (read_from ata offset size inode left b copied out tmp (on ata disk s d)
            ≡ (some (size, out'), on ata disk s d))
          × ((i : ℕ) → i < size → get8 out' i ≡ get8 buffer i)
    unfolding read_from
    read_from-Filled zero b copied out tmp r before =
        let all : copied ≡ size = r.done refl in
        (out, ap (λ (n : ℕ). (some (n, out), on ata disk s d)) all, λ i lt. before i (omega arith))
    read_from-Filled (suc left) b copied out tmp r before =
        let (out', e, same) =
          read_from-Filled left (b + 1) (copied + chunk offset size b copied) (filled b copied out)
            (block ata disk s d (direct_of inode b))
            (Round-next offset size some_bytes direct left b copied r)
            (Read-round left b copied r out before) in
        (out', read_step left b copied r out tmp ∙ e, same)
