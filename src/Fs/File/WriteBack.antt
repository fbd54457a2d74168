-- ===== src/Fs/File/WriteBack.antt =====
-- The loop of `ipo_fs_write` over the direct blocks of a file, on a disk in order.
use ipo_os.Common.{
  ℕ, zero, suc, ◌+◌, ◌-◌, ◌/◌, ◌%◌, ◌≤◌, ◌<◌, ◌≡◌, refl, sym, ap, ◌∙◌, true, ◌⊎◌, inl, inr, none,
  some, arith, add32,
}
use ipo_os.Memory.{Mem, get8, blit}
use ipo_os.Memory.Laws.{get8-cut, get8-blit_in}
use native.Mathlib.Decide.{dec_lt}
use ipo_os.Fs.{Ata, Fs, Inode, direct_of, size_of}
use ipo_os.Fs.Block.{sector_bytes-blit, IsDisk, block_read_raw, block_write-written}
use ipo_os.Fs.Layout.{IsLaidOut}
use ipo_os.Fs.DataBlock.{get_data_block_for_inode}
use ipo_os.Fs.File.{write_from, step_inode, chunk, offset_in}
use ipo_os.Fs.File.Rounds.{
  chunk_fits, Round, block-lt, moved_fits, Round-next, other_block, this_block,
}
use ipo_os.Fs.File.Owned.{
  on, block, put, data_at, Owns, Foreign, Filled, Stepped, Stepped-trans, put-Stepped,
  block-put_self,
}
use ipo_os.Fs.File.Placing.{free_at, get_data_block_cases}

module _ {D : Type 0} (ata : Ata D) (disk : IsDisk ata) (s : Fs D)
    (h : IsLaidOut disk.sectors s) where
  -- What the loop leaves, from inode `inode` and disk `d` on, where `n` bytes are done in the end.
  pub record Wrote (offset size : ℕ) (buffer : Mem) (inode : Inode) (d : D) (n : ℕ) (inode' : Inode)
      (d' : D) : Type 0 where
    pub owns : Owns ata disk s inode' d'
    pub filled : Filled ata disk s offset buffer n inode' d'
    pub le : n ≤ size
    pub full : (n ≡ size) ⊎ (free_at ata disk s h d' ≡ none)
    pub same_size : size_of inode' ≡ size_of inode
    pub foreign :
        (j : ℕ)
        → Foreign ata disk s inode d j
        → Foreign ata disk s inode' d' j
          × (block ata disk s d' (data_at ata disk s j) ≡ block ata disk s d (data_at ata disk s j))
    pub table :
        (m : ℕ)
        → s.sb.inode_table_start ≤ m
        → m < s.sb.data_blocks_start
        → block ata disk s d' m ≡ block ata disk s d m

  pub block_read_raw-block :
      (d : D) (p : ℕ) (tmp : Mem)
      → p < s.sb.fs_size_blocks
      → block_read_raw ata p tmp (on ata disk s d)
        ≡ (some (true, block ata disk s d p), on ata disk s d)
  unfolding block_read_raw
  block_read_raw-block d p tmp lt =
      let e : add32 s.fs_start_lba p ≡ s.fs_start_lba + p =
        omega (arith, h.addresses, disk.sectors-le) in
      rw (e, disk.reads (s.fs_start_lba + p) tmp d (omega (arith, h.addresses)))
        (ap (λ (b : Mem). (some (true, b), on ata disk s d))
          (sector_bytes-blit tmp (disk.sector d (s.fs_start_lba + p))))

  module _ (offset size : ℕ) (buffer : Mem) (some_bytes : 0 < size)
      (direct : offset + size ≤ 3072) where
    -- The sector that a round writes.
    abbrev sector : (b moved : ℕ) → Inode → D → Mem
    sector b moved inode d =
        blit (block ata disk s d (direct_of inode b)) (offset_in offset b) buffer moved
          (chunk offset size b moved)

    write_step :
        (left b moved : ℕ) (inode inode' : Inode) (tmp : Mem) (d d' : D)
        → Round offset size (suc left) b moved
        → direct_of inode' b < s.sb.fs_size_blocks
        → get_data_block_for_inode ata b true (inode, on ata disk s d)
          ≡ (some (direct_of inode' b), (inode', on ata disk s d'))
        → write_from ata offset size buffer (suc left) b moved inode tmp (on ata disk s d)
          ≡ write_from ata offset size buffer left
              (b + 1)
              (moved + chunk offset size b moved)
              inode'
              (sector b moved inode' d')
              (on ata disk s (put ata disk s d' (direct_of inode' b) (sector b moved inode' d')))
    unfolding write_from step_inode
    write_step left b moved inode inode' tmp d d' r lt got =
        let sum : add32 moved (chunk offset size b moved) ≡ moved + chunk offset size b moved =
          omega (arith, moved_fits offset size some_bytes direct left b moved r) in
        rw (
          got,
          block_read_raw-block d' (direct_of inode' b) tmp lt,
          block_write-written ata disk (on ata disk s d') (direct_of inode' b)
              (sector b moved inode' d') (omega (arith, h.addresses)),
          sum,
        )

    -- What was done before a round is as it was, and the bytes of the round stand in its block.
    Filled-round :
        (left b moved : ℕ) (inode inode' : Inode) (d d' : D)
        → Round offset size (suc left) b moved
        → Filled ata disk s offset buffer moved inode d
        → Stepped ata disk s b inode inode' d d'
        → ((a : ℕ)
            → a < chunk offset size b moved
            → get8 (block ata disk s d' (direct_of inode' b)) (offset_in offset b + a)
              ≡ get8 buffer (moved + a))
        → Filled ata disk s offset buffer (moved + chunk offset size b moved) inode' d'
    Filled-round left b moved inode inode' d d' r f u bytes = record {
      there = λ i lt. elim (dec_lt i moved) [
        | yes before ↦ λ z. f.there i before (sym (kept i before).0 ∙ z)
        | no now ↦ λ z. u.there (ap (direct_of inode') (sym (placed i lt now).0) ∙ z)
      ];
      byte = λ i lt. elim (dec_lt i moved) [
        | yes before ↦
            ap (λ (x : ℕ). get8 (block ata disk s d' x) ((offset + i) % 512)) (kept i before).0
            ∙ ap (λ (m : Mem). get8 m ((offset + i) % 512)) (kept i before).1
            ∙ f.byte i before
        | no now ↦
            ap (λ (k : ℕ). get8 (block ata disk s d' (direct_of inode' k)) ((offset + i) % 512))
              (placed i lt now).0
            ∙ ap (get8 (block ata disk s d' (direct_of inode' b))) (placed i lt now).1
            ∙ bytes (i - moved) (omega arith)
            ∙ ap (get8 buffer) (omega arith)
      ];
    }
      where
        placed :
            (i : ℕ)
            → i < moved + chunk offset size b moved
            → ¬ (i < moved)
            → ((offset + i) / 512 ≡ b) × ((offset + i) % 512 ≡ offset_in offset b + (i - moved))
        placed i lt now = this_block offset size some_bytes direct left b moved r i (omega arith) lt

        kept :
            (i : ℕ)
            → i < moved
            → (direct_of inode' ((offset + i) / 512) ≡ direct_of inode ((offset + i) / 512))
              × (block ata disk s d' (direct_of inode ((offset + i) / 512))
                  ≡ block ata disk s d (direct_of inode ((offset + i) / 512)))
        kept i lt =
            u.own ((offset + i) / 512) (omega (arith, r.le))
              (other_block offset size some_bytes direct left b moved r i lt) (f.there i lt)

    write_stop :
        (left b moved : ℕ) (inode : Inode) (tmp : Mem) (d : D)
        → get_data_block_for_inode ata b true (inode, on ata disk s d)
          ≡ (none, (inode, on ata disk s d))
        → write_from ata offset size buffer (suc left) b moved inode tmp (on ata disk s d)
          ≡ (some (moved, inode), on ata disk s d)
    unfolding write_from step_inode
    write_stop left b moved inode tmp d got = rw got

    Wrote-here :
        (moved : ℕ) (inode : Inode) (d : D)
        → Owns ata disk s inode d
        → Filled ata disk s offset buffer moved inode d
        → moved ≤ size
        → (moved ≡ size) ⊎ (free_at ata disk s h d ≡ none)
        → Wrote offset size buffer inode d moved inode d
    Wrote-here moved inode d o f le full = record {
      owns = o;
      filled = f;
      le = le;
      full = full;
      same_size = refl;
      foreign = λ j g. (g, refl);
      table = λ m low high. refl;
    }

    Wrote-Stepped :
        (b n : ℕ) (i i' i'' : Inode) (d d' d'' : D)
        → Stepped ata disk s b i i' d d'
        → Wrote offset size buffer i' d' n i'' d''
        → Wrote offset size buffer i d n i'' d''
    Wrote-Stepped b n i i' i'' d d' d'' u w = record {
      owns = w.owns;
      filled = w.filled;
      le = w.le;
      full = w.full;
      same_size = w.same_size ∙ u.same_size;
      foreign = λ j f. let (g, c) = u.foreign j f in let (g', c') = w.foreign j g in (g', c' ∙ c);
      table = λ m low high. w.table m low high ∙ u.table m low high;
    }

    pub write_from-Wrote :
        (left b moved : ℕ) (inode : Inode) (tmp : Mem) (d : D)
        → Round offset size left b moved
        → Owns ata disk s inode d
        → Filled ata disk s offset buffer moved inode d
        → (n : ℕ) × (inode' : Inode) × (d' : D) × (write_from ata offset size buffer left b moved
              inode tmp
              (on ata disk s d)
            ≡ (some (n, inode'), on ata disk s d'))
          × Wrote offset size buffer inode d n inode' d'
    unfolding write_from
    write_from-Wrote zero b moved inode tmp d r o f =
        (moved, inode, d, refl, Wrote-here moved inode d o f r.le (inl (r.done refl)))
    write_from-Wrote (suc left) b moved inode tmp d r o f =
        let lt = block-lt offset size some_bytes direct left b moved r in
        elim (get_data_block_cases ata disk s h b inode d lt o) [
          | inl (inode', d', got, u) ↦
              let (_, below) = u.owns.inside b lt u.there in
              let buf = sector b moved inode' d' in
              let v = put-Stepped ata disk s h b inode' d' buf lt u.there u.owns in
              let both =
                Stepped-trans ata disk s b inode inode' inode' d d'
                  (put ata disk s d' (direct_of inode' b) buf) u v in
              let (n, inode'', d'', e, w) =
                write_from-Wrote left (b + 1) (moved + chunk offset size b moved) inode' buf
                  (put ata disk s d' (direct_of inode' b) buf)
                  (Round-next offset size some_bytes direct left b moved r) both.owns
                  (Filled-round left b moved inode inode' d
                    (put ata disk s d' (direct_of inode' b) buf) r f both
                    (λ a lt'.
                      ap (λ (m : Mem). get8 m (offset_in offset b + a))
                        (block-put_self ata disk s h d' (direct_of inode' b) buf below)
                      ∙ get8-cut _ (offset_in offset b + a)
                          (omega (arith, chunk_fits offset size some_bytes direct left b moved r))
                      ∙ get8-blit_in _ (offset_in offset b) buffer moved (chunk offset size b moved)
                          a lt')) in
              (
                n,
                inode'',
                d'',
                write_step left b moved inode inode' tmp d d' r below got ∙ e,
                Wrote-Stepped b n inode inode' inode'' d
                    (put ata disk s d' (direct_of inode' b) buf) d'' both w,
              )
          | inr (got, full) ↦ (
            moved,
            inode,
            d,
            write_stop left b moved inode tmp d got,
            Wrote-here moved inode d o f r.le (inr full),
          )
        ]
