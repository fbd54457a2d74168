-- ===== src/Fs/File/Bounds.antt =====
-- What `ipo_fs_read` may touch of the caller's buffer.
use ipo_os.Common.{
  ℕ, zero, suc, ◌+◌, ◌-◌, ◌/◌, ◌≤◌, ◌<◌, ◌≡◌, refl, ap, ◌∙◌, inl, inr, true, false, Option, none,
  some, arith, ltb, leb, if◌then◌else◌, Bool-cases, u32_mod, add32,
}
use ipo_os.Memory.{Mem, get8, blit}
use ipo_os.Memory.Laws.{get8-blit_ne}
use ipo_os.Common.Action.{Act, pure, fail, and_then, ◌>>=◌, ◌>>◌, attempt}
use ipo_os.Fs.{Ata, Fs, Inode, ipo_fs_block_size, size_of, with_size}
use ipo_os.Fs.Block.{sector_bytes, block_read_raw, block_write}
use ipo_os.Fs.Inode.{write_inode, read_inode}
use ipo_os.Fs.Dir.{on_inode}
use ipo_os.Fs.DataBlock.{get_data_block_for_inode}
use ipo_os.Fs.File.{
  write_from, ipo_fs_write, step_inode, read_from, ipo_fs_read, chunk, offset_in, open_inode,
  rounds, clip,
}

-- At most `size` bytes are read, and the bytes of the buffer behind `size` are as they were.
abbrev pub Within : ℕ → Mem → Option (ℕ × Mem) → Type 0
Within size buffer none = ⊥
Within size buffer (some (n, b)) = (n ≤ size) × ((a : ℕ) → size ≤ a → get8 b a ≡ get8 buffer a)

Within-trans :
    (count size : ℕ) (buffer buffer' : Mem) (o : Option (ℕ × Mem))
    → count ≤ size
    → ((a : ℕ) → size ≤ a → get8 buffer' a ≡ get8 buffer a)
    → Within count buffer' o
    → Within size buffer o
Within-trans count size buffer buffer' none le same w = w
Within-trans count size buffer buffer' (some (n, b)) le same w =
    (omega (arith, w.0), λ a out. w.1 a (omega arith) ∙ same a out)

abbrev Moves : ℕ → Option (ℕ × Inode) → Type 0
Moves size none = ⊥
Moves size (some (n, inode)) = n ≤ size

module _ {D : Type 0} (ata : Ata D) where
  read_from-Within :
      (offset size : ℕ) (inode : Inode) (left b copied : ℕ) (buffer tmp : Mem) (s : Fs D)
      → size < u32_mod
      → copied ≤ size
      → Within size buffer (read_from ata offset size inode left b copied buffer tmp s).0
  unfolding read_from block_read_raw
  read_from-Within offset size inode zero b copied buffer tmp s word le = (le, λ a out. refl)
  read_from-Within offset size inode (suc left) b copied buffer tmp s word le =
      go (λ c bf tm t le'. read_from-Within offset size inode left (b + 1) c bf tm t word le')
        (on_inode ata inode (get_data_block_for_inode ata b false) s).0
        (on_inode ata inode (get_data_block_for_inode ata b false) s).1
    where
      n : ℕ
      n = chunk offset size b copied

      fits : copied + n ≤ size
      fits = omega arith

      untouched :
          (sector : Mem) (a : ℕ)
          → size ≤ a
          → get8 (blit buffer copied sector (offset_in offset b) n) a ≡ get8 buffer a
      untouched sector a out =
          get8-blit_ne buffer copied sector (offset_in offset b) n a (omega (arith, fits))

      go :
          ((c : ℕ) (bf tm : Mem) (t : Fs D)
            → c ≤ size
            → Within size bf (read_from ata offset size inode left (b + 1) c bf tm t).0)
          → (o : Option ℕ) (t : Fs D)
          → Within size buffer
              (elim o as (λ _. Act (Fs D) (ℕ × Mem)) [
                | none ↦ pure (copied, buffer)
                | some p ↦ do
                  (_, sector) ← block_read_raw ata p tmp
                  read_from ata offset size inode left
                      (b + 1)
                      (add32 copied n)
                      (blit buffer copied sector (offset_in offset b) n)
                      sector
              ]
                t).0
      go ih none t = (le, λ a out. refl)
      go ih (some p) t =
          let (_, filled, d) = ata.read (add32 t.fs_start_lba p) tmp t.disk in
          let sector = sector_bytes filled in
          Within-trans size size buffer (blit buffer copied sector (offset_in offset b) n) _
            (omega arith) (untouched sector)
            (ih (add32 copied n) (blit buffer copied sector (offset_in offset b) n) sector
              (record t { disk = d }) (omega (arith, fits)))

  -- `ipo_fs_read` once it has the inode.
  abbrev pub read_file : (buffer tmp : Mem) (size offset : ℕ) → Inode → Act (Fs D) (ℕ × Mem)
  read_file buffer tmp size offset inode =
      if leb (size_of inode) offset
      then pure (0, buffer)
      else read_from ata offset (clip inode offset size) inode
          (rounds offset (clip inode offset size)) (offset / ipo_fs_block_size) 0 buffer tmp

  read_file-Within :
      (buffer tmp : Mem) (size offset : ℕ) (inode : Inode) (t : Fs D)
      → size < u32_mod
      → offset < u32_mod
      → Within
          (if leb (size_of inode) offset then 0 else clip inode offset size)
          buffer
          (read_file buffer tmp size offset inode t).0
  read_file-Within buffer tmp size offset inode t word word' =
      elim (Bool-cases (leb (size_of inode) offset)) [
        | inl past ↦ rw past (omega arith, λ a out. refl)
        | inr before ↦
            let count = clip inode offset size in
            let le : count ≤ size = ground arith in
            rw before (
              read_from-Within offset count inode (rounds offset count) (offset / ipo_fs_block_size)
                0 buffer tmp t (omega arith) (omega arith))
      ]

  pub reads_through :
      (fd : ℕ) (buffer tmp : Mem) (size offset : ℕ) (s : Fs D) (ino : ℕ) (inode : Inode) (t : Fs D)
      → open_inode s.fds fd ≡ some ino
      → read_inode ata ino s ≡ (some inode, t)
      → ipo_fs_read ata fd buffer tmp size offset s ≡ read_file buffer tmp size offset inode t
  unfolding ipo_fs_read
  reads_through fd buffer tmp size offset s ino inode t opened found =
      go (open_inode s.fds fd) opened
    where
      go :
          (o : Option ℕ)
          → o ≡ some ino
          → elim o as (λ _. Act (Fs D) (ℕ × Mem)) [
            | none ↦ fail
            | some i ↦ read_inode ata i >>= read_file buffer tmp size offset
          ]
              s
            ≡ read_file buffer tmp size offset inode t
      go none e = cc
      go (some i) e =
          let same : i ≡ ino = cc e in
          ap (λ r. and_then r (read_file buffer tmp size offset))
            (ap (λ (k : ℕ). read_inode ata k s) same ∙ found)

  outcome :
      (count : ℕ) (buffer : Mem) (o : Option (ℕ × Mem))
      → Within count buffer o
      → (n : ℕ) × (b : Mem) × (o ≡ some (n, b))
        × (n ≤ count)
        × ((a : ℕ) → count ≤ a → get8 b a ≡ get8 buffer a)
  outcome count buffer none w = absurd w
  outcome count buffer (some (n, b)) w = (n, b, refl, w.0, w.1)

  -- For an open descriptor whose inode can be read, whatever the driver does from there on,
  -- `ipo_fs_read` ends and succeeds: it returns at most `size`, and at most what the file holds behind
  -- `offset` where `offset + size` fits a word, and it has not written behind the first `size` bytes
  -- of the buffer.
  pub ipo_fs_read-Within :
      (fd : ℕ) (buffer tmp : Mem) (size offset : ℕ) (s : Fs D) (ino : ℕ) (inode : Inode) (t : Fs D)
      → open_inode s.fds fd ≡ some ino
      → read_inode ata ino s ≡ (some inode, t)
      → size < u32_mod
      → offset < u32_mod
      → (n : ℕ) × (b : Mem) × ((ipo_fs_read ata fd buffer tmp size offset s).0 ≡ some (n, b))
        × (n ≤ size)
        × (offset + size < u32_mod → n ≤ size_of inode - offset)
        × ((a : ℕ) → size ≤ a → get8 b a ≡ get8 buffer a)
  ipo_fs_read-Within fd buffer tmp size offset s ino inode t opened found word word' =
      let (n, b, e, le, same) =
        outcome _ buffer _ (read_file-Within buffer tmp size offset inode t word word') in
      (
        n,
        b,
        ap (λ (x : Option (ℕ × Mem) × Fs D). x.0)
              (reads_through fd buffer tmp size offset s ino inode t opened found)
            ∙ e,
        ground (arith, le),
        (λ fits. ground (arith, le)),
        (λ a out. same a (ground arith)),
      )

  write_from-le :
      (offset size : ℕ) (buffer : Mem) (left b moved : ℕ) (inode : Inode) (tmp : Mem) (s : Fs D)
      → size < u32_mod
      → moved ≤ size
      → Moves size (write_from ata offset size buffer left b moved inode tmp s).0
  unfolding write_from step_inode block_read_raw
  write_from-le offset size buffer zero b moved inode tmp s word le = le
  write_from-le offset size buffer (suc left) b moved inode tmp s word le =
      go (λ c nd tm t le'. write_from-le offset size buffer left (b + 1) c nd tm t word le')
        (get_data_block_for_inode ata b true (inode, s)).0
        (get_data_block_for_inode ata b true (inode, s)).1.0
        (get_data_block_for_inode ata b true (inode, s)).1.1
    where
      n : ℕ
      n = chunk offset size b moved

      go :
          ((c : ℕ) (nd : Inode) (tm : Mem) (t : Fs D)
            → c ≤ size
            → Moves size (write_from ata offset size buffer left (b + 1) c nd tm t).0)
          → (o : Option ℕ) (inode' : Inode) (t : Fs D)
          → Moves size
              (elim o as (λ _. Act (Fs D) (ℕ × Inode)) [
                | none ↦ pure (moved, inode')
                | some p ↦ do
                  (_, old) ← block_read_raw ata p tmp
                  let sector = blit old (offset_in offset b) buffer moved n
                  attempt (block_write ata p sector)
                  write_from ata offset size buffer left (b + 1) (add32 moved n) inode' sector
              ]
                t).0
      go ih none inode' t = le
      go ih (some p) inode' t = ih (add32 moved n) inode' _ _ (omega arith)

  -- `ipo_fs_write` once it has the inode.
  abbrev pub put_back : ℕ → ℕ → ℕ × Inode → Act (Fs D) ℕ
  put_back ino offset r = do
    let end = add32 offset r.0
    attempt (write_inode ata ino (if ltb (size_of r.1) end then with_size r.1 end else r.1))
    pure r.0

  abbrev pub write_file : (buffer tmp : Mem) (size offset ino : ℕ) → Inode → Act (Fs D) ℕ
  write_file buffer tmp size offset ino inode =
      write_from ata offset size buffer (rounds offset size) (offset / ipo_fs_block_size) 0 inode
        tmp
      >>= put_back ino offset

  put_back-le :
      (size offset ino : ℕ) (o : Option (ℕ × Inode)) (u : Fs D)
      → Moves size o
      → (n : ℕ) × ((and_then (o, u) (put_back ino offset)).0 ≡ some n) × (n ≤ size)
  put_back-le size offset ino none u m = absurd m
  put_back-le size offset ino (some (moved, inode')) u m = (moved, refl, m)

  pub writes_through :
      (fd : ℕ) (buffer tmp : Mem) (size offset : ℕ) (s : Fs D) (ino : ℕ) (inode : Inode) (t : Fs D)
      → open_inode s.fds fd ≡ some ino
      → read_inode ata ino s ≡ (some inode, t)
      → ipo_fs_write ata fd buffer tmp size offset s ≡ write_file buffer tmp size offset ino inode t
  unfolding ipo_fs_write
  writes_through fd buffer tmp size offset s ino inode t opened found =
      go (open_inode s.fds fd) opened
    where
      go :
          (o : Option ℕ)
          → o ≡ some ino
          → elim o as (λ _. Act (Fs D) ℕ) [
            | none ↦ fail
            | some i ↦ read_inode ata i >>= write_file buffer tmp size offset i
          ]
              s
            ≡ write_file buffer tmp size offset ino inode t
      go none e = cc
      go (some i) e =
          let same : i ≡ ino = cc e in
          ap (λ (k : ℕ). and_then (read_inode ata k s) (write_file buffer tmp size offset k)) same
          ∙ ap (λ r. and_then r (write_file buffer tmp size offset ino)) found

  -- For an open descriptor whose inode can be read, whatever the driver does from there on,
  -- `ipo_fs_write` ends and returns a count that is at most `size`.
  pub ipo_fs_write-le :
      (fd : ℕ) (buffer tmp : Mem) (size offset : ℕ) (s : Fs D) (ino : ℕ) (inode : Inode) (t : Fs D)
      → open_inode s.fds fd ≡ some ino
      → read_inode ata ino s ≡ (some inode, t)
      → size < u32_mod
      → (n : ℕ) × ((ipo_fs_write ata fd buffer tmp size offset s).0 ≡ some n) × (n ≤ size)
  ipo_fs_write-le fd buffer tmp size offset s ino inode t opened found word =
      let (n, e, le) = put_back-le size offset ino _ _ (
        write_from-le offset size buffer (rounds offset size) (offset / ipo_fs_block_size) 0 inode
          tmp t word (omega arith)) in
      (
        n,
        ap (λ (x : Option ℕ × Fs D). x.0)
              (writes_through fd buffer tmp size offset s ino inode t opened found)
            ∙ e,
        le,
      )
