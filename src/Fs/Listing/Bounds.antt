-- ===== src/Fs/Listing/Bounds.antt =====
-- `ipo_fs_list_dir` stays within the caller's buffer.
use ipo_os.Common.{
  ℕ, zero, suc, ◌+◌, ◌*◌, ◌/◌, ◌%◌, ◌≤◌, ◌<◌, ◌≡◌, refl, sym, ◌∙◌, inl, inr, Bool, true, false,
  ◌||◌, Option, none, some, arith, ltb, leb, ◌==◌, Bool-cases, lt→ltb, leb→lt,
}
use ipo_os.Memory.{Mem, get8}
use ipo_os.Memory.Laws.{get8-put8_ne, get8-blit_ne}
use ipo_os.Common.Action.{Act, pure, and_then, ◌>>=◌, ◌>>◌, guard}
use ipo_os.Fs.{Ata, Fs, Inode, ipo_inode_type_dir, size_of, is_dir}
use ipo_os.Fs.Block.{block_read}
use ipo_os.Fs.Dir.{
  Name, dir_entry_size, dir_entries_per_block, entry_inode, entry_type, entry_name_len, on_inode,
}
use ipo_os.Fs.Inode.{read_inode}
use ipo_os.Fs.DataBlock.{get_data_block_for_inode}
use ipo_os.Fs.Path.{path_resolve}
use ipo_os.Fs.Listing.{put_line, end_listing, list_from, ipo_fs_list_dir}

-- Where there is a result, its length is below the buffer's, and the memory is as it was behind the
-- buffer.
abbrev pub Fits : ℕ → Mem → Option (ℕ × Mem) → Type 0
Fits out_size out none = Unit {0}
Fits out_size out (some (n, b)) = (n < out_size) × ((a : ℕ) → out_size ≤ a → get8 b a ≡ get8 out a)

Fits-trans :
    (out_size : ℕ) (out out' : Mem) (o : Option (ℕ × Mem))
    → ((a : ℕ) → out_size ≤ a → get8 out' a ≡ get8 out a)
    → Fits out_size out' o
    → Fits out_size out o
Fits-trans out_size out out' none same w = tt
Fits-trans out_size out out' (some (n, b)) same w = (w.0, λ a past. w.1 a past ∙ same a past)

put_line-Fits :
    (out_size : ℕ) (buf : Mem) (o pos : ℕ) (out : Mem)
    → pos + entry_name_len buf o + 3 < out_size
    → Fits out_size out (some (put_line buf o pos out))
unfolding put_line
put_line-Fits out_size buf o pos out room =
    elim (Bool-cases (entry_type buf o == ipo_inode_type_dir)) [
      | inl dir ↦ rw dir (
        omega arith,
        λ a past.
            get8-put8_ne _ (pos + entry_name_len buf o + 1) b'\n' a (omega arith)
            ∙ get8-put8_ne _ (pos + entry_name_len buf o) b'/' a (omega arith)
            ∙ get8-blit_ne out pos buf (o + 8) (entry_name_len buf o) a (omega arith),
      )
      | inr file ↦ rw file (
        omega arith,
        λ a past.
            get8-put8_ne _ (pos + entry_name_len buf o) b'\n' a (omega arith)
            ∙ get8-blit_ne out pos buf (o + 8) (entry_name_len buf o) a (omega arith),
      )
    ]

module _ {D : Type 0} (ata : Ata D) where
  list_from-Fits :
      (out_size : ℕ) (din : Inode) (left e pos : ℕ) (out : Mem) (s : Fs D)
      → pos < out_size
      → Fits out_size out (list_from ata out_size din left e pos out s).0
  unfolding list_from
  list_from-Fits out_size din zero e pos out s lt = (lt, λ a past. refl)
  list_from-Fits out_size din (suc left) e pos out s lt =
      go (list_from-Fits out_size din left (e + 1))
        (on_inode ata din (get_data_block_for_inode ata (e / dir_entries_per_block) false) s).0
        (on_inode ata din (get_data_block_for_inode ata (e / dir_entries_per_block) false) s).1
    where
      o : ℕ
      o = e % dir_entries_per_block * dir_entry_size

      line :
          ((p : ℕ) (m : Mem) (t : Fs D)
            → p < out_size
            → Fits out_size m (list_from ata out_size din left (e + 1) p m t).0)
          → (buf : Mem) (t : Fs D) (skip full : Bool)
          → full ≡ leb out_size (pos + entry_name_len buf o + 3)
          → Fits out_size out
              (elim skip as (λ _. Act (Fs D) (ℕ × Mem)) [
                | true ↦ list_from ata out_size din left (e + 1) pos out
                | false ↦ elim full as (λ _. Act (Fs D) (ℕ × Mem)) [
                  | true ↦ pure (pos, out)
                  | false ↦
                      list_from ata out_size din left
                        (e + 1)
                        (put_line buf o pos out).0
                        (put_line buf o pos out).1
                ]
              ]
                t).0
      line ih buf t true full q = ih pos out t lt
      line ih buf t false true q = (lt, λ a past. refl)
      line ih buf t false false q =
          let room : pos + entry_name_len buf o + 3 < out_size = leb→lt _ _ (sym q) in
          let fits = put_line-Fits out_size buf o pos out room in
          Fits-trans out_size out (put_line buf o pos out).1 _ fits.1
            (ih (put_line buf o pos out).0 (put_line buf o pos out).1 t fits.0)

      behind :
          ((p : ℕ) (m : Mem) (t : Fs D)
            → p < out_size
            → Fits out_size m (list_from ata out_size din left (e + 1) p m t).0)
          → (r : Option Mem) (t : Fs D)
          → Fits out_size out
              (and_then
                (r, t)
                (λ buf.
                  elim ((entry_inode buf o == 0) || (entry_name_len buf o == 0))
                    as (λ _. Act (Fs D) (ℕ × Mem)) [
                      | true ↦ list_from ata out_size din left (e + 1) pos out
                      | false ↦
                          elim (leb out_size (pos + entry_name_len buf o + 3))
                            as (λ _. Act (Fs D) (ℕ × Mem)) [
                              | true ↦ pure (pos, out)
                              | false ↦
                                  list_from ata out_size din left
                                    (e + 1)
                                    (put_line buf o pos out).0
                                    (put_line buf o pos out).1
                            ]
                    ])).0
      behind ih none t = tt
      behind ih (some buf) t = line ih buf t _ _ refl

      go :
          ((p : ℕ) (m : Mem) (t : Fs D)
            → p < out_size
            → Fits out_size m (list_from ata out_size din left (e + 1) p m t).0)
          → (f : Option ℕ) (t : Fs D)
          → Fits out_size out
              (elim f as (λ _. Act (Fs D) (ℕ × Mem)) [
                | none ↦ list_from ata out_size din left (e + 1) pos out
                | some phys ↦ do
                  buf ← block_read ata phys
                  elim ((entry_inode buf o == 0) || (entry_name_len buf o == 0)) [
                    | true ↦ list_from ata out_size din left (e + 1) pos out
                    | false ↦ elim (leb out_size (pos + entry_name_len buf o + 3)) [
                      | true ↦ pure (pos, out)
                      | false ↦
                          list_from ata out_size din left
                            (e + 1)
                            (put_line buf o pos out).0
                            (put_line buf o pos out).1
                    ]
                  ]
              ]
                t).0
      go ih none t = ih pos out t lt
      go ih (some phys) t = behind ih (block_read ata phys t).0 (block_read ata phys t).1

  end_listing-Fits :
      (out_size : ℕ) (out : Mem) (r : Option (ℕ × Mem)) (t : Fs D)
      → Fits out_size out r
      → Fits out_size out (and_then (r, t) (λ l. pure (end_listing out_size l.0 l.1))).0
  unfolding end_listing
  end_listing-Fits out_size out none t w = tt
  end_listing-Fits out_size out (some (n, b)) t (lt, same) =
      let inside : ltb n out_size ≡ true = lt→ltb _ _ lt in
      rw inside (lt, λ a past. get8-put8_ne b n 0 a (omega arith) ∙ same a past)

  -- Whatever stands on the disk and whatever the driver does, `ipo_fs_list_dir` with a buffer that is
  -- not empty ends, and where it succeeds it returns a length below the buffer's and has written
  -- nothing behind the buffer.
  pub ipo_fs_list_dir-Fits :
      (path : Name) (out : Mem) (out_size : ℕ) (s : Fs D)
      → 0 < out_size
      → Fits out_size out (ipo_fs_list_dir ata path out out_size s).0
  unfolding ipo_fs_list_dir
  ipo_fs_list_dir-Fits path out out_size s pos =
      resolved (path_resolve ata path s).0 (path_resolve ata path s).1
    where
      listed :
          (din : Inode) (t : Fs D) (dir : Bool)
          → Fits out_size out
              (and_then (guard dir t) (λ _. do
                l ← list_from ata out_size din (size_of din / dir_entry_size) 0 0 out
                pure (end_listing out_size l.0 l.1))).0
      listed din t false = tt
      listed din t true =
          end_listing-Fits out_size out _ _
            (list_from-Fits out_size din (size_of din / dir_entry_size) 0 0 out t pos)

      with_inode :
          (r : Option Inode) (t : Fs D)
          → Fits out_size out
              (and_then
                (r, t)
                (λ din. do
                  guard (is_dir din)
                  l ← list_from ata out_size din (size_of din / dir_entry_size) 0 0 out
                  pure (end_listing out_size l.0 l.1))).0
      with_inode none t = tt
      with_inode (some din) t = listed din t (is_dir din)

      resolved :
          (r : Option ℕ) (t : Fs D)
          → Fits out_size out
              (and_then
                (r, t)
                (λ ino. do
                  din ← read_inode ata ino
                  guard (is_dir din)
                  l ← list_from ata out_size din (size_of din / dir_entry_size) 0 0 out
                  pure (end_listing out_size l.0 l.1))).0
      resolved none t = tt
      resolved (some ino) t = with_inode (read_inode ata ino t).0 (read_inode ata ino t).1
