-- ===== src/Fs/Format/Entries.antt =====
-- The entries of the root directory while `ipo_fs_format` makes the first files.
use ipo_os.Common.{
  arith, ℕ, zero, suc, ◌+◌, ◌*◌, ◌/◌, ◌%◌, ◌≤◌, ◌<◌, ◌≡◌, refl, sym, ap, ◌∙◌, true, false, none,
  some, ◌==◌, Option, not, Bool,
}
use native.Mathlib.Decide.{ℕ_discrete}
use ipo_os.Memory.{cut, Mem, get8, load32}
use mathlib.Core.Path.{subst}
use mathlib.Core.Bool.{false≢true}
use ipo_os.Fs.{Ata, Fs, direct_of}
use ipo_os.Fs.Block.{IsDisk}
use ipo_os.Fs.Layout.{IsLaidOut, InTable}
use ipo_os.Fs.Inode.Alloc.{first_clear, first_clear_sound}
use ipo_os.Fs.Inode.Table.{inode_at}
use ipo_os.Fs.File.Owned.{on, block, laid}
use ipo_os.Fs.Dir.{
  Name, Entry, inode_of, type_of, dir_find_entry, dir_add_entry, is_valid_filename, put_entry,
  is_named,
}
use ipo_os.Fs.Dir.Naming.{IsEntry}
use ipo_os.Fs.Dir.Lookup.{
  IsDirectory, row_block, row_place, row_entry, row_named, row_found, dir_find_entry-first,
}
use ipo_os.Fs.Dir.Found.{copied_inode, copied_type}
use ipo_os.Fs.Dir.Added.{CanGrow, dir_add_entry-added}
use ipo_os.Fs.Dir.Grown.{
  behind, content-behind, content-behind-place, mode-behind, size-behind, direct-behind,
}
use ipo_os.Fs.Format.Root.{IsRoot}
use ipo_os.Fs.Format.Fresh.{IsFresh, IsFresh-same}

-- A search that passes over what stands before a number, and stops there.
first_clear-hit :
    (busy : ℕ → Bool) (left i k : ℕ)
    → (i ≤ k) × (k < i + left)
    → ((j : ℕ) → i ≤ j → j < k → busy j ≡ true)
    → busy k ≡ false
    → first_clear busy left i ≡ some k
unfolding first_clear
first_clear-hit busy zero i k inside before stop = absurd (omega arith)
first_clear-hit busy (suc left) i k inside before stop = elim (ℕ_discrete i k) [
  | yes here ↦ let free : busy i ≡ false = ap busy here ∙ stop in rw free (ap some here)
  | no later ↦
      let taken : busy i ≡ true = before i (omega arith) (omega arith) in
      rw taken (
        first_clear-hit busy left (i + 1) k (omega arith)
          (λ j from below. before j (omega arith) below) stop)
]

module _ {D : Type 0} (ata : Ata D) (disk : IsDisk ata) (b : Fs D) (h : IsLaidOut disk.sectors b)
    (one : InTable b.sb 1) (some_data : b.sb.data_blocks_start < b.sb.fs_size_blocks) where
  abbrev at : D → Fs D
  at d = on ata disk b d

  module _ (count : ℕ) (rows : Mem) (d : D) (few : count ≤ 6)
      (r : IsRoot ata disk b h one some_data count rows d)
      (entries : (j : ℕ) → j < count → IsEntry rows (j * 72)) where
    -- An entry of the root stands in its first block.
    direct :
        (j : ℕ)
        → j ≤ count
        → direct_of (inode_at ata disk (at d) 1) (j / 7) ≡ b.sb.data_blocks_start
    direct j le =
        let first : j / 7 ≡ 0 = omega arith in
        ap (λ x. direct_of (inode_at ata disk (at d) 1) x) first ∙ r.first

    rows_at : (j : ℕ) → j ≤ count → row_block ata disk (at d) (inode_at ata disk (at d) 1) j ≡ rows
    rows_at j le = ap (block ata disk b d) (direct j le) ∙ r.holds

    place_at : (j : ℕ) → j ≤ count → row_place ata disk j ≡ j * 72
    place_at j le = omega arith

    root-IsDirectory : IsDirectory ata disk (at d) 1 count
    root-IsDirectory = record {
      laid = laid ata disk b h d;
      known = one;
      kind = ap (λ (m : ℕ). m % 2 == 1) r.mode;
      size = r.size;
      row = record {
        few = omega arith;
        there = λ j lt e.
            omega (arith, direct j (omega arith), e, h.super, h.inode_bits, h.block_bits, h.table);
        inside = λ j lt. omega (arith, direct j (omega arith), some_data);
      };
    }

    pub root-CanGrow : CanGrow ata disk (at d) 1 count
    root-CanGrow = record {
      directory = root-IsDirectory;
      row = record {
        few = omega arith;
        there = λ j lt e.
            omega (arith, direct j (omega arith), e, h.super, h.inode_bits, h.block_bits, h.table);
        inside = λ j lt. omega (arith, direct j (omega arith), some_data);
      };
      above = λ j le. omega (arith, direct j le);
      apart = λ j le ne. absurd (ne (omega arith));
      entries = λ j lt.
          subst (λ m. IsEntry m (row_place ata disk j)) (sym (rows_at j (omega arith)))
            (subst (IsEntry rows) (sym (place_at j (omega arith))) (entries j lt));
    }

    pub root-absent :
        (name : Name)
        → ((j : ℕ) → j < count → is_named rows (j * 72) name ≡ false)
        → (dir_find_entry ata 1 name (at d)).0 ≡ none
    root-absent name fresh =
        ap (λ (x : Option Entry × Fs D). x.0)
          (dir_find_entry-first ata disk (at d) 1 count name root-IsDirectory)
        ∙ not_found _ refl
      where
        not_found :
            (o : Option ℕ)
            → first_clear
                (λ k. not (row_named ata disk (at d) (inode_at ata disk (at d) 1) name k))
                count
                0
              ≡ o
            → (row_found ata disk (at d) (inode_at ata disk (at d) 1) o).0 ≡ none
        not_found none e = refl
        not_found (some k) e =
            let (_, below, found) = first_clear_sound _ count 0 k e in
            let lt : k < count = omega (arith, below) in
            let same : row_named ata disk (at d) (inode_at ata disk (at d) 1) name k ≡ false =
              ap (λ m. is_named m (row_place ata disk k) name) (rows_at k (omega arith))
              ∙ ap (λ o. is_named rows o name) (place_at k (omega arith))
              ∙ fresh k lt in
            absurd (false≢true (sym found ∙ ap not same))

    -- The entry `j` of the root, as `dir_find_entry` hands it out.
    abbrev pub root_entry : ℕ → Entry
    root_entry j = row_entry ata disk (at d) (inode_at ata disk (at d) 1) j

    pub root-found :
        (name : Name) (j : ℕ)
        → j < count
        → ((k : ℕ) → k < j → is_named rows (k * 72) name ≡ false)
        → is_named rows (j * 72) name ≡ true
        → (dir_find_entry ata 1 name (at d) ≡ (some (root_entry j), at d))
          × (inode_of (root_entry j) ≡ load32 rows (j * 72))
          × (type_of (root_entry j) ≡ get8 rows (j * 72 + 4))
    root-found name j lt before hit = (
      dir_find_entry-first ata disk (at d) 1 count name root-IsDirectory
          ∙ ap (row_found ata disk (at d) (inode_at ata disk (at d) 1)) (
              first_clear-hit _ count 0 j (omega arith)
                (λ k from below. ap not (named k (omega arith) ∙ before k below))
                (ap not (named j lt ∙ hit))),
      copied_inode (row_block ata disk (at d) (inode_at ata disk (at d) 1) j) (row_place ata disk j)
          ∙ ap (λ m. load32 m (row_place ata disk j)) (rows_at j (omega arith))
          ∙ ap (load32 rows) (place_at j (omega arith)),
      copied_type (row_block ata disk (at d) (inode_at ata disk (at d) 1) j) (row_place ata disk j)
          ∙ ap (λ m. get8 m (row_place ata disk j + 4)) (rows_at j (omega arith))
          ∙ ap (λ (o : ℕ). get8 rows (o + 4)) (place_at j (omega arith)),
    )
      where
        named :
            (k : ℕ)
            → k < count
            → row_named ata disk (at d) (inode_at ata disk (at d) 1) name k
              ≡ is_named rows (k * 72) name
        named k below =
            ap (λ m. is_named m (row_place ata disk k) name) (rows_at k (omega arith))
            ∙ ap (λ o. is_named rows o name) (place_at k (omega arith))

    module _ (name : Name) (inode_no type : ℕ) where
      -- The disk behind a new entry.
      abbrev pub with_entry : D
      with_entry = (behind ata disk (at d) 1 count root-CanGrow name inode_no type).disk

      pub dir_add_entry-with_entry :
          is_valid_filename name ≡ true
          → ((j : ℕ) → j < count → is_named rows (j * 72) name ≡ false)
          → dir_add_entry ata 1 name inode_no type (at d) ≡ (some tt, at with_entry)
      dir_add_entry-with_entry valid fresh =
          dir_add_entry-added ata disk (at d) 1 count root-CanGrow name inode_no type valid
            (root-absent name fresh)

      target : direct_of (inode_at ata disk (at d) 1) (count / 7) ≡ b.sb.data_blocks_start
      target = direct count (omega arith)

      pub IsRoot-with_entry :
          IsRoot ata disk b h one some_data
            (count + 1)
            (cut (put_entry rows (count * 72) name inode_no type))
            with_entry
      IsRoot-with_entry = record {
        mode = mode-behind ata disk (at d) 1 count root-CanGrow name inode_no type ∙ r.mode;
        size = size-behind ata disk (at d) 1 count root-CanGrow name inode_no type;
        first =
            direct-behind ata disk (at d) 1 count root-CanGrow name inode_no type 0 (omega arith)
            ∙ r.first;
        holds =
            ap (block ata disk b with_entry) (sym target)
            ∙ content-behind-place ata disk (at d) 1 count root-CanGrow name inode_no type
            ∙ ap (λ m. cut (put_entry m (count % 7 * 72) name inode_no type))
                (ap (block ata disk b d) target ∙ r.holds)
            ∙ ap (λ o. cut (put_entry rows o name inode_no type)) (place_at count (omega arith));
      }

      pub IsFresh-with_entry :
          (k n : ℕ) → IsFresh ata disk b h k n d → IsFresh ata disk b h k n with_entry
      IsFresh-with_entry k n f =
          IsFresh-same ata disk b h k n d with_entry
            (λ m below some_block.
              content-behind ata disk (at d) 1 count root-CanGrow name inode_no type m
                (omega (arith, h.table, h.data_area)) (omega (arith, target, h.table))
                (omega arith))
            f
