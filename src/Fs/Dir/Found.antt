-- ===== src/Fs/Dir/Found.antt =====
-- A name that was added to a directory is found there, and every other name as before.
use ipo_os.Memory.Laws.{get8-cut, load32-cut}
use ipo_os.Common.{
  arith, ℕ, suc, ◌+◌, ◌-◌, ◌*◌, ◌%◌, ◌≤◌, ◌<◌, ◌≡◌, ◌≢◌, refl, sym, ap, ◌∙◌, fun_ext, Bool, true,
  false, not, ◌&&◌, inl, inr, Bool-cases, Option, none, some, u32_mod, leb, ltb,
}
use mathlib.Core.Path.{ap₂}
use ipo_os.Memory.{Mem, zeros, blit, load32, get8}
use ipo_os.Fs.{Ata, Fs}
use ipo_os.Fs.Block.{IsDisk}
use ipo_os.Fs.Inode.Alloc.{first_clear, first_clear_sound}
use ipo_os.Fs.Inode.Table.{inode_at}
use ipo_os.Fs.Dir.{Name, Entry, inode_of, type_of, dir_find_entry, is_valid_filename, is_named}
use ipo_os.Fs.Dir.Lookup.{
  row_block, row_place, row_named, row_entry, row_found, dir_find_entry-first,
}
use ipo_os.Fs.Dir.Filename.{is_valid_filename-length, is_named-put_entry_ne}
use ipo_os.Fs.Dir.Naming.{
  IsEntry, is_named-cut, put_entry-IsEntry, is_named-put_entry, put_entry-inode, put_entry-type,
}
use ipo_os.Fs.Dir.Search.{first_clear_next, first_clear_more}
use ipo_os.Fs.Dir.Added.{CanGrow}
use ipo_os.Fs.Dir.Grown.{
  new_bytes, behind, row-same, row-added, row_direct, row_named-behind, IsDirectory-behind,
}

-- The copy of an entry that `dir_find_entry` hands out.
pub copied_inode : (m : Mem) (o : ℕ) → load32 (blit zeros 0 m o 72) 0 ≡ load32 m o
unfolding load32 get8 blit
copied_inode m o = ground arith

pub copied_type : (m : Mem) (o : ℕ) → get8 (blit zeros 0 m o 72) 4 ≡ get8 m (o + 4)
unfolding get8 blit
copied_type m o = ground arith

module _ {D : Type 0} (ata : Ata D) (disk : IsDisk ata) (s : Fs D) (i count : ℕ)
    (g : CanGrow ata disk s i count) (name : Name) (inode_no type : ℕ)
    (valid : is_valid_filename name ≡ true) (used : 0 < inode_no) (word : inode_no < u32_mod)
    (byte : type < 256) where
  zero_add : 0 + count ≡ count
  zero_add = omega arith

  abbrev free_of : Name → ℕ → Bool
  free_of other k = not (row_named ata disk s (inode_at ata disk s i) other k)

  abbrev after : Fs D
  after = behind ata disk s i count g name inode_no type

  abbrev free_after : Name → ℕ → Bool
  free_after other k = not (row_named ata disk after (inode_at ata disk after i) other k)

  free_same : (other : Name) (j : ℕ) → 0 ≤ j → j < 0 + count → free_after other j ≡ free_of other j
  free_same other j from below = ap not (
      row_named-behind ata disk s i count g name inode_no type j other (omega arith)
        (is_valid_filename-length name valid).1)

  new_IsEntry : IsEntry (new_bytes ata disk s i count g name inode_no type) (count % 7 * 72)
  new_IsEntry =
      put_entry-IsEntry _ (count % 7 * 72) name inode_no type
        (is_valid_filename-length name valid).1 (is_valid_filename-length name valid).0

  hit : free_after name (0 + count) ≡ false
  hit =
      ap (free_after name) (omega arith)
      ∙ ap not (
          ap (λ m. is_named m (count % 7 * 72) name)
            (row-added ata disk s i count g name inode_no type)
          ∙ is_named-cut _ (count % 7 * 72) (omega arith) name new_IsEntry
          ∙ is_named-put_entry _ (count % 7 * 72) name inode_no type
              (is_valid_filename-length name valid).1 (is_valid_filename-length name valid).0 used
              word)

  miss :
      (other : Name)
      → is_valid_filename other ≡ true
      → name ≢ other
      → free_after other (0 + count) ≡ true
  miss other valid' ne =
      ap (free_after other) (omega arith)
      ∙ ap not (
          ap (λ m. is_named m (count % 7 * 72) other)
            (row-added ata disk s i count g name inode_no type)
          ∙ is_named-cut _ (count % 7 * 72) (omega arith) other new_IsEntry
          ∙ is_named-put_entry_ne _ (count % 7 * 72) name other inode_no type valid valid' ne)

  same_bytes :
      (k : ℕ)
      → k < count
      → blit zeros 0
          (row_block ata disk after (inode_at ata disk after i) k)
          (row_place ata disk k)
          72
        ≡ blit zeros 0 (row_block ata disk s (inode_at ata disk s i) k) (row_place ata disk k) 72
  unfolding blit
  same_bytes k lt = fun_ext (λ a. elim (Bool-cases (leb 0 a && ltb a 72)) [
    | inl in_entry ↦ rw in_entry (
        row-same ata disk s i count g name inode_no type k (row_place ata disk k + (a - 0)) lt
          (is_valid_filename-length name valid).1 (omega arith) (ground arith))
    | inr out ↦ rw out refl
  ])

  same_entry :
      (k : ℕ)
      → k < count
      → row_entry ata disk after (inode_at ata disk after i) k
        ≡ row_entry ata disk s (inode_at ata disk s i) k
  same_entry k lt =
      ap₂ (λ (m : Mem) (b : ℕ). record { bytes = m; block = b; slot = k % 7 }) (same_bytes k lt)
        (row_direct ata disk s i count g name inode_no type k (omega arith))

  same_found :
      (o : Option ℕ)
      → ((k : ℕ) → o ≡ some k → k < count)
      → (row_found ata disk after (inode_at ata disk after i) o).0
        ≡ (row_found ata disk s (inode_at ata disk s i) o).0
  same_found none below = refl
  same_found (some k) below = ap some (same_entry k (below k refl))

  -- The search of the directory behind the call.
  found_after :
      (other : Name)
      → dir_find_entry ata i other after
        ≡ row_found ata disk after
            (inode_at ata disk after i)
            (first_clear (free_after other) (suc count) 0)
  found_after other =
      let more : count + 1 ≡ suc count = omega arith in
      dir_find_entry-first ata disk after i (count + 1) other
        (IsDirectory-behind ata disk s i count g name inode_no type)
      ∙ ap
          (λ n.
            row_found ata disk after (inode_at ata disk after i)
              (first_clear (free_after other) n 0))
          more

  found_before :
      (other : Name)
      → dir_find_entry ata i other s
        ≡ row_found ata disk s (inode_at ata disk s i) (first_clear (free_of other) count 0)
  found_before other = dir_find_entry-first ata disk s i count other g.directory

  pub dir_find_entry-same :
      (other : Name)
      → is_valid_filename other ≡ true
      → name ≢ other
      → (dir_find_entry ata i other after).0 ≡ (dir_find_entry ata i other s).0
  dir_find_entry-same other valid' ne =
      ap (λ (r : Option Entry × Fs D). r.0) (found_after other)
      ∙ ap (λ o. (row_found ata disk after (inode_at ata disk after i) o).0)
          (first_clear_more (free_of other) (free_after other) count 0 (free_same other)
            (miss other valid' ne))
      ∙ same_found (first_clear (free_of other) count 0)
          (λ k e. omega (arith, first_clear_sound (free_of other) count 0 k e))
      ∙ ap (λ (r : Option Entry × Fs D). r.0) (sym (found_before other))

  none_before : (dir_find_entry ata i name s).0 ≡ none → first_clear (free_of name) count 0 ≡ none
  none_before fresh =
      not_found _ (ap (λ (r : Option Entry × Fs D). r.0) (sym (found_before name)) ∙ fresh)
    where
      not_found :
          (o : Option ℕ) → (row_found ata disk s (inode_at ata disk s i) o).0 ≡ none → o ≡ none
      not_found none e = refl
      not_found (some k) e = cc

  pub dir_find_entry-added :
      (dir_find_entry ata i name s).0 ≡ none
      → dir_find_entry ata i name after
        ≡ (some (row_entry ata disk after (inode_at ata disk after i) (0 + count)), after)
  dir_find_entry-added fresh =
      found_after name
      ∙ ap (row_found ata disk after (inode_at ata disk after i)) (
          first_clear_next (free_of name) (free_after name) count 0 (free_same name)
            (none_before fresh) hit)

  -- What the new entry says.
  pub inode_of-added :
      inode_of (row_entry ata disk after (inode_at ata disk after i) (0 + count)) ≡ inode_no
  inode_of-added =
      ap (λ n. inode_of (row_entry ata disk after (inode_at ata disk after i) n)) zero_add
      ∙ copied_inode (row_block ata disk after (inode_at ata disk after i) count) (count % 7 * 72)
      ∙ ap (λ m. load32 m (count % 7 * 72)) (row-added ata disk s i count g name inode_no type)
      ∙ load32-cut _ (count % 7 * 72) (omega arith)
      ∙ put_entry-inode _ (count % 7 * 72) name inode_no type
          (is_valid_filename-length name valid).1 word

  pub type_of-added :
      type_of (row_entry ata disk after (inode_at ata disk after i) (0 + count)) ≡ type
  type_of-added =
      ap (λ n. type_of (row_entry ata disk after (inode_at ata disk after i) n)) zero_add
      ∙ copied_type (row_block ata disk after (inode_at ata disk after i) count) (count % 7 * 72)
      ∙ ap (λ m. get8 m (count % 7 * 72 + 4)) (row-added ata disk s i count g name inode_no type)
      ∙ get8-cut _ (count % 7 * 72 + 4) (omega arith)
      ∙ put_entry-type _ (count % 7 * 72) name inode_no type (is_valid_filename-length name valid).1
          byte
