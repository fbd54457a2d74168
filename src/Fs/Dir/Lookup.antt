-- ===== src/Fs/Dir/Lookup.antt =====
-- The search of a directory, on a disk in order: `dir_find_entry` finds the first entry with the name.
use ipo_os.Common.{
  arith, ℕ, zero, suc, ◌+◌, ◌*◌, ◌/◌, ◌%◌, ◌≤◌, ◌<◌, ◌≡◌, ◌≢◌, refl, ◌∙◌, Bool, true, false, not,
  ltb, Bool-cases, inl, inr, Option, none, some, if◌then◌else◌, lt→ltb,
}
use ipo_os.Memory.{Mem, zeros, blit}
use ipo_os.Common.Action.{Act, pure}
use ipo_os.Fs.{Ata, Fs, Inode, is_dir, direct_of, size_of}
use ipo_os.Fs.Block.{IsDisk, content, block_read, block_read-content}
use ipo_os.Fs.Layout.{IsLaidOut, InTable}
use ipo_os.Fs.Inode.Alloc.{first_clear}
use ipo_os.Fs.Inode.Table.{inode_at, read_inode-inode_at}
use ipo_os.Fs.Dir.{Name, Entry, entry_block, find_from, dir_find_entry, is_named}

-- A found entry, or the rest of the search.
chosen :
    {S : Type 0} (hit : Bool) (x : Entry) (rest : Act S Entry) (s : S)
    → (elim hit as (λ b. Act S Entry) [ true ↦ pure x | false ↦ rest ]) s
      ≡ (if hit then (some x, s) else rest s)
chosen true x rest s = refl
chosen false x rest s = refl

module _ {D : Type 0} (ata : Ata D) (disk : IsDisk ata) where
  -- The block and the place of entry `j` of a directory.
  abbrev pub row_block : Fs D → Inode → ℕ → Mem
  row_block s din j = content ata disk s (direct_of din (j / 7))

  abbrev pub row_place : ℕ → ℕ
  row_place j = j % 7 * 72

  abbrev pub row_named : Fs D → Inode → Name → ℕ → Bool
  row_named s din name j = is_named (row_block s din j) (row_place j) name

  abbrev pub row_entry : Fs D → Inode → ℕ → Entry
  row_entry s din j = record {
    bytes = blit zeros 0 (row_block s din j) (row_place j) 72;
    block = direct_of din (j / 7);
    slot = j % 7;
  }

  abbrev pub row_found : Fs D → Inode → Option ℕ → Option Entry × Fs D
  row_found s din none = (none, s)
  row_found s din (some j) = (some (row_entry s din j), s)

  -- The entries of a directory lie in its direct blocks, which are there.
  pub record IsRow (s : Fs D) (din : Inode) (count : ℕ) : Type 0 where
    pub few : count ≤ 42
    pub there : (j : ℕ) → j < count → direct_of din (j / 7) ≢ 0
    pub inside : (j : ℕ) → j < count → direct_of din (j / 7) < s.sb.fs_size_blocks

  module _ (s : Fs D) (h : IsLaidOut disk.sectors s) (din : Inode) (count : ℕ)
      (row : IsRow s din count) (name : Name) where
    abbrev first_named : ℕ → ℕ → Option ℕ
    first_named left j = first_clear (λ k. not (row_named s din name k)) left j

    entry_block-direct :
        (j : ℕ) → j < count → entry_block ata din (j / 7) s ≡ (some (direct_of din (j / 7)), s)
    unfolding entry_block
    entry_block-direct j lt =
        let direct : ltb (j / 7) 6 ≡ true = lt→ltb _ _ (omega (arith, row.few)) in rw direct

    -- A round of the loop, at a block that is there.
    find_from_step :
        (left j phys : ℕ) (buf : Mem)
        → phys ≢ 0
        → entry_block ata din (j / 7) s ≡ (some phys, s)
        → block_read ata phys s ≡ (some buf, s)
        → find_from ata (suc left) j din name s ≡ (
            if is_named buf (row_place j) name
            then (
              some (record {
                bytes = blit zeros 0 buf (row_place j) 72;
                block = phys;
                slot = j % 7;
              }),
              s,
            )
            else find_from ata left (j + 1) din name s)
    unfolding find_from
    find_from_step left j zero buf there place read = absurd (there refl)
    find_from_step left j (suc p) buf there place read =
        rw (place, read)
          (chosen (is_named buf (row_place j) name) _ (find_from ata left (j + 1) din name) s)

    pub find_from-first :
        (left j : ℕ)
        → j + left ≤ count
        → find_from ata left j din name s ≡ row_found s din (first_named left j)
    unfolding find_from first_clear
    find_from-first zero j le = refl
    find_from-first (suc left) j le =
        let inside = row.inside j (omega arith) in
        let read =
          block_read-content ata disk s (direct_of din (j / 7))
            (omega (arith, h.addresses, inside)) in
        let step =
          find_from_step left j (direct_of din (j / 7)) (row_block s din j)
            (row.there j (omega arith)) (entry_block-direct j (omega arith)) read in
        elim (Bool-cases (row_named s din name j)) [
          | inl hit ↦ step ∙ rw hit refl
          | inr miss ↦ step ∙ rw miss (find_from-first left (j + 1) (omega arith))
        ]

  -- The inode of a directory with `count` entries.
  pub record IsDirectory (s : Fs D) (i count : ℕ) : Type 0 where
    pub laid : IsLaidOut disk.sectors s
    pub known : InTable s.sb i
    pub kind : is_dir (inode_at ata disk s i) ≡ true
    pub size : size_of (inode_at ata disk s i) ≡ 72 * count
    pub row : IsRow s (inode_at ata disk s i) count

  pub dir_find_entry-first :
      (s : Fs D) (i count : ℕ) (name : Name)
      → IsDirectory s i count
      → dir_find_entry ata i name s
        ≡ row_found s
            (inode_at ata disk s i)
            (first_clear (λ k. not (row_named s (inode_at ata disk s i) name k)) count 0)
  unfolding dir_find_entry
  dir_find_entry-first s i count name d =
      let entries : size_of (inode_at ata disk s i) / 72 ≡ count = omega (arith, d.size) in
      rw (read_inode-inode_at ata disk s d.laid i d.known, d.kind, entries)
        (find_from-first s d.laid (inode_at ata disk s i) count d.row name count 0 (omega arith))
