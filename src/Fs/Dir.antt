-- ===== src/Fs/Dir.antt =====
-- Directories, lib/c/file_system/ipo_dir.c, but for `ipo_fs_list_dir`. A directory is a row of entries
-- of 72 bytes, seven to a block; an entry with inode 0 is unused. Names are the bytes before the NUL.
pub mod Lookup
pub mod Naming
pub mod Filename
pub mod Added
pub mod Grown
pub mod Growing
pub mod Search
pub mod Found
mod Tests
use ipo_os.Common.{
  ℕ, zero, suc, ◌+◌, ◌*◌, ◌/◌, ◌%◌, Bool, true, false, not, ◌&&◌, ◌||◌, none, some, List, [], ◌∷◌,
  ltb, leb, ◌==◌, if◌then◌else◌, length, is_some, add32,
}
use ipo_os.Memory.{Mem, get8, put8, load32, store32, fill, blit, zeros}
use ipo_os.Common.Action.{Act, pure, fail, ◌>>=◌, ◌>>◌, attempt, guard}
use ipo_os.Fs.{
  Ata, Fs, Inode, ipo_fs_max_name, ipo_fs_direct_blocks, size_of, direct_of, with_size, is_dir,
  is_protected,
}
use ipo_os.Fs.Block.{block_read, block_write}
use ipo_os.Common.Int.{is_zero}
use ipo_os.CString.{strncmp, strcmp, strlen}
use ipo_os.Fs.Inode.{read_inode, write_inode}
use ipo_os.Fs.DataBlock.{get_data_block_for_inode}

abbrev pub Name : Type 0
Name = List ℕ

abbrev pub dir_entry_size : ℕ
dir_entry_size = 72

abbrev pub dir_entries_per_block : ℕ
dir_entries_per_block = 7

-- The bytes of a C string.
abbrev pub text : Name → Mem
text [] i = 0
text (c ∷ cs) zero = c
text (c ∷ cs) (suc i) = text cs i

-- The fields of the entry at byte `o` of a buffer.
abbrev pub entry_inode : Mem → ℕ → ℕ
entry_inode buf o = load32 buf o

abbrev pub entry_type : Mem → ℕ → ℕ
entry_type buf o = get8 buf (o + 4)

abbrev pub entry_name_len : Mem → ℕ → ℕ
entry_name_len buf o = get8 buf (o + 5)

-- `de->name_len ? de->name_len : strlen(de->name)`. A buffer has 512 bytes; a name with no NUL in it
-- counts as 512 bytes long.
abbrev pub entry_length : Mem → ℕ → ℕ
entry_length buf o =
    if entry_name_len buf o == 0
    then elim (strlen 512 buf (o + 8)) [ some n ↦ n | none ↦ 512 ]
    else entry_name_len buf o

unfoldable pub is_named : Mem → ℕ → Name → Bool
is_named buf o name =
    not (entry_inode buf o == 0)
    && (entry_length buf o == length name)
    && not (entry_length buf o == 0)
    && is_zero (strncmp buf (o + 8) (text name) 0 (entry_length buf o))

-- What `dir_find_entry` hands out: a copy of the entry, its block and its place in the block.
pub record Entry : Type 0 where
  pub bytes : Mem
  pub block : ℕ
  pub slot : ℕ

abbrev pub inode_of : Entry → ℕ
inode_of e = load32 e.bytes 0

abbrev pub type_of : Entry → ℕ
type_of e = get8 e.bytes 4

-- `A-Z`, `a-z`, `0-9`, `_`, `-` and `.`.
unfoldable pub is_name_char : ℕ → Bool
is_name_char c =
    leb b'A' c && leb c b'Z'
    || leb b'a' c && leb c b'z'
    || leb b'0' c && leb c b'9'
    || (c == b'_')
    || (c == b'-')
    || (c == b'.')

abbrev pub all_name_chars : Name → Bool
all_name_chars [] = true
all_name_chars (c ∷ cs) = is_name_char c && all_name_chars cs

-- `strcmp(name, ".") == 0 || strcmp(name, "..") == 0`.
unfoldable pub is_dots : Name → Bool
is_dots (c ∷ []) = c == b'.'
is_dots (c ∷ d ∷ []) = (c == b'.') && (d == b'.')
is_dots _ = false

unfoldable pub is_valid_filename : Name → Bool
is_valid_filename name =
    not (length name == 0)
    && ltb (length name) ipo_fs_max_name
    && all_name_chars name
    && not (is_dots name)

abbrev pub dot : Name
dot = b'.' ∷ []

abbrev pub dot_dot : Name
dot_dot = b'.' ∷ b'.' ∷ []

-- `strcmp(m + p, name) == 0`; the comparison ends with the name at the latest.
abbrev pub is_text : Mem → ℕ → Name → Bool
is_text m p name = elim (strcmp (length name + 1) m p (text name) 0) [
  | some d ↦ is_zero d
  | none ↦ false
]

-- The bytes that `dir_add_entry` writes for an entry at byte `o`; the name is shorter than 64.
unfoldable pub put_entry : Mem → ℕ → Name → ℕ → ℕ → Mem
put_entry buf o name inode_no type =
    let head = put8 (put8 (store32 buf o inode_no) (o + 4) type) (o + 5) (length name) in
    blit (fill (fill head (o + 6) 0 2) (o + 8) 0 ipo_fs_max_name) (o + 8) (text name) 0
      (length name)

-- What `dir_remove_entry` writes over an entry.
unfoldable pub clear_entry : Mem → ℕ → Mem
clear_entry buf o = put8 (put8 (store32 buf o 0) (o + 8) 0) (o + 5) 0

module _ {D : Type 0} (ata : Ata D) where
  -- A call on a directory's inode that does not write to it.
  unfoldable pub on_inode : Inode → Act (Inode × Fs D) ℕ → Act (Fs D) ℕ
  on_inode din m s = ((m (din, s)).0, (m (din, s)).1.1)

  -- The block of logical block `i` in `dir_find_entry`; 0 for a direct block that is not there.
  unfoldable pub entry_block : Inode → ℕ → Act (Fs D) ℕ
  entry_block din i =
      if ltb i ipo_fs_direct_blocks
      then pure (direct_of din i)
      else on_inode din (get_data_block_for_inode ata i false)

  -- The loop of `dir_find_entry` from entry `e` on, with `left` entries to go.
  unfoldable pub find_from : ℕ → ℕ → Inode → Name → Act (Fs D) Entry
  find_from zero e din name = fail
  find_from (suc left) e din name = do
    let o = e % dir_entries_per_block * dir_entry_size
    phys ← attempt (entry_block din (e / dir_entries_per_block))
    elim phys [
      | none ↦ find_from left (e + 1) din name
      | some zero ↦ find_from left (e + 1) din name
      | some (suc p) ↦ do
        buf ← block_read ata (suc p)
        elim (is_named buf o name) [
          | true ↦ pure (record {
            bytes = blit zeros 0 buf o dir_entry_size;
            block = suc p;
            slot = e % dir_entries_per_block;
          })
          | false ↦ find_from left (e + 1) din name
        ]
    ]

  unfoldable pub dir_find_entry : ℕ → Name → Act (Fs D) Entry
  dir_find_entry dir_inode_no name = do
    din ← read_inode ata dir_inode_no
    guard (is_dir din)
    find_from (size_of din / dir_entry_size) 0 din name

  -- A call that may write to the caller's inode.
  unfoldable pub with_inode : Inode → Act (Inode × Fs D) ℕ → Act (Fs D) (ℕ × Inode)
  with_inode din m s = elim (m (din, s)).0 [
    | some v ↦ (some (v, (m (din, s)).1.0), (m (din, s)).1.1)
    | none ↦ (none, (m (din, s)).1.1)
  ]

  unfoldable pub dir_add_entry : ℕ → Name → ℕ → ℕ → Act (Fs D) (Unit {0})
  dir_add_entry dir_inode_no name inode_no type = do
    din ← read_inode ata dir_inode_no
    guard (is_dir din)
    guard (is_valid_filename name)
    old ← attempt (dir_find_entry dir_inode_no name)
    guard (not (is_some old))
    let entries = size_of din / dir_entry_size
    (phys, grown) ←
        with_inode din (get_data_block_for_inode ata (entries / dir_entries_per_block) true)
    buf ← block_read ata phys
    block_write ata phys
        (put_entry buf (entries % dir_entries_per_block * dir_entry_size) name inode_no type)
    attempt (write_inode ata dir_inode_no (with_size grown (add32 (size_of grown) dir_entry_size)))
    pure tt

  -- The inode may be read and bears the protected flag.
  unfoldable pub is_kept : ℕ → Act (Fs D) Bool
  is_kept inode_no = do
    target ← attempt (read_inode ata inode_no)
    elim target [ some n ↦ pure (is_protected n) | none ↦ pure false ]

  -- The loop of `dir_remove_entry`.
  unfoldable pub remove_from : ℕ → ℕ → Inode → Name → Act (Fs D) (Unit {0})
  remove_from zero e din name = fail
  remove_from (suc left) e din name = do
    let o = e % dir_entries_per_block * dir_entry_size
    found ← attempt (on_inode din (get_data_block_for_inode ata (e / dir_entries_per_block) false))
    elim found [
      | none ↦ remove_from left (e + 1) din name
      | some phys ↦ do
        buf ← block_read ata phys
        elim (not (entry_inode buf o == 0)
            && is_zero (strncmp buf (o + 8) (text name) 0 ipo_fs_max_name)) [
              | false ↦ remove_from left (e + 1) din name
              | true ↦ do
                kept ← is_kept (entry_inode buf o)
                guard (not kept)
                guard (not (is_text buf (o + 8) dot || is_text buf (o + 8) dot_dot))
                block_write ata phys (clear_entry buf o)
            ]
    ]

  unfoldable pub dir_remove_entry : ℕ → Name → Act (Fs D) (Unit {0})
  dir_remove_entry dir_inode_no name = do
    din ← read_inode ata dir_inode_no
    remove_from (size_of din / dir_entry_size) 0 din name
