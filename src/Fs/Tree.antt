-- ===== src/Fs/Tree.antt =====
-- Paths to files of lib/c/file_system/ipo_api.c: create, stat, delete, write_text and rename. `stack`
-- is what an uninitialised local variable holds.
use ipo_os.Common.{
  ℕ, zero, suc, ◌*◌, Bool, true, false, not, ◌&&◌, ◌||◌, none, some, ltb, ◌==◌, if◌then◌else◌,
  length, is_some, Option, take, ◌∷◌, [],
}
use ipo_os.Memory.{Mem, load32, zeros}
use ipo_os.Common.Action.{Act, pure, fail, ◌>>=◌, ◌>>◌, attempt, guard, asks}
use ipo_os.Fs.{
  Ata, Fs, Inode, ipo_inode_type_dir, ipo_inode_type_file, size_of, direct_of, with_mode, with_size,
  with_links, is_dir, is_protected, store32,
}
use ipo_os.Fs.Block.{block_read, content, written, block_write}
use ipo_os.Fs.Dir.{
  Name, text, dir_find_entry, dir_add_entry, dir_remove_entry, is_valid_filename, inode_of, type_of,
  dir_entry_size,
}
use ipo_os.Fs.Path.{path_resolve, path_resolve_parent, same_name, slash}
use ipo_os.Fs.Inode.{read_inode, write_inode, allocate_inode, free_inode}
use ipo_os.Fs.File.{ipo_fs_open, ipo_fs_write}

-- How `ipo_fs_rename` ends where it does not return false.
pub data Renamed : Type 0 where
  renamed out_of_fuel : Renamed

-- How `is_descendant` ends.
pub data Descent : Type 0 where
  inside outside unending : Descent

abbrev pub size_or : Mem → Option Inode → ℕ
size_or stack none = size_of stack
size_or stack (some n) = size_of n

abbrev pub both_equal : Option ℕ → Option ℕ → Bool
both_equal (some a) (some b) = a == b
both_equal _ _ = false

module _ {D : Type 0} (ata : Ata D) where
  unfoldable pub ipo_fs_create : Mem → Name → ℕ → Act (Fs D) ℕ
  ipo_fs_create stack path type = do
    s ← asks (λ s. s)
    guard s.fs_mounted
    (parent, name) ← path_resolve_parent ata path
    guard (is_valid_filename name)
    old ← attempt (dir_find_entry ata parent name)
    guard (not (is_some old))
    ino ← allocate_inode ata
    attempt (write_inode ata ino (with_links (with_size (with_mode zeros type) 0) 1))
    added ← attempt (dir_add_entry ata parent name ino type)
    elim added [ some _ ↦ pure ino | none ↦ do attempt (free_inode ata stack ino); fail ]

  unfoldable pub ipo_fs_stat : Name → Act (Fs D) Inode
  ipo_fs_stat path = do
    s ← asks (λ s. s)
    guard s.fs_mounted
    ino ← path_resolve ata path
    read_inode ata ino

  -- A directory that holds more than `.` and `..` is not deleted. The second read of the inode is
  -- not tested.
  unfoldable pub guard_empty : Mem → ℕ → ℕ → Act (Fs D) (Unit {0})
  guard_empty stack type ino = do
    din ← attempt (read_inode ata ino)
    let size = size_or stack din
    guard (not ((type == ipo_inode_type_dir) && ltb (dir_entry_size * 2) size))

  unfoldable pub ipo_fs_delete : Mem → Name → Act (Fs D) (Unit {0})
  ipo_fs_delete stack path = do
    s ← asks (λ s. s)
    guard s.fs_mounted
    (parent, name) ← path_resolve_parent ata path
    de ← dir_find_entry ata parent name
    target ← read_inode ata (inode_of de)
    guard (not (is_protected target))
    guard_empty stack (type_of de) (inode_of de)
    dir_remove_entry ata parent name
    attempt (free_inode ata stack (inode_of de))
    pure tt

  unfoldable pub ipo_fs_write_text : Mem → Name → Name → Bool → Act (Fs D) Bool
  ipo_fs_write_text stack path content append = do
    s ← asks (λ s. s)
    guard s.fs_mounted
    found ← attempt (path_resolve ata path)
    created ← if is_some found then pure 0 else ipo_fs_create stack path ipo_inode_type_file
    inode ← ipo_fs_stat path
    guard (not (is_dir inode))
    fd ← ipo_fs_open ata path
    written ←
        ipo_fs_write ata fd (text content) stack (length content)
          (if append then size_of inode else 0)
    pure (written == length content)

  -- The inode of a directory's `..`, or none where the loop of `is_descendant` breaks.
  unfoldable pub parent_of : ℕ → Act (Fs D) ℕ
  parent_of cur = do
    din ← read_inode ata cur
    guard (is_dir din)
    guard (not (direct_of din 0 == 0))
    buf ← block_read ata (direct_of din 0)
    guard (not (load32 buf dir_entry_size == cur))
    pure (load32 buf dir_entry_size)

  -- The loop of `is_descendant`.
  unfoldable pub descend : ℕ → ℕ → ℕ → Act (Fs D) Descent
  descend zero ancestor cur = pure unending
  descend (suc fuel) ancestor cur = elim ((cur == 1) || (cur == 0)) [
    | true ↦ pure outside
    | false ↦ elim (cur == ancestor) [
      | true ↦ pure inside
      | false ↦ do
        parent ← attempt (parent_of cur)
        elim parent [ none ↦ pure outside | some p ↦ descend fuel ancestor p ]
    ]
  ]

  unfoldable pub is_descendant : ℕ → ℕ → ℕ → Act (Fs D) Descent
  is_descendant fuel ancestor node =
      if (ancestor == 0) || (node == 0) then pure outside else descend fuel ancestor node

  -- The parent and name that `ipo_fs_rename` gives the entry of inode `ino` and type `type`: below
  -- `newpath` if that is a directory.
  unfoldable pub rename_target : ℕ → Name → Name → ℕ → ℕ → Act (Fs D) (Option (ℕ × Name))
  rename_target fuel newpath oldname ino type = do
    known ← attempt (path_resolve ata newpath)
    elim known [
      | none ↦ do target ← path_resolve_parent ata newpath; pure (some target)
      | some dir ↦ do
        td ← read_inode ata dir
        elim (is_dir td) [
          | false ↦ do target ← path_resolve_parent ata newpath; pure (some target)
          | true ↦ do
            below ← if type == ipo_inode_type_dir then is_descendant fuel ino dir else pure outside
            elim below [
              | inside ↦ fail
              | outside ↦ pure (some (dir, take 63 oldname))
              | unending ↦ pure none
            ]
        ]
    ]

  -- A moved directory's `..` names its new parent.
  unfoldable pub relink : ℕ → ℕ → Act (Fs D) (Unit {0})
  relink ino new_parent = do
    moved ← read_inode ata ino
    if direct_of moved 0 == 0 then pure tt else do
      buf ← block_read ata (direct_of moved 0)
      block_write ata (direct_of moved 0) (store32 buf dir_entry_size new_parent)

  unfoldable pub move_entry : ℕ → Name → ℕ → Name → (ino type : ℕ) → Act (Fs D) Renamed
  move_entry old_parent oldname new_parent newname ino type = do
    guard (is_valid_filename newname)
    clash ← attempt (dir_find_entry ata new_parent newname)
    elim clash [
      | some e ↦ if inode_of e == ino then pure renamed else fail
      | none ↦ do
        dir_add_entry ata new_parent newname ino type
        if type == ipo_inode_type_dir then relink ino new_parent else pure tt
        dir_remove_entry ata old_parent oldname
        pure renamed
    ]

  -- Both paths are looked up before anything else; the same inode is no move.
  unfoldable pub ipo_fs_rename : ℕ → Name → Name → Act (Fs D) Renamed
  ipo_fs_rename fuel oldpath newpath = do
    s ← asks (λ s. s)
    guard s.fs_mounted
    guard (not (same_name oldpath (slash ∷ [])))
    old_ino ← attempt (path_resolve ata oldpath)
    new_ino ← attempt (path_resolve ata newpath)
    elim (both_equal old_ino new_ino) [
      | true ↦ pure renamed
      | false ↦ do
        (old_parent, oldname) ← path_resolve_parent ata oldpath
        de ← dir_find_entry ata old_parent oldname
        tin ← read_inode ata (inode_of de)
        guard (not (is_protected tin))
        target ← rename_target fuel newpath oldname (inode_of de) (type_of de)
        elim target [
          | none ↦ pure out_of_fuel
          | some (new_parent, newname) ↦
              move_entry old_parent oldname new_parent newname (inode_of de) (type_of de)
        ]
    ]
