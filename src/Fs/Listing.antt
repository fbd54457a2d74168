-- ===== src/Fs/Listing.antt =====
-- `ipo_fs_list_dir` of lib/c/file_system/ipo_dir.c. `out_size` is not
-- negative. What a call that fails has written to the buffer is not kept.
pub mod Bounds
use ipo_os.Common.{
  ℕ, zero, suc, ◌+◌, ◌-◌, ◌*◌, ◌/◌, ◌%◌, ◌^◌, ◌≤◌, ◌<◌, min, ◌≡◌, refl, sym, ap, ◌∙◌, fun_ext, ◌≢◌,
  ◌↔◌, ◌⊎◌, inl, inr, Bool, true, false, not, ◌&&◌, ◌||◌, Option, none, some, List, [], ◌∷◌, ◌++◌,
  map, reverse, arith, ltb, leb, ◌==◌, if◌then◌else◌, Bool-cases, tests, lt→ltb, le→ltb, ltb→lt,
  leb→le, ltb→le, leb→lt, ==_iff, and_left, and_right, all_below, all_below_sound, length,
  get_elem?, set, take, drop, replicate, is_some, length-append, length-set, get_elem?-set_self,
  get_elem?-set_ne, u32_mod, add32, sub32,
}
use ipo_os.Memory.{Mem, get8, put8, load32, store32, fill, blit, zeros, Agree}
use ipo_os.Common.Action.{
  Act, pure, fail, and_then, ◌>>=◌, ◌>>◌, attempt, guard, asks, modify, lift,
}
use ipo_os.Fs.{
  Ata, Fs, Superblock, Fd, Inode, ipo_fs_block_size, ipo_fs_max_name, ipo_fs_direct_blocks,
  ipo_inode_type_dir, ipo_inode_type_file, ipo_inode_flag_protected, ipo_max_fds, inode_size,
  inodes_per_block, mode_of, size_of, links_of, direct_of, indirect_of, double_indirect_of,
  with_mode, with_size, with_links, with_direct, with_indirect, with_double_indirect, is_dir,
  is_protected, as_int,
}
use ipo_os.Fs.Block.{
  block_read_raw, block_read, block_write, IsDisk, content, written, block_read-content,
  block_write-written, content-written, content-written_self, content-written_ne,
}
use ipo_os.Fs.Dir.{
  Name, dir_entry_size, dir_entries_per_block, entry_inode, entry_type, entry_name_len, on_inode,
}
use ipo_os.Fs.Inode.{read_inode}
use ipo_os.Fs.DataBlock.{get_data_block_for_inode}
use ipo_os.Fs.Path.{path_resolve}

-- A name, the slash of a directory, and the newline, written at `pos` from the entry at byte `o`.
unfoldable pub put_line : (buf : Mem) (o pos : ℕ) → Mem → ℕ × Mem
put_line buf o pos out =
    let l = entry_name_len buf o in
    let named = blit out pos buf (o + 8) l in
    if entry_type buf o == ipo_inode_type_dir
    then (pos + l + 2, put8 (put8 named (pos + l) b'/') (pos + l + 1) b'\n')
    else (pos + l + 1, put8 named (pos + l) b'\n')

-- The NUL behind the listing.
unfoldable pub end_listing : (out_size pos : ℕ) → Mem → ℕ × Mem
end_listing out_size pos out =
    (pos, if ltb pos out_size then put8 out pos 0 else put8 out (out_size - 1) 0)

module _ {D : Type 0} (ata : Ata D) where
  -- The loop from entry `e` on, with `left` entries to go.
  unfoldable pub list_from : (out_size : ℕ) → Inode → (left e pos : ℕ) → Mem → Act (Fs D) (ℕ × Mem)
  list_from out_size din zero e pos out = pure (pos, out)
  list_from out_size din (suc left) e pos out = do
    let o = e % dir_entries_per_block * dir_entry_size
    found ←
        attempt (on_inode ata din (get_data_block_for_inode ata (e / dir_entries_per_block) false))
    elim found [
      | none ↦ list_from out_size din left (e + 1) pos out
      | some phys ↦ do
        buf ← block_read ata phys
        elim ((entry_inode buf o == 0) || (entry_name_len buf o == 0)) [
          | true ↦ list_from out_size din left (e + 1) pos out
          | false ↦ elim (leb out_size (pos + entry_name_len buf o + 3)) [
            | true ↦ pure (pos, out)
            | false ↦
                list_from out_size din left (e + 1) (put_line buf o pos out).0
                  (put_line buf o pos out).1
          ]
        ]
    ]

  -- The length of the listing, and the buffer.
  unfoldable pub ipo_fs_list_dir : Name → Mem → ℕ → Act (Fs D) (ℕ × Mem)
  ipo_fs_list_dir path out out_size = do
    ino ← path_resolve ata path
    din ← read_inode ata ino
    guard (is_dir din)
    listed ← list_from out_size din (size_of din / dir_entry_size) 0 0 out
    pure (end_listing out_size listed.0 listed.1)
