-- ===== src/Fs/Bitmap.antt =====
-- The allocation bitmaps, lib/c/file_system/ipo_bitmap.c. A transfer is tried five times; the delay
-- between two tries has no other effect.
pub mod Laws
use ipo_os.Common.{
  ℕ, zero, suc, ◌+◌, ◌-◌, ◌*◌, ◌/◌, ◌%◌, ◌^◌, ◌≤◌, ◌<◌, min, ◌≡◌, refl, sym, ap, ◌∙◌, fun_ext, ◌≢◌,
  ◌↔◌, ◌⊎◌, inl, inr, Bool, true, false, not, ◌&&◌, ◌||◌, Option, none, some, List, [], ◌∷◌, ◌++◌,
  map, reverse, arith, ltb, leb, ◌==◌, if◌then◌else◌, Bool-cases, tests, lt→ltb, le→ltb, ltb→lt,
  leb→le, ltb→le, leb→lt, ==_iff, all_below, all_below_sound, length, get_elem?, set, take, drop,
  replicate, is_some, length-append, length-set, get_elem?-set_self, get_elem?-set_ne, u32_mod,
  add32, sub32,
}
use ipo_os.Memory.{Mem, get8, put8, load32, store32, fill, blit, zeros, Agree}
use ipo_os.Common.Action.{
  Act, pure, fail, and_then, ◌>>=◌, ◌>>◌, attempt, guard, asks, modify, lift,
}
use ipo_os.Fs.{
  Ata, Fs, Superblock, Fd, Inode, ipo_fs_block_size, ipo_fs_max_name, ipo_fs_direct_blocks,
  ipo_inode_type_dir, ipo_inode_type_file, ipo_inode_flag_protected, ipo_max_fds, inode_size,
  inodes_per_block, mode_of, size_of, links_of, direct_of, indirect_of, double_indirect_of,
  with_mode, with_size, with_links, with_direct, with_indirect, with_double_indirect, is_dir,
  is_protected, as_int,
}
use ipo_os.Fs.Block.{
  block_read_raw, block_read, block_write, IsDisk, content, written, block_read-content,
  block_write-written, content-written,
}
use Prim.Native.Nat.{bit_and, bit_or}

-- `(byte >> k) & 1`.
unfoldable pub test_bit : ℕ → ℕ → Bool
test_bit byte k = byte / 2 ^ k % 2 == 1

-- `byte |= 1 << k` and `byte &= ~(1 << k)` on a `uint8_t`.
unfoldable pub change_bit : ℕ → ℕ → Bool → ℕ
change_bit byte k true = bit_or byte (2 ^ k)
change_bit byte k false = bit_and byte (255 - 2 ^ k)

-- The block of a bitmap that holds bit `i`, and the bit's byte in it.
abbrev pub bit_block : ℕ → ℕ → ℕ
bit_block bitmap_start i = add32 bitmap_start (i / 8 / ipo_fs_block_size)

abbrev pub bit_byte : ℕ → ℕ
bit_byte i = i / 8 % ipo_fs_block_size

module _ {D : Type 0} (ata : Ata D) where
  unfoldable pub read_tries : ℕ → ℕ → Act (Fs D) Mem
  read_tries zero lba = fail
  read_tries (suc tries) lba = do
    got ← attempt (block_read ata lba)
    elim got [ some buf ↦ pure buf | none ↦ read_tries tries lba ]

  unfoldable pub write_tries : ℕ → ℕ → Mem → Act (Fs D) (Unit {0})
  write_tries zero lba buf = fail
  write_tries (suc tries) lba buf = do
    done ← attempt (block_write ata lba buf)
    elim done [ some _ ↦ pure tt | none ↦ write_tries tries lba buf ]

  -- A block that cannot be read counts as a clear bit.
  unfoldable pub bitmap_get : ℕ → ℕ → Act (Fs D) Bool
  bitmap_get bitmap_start bit_index = do
    got ← attempt (read_tries 5 (bit_block bitmap_start bit_index))
    elim got [
      | some buf ↦ pure (test_bit (get8 buf (bit_byte bit_index)) (bit_index % 8))
      | none ↦ pure false
    ]

  unfoldable pub bitmap_set : ℕ → ℕ → Bool → Act (Fs D) (Unit {0})
  bitmap_set bitmap_start bit_index value = do
    let lba = bit_block bitmap_start bit_index
    let at = bit_byte bit_index
    buf ← read_tries 5 lba
    write_tries 5 lba (put8 buf at (change_bit (get8 buf at) (bit_index % 8) value))
