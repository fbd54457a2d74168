-- ===== src/Fs/Tests.antt =====
-- Runs of the file system on a drive behind the disk driver, and its theorems at concrete states.
use ipo_os.Driver.Ata.{
  ata_read_sectors_lba28, select, ata_io_wait, ata_wait_bsy_clear, bsy_rounds, read_sectors,
  ata_wait_drq, drq_rounds, read_words,
}
use ipo_os.Fs.Driven.{driven, driven-IsDisk}
use ipo_os.Common.{
  ℕ, ◌+◌, ◌-◌, ◌≤◌, ◌<◌, ◌≡◌, refl, Bool, true, false, Option, none, some, List, [], ◌∷◌, arith,
  ◌==◌, if◌then◌else◌, replicate, u32_mod,
}
use ipo_os.Memory.{cut, blit, Mem, get8, put8, load32, store32, fill, zeros}
use ipo_os.Fs.{Fs, Superblock, Inode, size_of}
use ipo_os.Fs.Block.{sector_bytes, block_read_raw, block_read}
use ipo_os.Fs.Layout.{IsLaidOut, InTable}
use ipo_os.Fs.Inode.{allocate_block, read_inode, write_inode, inode_block}
use ipo_os.Fs.Inode.Alloc.{
  allocate_block-first_clear, allocate_block-IsTaken, first_clear, block_taken, IsTaken,
}
use ipo_os.Fs.Inode.Table.{read_inode-inode_at, read_inode-write_inode}
use ipo_os.Fs.Bitmap.{bitmap_get, bitmap_set, test_bit}
use ipo_os.Fs.Bitmap.Laws.{bitmap_get-bitmap_set}
use ipo_os.Fs.Format.{superblock_bytes, ipo_fs_magic_str}
use ipo_os.Fs.Format.Kernel.{kernel_disk, kernel_plan}
use ipo_os.Fs.Format.Layout.{IsPlan, plan-IsPlan, inode_block-le-data}
use ipo_os.Fs.Path.{
  fs_canonicalize, canonical_tokens, next_token, skip_slashes, read_token, push_token, join_tokens,
}
use ipo_os.Fs.Listing.{ipo_fs_list_dir}
use ipo_os.Fs.Listing.Bounds.{Fits, ipo_fs_list_dir-Fits}
use ipo_os.Fs.Path.Rounds.{canonical_tokens-rounds}
use ipo_os.Fs.File.{ipo_fs_read, read_from, open_inode}
use ipo_os.Fs.File.Bounds.{ipo_fs_read-Within}
use ipo_os.Fs.DataBlock.{get_data_block_for_inode, direct_block}
use ipo_os.Fs.Dir.{text, Name, on_inode}

abbrev pub Disk : Type 0
Disk = ℕ → Mem

abbrev pub small : Superblock
small = record {
  magic = text ipo_fs_magic_str;
  fs_size_blocks = 15;
  block_size = 512;
  inode_count = 12;
  inode_bitmap_start = 1;
  block_bitmap_start = 2;
  inode_table_start = 3;
  data_blocks_start = 5;
}

-- The first three data blocks are taken.
abbrev pub mounted : Fs Disk
mounted = record {
  disk = λ k. if k == 102 then put8 zeros 0 7 else zeros;
  sb = small;
  fs_start_lba = 100;
  fs_mounted = true;
  fds = replicate 32 (record { used = false; inode = 0; offset = 0 });
}

pub mounted-IsLaidOut : IsLaidOut driven-IsDisk.sectors mounted
mounted-IsLaidOut = record {
  super = omega arith;
  inode_bits = omega arith;
  block_bits = omega arith;
  table = omega arith;
  data_area = omega arith;
  addresses = omega arith;
}

-- All twelve inodes lie in the table of two blocks.
pub in_table : (i : ℕ) → 0 < i → i ≤ 12 → InTable small i
in_table i pos le = record { positive = pos; known = le; inside = omega arith }

bitmap_get-bitmap_set_example :
    (t : Fs Disk) × (old : Bool) × (bitmap_set driven 2 9 true mounted ≡ (some tt, t))
    × (bitmap_get driven 2 1 mounted ≡ (some old, mounted))
    × (bitmap_get driven 2 1 t ≡ (some (if 9 == 1 then true else old), t))
bitmap_get-bitmap_set_example =
    bitmap_get-bitmap_set driven driven-IsDisk mounted 2 9 1 true (omega arith) (omega arith)

abbrev third : Fs Disk
third = block_taken driven driven-IsDisk mounted mounted-IsLaidOut 3

third_taken : allocate_block driven mounted ≡ (some 8, third)
unfolding first_clear test_bit get8 put8 blit cut
third_taken = allocate_block-first_clear driven driven-IsDisk mounted mounted-IsLaidOut

allocate_block-IsTaken_example :
    (5 ≤ 8) × IsTaken driven driven-IsDisk mounted mounted-IsLaidOut 3 third
allocate_block-IsTaken_example =
    allocate_block-IsTaken driven driven-IsDisk mounted mounted-IsLaidOut 8 third third_taken

read_inode-write_inode_example :
    (t : Fs Disk) × (old new : Inode) × (write_inode driven 7 (fill zeros 0 1 76) mounted
      ≡ (some tt, t))
    × (read_inode driven 8 mounted ≡ (some old, mounted))
    × (read_inode driven 8 t ≡ (some new, t))
    × ((a : ℕ) → a < 76 → get8 new a ≡ (if 7 == 8 then get8 (fill zeros 0 1 76) a else get8 old a))
read_inode-write_inode_example =
    read_inode-write_inode driven driven-IsDisk mounted 7 8 (fill zeros 0 1 76) mounted-IsLaidOut
      (in_table 7 (omega arith) (omega arith)) (in_table 8 (omega arith) (omega arith))

plan-IsPlan_example : IsPlan 10000 1024 kernel_disk
plan-IsPlan_example = plan-IsPlan 10000 1024 kernel_disk kernel_plan (omega arith) (omega arith)

inode_block-le-data_example : 157 ≤ inode_block kernel_disk 1024
inode_block-le-data_example =
    inode_block-le-data 10000 1024 kernel_disk kernel_plan (omega arith) (omega arith) (omega arith)

abbrev formatted : Fs Disk
formatted = record mounted { disk = λ k. superblock_bytes small zeros; fs_mounted = false }

-- A file of 5 bytes in block 8.
abbrev file_inode : Inode
file_inode = store32 (store32 (store32 zeros 0 2) 4 5) 12 8

abbrev with_file : Fs Disk
with_file = record mounted {
  disk = λ k. if k == 103 then blit zeros 76 file_inode 0 76 else fill zeros 0 65 512;
  fds = record { used = true; inode = 2; offset = 0 } ∷ [];
}

abbrev found_inode : Inode
found_inode = blit zeros 0 (sector_bytes (cut (blit zeros 76 file_inode 0 76))) 76 76

with_file-IsLaidOut : IsLaidOut driven-IsDisk.sectors with_file
with_file-IsLaidOut = record {
  super = omega arith;
  inode_bits = omega arith;
  block_bits = omega arith;
  table = omega arith;
  data_area = omega arith;
  addresses = omega arith;
}

file_opened : open_inode with_file.fds 0 ≡ some 2
unfolding open_inode
file_opened = refl

file_found : read_inode driven 2 with_file ≡ (some found_inode, with_file)
file_found =
    read_inode-inode_at driven driven-IsDisk with_file with_file-IsLaidOut 2
      (in_table 2 (omega arith) (omega arith))

ipo_fs_read-Within_example :
    (n : ℕ) × (b : Mem) × ((ipo_fs_read driven 0 zeros zeros 9 1 with_file).0 ≡ some (n, b))
    × (n ≤ 9)
    × (1 + 9 < u32_mod → n ≤ size_of found_inode - 1)
    × ((a : ℕ) → 9 ≤ a → get8 b a ≡ get8 zeros a)
ipo_fs_read-Within_example =
    ipo_fs_read-Within driven 0 zeros zeros 9 1 with_file 2 found_inode with_file file_opened
      file_found (omega arith) (omega arith)

-- What a read returns: the count and the first bytes.
outcome : Option (ℕ × Mem) → Option (List ℕ)
outcome none = none
outcome (some (n, b)) = some (n ∷ get8 b 0 ∷ get8 b 3 ∷ get8 b 4 ∷ [])

clipped_read :
    outcome (ipo_fs_read driven 0 zeros zeros 9 1 with_file).0 ≡ some (4 ∷ 65 ∷ 65 ∷ 0 ∷ [])
unfolding outcome ipo_fs_read read_from open_inode read_inode block_read block_read_raw on_inode
    get_data_block_for_inode direct_block get8 load32 store32 blit fill cut put8
    ata_read_sectors_lba28 select ata_io_wait ata_wait_bsy_clear bsy_rounds read_sectors
    ata_wait_drq drq_rounds read_words
clipped_read = refl

-- `/a/../b//c`.
abbrev dotted : Name
dotted = b'/' ∷ b'a' ∷ b'/' ∷ b'.' ∷ b'.' ∷ b'/' ∷ b'b' ∷ b'/' ∷ b'/' ∷ b'c' ∷ []

canonical_run : fs_canonicalize dotted 512 ≡ b'/' ∷ b'b' ∷ b'/' ∷ b'c' ∷ []
unfolding fs_canonicalize canonical_tokens next_token skip_slashes read_token push_token join_tokens
canonical_run = refl

canonical_tokens-rounds_example :
    (ts : List Name) × (canonical_tokens 20 dotted [] ≡ some ts)
    × (canonical_tokens 100 dotted [] ≡ some ts)
canonical_tokens-rounds_example =
    canonical_tokens-rounds 20 100 dotted [] (omega arith) (omega arith)

ipo_fs_list_dir-Fits_example : Fits 20 zeros (ipo_fs_list_dir driven (b'/' ∷ []) zeros 20 mounted).0
ipo_fs_list_dir-Fits_example =
    ipo_fs_list_dir-Fits driven (b'/' ∷ []) zeros 20 mounted (omega arith)
