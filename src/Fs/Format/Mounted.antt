-- ===== src/Fs/Format/Mounted.antt =====
-- A disk that was formatted can be mounted, and holds its first files then.
use ipo_os.Common.{
  arith, ℕ, ◌+◌, ◌*◌, ◌%◌, ◌^◌, ◌≤◌, ◌<◌, ◌≡◌, ◌≢◌, sym, ap, ◌∙◌, true, some, u32_mod,
}
use ipo_os.Memory.{Mem, zeros, get8, load32, blit}
use ipo_os.Fs.{Ata, Fs, Superblock, ipo_inode_type_dir, ipo_inode_type_file}
use ipo_os.Fs.Block.{sector_bytes, IsDisk, content}
use ipo_os.Fs.Layout.{IsLaidOut, InTable, data_blocks}
use ipo_os.Fs.Inode.{inode_offset}
use ipo_os.Fs.Inode.Table.{inode_at}
use ipo_os.Fs.File.Owned.{on, block}
use ipo_os.Fs.Dir.{Entry, inode_of, type_of, dir_find_entry, text}
use ipo_os.Fs.Format.{plan, ipo_fs_format, ipo_fs_mount, ipo_fs_magic_str, app, autorun}
use ipo_os.Fs.Format.Layout.{plan-IsPlan, plan-planned}
use ipo_os.Fs.Format.Room.{bitmap_blocks}
use ipo_os.Fs.Format.Laid.{plan-IsLaidOut}
use ipo_os.Fs.Format.Mount.{IsWords, IsSame, ipo_fs_mount-superblock}
use ipo_os.Fs.Format.Root.{IsRoot}
use ipo_os.Fs.Format.Entries.{root_entry, root-found}
use ipo_os.Fs.Format.Blank.{first_rows, first_entries, app_third, autorun_fourth}
use ipo_os.Fs.Format.Complete.{IsMade, one, data_here}
use ipo_os.Fs.Format.Made.{base, ipo_fs_format-IsMade}

-- Two states that agree but for what the superblock's magic looks like behind its eight bytes.
module _ {D : Type 0} (ata : Ata D) (disk : IsDisk ata) (u b : Fs D) (d : D)
    (same_disk : u.disk ≡ d) (same_start : u.fs_start_lba ≡ b.fs_start_lba)
    (same : IsSame u.sb b.sb) where
  IsLaidOut-same : IsLaidOut disk.sectors b → IsLaidOut disk.sectors u
  IsLaidOut-same h = record {
    super = omega (arith, same.inode_bitmap_start, h.super);
    inode_bits =
        omega
          (arith, same.inode_bitmap_start, same.inode_count, same.block_bitmap_start, h.inode_bits);
    block_bits = omega (
      arith, same.block_bitmap_start, same.fs_size_blocks, same.data_blocks_start,
      same.inode_table_start, h.block_bits,
    );
    table = omega (arith, same.inode_table_start, same.data_blocks_start, h.table);
    data_area = omega (arith, same.data_blocks_start, same.fs_size_blocks, h.data_area);
    addresses = omega (arith, same.fs_size_blocks, same_start, h.addresses);
  }

  InTable-same : (i : ℕ) → InTable b.sb i → InTable u.sb i
  InTable-same i here = record {
    positive = here.positive;
    known = omega (arith, same.inode_count, here.known);
    inside = omega (arith, same.inode_table_start, same.data_blocks_start, here.inside);
  }

  root_inode_same : inode_at ata disk u 1 ≡ inode_at ata disk (on ata disk b d) 1
  root_inode_same = λ i.
      blit zeros 0
        (sector_bytes (disk.sector (same_disk i) (same_start i + (same.inode_table_start i + 0))))
        (inode_offset 1) 76

  root_block_same :
      content ata disk u u.sb.data_blocks_start ≡ block ata disk b d b.sb.data_blocks_start
  root_block_same =
      λ i. sector_bytes (disk.sector (same_disk i) (same_start i + same.data_blocks_start i))

  module _ (h : IsLaidOut disk.sectors b) (h' : IsLaidOut disk.sectors u) (here : InTable b.sb 1)
      (here' : InTable u.sb 1) (some_data : b.sb.data_blocks_start < b.sb.fs_size_blocks)
      (some_data' : u.sb.data_blocks_start < u.sb.fs_size_blocks) (count : ℕ) (rows : Mem) where
    IsRoot-mounted :
        IsRoot ata disk b h here some_data count rows d
        → IsRoot ata disk u h' here' some_data' count rows u.disk
    IsRoot-mounted r = record {
      mode = ap (λ n. load32 n 0) root_inode_same ∙ r.mode;
      size = ap (λ n. load32 n 4) root_inode_same ∙ r.size;
      first = ap (λ n. load32 n 12) root_inode_same ∙ r.first ∙ sym same.data_blocks_start;
      holds = root_block_same ∙ r.holds;
    }

module _ (total_blocks total_inodes : ℕ) (sb : Superblock)
    (planned : plan total_blocks total_inodes ≡ some sb) (few : total_blocks < 2 ^ 31)
    (word : total_inodes * 76 + 511 < u32_mod) where
  plan-IsWords : IsWords sb
  plan-IsWords =
      let p = plan-IsPlan total_blocks total_inodes sb planned few word in
      record {
        fs_size_blocks = omega (arith, p.size);
        block_size = omega (
          arith,
          ap (λ (x : Superblock). x.block_size)
              (plan-planned total_blocks total_inodes sb planned).0,
        );
        inode_count = omega (arith, p.count);
        inode_bitmap_start = omega (arith, p.super);
        block_bitmap_start = omega (arith, p.tables, p.table, p.data_area);
        inode_table_start = omega (arith, p.table, p.data_area);
        data_blocks_start = omega (arith, p.data_area);
      }

-- The root directory of a mounted file system, with its first files.
pub record HasFiles {D : Type 0} (ata : Ata D) (u : Fs D) : Type 0 where
  pub app_entry : Entry
  pub app_found : dir_find_entry ata 1 app u ≡ (some app_entry, u)
  pub app_inode : inode_of app_entry ≡ 2
  pub app_type : type_of app_entry ≡ ipo_inode_type_dir
  pub autorun_entry : Entry
  pub autorun_found : dir_find_entry ata 1 autorun u ≡ (some autorun_entry, u)
  pub autorun_inode : inode_of autorun_entry ≡ 3
  pub autorun_type : type_of autorun_entry ≡ ipo_inode_type_file

module _ {D : Type 0} (ata : Ata D) (disk : IsDisk ata) where
  root-HasFiles :
      (u : Fs D) (h : IsLaidOut disk.sectors u) (here : InTable u.sb 1)
      (some_data : u.sb.data_blocks_start < u.sb.fs_size_blocks)
      → IsRoot ata disk u h here some_data 4 first_rows u.disk
      → HasFiles ata u
  root-HasFiles u h here some_data r =
      let (before, hit, number, kind) = app_third in
      let (found, found_number, found_kind) =
        root-found ata disk u h here some_data 4 first_rows u.disk (omega arith) r first_entries app
          2 (omega arith) before hit in
      let (before', hit', number', kind') = autorun_fourth in
      let (found', found_number', found_kind') =
        root-found ata disk u h here some_data 4 first_rows u.disk (omega arith) r first_entries
          autorun 3 (omega arith) before' hit' in
      record {
        app_entry =
            root_entry ata disk u h here some_data 4 first_rows u.disk (omega arith) r first_entries
              2;
        app_found = found;
        app_inode = found_number ∙ number;
        app_type = found_kind ∙ kind;
        autorun_entry =
            root_entry ata disk u h here some_data 4 first_rows u.disk (omega arith) r first_entries
              3;
        autorun_found = found';
        autorun_inode = found_number' ∙ number';
        autorun_type = found_kind' ∙ kind';
      }

  -- Mounting what `ipo_fs_format` leaves.
  mounted_files :
      (b : Fs D) (h : IsLaidOut disk.sectors b) (three : InTable b.sb 3)
      (some_data : b.sb.data_blocks_start + 2 ≤ b.sb.fs_size_blocks) (tail : Mem) (d : D)
      → IsMade ata disk b h three some_data tail d
      → b.fs_start_lba < disk.sectors
      → IsWords b.sb
      → ((i : ℕ) → i < 8 → get8 b.sb.magic i ≡ get8 (text ipo_fs_magic_str) i)
      → b.sb.block_size ≡ 512
      → (u : Fs D) × (ipo_fs_mount ata b.fs_start_lba (on ata disk b d) ≡ (some tt, u))
        × (u.fs_mounted ≡ true)
        × IsSame u.sb b.sb
        × IsLaidOut disk.sectors u
        × HasFiles ata u
  mounted_files b h three some_data tail d made low words magic size =
      let zero_block : b.fs_start_lba ≡ b.fs_start_lba + 0 = omega arith in
      let (u, mount, marked, start, same_disk, same) =
        ipo_fs_mount-superblock ata disk (on ata disk b d) b.fs_start_lba b.sb tail low
          (ap (λ k. sector_bytes (disk.sector d k)) zero_block ∙ made.super) words magic size in
      let laid_u = IsLaidOut-same ata disk u b d same_disk start same h in
      let here =
        InTable-same ata disk u b d same_disk start same 1 (one ata disk b h three some_data) in
      let data_u : u.sb.data_blocks_start < u.sb.fs_size_blocks =
        omega (arith, same.data_blocks_start, same.fs_size_blocks) in
      (
        u,
        mount,
        marked,
        same,
        laid_u,
        root-HasFiles u laid_u here data_u (
            IsRoot-mounted ata disk u b d same_disk start same h laid_u
              (one ata disk b h three some_data) here (data_here ata disk b h three some_data)
              data_u 4 first_rows made.making.root),
      )

-- On a disk in order, for a disk start and a size that fit the disk, at least three inodes
-- whose table's bytes fit a word, a plan that leaves two data blocks at least and does not leave one
-- more than the block bitmap has bits: `ipo_fs_format` succeeds, whatever was on the disk; `ipo_fs_mount`
-- then succeeds and marks the file system mounted, with the superblock that was planned and the areas
-- laid out; and in its root `dir_find_entry` finds the directory `app`, inode 2, and the file
-- `autorun`, inode 3.
pub ipo_fs_mount-ipo_fs_format :
    {D : Type 0} (ata : Ata D) (disk : IsDisk ata) (s : Fs D) (junk tail : Mem)
    (lba total_blocks total_inodes : ℕ) (sb : Superblock)
    → plan total_blocks total_inodes ≡ some sb
    → total_inodes * 76 + 511 < u32_mod
    → lba + total_blocks ≤ disk.sectors
    → 3 ≤ total_inodes
    → 2 ≤ data_blocks sb
    → (data_blocks sb + bitmap_blocks sb) % 4097 ≢ 1
    → (t u : Fs D) × (ipo_fs_format ata junk tail lba total_blocks total_inodes s ≡ (some tt, t))
      × (ipo_fs_mount ata lba t ≡ (some tt, u))
      × (u.fs_mounted ≡ true)
      × IsSame u.sb sb
      × IsLaidOut disk.sectors u
      × HasFiles ata u
ipo_fs_mount-ipo_fs_format ata disk s junk tail lba total_blocks total_inodes sb planned word low
      many room settled =
    let p = plan-IsPlan total_blocks total_inodes sb planned (omega arith) word in
    let b = base ata disk s junk tail lba total_blocks total_inodes sb planned in
    let (h, three) =
      plan-IsLaidOut disk.sectors total_blocks total_inodes b 3 planned word disk.sectors-le low
        settled (omega arith) many (omega (arith, p.bytes)) in
    let (d, made_eq, made) =
      ipo_fs_format-IsMade ata disk s junk tail lba total_blocks total_inodes sb planned h three
        (omega (arith, room)) in
    let (u, mounted, marked, same, laid_u, files) =
      mounted_files ata disk b h three (omega (arith, room)) tail d made
        (omega (arith, p.size, p.data_area))
        (plan-IsWords total_blocks total_inodes sb planned (omega arith) word)
        (λ i lt.
          ap (λ (x : Superblock). get8 x.magic i)
            (sym (plan-planned total_blocks total_inodes sb planned).0))
        (ap (λ (x : Superblock). x.block_size)
          (sym (plan-planned total_blocks total_inodes sb planned).0)) in
    (on ata disk b d, u, made_eq, mounted, marked, same, laid_u, files)
