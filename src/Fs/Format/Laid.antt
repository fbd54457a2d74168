-- ===== src/Fs/Format/Laid.antt =====
-- The disks that `ipo_fs_format` plans are laid out as the other operations need it.
use ipo_os.Common.{ℕ, ◌+◌, ◌*◌, ◌%◌, ◌^◌, ◌≤◌, ◌<◌, ◌≡◌, ◌≢◌, inl, inr, some, arith, u32_mod}
use ipo_os.Fs.{Fs}
use ipo_os.Fs.Layout.{IsLaidOut, InTable, data_blocks}
use ipo_os.Fs.Format.{plan, inode_table_blocks}
use ipo_os.Fs.Format.Layout.{plan-IsPlan}
use ipo_os.Fs.Format.Room.{bitmap_blocks, plan-HasRoom}

-- A plan that fits the disk and whose block bitmap is not one bit short has its areas
-- laid out, and holds the inodes for which the table has whole places.
pub plan-IsLaidOut :
    {D : Type 0} (sectors total_blocks total_inodes : ℕ) (s : Fs D) (i : ℕ)
    → plan total_blocks total_inodes ≡ some s.sb
    → total_inodes * 76 + 511 < u32_mod
    → sectors ≤ 2 ^ 28
    → s.fs_start_lba + total_blocks ≤ sectors
    → (data_blocks s.sb + bitmap_blocks s.sb) % 4097 ≢ 1
    → 0 < i
    → i ≤ total_inodes
    → i ≤ 6 * inode_table_blocks total_inodes
    → IsLaidOut sectors s × InTable s.sb i
plan-IsLaidOut sectors total_blocks total_inodes s i e word few low settled pos known inside =
    let p = plan-IsPlan total_blocks total_inodes s.sb e (omega arith) word in
    let room : data_blocks s.sb ≤ 4096 * bitmap_blocks s.sb =
      elim (plan-HasRoom total_blocks total_inodes s.sb e (omega arith) word) [
        | inl (short, _) ↦ absurd (settled short)
        | inr (_, enough) ↦ enough
      ] in
    (
      record {
        super = omega (arith, p.super);
        inode_bits = omega (arith, p.super, p.count, p.inode_bits);
        block_bits = omega (arith, p.size, p.data_area, p.tables, room);
        table = omega (arith, p.table);
        data_area = omega (arith, p.data_area, p.size);
        addresses = omega (arith, p.size);
      },
      record { positive = pos; known = omega (arith, p.count); inside = omega (arith, p.table) },
    )
