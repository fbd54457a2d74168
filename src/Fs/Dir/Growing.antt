-- ===== src/Fs/Dir/Growing.antt =====
-- A directory to which an entry was added can take the next one.
use ipo_os.Common.{arith, ℕ, ◌+◌, ◌*◌, ◌/◌, ◌%◌, ◌≤◌, ◌<◌, ◌≡◌, ◌≢◌, sym, ap, ◌∙◌, length}
use native.Mathlib.Decide.{ℕ_discrete}
use mathlib.Core.Path.{subst}
use ipo_os.Fs.{Ata, Fs, Inode, direct_of}
use ipo_os.Fs.Block.{IsDisk}
use ipo_os.Fs.Inode.Table.{inode_at}
use ipo_os.Fs.Dir.{Name}
use ipo_os.Fs.Dir.Lookup.{row_block, row_place}
use ipo_os.Fs.Dir.Naming.{IsEntry-cut, IsEntry, IsEntry-Agree, put_entry-IsEntry}
use ipo_os.Fs.Dir.Added.{CanGrow}
use ipo_os.Fs.Dir.Grown.{place, behind, row-Agree, direct-behind, row-added, IsDirectory-behind}

module _ {D : Type 0} (ata : Ata D) (disk : IsDisk ata) (s : Fs D) (i count : ℕ)
    (g : CanGrow ata disk s i count) (name : Name) (inode_no type : ℕ) where
  abbrev after : Fs D
  after = behind ata disk s i count g name inode_no type

  abbrev old : Inode
  old = inode_at ata disk s i

  entries-behind :
      (1 ≤ length name) × (length name < 64)
      → (j : ℕ) → j < count + 1
      → IsEntry (row_block ata disk after (inode_at ata disk after i) j) (row_place ata disk j)
  entries-behind (filled, short) j lt = elim (ℕ_discrete j count) [
    | no older ↦
        IsEntry-Agree (row_block ata disk s old j) _ (row_place ata disk j)
          (row-Agree ata disk s i count g name inode_no type j (omega arith) short)
          (g.entries j (omega arith))
    | yes newest ↦
        subst
          (λ k.
            IsEntry (row_block ata disk after (inode_at ata disk after i) k) (row_place ata disk k))
          (sym newest)
          (subst (λ m. IsEntry m (count % 7 * 72))
            (sym (row-added ata disk s i count g name inode_no type))
            (IsEntry-cut _ (count % 7 * 72) (omega arith)
              (put_entry-IsEntry _ (count % 7 * 72) name inode_no type short filled)))
  ]

  -- While its last block has room, the directory can take the next entry as it took this one.
  pub CanGrow-behind :
      (1 ≤ length name) × (length name < 64) → count % 7 ≢ 6 → CanGrow ata disk after i (count + 1)
  CanGrow-behind sized room =
      let block : (count + 1) / 7 ≡ count / 7 = omega arith in
      let direct : (j : ℕ)
          → j ≤ count + 1
          → direct_of (inode_at ata disk after i) (j / 7) ≡ direct_of old (j / 7) =
        λ j le.
          direct-behind ata disk s i count g name inode_no type (j / 7)
            (omega (arith, g.row.few)) in
      let last : direct_of old ((count + 1) / 7) ≡ place ata disk s i count g name inode_no type =
        ap (direct_of old) block in
      record {
        directory = IsDirectory-behind ata disk s i count g name inode_no type;
        row = record {
          few = omega (arith, g.row.few);
          there = λ j lt e.
              upto j lt (λ k. direct_of old k ≢ 0) (λ k below. g.row.there k below)
                (sym (direct j (omega arith)) ∙ e);
          inside = λ j lt.
              subst (λ x. x < s.sb.fs_size_blocks) (sym (direct j (omega arith)))
                (upto j lt (λ k. direct_of old k < s.sb.fs_size_blocks) g.row.inside);
        };
        above = λ j le.
            subst (λ x. s.sb.data_blocks_start ≤ x) (sym (direct j le))
              (upto j (omega arith) (λ k. s.sb.data_blocks_start ≤ direct_of old k)
                (λ k below. g.above k (omega arith)));
        apart = λ j le other e. elim (ℕ_discrete j (count + 1)) [
          | yes end ↦ other (ap (λ k. k / 7) end)
          | no older ↦
              g.apart j (omega arith) (λ same. other (same ∙ sym block))
                (sym (direct j le) ∙ e ∙ direct (count + 1) (omega arith) ∙ last)
        ];
        entries = entries-behind sized;
      }
    where
      upto :
          (j : ℕ)
          → j < count + 1 + 1
          → (P : ℕ → Type 0) → ((k : ℕ) → k < count + 1 → P (k / 7))
          → P (j / 7)
      upto j lt P all = elim (ℕ_discrete j (count + 1)) [
        | no older ↦ all j (omega arith)
        | yes end ↦
            subst P (ap (λ k. k / 7) (sym end)) (subst P (omega arith) (all count (omega arith)))
      ]
