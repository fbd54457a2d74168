-- ===== src/Fs/Format/Room.antt =====
-- Whether the block bitmap that `ipo_fs_format` plans has a bit for each data block. The loop that
-- settles its size stops after eight rounds, also where it goes to and fro between two sizes.
use ipo_os.Common.{
  ℕ, zero, suc, ◌+◌, ◌-◌, ◌*◌, ◌/◌, ◌%◌, ◌^◌, ◌≤◌, ◌<◌, ◌≡◌, ◌≢◌, refl, sym, ap, ◌∙◌, ◌⊎◌, inl, inr,
  false, some, arith, ◌==◌, Bool-cases, u32_mod, ==_iff,
}
use native.Mathlib.Decide.{ℕ_discrete}
use mathlib.Core.Path.{subst}
use ipo_os.Fs.Layout.{data_blocks}
use ipo_os.Fs.{Superblock}
use ipo_os.Fs.Format.{
  plan, settle, data_blocks_left, inode_bitmap_blocks, inode_table_blocks, blocks_for,
}
use ipo_os.Fs.Format.Layout.{plan-planned, IsPlan, plan-IsPlan, planned, settled, settle-le}

-- `blocks` blocks go to the block bitmap and the data.
module _ (total inode_bits table blocks : ℕ) (sum : 1 + inode_bits + table + blocks ≡ total)
    (few : total < 2 ^ 31) (some_blocks : 1 ≤ blocks) where
  -- The size of the bitmap that the data blocks beside `x` blocks of bitmap need.
  abbrev next : ℕ → ℕ
  next x = blocks_for (data_blocks_left total inode_bits x table) 4096

  next_lem : (x : ℕ) → x ≤ blocks → next x ≡ (blocks - x + 4095) / 4096
  unfolding data_blocks_left
  next_lem x le = omega arith

  abbrev settle_from : (iter x : ℕ) → ℕ
  settle_from iter x = settle iter total inode_bits x table

  -- `r` blocks of bitmap have a bit for all data blocks but one, or they are just enough.
  abbrev Near : ℕ → Type 0
  Near r = (blocks ≡ 4097 * r + 1) ⊎ ((4097 * r < blocks + 4097) × (blocks ≤ 4097 * r))

  Near-le : (r : ℕ) → Near r → r ≤ blocks
  Near-le r (inl e) = omega arith
  Near-le r (inr (a, b)) = omega arith

  Near-next : (r : ℕ) → Near r → Near (next r)
  Near-next r near =
      let le = Near-le r near in
      let size = next_lem r le in
      elim near [
        | inl e ↦ inr (omega (arith, size), omega (arith, size))
        | inr (low, high) ↦ elim (ℕ_discrete blocks (4097 * next r + 1)) [
          | yes short ↦ inl short
          | no other ↦ inr (omega (arith, size), omega (arith, size))
        ]
      ]

  Near-fixed : (x : ℕ) → x ≤ blocks → next x ≡ x → Near x
  Near-fixed x le e = inr (omega (arith, next_lem x le), omega (arith, next_lem x le))

  settle-next : (iter x : ℕ) → next x ≢ x → settle_from (suc iter) x ≡ settle_from iter (next x)
  unfolding settle
  settle-next iter x ne = let other : (next x == x) ≡ false = ground arith in rw other

  settle-turn :
      (iter x : ℕ) → x ≤ blocks → Near (settle_from iter (next x)) → Near (settle_from (suc iter) x)
  unfolding settle
  settle-turn iter x le rest = elim (Bool-cases (next x == x)) [
    | inl e ↦ rw e (Near-fixed x le ((==_iff (next x) x).0 e))
    | inr other ↦ rw other rest
  ]

  settle-Near : (iter x : ℕ) → Near x → Near (settle_from iter x)
  unfolding settle
  settle-Near zero x near = near
  settle-Near (suc iter) x near =
      settle-turn iter x (Near-le x near) (settle-Near iter (next x) (Near-next x near))

  -- Three rounds come near enough.
  settled-Near : Near (settle_from 8 1)
  settled-Near =
      let le1 : next 1 ≤ blocks = omega (arith, next_lem 1 some_blocks) in
      let le2 : next (next 1) ≤ blocks = omega (arith, next_lem (next 1) le1) in
      settle-turn 7 1 some_blocks (
        settle-turn 6 (next 1) le1 (
          settle-turn 5 (next (next 1)) le2 (settle-Near 5 (next (next (next 1))) (third le1 le2))))
    where
      third : next 1 ≤ blocks → next (next 1) ≤ blocks → Near (next (next (next 1)))
      third le1 le2 =
          let first = next_lem 1 some_blocks in
          let second = next_lem (next 1) le1 in
          let last = next_lem (next (next 1)) le2 in
          elim (ℕ_discrete blocks (4097 * next (next (next 1)) + 1)) [
            | yes short ↦ inl short
            | no other ↦
                inr (omega (arith, first, second, last), omega (arith, first, second, last))
          ]

  module _ (k : ℕ) (short : blocks ≡ 4097 * k + 1) (k_pos : 1 ≤ k) where
    -- Then the loop goes to and fro between `k` and `k + 1`.
    next_k : next k ≡ k + 1
    next_k = omega (arith, next_lem k (omega arith))

    next_above : (x : ℕ) → k < x → x ≤ k + 4096 → next x ≡ k
    next_above x low high = omega (arith, next_lem x (omega arith))

    settle_k : (iter : ℕ) → settle_from (suc (suc iter)) k ≡ settle_from iter k
    settle_k iter =
        settle-next (suc iter) k (λ e. omega (arith, next_k, e))
        ∙ settle-next iter (next k) (λ e. omega (arith, next_k, e, back))
        ∙ ap (settle_from iter) back
      where
        back : next (next k) ≡ k
        back = next_above (next k) (omega (arith, next_k)) (omega (arith, next_k))

    settled_k : settle_from 8 1 ≡ k
    unfolding settle
    settled_k = elim (ℕ_discrete 1 k) [
      | yes one ↦ ap (settle_from 8) one ∙ settle_k 6 ∙ settle_k 4 ∙ settle_k 2 ∙ settle_k 0
      | no many ↦
          settle-next 7 1 (λ e. omega (arith, start, e))
          ∙ settle-next 6 (next 1) (λ e. omega (arith, start, e, back))
          ∙ ap (settle_from 6) back
          ∙ settle_k 4
          ∙ settle_k 2
          ∙ settle_k 0
          ∙ stop
    ]
      where
        start : (k < next 1) × (next 1 ≤ k + 4096)
        start = (omega (arith, next_lem 1 some_blocks), omega (arith, next_lem 1 some_blocks))

        back : next (next 1) ≡ k
        back = next_above (next 1) start.0 start.1

        stop : settle_from 0 k ≡ k
        stop = refl

  room :
      (left : ℕ)
      → left + settle_from 8 1 ≡ blocks
      → 0 < left
      → ((blocks % 4097 ≡ 1) × (left ≡ 4096 * settle_from 8 1 + 1))
        ⊎ ((blocks % 4097 ≢ 1) × (left ≤ 4096 * settle_from 8 1))
  room left parts some_left = elim settled-Near [
    | inl e ↦ inl (omega (arith, e), omega (arith, e))
    | inr (low, high) ↦ elim (ℕ_discrete (blocks % 4097) 1) [
      | no other ↦ inr (other, omega arith)
      | yes one ↦ elim (ℕ_discrete (blocks / 4097) 0) [
        | yes none_whole ↦ absurd (omega arith)
        | no whole ↦
            let same = settled_k (blocks / 4097) (omega arith) (omega arith) in
            absurd (omega (arith, same))
      ]
    ]
  ]

-- The blocks of the block bitmap.
abbrev pub bitmap_blocks : Superblock → ℕ
bitmap_blocks sb = sb.inode_table_start - sb.block_bitmap_start

-- One data block more than the block bitmap has bits, or at most as many.
abbrev pub HasRoom : Superblock → Type 0
HasRoom sb =
    (((data_blocks sb + bitmap_blocks sb) % 4097 ≡ 1)
      × (data_blocks sb ≡ 4096 * bitmap_blocks sb + 1))
    ⊎ (((data_blocks sb + bitmap_blocks sb) % 4097 ≢ 1)
        × (data_blocks sb ≤ 4096 * bitmap_blocks sb))

planned-HasRoom :
    (total_blocks total_inodes : ℕ)
    → total_blocks < 2 ^ 31
    → IsPlan total_blocks total_inodes
        (planned total_blocks total_inodes (settled total_blocks total_inodes))
    → HasRoom (planned total_blocks total_inodes (settled total_blocks total_inodes))
unfolding inode_bitmap_blocks
planned-HasRoom total_blocks total_inodes few p =
    let sb = planned total_blocks total_inodes (settled total_blocks total_inodes) in
    let small : settled total_blocks total_inodes ≤ 2 ^ 20 = settle-le 8 _ _ 1 _ (omega arith) in
    let size : bitmap_blocks sb ≡ settled total_blocks total_inodes = omega (arith, small) in
    let parts : data_blocks sb + settled total_blocks total_inodes
        ≡ total_blocks - (1 + inode_bitmap_blocks total_inodes + inode_table_blocks total_inodes) =
      omega (arith, small, p.table, p.data_area) in
    subst
      (λ (r : ℕ).
        (((data_blocks sb + r) % 4097 ≡ 1) × (data_blocks sb ≡ 4096 * r + 1))
        ⊎ (((data_blocks sb + r) % 4097 ≢ 1) × (data_blocks sb ≤ 4096 * r)))
      (sym size)
      (subst
        (λ (c : ℕ).
          ((c % 4097 ≡ 1) × (data_blocks sb ≡ 4096 * settled total_blocks total_inodes + 1))
          ⊎ ((c % 4097 ≢ 1) × (data_blocks sb ≤ 4096 * settled total_blocks total_inodes)))
        (sym parts)
        (room total_blocks (inode_bitmap_blocks total_inodes) (inode_table_blocks total_inodes)
          (total_blocks - (1 + inode_bitmap_blocks total_inodes + inode_table_blocks total_inodes))
          (omega (arith, parts, p.data_area)) few (omega (arith, parts, p.data_area))
          (data_blocks sb) parts (omega (arith, p.data_area))))

-- For fewer than 2^31 blocks and an inode table whose bytes fit a word: `ipo_fs_format` plans a block
-- bitmap that has a bit for each data block, but for one class of sizes, those where the blocks of the
-- bitmap and the data together are one more than a multiple of 4097; there the bitmap is exactly one
-- bit short.
pub plan-HasRoom :
    (total_blocks total_inodes : ℕ) (sb : Superblock)
    → plan total_blocks total_inodes ≡ some sb
    → total_blocks < 2 ^ 31
    → total_inodes * 76 + 511 < u32_mod
    → HasRoom sb
plan-HasRoom total_blocks total_inodes sb e few word =
    let (same, _, _) = plan-planned total_blocks total_inodes sb e in
    subst HasRoom same (
      planned-HasRoom total_blocks total_inodes few (
        subst (IsPlan total_blocks total_inodes) (sym same)
          (plan-IsPlan total_blocks total_inodes sb e few word)))
