-- ===== src/Fs/File/Rounds.antt =====
-- The rounds of the loops of `ipo_fs_read` and `ipo_fs_write`, for a range within the six direct
-- blocks: which bytes a round moves, and where in its block they stand.
use ipo_os.Common.{ℕ, suc, ◌+◌, ◌-◌, ◌*◌, ◌/◌, ◌%◌, ◌≤◌, ◌<◌, ◌≡◌, ◌≢◌, arith}
use ipo_os.Fs.File.{offset_in, chunk, rounds}

-- Before the round of block `b`: `moved` bytes are done, and `left` rounds are to go.
pub record Round (offset size left b moved : ℕ) : Type 0 where
  pub le : moved ≤ size
  pub from : offset / 512 ≤ b
  pub count : b + left ≡ (offset + size - 1) / 512 + 1
  pub at : 0 < left → 512 * b + offset_in offset b ≡ offset + moved
  pub done : left ≡ 0 → moved ≡ size

module _ (offset size : ℕ) (some_bytes : 0 < size) (direct : offset + size ≤ 3072) where
  pub Round-start : Round offset size (rounds offset size) (offset / 512) 0
  Round-start = ground arith

  module _ (left b moved : ℕ) (r : Round offset size (suc left) b moved) where
    pub block-lt : b < 6
    block-lt = omega (arith, r.count)

    pub chunk_fits : offset_in offset b + chunk offset size b moved ≤ 512
    chunk_fits = ground arith

    pub chunk_pos : 0 < chunk offset size b moved
    chunk_pos = ground (arith, r.le, r.from, r.count, r.at (omega arith))

    pub moved_fits : moved + chunk offset size b moved ≤ size
    moved_fits = ground (arith, r.le)

    pub Round-next : Round offset size left (b + 1) (moved + chunk offset size b moved)
    Round-next = ground (arith, r.le, r.from, r.count, r.at (omega arith))

    -- What is done stands in other blocks.
    pub other_block : (i : ℕ) → i < moved → (offset + i) / 512 ≢ b
    other_block i lt = ground (arith, r.le, r.from, r.at (omega arith))

    -- The bytes of this round stand in block `b`, from `offset_in` on.
    pub this_block :
        (i : ℕ)
        → moved ≤ i
        → i < moved + chunk offset size b moved
        → ((offset + i) / 512 ≡ b) × ((offset + i) % 512 ≡ offset_in offset b + (i - moved))
    this_block i low high = ground (arith, r.le, r.from, r.at (omega arith))
