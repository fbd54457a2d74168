-- ===== src/Fs/Bitmap/Laws.antt =====
-- Bits behind a change, and bitmaps on a disk in order.
use ipo_os.Common.{
  ℕ, suc, ◌+◌, ◌/◌, ◌%◌, ◌<◌, ◌≡◌, refl, sym, ap, ◌∙◌, inl, inr, Bool, true, false, not, ◌&&◌, some,
  arith, ltb, ◌==◌, if◌then◌else◌, Bool-cases, ltb→lt, ==_iff, and_left, and_right, all_below,
  all_below_sound,
}
use ipo_os.Memory.{cut, Mem, get8, put8}
use ipo_os.Memory.Laws.{get8-cut, get8-put8_ne, get8-put8_self, get8-lt}
use ipo_os.Fs.{Ata, Fs}
use ipo_os.Fs.Block.{
  IsDisk, content, written, block_read-content, block_write-written, content-written,
}
use ipo_os.Fs.Bitmap.{
  test_bit, change_bit, bit_block, bit_byte, read_tries, write_tries, bitmap_get, bitmap_set,
}
use native.Mathlib.Decide.{ℕ_discrete}
use mathlib.Core.Path.{ap₂}
use mathlib.Core.Bool.{false≢true}

abbrev same : Bool → Bool → Bool
same true b = b
same false b = not b

same→eq : (a b : Bool) → same a b ≡ true → a ≡ b
same→eq a b h = ground arith

-- What every byte, bit and value meets.
abbrev bit_check : ℕ → ℕ → ℕ → Bool → Bool
bit_check k j b v =
    same (test_bit (change_bit b k v) j) (if k == j then v else test_bit b j)
    && ltb (change_bit b k v) 256

bit_table :
    (v : Bool) → all_below 8 (λ k. all_below 8 (λ j. all_below 256 (λ b. bit_check k j b v))) ≡ true
unfolding test_bit change_bit
bit_table true = refl
bit_table false = refl

bit_checked : (k j b : ℕ) (v : Bool) → k < 8 → j < 8 → b < 256 → bit_check k j b v ≡ true
unfolding test_bit change_bit
bit_checked k j b v hk hj hb =
    all_below_sound 256 (λ b. bit_check k j b v) b
      (all_below_sound 8 (λ j. all_below 256 (λ b. bit_check k j b v)) j
        (all_below_sound 8 (λ k. all_below 8 (λ j. all_below 256 (λ b. bit_check k j b v))) k
          (bit_table v) hk)
        hj)
      hb

test_bit-change_bit :
    (k j b : ℕ) (v : Bool)
    → k < 8
    → j < 8
    → b < 256
    → test_bit (change_bit b k v) j ≡ (if k == j then v else test_bit b j)
unfolding test_bit change_bit
test_bit-change_bit k j b v hk hj hb = same→eq _ _ (and_left _ _ (bit_checked k j b v hk hj hb))

change_bit-lt : (k b : ℕ) (v : Bool) → k < 8 → b < 256 → change_bit b k v < 256
unfolding change_bit
change_bit-lt k b v hk hb = ltb→lt _ _ (
    and_right (same (test_bit (change_bit b k v) k) (if k == k then v else test_bit b k)) _
      (bit_checked k k b v hk hk hb))

-- Two tests of numbers that are equal together.
eq_test : (a b c d : ℕ) → (a ≡ b → c ≡ d) → (c ≡ d → a ≡ b) → (a == b) ≡ (c == d)
eq_test a b c d f g = elim (Bool-cases (a == b)) [
  | inl e ↦ e ∙ sym ((==_iff c d).1 (f ((==_iff a b).0 e)))
  | inr n ↦ elim (Bool-cases (c == d)) [
    | inl e ↦ absurd (false≢true (sym n ∙ (==_iff a b).1 (g ((==_iff c d).0 e))))
    | inr m ↦ n ∙ sym m
  ]
]

-- Bit `i` of a block.
abbrev pub bit_in : Mem → ℕ → Bool
bit_in buf i = test_bit (get8 buf (bit_byte i)) (i % 8)

abbrev pub with_bit : Mem → ℕ → Bool → Mem
with_bit buf i v = put8 buf (bit_byte i) (change_bit (get8 buf (bit_byte i)) (i % 8) v)

bit_in-with_bit :
    (buf : Mem) (i j : ℕ) (v : Bool)
    → i / 4096 ≡ j / 4096
    → bit_in (with_bit buf i v) j ≡ (if i == j then v else bit_in buf j)
bit_in-with_bit buf i j v block = elim (Bool-cases (bit_byte i == bit_byte j)) [
  | inl e ↦
      let byte : bit_byte i ≡ bit_byte j = (==_iff _ _).0 e in
      let lt =
        change_bit-lt (i % 8) (get8 buf (bit_byte i)) v (omega arith) (get8-lt buf (bit_byte i)) in
      let stored : get8 (with_bit buf i v) (bit_byte j)
          ≡ change_bit (get8 buf (bit_byte i)) (i % 8) v =
        rw (← byte) (
          get8-put8_self buf (bit_byte i) (change_bit (get8 buf (bit_byte i)) (i % 8) v)
          ∙ omega arith) in
      ap (λ x. test_bit x (j % 8)) stored
      ∙ test_bit-change_bit (i % 8) (j % 8) (get8 buf (bit_byte i)) v (omega arith) (omega arith)
          (get8-lt buf (bit_byte i))
      ∙ ap₂ (λ (t : Bool) (x : ℕ). if t then v else test_bit x (j % 8))
          (eq_test (i % 8) (j % 8) i j (λ h. omega arith) (λ h. ap (λ (x : ℕ). x % 8) h))
          (ap (get8 buf) byte)
  | inr ne ↦
      let apart : i == j ≡ false = differ ne in
      rw apart (
        ap (λ x. test_bit x (j % 8))
          (get8-put8_ne buf (bit_byte i) (change_bit (get8 buf (bit_byte i)) (i % 8) v) (bit_byte j)
            (ground arith)))
]
  where
    differ : (bit_byte i == bit_byte j) ≡ false → (i == j) ≡ false
    differ ne = ground arith

module _ {D : Type 0} (ata : Ata D) (disk : IsDisk ata) where
  read_tries-content :
      (tries : ℕ) (s : Fs D) (i : ℕ)
      → s.fs_start_lba + i < disk.sectors
      → read_tries ata (suc tries) i s ≡ (some (content ata disk s i), s)
  unfolding read_tries
  read_tries-content tries s i low = rw (block_read-content ata disk s i low)

  write_tries-written :
      (tries : ℕ) (s : Fs D) (i : ℕ) (buf : Mem)
      → s.fs_start_lba + i < disk.sectors
      → write_tries ata (suc tries) i buf s ≡ (some tt, written ata disk s i buf)
  unfolding write_tries
  write_tries-written tries s i buf low = rw (block_write-written ata disk s i buf low)

  -- Bit `i` of the bitmap that begins at block `start`, as it stands on the disk.
  abbrev pub bit_of : Fs D → ℕ → ℕ → Bool
  bit_of s start i = bit_in (content ata disk s (start + i / 4096)) i

  -- The state with that bit changed.
  abbrev pub bit_set : Fs D → ℕ → ℕ → Bool → Fs D
  bit_set s start i v =
      written ata disk s (start + i / 4096) (with_bit (content ata disk s (start + i / 4096)) i v)

  module _ (s : Fs D) (start i : ℕ) (low : s.fs_start_lba + (start + i / 4096) < disk.sectors) where
    block_lem : bit_block start i ≡ start + i / 4096
    block_lem = omega arith

    -- `bitmap_get` returns the bit and leaves the state as it is.
    pub bitmap_get-bit_of : bitmap_get ata start i s ≡ (some (bit_of s start i), s)
    unfolding bitmap_get
    bitmap_get-bit_of = rw (block_lem, read_tries-content 4 s (start + i / 4096) low)

    pub bitmap_set-bit_set :
        (v : Bool) → bitmap_set ata start i v s ≡ (some tt, bit_set s start i v)
    unfolding bitmap_set
    bitmap_set-bit_set v =
        rw (block_lem, read_tries-content 4 s (start + i / 4096) low)
          (write_tries-written 4 s (start + i / 4096) _ low)

    pub bit_of-bit_set :
        (v : Bool) (j : ℕ)
        → s.fs_start_lba + (start + j / 4096) < disk.sectors
        → bit_of (bit_set s start i v) start j ≡ (if i == j then v else bit_of s start j)
    bit_of-bit_set v j low' = elim (ℕ_discrete (i / 4096) (j / 4096)) [
      | yes e ↦
          let one : (start + i / 4096 == start + j / 4096) ≡ true = ground arith in
          ap (λ b. bit_in b j)
            (content-written ata disk s (start + i / 4096) (start + j / 4096) _ low low'
              ∙ ap
                  (λ (t : Bool).
                    if t
                    then cut (with_bit (content ata disk s (start + i / 4096)) i v)
                    else content ata disk s (start + j / 4096))
                  one)
          ∙ ap (λ x. test_bit x (j % 8))
              (get8-cut (with_bit (content ata disk s (start + i / 4096)) i v) (bit_byte j)
                (omega arith))
          ∙ bit_in-with_bit (content ata disk s (start + i / 4096)) i j v e
          ∙ rw e refl
      | no n ↦
          let two : (start + i / 4096 == start + j / 4096) ≡ false = ground arith in
          let apart : (i == j) ≡ false = ground arith in
          rw apart (
            ap (λ b. bit_in b j)
              (content-written ata disk s (start + i / 4096) (start + j / 4096) _ low low'
                ∙ ap
                    (λ (t : Bool).
                      if t
                      then cut (with_bit (content ata disk s (start + i / 4096)) i v)
                      else content ata disk s (start + j / 4096))
                    two))
    ]

  -- On a disk in order `bitmap_set` succeeds, and `bitmap_get` of any bit of the bitmap then returns
  -- the value that was set if it is the same bit, and what it returned before if it is another.
  pub bitmap_get-bitmap_set :
      (s : Fs D) (start i j : ℕ) (v : Bool)
      → s.fs_start_lba + (start + i / 4096) < disk.sectors
      → s.fs_start_lba + (start + j / 4096) < disk.sectors
      → (t : Fs D) × (old : Bool) × (bitmap_set ata start i v s ≡ (some tt, t))
        × (bitmap_get ata start j s ≡ (some old, s))
        × (bitmap_get ata start j t ≡ (some (if i == j then v else old), t))
  bitmap_get-bitmap_set s start i j v low low' = (
    bit_set s start i v,
    bit_of s start j,
    bitmap_set-bit_set s start i low v,
    bitmap_get-bit_of s start j low',
    bitmap_get-bit_of (bit_set s start i v) start j low'
        ∙ ap (λ (b : Bool). (some b, bit_set s start i v)) (bit_of-bit_set s start i low v j low'),
  )
