-- ===== src/Fs/File/Placing.antt =====
-- `get_data_block_for_inode` for one of the six direct blocks, with and without allocation.
use ipo_os.Common.{
  ℕ, ◌+◌, ◌-◌, ◌*◌, ◌^◌, ◌≤◌, ◌<◌, ◌≡◌, ◌≢◌, refl, sym, ap, ◌∙◌, Bool, true, false, ◌⊎◌, inl, inr,
  Option, none, some, arith, ltb, ◌==◌, option_cases, u32_mod,
}
use ipo_os.Memory.Laws.{load32-store32, load32-store32_ne}
use native.Mathlib.Decide.{ℕ_discrete}
use mathlib.Core.Bool.{false≢true}
use ipo_os.Fs.{Ata, Fs, Inode, direct_of, size_of, with_direct}
use ipo_os.Fs.Block.{IsDisk}
use ipo_os.Fs.Layout.{IsLaidOut, data_blocks}
use ipo_os.Fs.Inode.Alloc.{
  first_clear, first_clear_sound, block_taken, IsTaken, block_taken-IsTaken,
  allocate_block-first_clear, first_clear_sound,
}
use ipo_os.Fs.DataBlock.{get_data_block_for_inode, direct_block, new_block}
use ipo_os.Fs.File.Owned.{on, block, taken, data_at, Owns, Stepped, Stepped-refl, laid}

pub direct-with_direct : (n : Inode) (b v : ℕ) → v < u32_mod → direct_of (with_direct n b v) b ≡ v
direct-with_direct n b v lt = load32-store32 n (12 + 4 * b) v ∙ omega arith

pub direct-with_direct_ne :
    (n : Inode) (b v k : ℕ) → k ≢ b → direct_of (with_direct n b v) k ≡ direct_of n k
direct-with_direct_ne n b v k ne = load32-store32_ne n (12 + 4 * b) v (12 + 4 * k) (ground arith)

pub size-with_direct : (n : Inode) (b v : ℕ) → size_of (with_direct n b v) ≡ size_of n
size-with_direct n b v = load32-store32_ne n (12 + 4 * b) v 4 (inl (omega arith))

module _ {D : Type 0} (ata : Ata D) where
  -- A block that is there is returned, and nothing changes.
  pub get_data_block-there :
      (b : ℕ) (alloc : Bool) (n : Inode) (t : Fs D)
      → b < 6
      → direct_of n b ≢ 0
      → direct_of n b < 2 ^ 28
      → get_data_block_for_inode ata b alloc (n, t) ≡ (some (direct_of n b), (n, t))
  unfolding get_data_block_for_inode direct_block
  get_data_block-there b alloc n t lt there small =
      let direct : ltb b 6 ≡ true = ground arith in
      let some_block : (direct_of n b == 0) ≡ false = ground arith in
      let fits : ltb (direct_of n b) 0x80000000 ≡ true = ground arith in
      rw (direct, some_block, fits) refl

  module _ (disk : IsDisk ata) (s : Fs D) (h : IsLaidOut disk.sectors s) where
    -- The disk behind the allocation of data block `k`.
    abbrev pub allocated : D → ℕ → D
    allocated d k = (block_taken ata disk (on ata disk s d) (laid ata disk s h d) k).disk

    -- The first data block that is free.
    abbrev pub free_at : D → Option ℕ
    free_at d = first_clear (taken ata disk s d) (data_blocks s.sb) 0

    abbrev pub placed : (b : ℕ) → Inode → D → Option ℕ → Option ℕ × (Inode × Fs D)
    placed b n d none = (none, (n, on ata disk s d))
    placed b n d (some k) = (
      some (data_at ata disk s k),
      (with_direct n b (data_at ata disk s k), on ata disk s (allocated d k)),
    )

    -- A block that is not there is allocated.
    pub get_data_block-placed :
        (b : ℕ) (n : Inode) (d : D)
        → b < 6
        → direct_of n b ≡ 0
        → get_data_block_for_inode ata b true (n, on ata disk s d) ≡ placed b n d (free_at d)
    unfolding get_data_block_for_inode direct_block new_block
    get_data_block-placed b n d lt missing =
        let direct : ltb b 6 ≡ true = ground arith in
        let no_block : (direct_of n b == 0) ≡ true = ground arith in
        let allocation =
          allocate_block-first_clear ata disk (on ata disk s d) (laid ata disk s h d) in
        elim (option_cases (free_at d)) [
          | inl e ↦ rw (direct, no_block, allocation, e)
          | inr (k, e) ↦ rw (direct, no_block, allocation, e)
        ]

    -- What a direct number is behind the allocation of block `b`.
    placed_cases :
        (b : ℕ) (n : Inode) (k j : ℕ)
        → data_at ata disk s k < u32_mod
        → ((j ≡ b) × (direct_of (with_direct n b (data_at ata disk s k)) j ≡ data_at ata disk s k))
          ⊎ ((j ≢ b) × (direct_of (with_direct n b (data_at ata disk s k)) j ≡ direct_of n j))
    placed_cases b n k j word = elim (ℕ_discrete j b) [
      | yes same ↦
          inl (same, ap (direct_of _) same ∙ direct-with_direct n b (data_at ata disk s k) word)
      | no other ↦ inr (other, direct-with_direct_ne n b (data_at ata disk s k) j other)
    ]

    -- A block that is taken stays taken, and it is not the one that was free.
    module _ (d : D) (k : ℕ) (found : free_at d ≡ some k) where
      abbrev fact :
          IsTaken ata disk
            (on ata disk s d)
            (laid ata disk s h d)
            k
            (block_taken ata disk (on ata disk s d) (laid ata disk s h d) k)
      fact = block_taken-IsTaken ata disk (on ata disk s d) (laid ata disk s h d) k found

      ne_free : (j : ℕ) → taken ata disk s d j ≡ true → j ≢ k
      ne_free j busy e = false≢true (sym fact.was_clear ∙ ap (taken ata disk s d) (sym e) ∙ busy)

      taken-allocated :
          (j : ℕ)
          → j < data_blocks s.sb
          → taken ata disk s d j ≡ true
          → taken ata disk s (allocated d k) j ≡ true
      taken-allocated j lt busy = fact.bits j lt ∙ ground (arith, ne_free j busy)

      taken-allocated_self : taken ata disk s (allocated d k) k ≡ true
      taken-allocated_self = fact.bits k fact.inside ∙ ground arith

      -- A data block that was taken keeps its content.
      block-allocated :
          (x : ℕ)
          → s.sb.data_blocks_start ≤ x
          → x < s.sb.fs_size_blocks
          → taken ata disk s d (x - s.sb.data_blocks_start) ≡ true
          → block ata disk s (allocated d k) x ≡ block ata disk s d x
      block-allocated x low high busy =
          fact.others x high (λ e. ne_free (x - s.sb.data_blocks_start) busy (omega arith))
            (omega (arith, fact.inside, h.block_bits, h.table))

      -- No block of the inode is the one that was free.
      direct-ne-data_at :
          (n : Inode) → Owns ata disk s n d → (j : ℕ) → j < 6 → direct_of n j ≢ data_at ata disk s k
      direct-ne-data_at n o j lt e =
          let there : direct_of n j ≢ 0 = λ z. omega (arith, e, z, h.table) in
          ne_free (direct_of n j - s.sb.data_blocks_start) (o.held j lt there) (omega (arith, e))

      -- The block that is allocated, as a step.
      pub allocated-Stepped :
          (b : ℕ) (n : Inode)
          → b < 6
          → direct_of n b ≡ 0
          → Owns ata disk s n d
          → Stepped ata disk s b n (with_direct n b (data_at ata disk s k)) d (allocated d k)
      allocated-Stepped b n lt missing o =
          let in_area : k < data_blocks s.sb = fact.inside in
          let word : data_at ata disk s k < u32_mod = omega (arith, in_area, h.addresses) in
          let cases = λ (j : ℕ). placed_cases b n k j word in
          record {
            owns = record {
              inside = λ j lt' ne. elim (cases j) [
                | inl (_, e) ↦ omega (arith, e, in_area)
                | inr (_, e) ↦ let (a, z) = o.inside j lt' (λ z. ne (e ∙ z)) in omega (arith, e)
              ];
              held = λ j lt' ne. elim (cases j) [
                | inl (_, e) ↦
                    let number : direct_of (with_direct n b (data_at ata disk s k)) j
                          - s.sb.data_blocks_start
                        ≡ k =
                      omega (arith, e) in
                    ap (taken ata disk s (allocated d k)) number ∙ taken-allocated_self
                | inr (_, e) ↦
                    let there : direct_of n j ≢ 0 = λ z. ne (e ∙ z) in
                    let (a, z) = o.inside j lt' there in
                    ap (λ x. taken ata disk s (allocated d k) (x - s.sb.data_blocks_start)) e
                    ∙ taken-allocated (direct_of n j - s.sb.data_blocks_start) (omega arith)
                        (o.held j lt' there)
              ];
              apart = λ i j li lj ne there same. elim (cases i) [
                | inl (is_b, e) ↦ elim (cases j) [
                  | inl (is_b', _) ↦ ne (is_b ∙ sym is_b')
                  | inr (_, e') ↦ direct-ne-data_at n o j lj (sym e' ∙ sym same ∙ e)
                ]
                | inr (_, e) ↦ elim (cases j) [
                  | inl (_, e') ↦ direct-ne-data_at n o i li (sym e ∙ same ∙ e')
                  | inr (_, e') ↦ o.apart i j li lj ne (λ z. there (e ∙ z)) (sym e ∙ same ∙ e')
                ]
              ];
            };
            there =
                λ z. omega (arith, z, direct-with_direct n b (data_at ata disk s k) word, h.table);
            own = λ j lt' other there.
                let (a, z) = o.inside j lt' there in
                (
                  direct-with_direct_ne n b (data_at ata disk s k) j other,
                  block-allocated (direct_of n j) a z (o.held j lt' there),
                );
            foreign = λ j f. (
              record {
                inside = f.inside;
                held = taken-allocated j f.inside f.held;
                other = λ i li same. elim (cases i) [
                  | inl (_, e) ↦ ne_free j f.held (omega (arith, e, same))
                  | inr (_, e) ↦ f.other i li (sym e ∙ same)
                ];
              },
              block-allocated (data_at ata disk s j) (omega arith) (omega (arith, f.inside))
                  (ap (taken ata disk s d) (omega arith) ∙ f.held),
            );
            same_size = size-with_direct n b (data_at ata disk s k);
            table = λ m low high.
                fact.others m (omega (arith, h.data_area)) (omega arith)
                  (omega (arith, in_area, h.block_bits, h.table));
          }

    -- With allocation: the call yields the block of the inode as it then is, or no data block is free.
    pub get_data_block_cases :
        (b : ℕ) (n : Inode) (d : D)
        → b < 6
        → Owns ata disk s n d
        → ((n' : Inode) × (d' : D) × (get_data_block_for_inode ata b true (n, on ata disk s d)
              ≡ (some (direct_of n' b), (n', on ata disk s d')))
            × Stepped ata disk s b n n' d d')
          ⊎ ((get_data_block_for_inode ata b true (n, on ata disk s d)
                ≡ (none, (n, on ata disk s d)))
              × (free_at d ≡ none))
    get_data_block_cases b n d lt o = elim (ℕ_discrete (direct_of n b) 0) [
      | no there ↦
          let (_, below) = o.inside b lt there in
          inl (
            n,
            d,
            get_data_block-there b true n (on ata disk s d) lt there
                (omega (arith, below, h.addresses)),
            Stepped-refl ata disk s b n d there o,
          )
      | yes missing ↦ elim (option_cases (free_at d)) [
        | inl full ↦ inr (get_data_block-placed b n d lt missing ∙ ap (placed b n d) full, full)
        | inr (k, e) ↦
            let step = allocated-Stepped d k e b n lt missing o in
            let inside = first_clear_sound _ (data_blocks s.sb) 0 k e in
            let here =
              direct-with_direct n b (data_at ata disk s k) (omega (arith, inside, h.addresses)) in
            inl (
              with_direct n b (data_at ata disk s k),
              allocated d k,
              get_data_block-placed b n d lt missing
                  ∙ ap (placed b n d) e
                  ∙ ap
                      (λ (x : ℕ). (
                        some x,
                        (with_direct n b (data_at ata disk s k), on ata disk s (allocated d k)),
                      ))
                      (sym here),
              step,
            )
      ]
    ]
