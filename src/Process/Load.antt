-- ===== src/Process/Load.antt =====
-- `load_ipob_file`: what it owes to the heap and what it accepts.
use ipo_os.CString.Compare.{memcmp-zero}
use ipo_os.Common.{
  ap, ◌∙◌, ◌+◌, ◌<◌, option_cases, ℕ, zero, suc, ◌*◌, ◌≤◌, min, ◌≡◌, refl, Bool, true, false, not,
  ◌||◌, Option, none, some, List, [], ◌∷◌, inl, inr, leb, ltb, ◌==◌, if◌then◌else◌, Bool-cases,
  arith, sub32,
}
use ipo_os.Memory.{get8, Mem, load32}
use mathlib.Core.Path.{subst}
use ipo_os.CString.{memcmp}
use ipo_os.Fs.{Inode, size_of, is_dir}
use ipo_os.Fs.Dir.{Name}
use ipo_os.Process.Allocator.{Heap, IsCounted}
use ipo_os.Process.Owes.{Owes, nothing-Owes, kfree-Owes, null-Owes, kmalloc-Owes, set_mem-Owes}
use ipo_os.Process.{Files}
use ipo_os.Process.Image.{
  Loaded, failed, loaded, from, replaced, ipob_magic, is_zero, check_header, then_read, read_chunks,
  checked, read_image, load_inode, load_ipob_file, max_process_size, ipob_header_size,
}

-- A header that `load_ipob_file` accepts.
pub record IsHeader (size entry_offset image : ℕ) (m : Mem) : Type 0 where
  pub is_magic : (i : ℕ) → i < 8 → get8 m (image + i) ≡ get8 ipob_magic i
  pub entry : load32 m (image + 8) ≡ entry_offset
  pub inside : entry_offset < size

check_header-IsHeader :
    (image size e : ℕ) (m : Mem) → check_header image size m ≡ some e → IsHeader size e image m
unfolding check_header
check_header-IsHeader image size e m h =
    let (z, v, small) =
      accepted (is_zero (memcmp m image ipob_magic 0 8)) (leb size (load32 m (image + 8)))
        (load32 m (image + 8)) e h in
    record {
      is_magic =
          λ i lt. memcmp-zero m ipob_magic image 0 8 z i lt ∙ ap (get8 ipob_magic) (omega arith);
      entry = v;
      inside = ground (arith, v, small);
    }
  where
    accepted :
        (b c : Bool) (v e : ℕ)
        → (if not b then none else if c then none else some v) ≡ some e
        → (b ≡ true) × (v ≡ e) × (c ≡ false)
    accepted true true v e h = cc h
    accepted true false v e h = (refl, cc h, refl)
    accepted false c v e h = cc h

module _ {H F : Type 0} (heap : Heap H) (files : Files F) where
  then_read-le :
      (go : ℕ → H × F → Option ℕ × (H × F)) (size left image total_read t : ℕ) (h : H)
      (r : Option (ℕ × Mem) × F)
      → ((n : ℕ) (s : H × F) → size ≤ n + left → (go n s).0 ≡ some t → size ≤ t)
      → size ≤ total_read + suc left
      → (then_read heap files go image total_read h r).0 ≡ some t
      → size ≤ t
  unfolding then_read
  then_read-le go size left image total_read t h (none, f) ih enough e = cc e
  then_read-le go size left image total_read t h (some (n, buffer), f) ih enough e =
      more ((n == 0) || leb 0x80000000 n) refl e
    where
      h' : H
      h' = heap.set_mem (replaced (heap.mem h) (image + total_read) buffer) h

      more :
          (c : Bool)
          → c ≡ ((n == 0) || leb 0x80000000 n)
          → (elim c as (λ _. Option ℕ × (H × F)) [
            | true ↦ (none, (h', f))
            | false ↦ go (total_read + n) (h', f)
          ]).0
            ≡ some t
          → size ≤ t
      more true c e = cc e
      more false c e =
          let some_bytes : 0 < n = ground arith in ih (total_read + n) (h', f) (omega arith) e

  -- The loop over the chunks ends within as many rounds as bytes are left to read: where it ends
  -- without an error, no fewer bytes than the file has were read.
  pub read_chunks-le :
      (left fd size image total_read t : ℕ) (s : H × F)
      → size ≤ total_read + left
      → (read_chunks heap files left fd size image total_read s).0 ≡ some t
      → size ≤ t
  unfolding read_chunks
  read_chunks-le zero fd size image total_read t s enough e =
      let same : total_read ≡ t = cc e in omega arith
  read_chunks-le (suc left) fd size image total_read t s enough e =
      more _ (leb size total_read) refl
        (then_read-le (read_chunks heap files left fd size image) size left image total_read t s.0
          (files.read fd (from (heap.mem s.0) (image + total_read))
            (min (sub32 size total_read) (64 * 1024)) total_read s.1)
          (λ n s'. read_chunks-le left fd size image n t s') enough)
        e
    where
      more :
          (r : Option ℕ × (H × F)) (b : Bool)
          → b ≡ leb size total_read
          → (r.0 ≡ some t → size ≤ t)
          → (elim b as (λ _. Option ℕ × (H × F)) [ true ↦ (some total_read, s) | false ↦ r ]).0
            ≡ some t
          → size ≤ t
      more r true b rest e = let same : total_read ≡ t = cc e in ground arith
      more r false b rest e = rest e

  module _ (calls : IsCounted heap) where
    then_read-Owes :
        (go : ℕ → H × F → Option ℕ × (H × F)) (image total_read : ℕ) (h₀ : H) (xs : List ℕ) (h : H)
        (r : Option (ℕ × Mem) × F)
        → ((n : ℕ) (s : H × F) → Owes heap calls xs h₀ s.0 → Owes heap calls xs h₀ (go n s).1.0)
        → Owes heap calls xs h₀ h
        → Owes heap calls xs h₀ (then_read heap files go image total_read h r).1.0
    unfolding then_read
    then_read-Owes go image total_read h₀ xs h (none, f) ih owes = owes
    then_read-Owes go image total_read h₀ xs h (some (n, buffer), f) ih owes =
        let m = replaced (heap.mem h) (image + total_read) buffer in
        let owes' = set_mem-Owes heap calls m xs owes in
        elim (Bool-cases ((n == 0) || leb 0x80000000 n)) [
          | inl e ↦ rw (then_read, e) owes'
          | inr e ↦ rw (then_read, e) (ih (total_read + n) (heap.set_mem m h, f) owes')
        ]

    read_chunks-Owes :
        (left fd size image total_read : ℕ) (h₀ : H) (xs : List ℕ) (s : H × F)
        → Owes heap calls xs h₀ s.0
        → Owes heap calls xs h₀ (read_chunks heap files left fd size image total_read s).1.0
    unfolding read_chunks
    read_chunks-Owes zero fd size image total_read h₀ xs s owes = owes
    read_chunks-Owes (suc left) fd size image total_read h₀ xs s owes =
        let rest =
          then_read-Owes (read_chunks heap files left fd size image) image total_read h₀ xs s.0
            (files.read fd (from (heap.mem s.0) (image + total_read))
              (min (sub32 size total_read) (64 * 1024)) total_read s.1)
            (λ n s'. read_chunks-Owes left fd size image n h₀ xs s') owes in
        elim (Bool-cases (leb size total_read)) [
          | inl e ↦ rw (read_chunks, e) owes
          | inr e ↦ rw (read_chunks, e) rest
        ]

    -- A load that fails owes nothing, one that succeeds the image.
    abbrev pub LoadOwes : H → Loaded × (H × F) → Type 0
    LoadOwes h₀ (failed code, (h, f)) = Owes heap calls [] h₀ h
    LoadOwes h₀ (loaded size entry_offset image, (h, f)) = Owes heap calls (image ∷ []) h₀ h

    checked-Owes :
        (size image : ℕ) (h₀ : H) (r : Option ℕ × (H × F))
        → Owes heap calls (image ∷ []) h₀ r.1.0
        → LoadOwes h₀ (checked heap files size image r)
    unfolding checked
    checked-Owes size image h₀ (none, (h, f)) owes = kfree-Owes heap calls image [] owes
    checked-Owes size image h₀ (some n, (h, f)) owes =
        elim (option_cases (check_header image size (heap.mem h))) [
          | inl e ↦ rw (checked, e) (kfree-Owes heap calls image [] owes)
          | inr (v, e) ↦ rw (checked, e) owes
        ]

    read_image-Owes :
        (path : Name) (size image : ℕ) (h₀ : H) (s : H × F)
        → Owes heap calls (image ∷ []) h₀ s.0
        → LoadOwes h₀ (read_image heap files path size image s)
    unfolding read_image
    read_image-Owes path size image h₀ (h, f) owes =
        elim (option_cases (files.open_file path f).0) [
          | inl e ↦ rw (read_image, e) (kfree-Owes heap calls image [] owes)
          | inr (fd, e) ↦
              rw (read_image, e)
                (checked-Owes size image h₀ _ (
                  read_chunks-Owes size fd size image 0 h₀ (image ∷ [])
                    (h, (files.open_file path f).1) owes))
        ]

    load_inode-Owes :
        (path : Name) (inode : Inode) (s : H × F)
        → LoadOwes s.0 (load_inode heap files path inode s)
    unfolding load_inode
    load_inode-Owes path inode (h, f) =
        let size = size_of inode in
        elim (Bool-cases (is_dir inode || ltb size ipob_header_size || ltb max_process_size size)) [
          | inl bad ↦ rw (load_inode, bad) (nothing-Owes heap calls h)
          | inr good ↦ elim (Bool-cases ((heap.kmalloc size h).0 == 0)) [
            | inl e ↦
                rw (load_inode, good, e)
                  (null-Owes heap calls size [] e (nothing-Owes heap calls h))
            | inr e ↦
                rw (load_inode, good, e)
                  (read_image-Owes path size (heap.kmalloc size h).0 h ((heap.kmalloc size h).1, f)
                    (kmalloc-Owes heap calls size [] e (nothing-Owes heap calls h)))
          ]
        ]

    pub load_ipob_file-Owes :
        (path : Name) (s : H × F) → LoadOwes s.0 (load_ipob_file heap files path s)
    unfolding load_ipob_file
    load_ipob_file-Owes path (h, f) = elim (option_cases (files.stat path f).0) [
      | inl e ↦ rw (load_ipob_file, e) (nothing-Owes heap calls h)
      | inr (inode, e) ↦
          rw (load_ipob_file, e) (load_inode-Owes path inode (h, (files.stat path f).1))
    ]

  -- What a load that succeeds has checked.
  abbrev pub LoadChecks : Loaded × (H × F) → Type 0
  LoadChecks (failed code, s) = Unit {0}
  LoadChecks (loaded size entry_offset image, (h, f)) =
      (20 ≤ size) × (size ≤ 536870912) × IsHeader size entry_offset image (heap.mem h)

  checked-Checks :
      (size image : ℕ) (r : Option ℕ × (H × F))
      → 20 ≤ size
      → size ≤ 536870912
      → LoadChecks (checked heap files size image r)
  unfolding checked
  checked-Checks size image (none, (h, f)) low high = tt
  checked-Checks size image (some n, (h, f)) low high =
      elim (option_cases (check_header image size (heap.mem h))) [
        | inl e ↦ rw (checked, e) tt
        | inr (v, e) ↦
            rw (checked, e) (low, high, check_header-IsHeader image size v (heap.mem h) e)
      ]

  read_image-Checks :
      (path : Name) (size image : ℕ) (s : H × F)
      → 20 ≤ size
      → size ≤ 536870912
      → LoadChecks (read_image heap files path size image s)
  unfolding read_image
  read_image-Checks path size image (h, f) low high =
      elim (option_cases (files.open_file path f).0) [
        | inl e ↦ rw (read_image, e) tt
        | inr (fd, e) ↦ rw (read_image, e) (checked-Checks size image _ low high)
      ]

  load_inode-Checks :
      (path : Name) (inode : Inode) (s : H × F) → LoadChecks (load_inode heap files path inode s)
  unfolding load_inode
  load_inode-Checks path inode (h, f) =
      let size = size_of inode in
      elim (Bool-cases (is_dir inode || ltb size ipob_header_size || ltb max_process_size size)) [
        | inl bad ↦ rw (load_inode, bad) tt
        | inr good ↦ elim (Bool-cases ((heap.kmalloc size h).0 == 0)) [
          | inl e ↦ rw (load_inode, good, e) tt
          | inr e ↦
              rw (load_inode, good, e)
                (read_image-Checks path size (heap.kmalloc size h).0 ((heap.kmalloc size h).1, f)
                  (ground arith) (ground arith))
        ]
      ]

  load_ipob_file-LoadChecks :
      (path : Name) (s : H × F) → LoadChecks (load_ipob_file heap files path s)
  unfolding load_ipob_file
  load_ipob_file-LoadChecks path (h, f) = elim (option_cases (files.stat path f).0) [
    | inl e ↦ rw (load_ipob_file, e) tt
    | inr (inode, e) ↦
        rw (load_ipob_file, e) (load_inode-Checks path inode (h, (files.stat path f).1))
  ]

  -- Where `load_ipob_file` succeeds, the size is from 20 bytes to 512 MB, the image begins with the
  -- magic of a program, and the entry offset that it returns is the one in the header and lies inside
  -- the image.
  pub load_ipob_file-IsHeader :
      (path : Name) (s : H × F) (size entry_offset image : ℕ)
      → (load_ipob_file heap files path s).0 ≡ loaded size entry_offset image
      → (20 ≤ size)
        × (size ≤ 536870912)
        × IsHeader size entry_offset image (heap.mem (load_ipob_file heap files path s).1.0)
  load_ipob_file-IsHeader path s size entry_offset image e =
      transfer (load_ipob_file heap files path s) (load_ipob_file-LoadChecks path s) e
    where
      transfer :
          (r : Loaded × (H × F))
          → LoadChecks r
          → r.0 ≡ loaded size entry_offset image
          → (20 ≤ size) × (size ≤ 536870912) × IsHeader size entry_offset image (heap.mem r.1.0)
      transfer (failed code, s) checks e = cc e
      transfer (loaded n o i, (h, f)) checks e =
          let a : n ≡ size = cc e in
          let b : o ≡ entry_offset = cc e in
          let c : i ≡ image = cc e in
          subst (λ n'. (20 ≤ n') × (n' ≤ 536870912) × IsHeader n' entry_offset image (heap.mem h)) a
            (subst (λ o'. (20 ≤ n) × (n ≤ 536870912) × IsHeader n o' image (heap.mem h)) b
              (subst (λ i'. (20 ≤ n) × (n ≤ 536870912) × IsHeader n o i' (heap.mem h)) c checks))
