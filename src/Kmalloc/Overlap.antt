-- ===== src/Kmalloc/Overlap.antt =====
-- Two ways in which `kmalloc` leaves the heap out of order, and the bytes that it hands out.
use ipo_os.Common.{
  ltb, ℕ, ◌+◌, ◌-◌, ◌*◌, ◌≤◌, ◌<◌, ◌≡◌, refl, ap, ◌∙◌, ◌≢◌, ◌⊎◌, inl, inr, false, Option, none,
  some, List, arith, ◌==◌, if◌then◌else◌, Bool-cases, u32_mod,
}
use ipo_os.Memory.{Mem, get8, put8, load32, store32, fill}
use ipo_os.Memory.Laws.{get8-store32_ne, get8-put8_ne, get8-fill_ne, get8-lt}
use ipo_os.Kmalloc.{
  State, kmalloc, kmalloc_magic, kmalloc_freed_magic, finish, block, null, out_of_fuel, Found,
}
use ipo_os.Kmalloc.Blocks.{Block, IsHeap, locate}
use ipo_os.Kmalloc.Scan.{find_free_block-locate}
use ipo_os.Kmalloc.Reserve.{taken, taken_split}

finish-zeroed :
    (f : Found) (size : ℕ) (s : State) (r : ℕ × State)
    → finish f size s ≡ some r
    → 0 < r.0
    → (a : ℕ) → r.0 ≤ a
    → a < r.0 + size
    → get8 r.1.mem a ≡ 0
unfolding finish get8 fill
finish-zeroed out_of_fuel size s r e pos a low high = cc
finish-zeroed null size s r e pos a low high = ground arith
finish-zeroed (block p) size s r e pos a low high = ground arith

-- Whatever the heap holds, the `size` bytes behind a pointer that `kmalloc` returns are 0.
pub kmalloc-zeroed :
    (size : ℕ) (s : State) (r : ℕ × State)
    → kmalloc size s ≡ some r
    → 0 < r.0
    → (a : ℕ) → r.0 ≤ a
    → a < r.0 + size
    → get8 r.1.mem a ≡ 0
unfolding kmalloc
kmalloc-zeroed size s r e pos a low high = elim (Bool-cases (size == 0)) [
  | inl nothing ↦
      let got : some (0, s) ≡ some r = rw nothing at e in absurd (omega (arith, ap first got))
  | inr some_bytes ↦ finish-zeroed _ size _ r (rw some_bytes at e) pos a low high
]
  where
    first : Option (ℕ × State) → ℕ
    first none = 0
    first (some x) = x.0

-- Two adjacent bytes that no magic has.
not_magic :
    (m : Mem) (n x y : ℕ)
    → get8 m n ≡ x
    → get8 m (n + 1) ≡ y
    → x < 256
    → y < 256
    → x + 256 * y ≢ 0xBEEF
    → x + 256 * y ≢ 0xC0DE
    → (load32 m n ≢ kmalloc_magic) × (load32 m n ≢ kmalloc_freed_magic)
unfolding load32
not_magic m n x y hx hy lx ly a b = (λ e. a (omega arith), λ e. b (omega arith))

-- A remainder of `r` bytes, whose header is written over the header behind it.
module _ (m : Mem) (q size r : ℕ) (e : load32 m q ≡ size + 12 + r) (pos : 0 < r)
    (word : q + size + 12 + r < u32_mod) where
  -- The last three bytes of the magic of the remainder, and its free flag.
  sliver_byte :
      (n : ℕ)
      → q + (size + 12) + 5 ≤ n
      → n ≤ q + (size + 12) + 8
      → get8 (taken m q size) n ≡ (
          if n == q + (size + 12) + 5
          then 0xBE
          else if n == q + (size + 12) + 6
          then 0xAD
          else if n == q + (size + 12) + 7
          then 0xDE
          else 1)
  unfolding get8 put8 store32
  sliver_byte n low high =
      ap (λ (x : Mem). get8 x n) (taken_split m q size _ e (omega arith) (omega arith))
      ∙ get8-fill_ne _ (q + 12) 0 size n (omega arith)
      ∙ get8-put8_ne (store32 remainder q (size + 12)) (q + 8) 0 n (omega arith)
      ∙ get8-store32_ne remainder q (size + 12) n (omega arith)
      ∙ ground arith
    where
      remainder : Mem
      remainder =
          put8
            (store32 (store32 m (q + (size + 12)) (size + 12 + r - (size + 12)))
              (q + (size + 12) + 4) kmalloc_magic)
            (q + (size + 12) + 8) 1

  sliver_magic :
      (r ≡ 1) ⊎ (r ≡ 2) ⊎ (r ≡ 3) ⊎ (r ≡ 4)
      → (load32 (taken m q size) (q + (size + 12 + r) + 4) ≢ kmalloc_magic)
        × (load32 (taken m q size) (q + (size + 12 + r) + 4) ≢ kmalloc_freed_magic)
  sliver_magic h =
      let n = q + (size + 12 + r) + 4 in
      let low = sliver_byte n (omega arith) (omega arith) in
      elim h [
        | inl one ↦
            not_magic _ n 0xBE 0xAD (low ∙ ground arith)
              (sliver_byte (n + 1) (omega arith) (omega arith) ∙ ground arith) (omega arith)
              (omega arith) (omega arith) (omega arith)
        | inr more ↦ elim more [
          | inl two ↦
              not_magic _ n 0xAD 0xDE (low ∙ ground arith)
                (sliver_byte (n + 1) (omega arith) (omega arith) ∙ ground arith) (omega arith)
                (omega arith) (omega arith) (omega arith)
          | inr rest ↦ elim rest [
            | inl three ↦
                not_magic _ n 0xDE 1 (low ∙ ground arith)
                  (sliver_byte (n + 1) (omega arith) (omega arith) ∙ ground arith) (omega arith)
                  (omega arith) (omega arith) (omega arith)
            | inr four ↦
                not_magic _ n 1 (get8 (taken m q size) (n + 1)) (low ∙ ground arith) refl
                  (omega arith) (get8-lt _ _) (omega arith) (omega arith)
          ]
        ]
      ]

-- When the block that first fit finds is 1 to 4 bytes larger than asked, `kmalloc` returns a pointer
-- to it and leaves, where the next header stands, a magic that is none of the two.
pub kmalloc_sliver :
    (s : State) (bs : List Block) (size q r : ℕ)
    → IsHeap s bs
    → 0 < size
    → s.heap_used + size + 12 < u32_mod
    → locate (size + 12) s.heap_start bs ≡ some q
    → load32 s.mem q ≡ size + 12 + r
    → (r ≡ 1) ⊎ (r ≡ 2) ⊎ (r ≡ 3) ⊎ (r ≡ 4)
    → q + size + 12 + r < u32_mod
    → (out : ℕ × State) × (kmalloc size s ≡ some out)
      × (out.0 ≡ q + 12)
      × (load32 out.1.mem (q + (size + 12 + r) + 4) ≢ kmalloc_magic)
      × (load32 out.1.mem (q + (size + 12 + r) + 4) ≢ kmalloc_freed_magic)
unfolding kmalloc finish
kmalloc_sliver s bs size q r h pos word at e few inside =
    let ready : (s.heap_start == 0) ≡ false = ground (arith, h.started) in
    let asked : (size == 0) ≡ false = ground arith in
    let (a, b) = sliver_magic s.mem q size r e (omega arith) inside few in
    let fits : ltb u32_mod (q + 12 + size) ≡ false = ground arith in
    rw (ready, asked, find_free_block-locate s bs size h (omega arith), at, fits)
      ((q + 12, record s { mem = taken s.mem q size }), refl, refl, a, b)
