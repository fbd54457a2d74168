-- ===== src/Memory/Laws.antt =====
-- What a load reads behind a store.
use ipo_os.Common.{
  ℕ, ◌+◌, ◌-◌, ◌%◌, ◌≤◌, ◌<◌, ◌≡◌, ◌⊎◌, arith, leb, ltb, ◌==◌, if◌then◌else◌, ◌&&◌, u32_mod, refl,
  fun_ext, Bool, true, false,
}
use ipo_os.Memory.{Mem, get8, put8, load32, store32, fill, blit, cut, zeros, Agree}

module _ (m : Mem) (p : ℕ) where
  pub load32-store32 : (v : ℕ) → load32 (store32 m p v) p ≡ v % u32_mod
  unfolding load32 store32
  load32-store32 v = ground arith

  pub load32-store32_ne :
      (v q : ℕ) → (q + 4 ≤ p) ⊎ (p + 4 ≤ q) → load32 (store32 m p v) q ≡ load32 m q
  unfolding load32 store32
  load32-store32_ne v q h = ground arith

  pub get8-store32_ne : (v q : ℕ) → (q < p) ⊎ (p + 4 ≤ q) → get8 (store32 m p v) q ≡ get8 m q
  unfolding get8 store32
  get8-store32_ne v q h = ground arith

  pub load32-put8_ne : (v q : ℕ) → (q + 4 ≤ p) ⊎ (p < q) → load32 (put8 m p v) q ≡ load32 m q
  unfolding load32 put8
  load32-put8_ne v q h = ground arith

  pub get8-put8 : (v q : ℕ) → get8 (put8 m p v) q ≡ (if q == p then v % 256 else get8 m q)
  unfolding get8 put8
  get8-put8 v q = ground arith

  pub load32-fill_ne :
      (c n q : ℕ) → (q + 4 ≤ p) ⊎ (p + n ≤ q) → load32 (fill m p c n) q ≡ load32 m q
  unfolding load32 fill
  load32-fill_ne c n q h = ground arith

  pub get8-put8_ne : (v q : ℕ) → (q < p) ⊎ (p < q) → get8 (put8 m p v) q ≡ get8 m q
  unfolding get8 put8
  get8-put8_ne v q h = ground arith

  pub get8-put8_self : (v : ℕ) → get8 (put8 m p v) p ≡ v % 256
  unfolding get8 put8
  get8-put8_self v = ground arith

  pub get8-fill_ne : (c n q : ℕ) → (q < p) ⊎ (p + n ≤ q) → get8 (fill m p c n) q ≡ get8 m q
  unfolding get8 fill
  get8-fill_ne c n q h = ground arith

  pub get8-fill :
      (c n q : ℕ) → get8 (fill m p c n) q ≡ (if leb p q && ltb q (p + n) then c % 256 else get8 m q)
  unfolding get8 fill
  get8-fill c n q = ground arith

  pub get8-blit :
      (src : Mem) (s n q : ℕ)
      → get8 (blit m p src s n) q
        ≡ (if leb p q && ltb q (p + n) then get8 src (s + (q - p)) else get8 m q)
  unfolding get8 blit
  get8-blit src s n q = ground arith

  pub get8-blit_in :
      (src : Mem) (s n a : ℕ) → a < n → get8 (blit m p src s n) (p + a) ≡ get8 src (s + a)
  unfolding get8 blit
  get8-blit_in src s n a lt = ground arith

  pub get8-blit_ne :
      (src : Mem) (s n q : ℕ) → (q < p) ⊎ (p + n ≤ q) → get8 (blit m p src s n) q ≡ get8 m q
  unfolding get8 blit
  get8-blit_ne src s n q off = ground arith

  pub load32-lt : load32 m p < u32_mod
  unfolding load32
  load32-lt = omega arith

  pub get8-lt : get8 m p < 256
  unfolding get8
  get8-lt = omega arith

-- A load sees only the bytes that it reads.
pub load32-Agree :
    (m m' : Mem) (lo hi p : ℕ) → Agree m m' lo hi → lo ≤ p → p + 4 ≤ hi → load32 m' p ≡ load32 m p
unfolding load32
load32-Agree m m' lo hi p h low high = ground (
  arith,
  h p (omega arith) (omega arith),
  h (p + 1) (omega arith) (omega arith),
  h (p + 2) (omega arith) (omega arith),
  h (p + 3) (omega arith) (omega arith),
)

-- The bytes of a sector.
module _ (m : Mem) where
  pub get8-cut : (p : ℕ) → p < 512 → get8 (cut m) p ≡ get8 m p
  unfolding get8 cut
  get8-cut p lt = ground arith

  pub load32-cut : (p : ℕ) → p + 4 ≤ 512 → load32 (cut m) p ≡ load32 m p
  unfolding load32
  load32-cut p le =
      let a = get8-cut p (omega arith) in
      let b = get8-cut (p + 1) (omega arith) in
      let c = get8-cut (p + 2) (omega arith) in
      let d = get8-cut (p + 3) (omega arith) in rw (a, b, c, d) refl

pub cut-zeros : cut zeros ≡ zeros
unfolding cut
cut-zeros = fun_ext (λ a. ground arith)

pub cut_cell : (m : Mem) (a : ℕ) → a < 512 → cut m a ≡ m a % 256
unfolding cut
cut_cell m a lt = ground arith

pub low_byte : {n : ℕ} → n < 256 → n % 256 ≡ n
low_byte lt = omega arith

pub cut-lt : (m : Mem) (a : ℕ) → cut m a < 256
unfolding cut
cut-lt m a = ground arith

pub cut_if : (b : Bool) (m n : Mem) → cut (if b then m else n) ≡ (if b then cut m else cut n)
cut_if true m n = refl
cut_if false m n = refl
