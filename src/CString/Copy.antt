-- ===== src/CString/Copy.antt =====
-- `memset` and `memcpy` of string.c against the region they write.
use ipo_os.Common.{
  ℕ, zero, suc, ◌+◌, ◌-◌, ◌≤◌, ◌<◌, ◌≡◌, refl, sym, ap, ◌∙◌, ◌⊎◌, inl, inr, ◌&&◌, arith, ltb, leb,
  Bool-cases,
}
use ipo_os.Memory.{Mem, get8, put8, fill, blit}
use ipo_os.Memory.Laws.{get8-put8_ne, get8-put8_self, get8-blit_in, get8-blit_ne, get8-lt}
use ipo_os.CString.{memset, memcpy}

-- `memset` sets the `n` bytes from `s` on and no other; the other parts use `fill` for it.
pub memset-fill : (m : Mem) (s c n a : ℕ) → get8 (memset m s c n) a ≡ get8 (fill m s c n) a
unfolding memset fill get8 put8
memset-fill m s c zero a = ground arith
memset-fill m s c (suc n) a = memset-fill (put8 m s c) (s + 1) c n a ∙ ground arith

memcpy_ne : (m : Mem) (d s n a : ℕ) → (a < d) ⊎ (d + n ≤ a) → get8 (memcpy m d s n) a ≡ get8 m a
unfolding memcpy
memcpy_ne m d s zero a out = refl
memcpy_ne m d s (suc n) a out =
    memcpy_ne (put8 m d (get8 m s)) (d + 1) (s + 1) n a (farther out)
    ∙ get8-put8_ne m d (get8 m s) a (omega arith)
  where
    farther : (a < d) ⊎ (d + suc n ≤ a) → (a < d + 1) ⊎ (d + 1 + n ≤ a)
    farther (inl h) = inl (omega arith)
    farther (inr h) = inr (omega arith)

memcpy_in :
    (m : Mem) (d s n i : ℕ)
    → (d + n ≤ s) ⊎ (s + n ≤ d)
    → i < n
    → get8 (memcpy m d s n) (d + i) ≡ get8 m (s + i)
unfolding memcpy
memcpy_in m d s zero i apart lt = absurd (omega arith)
memcpy_in m d s (suc n) zero apart lt =
    let first : get8 (put8 m d (get8 m s)) d ≡ get8 m s =
      get8-put8_self m d (get8 m s) ∙ omega (arith, get8-lt m s) in
    let at : d + 0 ≡ d = omega arith in
    memcpy_ne (put8 m d (get8 m s)) (d + 1) (s + 1) n (d + 0) (inl (omega arith))
    ∙ ap (get8 (put8 m d (get8 m s))) at
    ∙ first
    ∙ ap (get8 m) (omega arith)
memcpy_in m d s (suc n) (suc i) apart lt =
    ap (get8 (memcpy (put8 m d (get8 m s)) (d + 1) (s + 1) n)) (omega arith)
    ∙ memcpy_in (put8 m d (get8 m s)) (d + 1) (s + 1) n i (still apart) (omega arith)
    ∙ get8-put8_ne m d (get8 m s) (s + 1 + i) (omega arith)
    ∙ ap (get8 m) (omega arith)
  where
    still : (d + suc n ≤ s) ⊎ (s + suc n ≤ d) → (d + 1 + n ≤ s + 1) ⊎ (s + 1 + n ≤ d + 1)
    still (inl h) = inl (omega arith)
    still (inr h) = inr (omega arith)

-- Between regions that do not overlap, `memcpy` leaves at every address what a copy of the `n` bytes
-- in one step leaves there.
pub memcpy-blit :
    (m : Mem) (d s n a : ℕ)
    → (d + n ≤ s) ⊎ (s + n ≤ d)
    → get8 (memcpy m d s n) a ≡ get8 (blit m d m s n) a
memcpy-blit m d s n a apart = elim (Bool-cases (leb d a && ltb a (d + n))) [
  | inl within ↦
      let low : d ≤ a = ground arith in
      let high : a - d < n = ground arith in
      ap (get8 (memcpy m d s n)) (omega arith)
      ∙ memcpy_in m d s n (a - d) apart high
      ∙ sym (get8-blit_in m d m s n (a - d) high)
      ∙ ap (get8 (blit m d m s n)) (omega arith)
  | inr outside ↦ memcpy_ne m d s n a (ground arith) ∙ sym (get8-blit_ne m d m s n a (ground arith))
]
