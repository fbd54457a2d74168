-- ===== src/CString/Compare.antt =====
-- The comparisons of string.c.
use mathlib.Core.Bool.{false≢true}
use ipo_os.Common.{
  ◌==◌, Bool-cases, inl, inr, ==_iff, sym, ℕ, zero, suc, ◌+◌, ◌<◌, ◌≡◌, refl, ap, ◌∙◌, Bool, true,
  false, arith, if◌then◌else◌,
}
use ipo_os.Memory.{Mem, get8}
use ipo_os.Common.Int.{is_zero, pos, sub_ℕ}
use ipo_os.CString.{memcmp, strncmp, byte_diff}

byte_diff_same : (a b : ℕ) → a ≡ b → sub_ℕ a b ≡ pos 0
byte_diff_same a b e = ground arith

-- Equal bytes compare as equal.
pub strncmp-same :
    (m : Mem) (p : ℕ) (k : Mem) (q n : ℕ)
    → ((i : ℕ) → i < n → get8 m (p + i) ≡ get8 k (q + i))
    → strncmp m p k q n ≡ pos 0
unfolding strncmp
strncmp-same m p k q zero same = refl
strncmp-same m p k q (suc n) same =
    let head : get8 m p ≡ get8 k q =
      ap (get8 m) (omega arith) ∙ same 0 (omega arith) ∙ ap (get8 k) (omega arith) in
    let rest = strncmp-same m (p + 1) k (q + 1) n (λ i lt.
      ap (get8 m) (omega arith) ∙ same (suc i) (omega arith) ∙ ap (get8 k) (omega arith)) in
    rw rest (choose _ (byte_diff_same (get8 m p) (get8 k q) head))
  where
    choose :
        (t : Bool) → byte_diff m p k q ≡ pos 0 → (if t then pos 0 else byte_diff m p k q) ≡ pos 0
    choose true e = refl
    choose false e = e

differ_byte : (a b : ℕ) → (a == b) ≡ false → is_zero (sub_ℕ a b) ≡ false
differ_byte a b ne = ground arith

-- Bytes that `memcmp` finds equal are equal.
pub memcmp-zero :
    (m k : Mem) (p q n : ℕ)
    → is_zero (memcmp m p k q n) ≡ true
    → (i : ℕ) → i < n
    → get8 m (p + i) ≡ get8 k (q + i)
unfolding memcmp
memcmp-zero m k p q zero e i lt = absurd (omega arith)
memcmp-zero m k p q (suc n) e i lt = elim (Bool-cases (get8 m p == get8 k q)) [
  | inr other ↦
      let zero_diff : is_zero (byte_diff m p k q) ≡ true = rw other at e in
      absurd (false≢true (sym (differ_byte (get8 m p) (get8 k q) other) ∙ zero_diff))
  | inl same ↦
      let rest : is_zero (memcmp m (p + 1) k (q + 1) n) ≡ true = rw same at e in
      shifted i lt ((==_iff (get8 m p) (get8 k q)).0 same) (memcmp-zero m k (p + 1) (q + 1) n rest)
]
  where
    shifted :
        (i : ℕ)
        → i < suc n
        → get8 m p ≡ get8 k q
        → ((j : ℕ) → j < n → get8 m (p + 1 + j) ≡ get8 k (q + 1 + j))
        → get8 m (p + i) ≡ get8 k (q + i)
    shifted zero lt head rest = ap (get8 m) (omega arith) ∙ head ∙ ap (get8 k) (omega arith)
    shifted (suc j) lt head rest =
        ap (get8 m) (omega arith) ∙ rest j (omega arith) ∙ ap (get8 k) (omega arith)
