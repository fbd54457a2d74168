-- ===== src/Stdio/Digits.antt =====
-- Decimal text, as `itoa` writes it, read back.
use ipo_os.Common.{
  ℕ, zero, suc, ◌+◌, ◌-◌, ◌*◌, ◌/◌, ◌%◌, ◌^◌, ◌≤◌, ◌<◌, ◌≡◌, refl, sym, ap, ◌∙◌, inl, inr, true,
  false, List, [], ◌∷◌, ◌++◌, reverse, arith, leb, ◌==◌, Bool-cases, length, length-append,
}
use ipo_os.Memory.{Mem, get8, put8}
use ipo_os.Memory.Laws.{get8-put8_ne, get8-put8_self}
use mathlib.Core.List.{reverse-cons}
use ipo_os.Stdio.{digits, digit_char, put_digits, itoa, terminate}

-- The number that digits stand for, the highest first, behind `acc`.
abbrev value : List ℕ → ℕ → ℕ
value [] acc = acc
value (d ∷ ds) acc = value ds (acc * 10 + d)

abbrev All10 : List ℕ → Type 0
All10 [] = Unit {0}
All10 (d ∷ ds) = (d < 10) × All10 ds

-- The number that `n` characters from `p` on stand for, behind `acc`.
unfoldable pub text_value : Mem → (p n : ℕ) → (acc : ℕ) → ℕ
text_value m p zero acc = acc
text_value m p (suc n) acc = text_value m (p + 1) n (acc * 10 + (get8 m p - b'0'))

value-append : (xs : List ℕ) (d acc : ℕ) → value (xs ++ (d ∷ [])) acc ≡ value xs acc * 10 + d
value-append [] d acc = refl
value-append (x ∷ xs) d acc = value-append xs d (acc * 10 + x)

All10-append : (xs : List ℕ) (d : ℕ) → All10 xs → d < 10 → All10 (xs ++ (d ∷ []))
All10-append [] d a lt = (lt, tt)
All10-append (x ∷ xs) d (h, a) lt = (h, All10-append xs d a lt)

digits_lem :
    (room num : ℕ)
    → num < 2 ^ room
    → (value (reverse (digits room num 10)) 0 ≡ num) × All10 (reverse (digits room num 10))
unfolding digits
digits_lem zero num lt = (omega arith, tt)
digits_lem (suc room) num lt = elim (Bool-cases (num == 0)) [
  | inl none_left ↦ rw none_left (ground arith, tt)
  | inr more ↦
      let (v, a) = digits_lem room (num / 10) (omega arith) in
      rw more (
        rw (reverse-cons (num % 10) (digits room (num / 10) 10)) (
          value-append (reverse (digits room (num / 10) 10)) (num % 10) 0 ∙ omega (arith, v),
          All10-append (reverse (digits room (num / 10) 10)) (num % 10) a (omega arith),
        ))
]

length-reverse-digits : (k room num : ℕ) → num < 8 ^ k → length (reverse (digits room num 10)) ≤ k
unfolding digits
length-reverse-digits k zero num lt = omega arith
length-reverse-digits zero (suc room) num lt =
    let e : (num == 0) ≡ true = ground arith in rw e (omega arith)
length-reverse-digits (suc k) (suc room) num lt = elim (Bool-cases (num == 0)) [
  | inl none_left ↦ rw none_left (omega arith)
  | inr more ↦ rw more (
      rw (reverse-cons (num % 10) (digits room (num / 10) 10)) (
        omega (
          arith,
          length-append (reverse (digits room (num / 10) 10)) (num % 10 ∷ []),
          length-reverse-digits k room (num / 10) (omega arith),
        )))
]

-- The bytes before those that `put_digits` writes stay.
put_digits_ne :
    (ds : List ℕ) (limit len str a : ℕ) (m : Mem)
    → a < str + len
    → get8 (put_digits limit ds len str m).1 a ≡ get8 m a
unfolding put_digits
put_digits_ne [] limit len str a m lt = refl
put_digits_ne (d ∷ ds) limit len str a m lt = elim (Bool-cases (leb limit len)) [
  | inl full ↦ rw full refl
  | inr room ↦ rw room (
      put_digits_ne ds limit (len + 1) str a (put8 m (str + len) (digit_char d)) (omega arith)
      ∙ get8-put8_ne m (str + len) (digit_char d) a (omega arith))
]

char_lem : (d : ℕ) → d < 10 → digit_char d % 256 - b'0' ≡ d
unfolding digit_char
char_lem d lt = ground arith

put_digits_lem :
    (ds : List ℕ) (limit len str acc : ℕ) (m : Mem)
    → All10 ds
    → len + length ds ≤ limit
    → ((put_digits limit ds len str m).0 ≡ len + length ds)
      × (text_value (put_digits limit ds len str m).1 (str + len) (length ds) acc ≡ value ds acc)
unfolding put_digits text_value
put_digits_lem [] limit len str acc m a le = (omega arith, refl)
put_digits_lem (d ∷ ds) limit len str acc m (h, a) le =
    let room : leb limit len ≡ false = ground arith in
    let m' = put8 m (str + len) (digit_char d) in
    let (e, t) = put_digits_lem ds limit (len + 1) str (acc * 10 + d) m' a (omega arith) in
    let here : get8 (put_digits limit ds (len + 1) str m').1 (str + len) - b'0' ≡ d =
      ap (λ (x : ℕ). x - b'0')
        (put_digits_ne ds limit (len + 1) str (str + len) m' (omega arith)
          ∙ get8-put8_self m (str + len) (digit_char d))
      ∙ char_lem d h in
    let next : str + len + 1 ≡ str + (len + 1) = omega arith in
    let out = (put_digits limit ds (len + 1) str m').1 in
    rw room (
      omega (arith, e),
      ap (λ (x : ℕ). text_value out (str + len + 1) (length ds) (acc * 10 + x)) here
          ∙ ap (λ (p : ℕ). text_value out p (length ds) (acc * 10 + d)) next
          ∙ t,
    )

-- A store behind the text leaves what it stands for.
text_value-put8 :
    (m : Mem) (p n acc q v : ℕ) → p + n ≤ q → text_value (put8 m q v) p n acc ≡ text_value m p n acc
unfolding text_value
text_value-put8 m p zero acc q v le = refl
text_value-put8 m p (suc n) acc q v le =
    text_value-put8 m (p + 1) n (acc * 10 + (get8 (put8 m q v) p - b'0')) q v (omega arith)
    ∙ ap (λ (x : ℕ). text_value m (p + 1) n (acc * 10 + (x - b'0')))
        (get8-put8_ne m q v p (omega arith))

-- For a number that is not 0, `itoa` in base 10 writes at most 11 characters and a NUL behind them,
-- returns their count, and read as decimal digits the characters are the number.
pub itoa-text_value :
    (num str : ℕ) (m : Mem)
    → 0 < num
    → num < 2 ^ 32
    → let out = itoa num str 10 m in
      (out.0 ≤ 11) × (text_value out.1 str out.0 0 ≡ num) × (get8 out.1 (str + out.0) ≡ 0)
unfolding itoa terminate
itoa-text_value num str m pos word =
    let more : (num == 0) ≡ false = ground arith in
    let ds = reverse (digits 32 num 10) in
    let (v, a) = digits_lem 32 num word in
    let few = length-reverse-digits 11 32 num (omega arith) in
    let (e, t) = put_digits_lem ds 31 0 str 0 m a (omega (arith, few)) in
    let out = put_digits 31 ds 0 str m in
    let count : out.0 ≡ length ds = omega (arith, e) in
    let at : str + 0 ≡ str = omega arith in
    rw more (
      omega (arith, count, few),
      text_value-put8 out.1 str out.0 0 (str + out.0) 0 (omega arith)
          ∙ ap (λ (n : ℕ). text_value out.1 str n 0) count
          ∙ ap (λ (p : ℕ). text_value out.1 p (length ds) 0) (sym at)
          ∙ t
          ∙ v,
      get8-put8_self out.1 (str + out.0) 0,
    )
