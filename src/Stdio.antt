-- ===== src/Stdio.antt =====
-- Numbers as text, lib/c/stdio/itoa.c. A result is the returned length and the memory.
pub mod Digits
pub mod Format
mod Tests
use ipo_os.Common.{
  ℕ, zero, suc, ◌+◌, ◌-◌, ◌/◌, ◌%◌, List, [], ◌∷◌, reverse, ltb, leb, ◌==◌, if◌then◌else◌,
}
use ipo_os.Memory.{Mem, put8}

-- The digits of a number, the lowest first, at most `room` of them.
unfoldable pub digits : (room num base : ℕ) → List ℕ
digits zero num base = []
digits (suc room) num base =
    let rest = digits room (num / base) base in if num == 0 then [] else (num % base ∷ rest)

-- `'0' + digit` or `'a' + (digit - 10)`.
unfoldable pub digit_char : ℕ → ℕ
digit_char digit = if ltb digit 10 then b'0' + digit else b'a' + (digit - 10)

-- The loop that writes the digits, the highest first, and stops at `limit` of them.
unfoldable pub put_digits : (limit : ℕ) → List ℕ → (len str : ℕ) → Mem → ℕ × Mem
put_digits limit [] len str m = (len, m)
put_digits limit (d ∷ ds) len str m =
    let rest = put_digits limit ds (len + 1) str (put8 m (str + len) (digit_char d)) in
    if leb limit len then (len, m) else rest

unfoldable pub terminate : ℕ → ℕ × Mem → ℕ × Mem
terminate str (len, m) = (len, put8 m (str + len) 0)

-- `base` is at least 2.
unfoldable pub itoa64 : (num str base : ℕ) → Mem → ℕ × Mem
itoa64 num str base m =
    if num == 0
    then (1, put8 (put8 m str b'0') (str + 1) 0)
    else terminate str (put_digits 63 (reverse (digits 63 num base)) 0 str m)

unfoldable pub itoa : (num str base : ℕ) → Mem → ℕ × Mem
itoa num str base m =
    if num == 0
    then (1, put8 m str b'0')
    else terminate str (put_digits 31 (reverse (digits 32 num base)) 0 str m)
