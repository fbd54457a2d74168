-- ===== src/Stdio/Tests.antt =====
-- Runs of `itoa` and of formatted output.
use ipo_os.Common.{ℕ, ◌+◌, ◌≤◌, ◌<◌, ◌≡◌, refl, some, List, [], ◌∷◌, arith}
use ipo_os.Memory.{get8, put8, zeros}
use ipo_os.Stdio.Format.{
  Arg, num, str, snprintf, convert_to_buffer, store_text, store_loop, room_of, number, chars,
}
use ipo_os.Stdio.Format.Bounds.{snprintf_bounds}
use ipo_os.Stdio.{itoa, digits, digit_char, put_digits, terminate}
use ipo_os.Stdio.Digits.{text_value, itoa-text_value}

itoa-text_value_example :
    ((itoa 4096 100 10 zeros).0 ≤ 11)
    × (text_value (itoa 4096 100 10 zeros).1 100 (itoa 4096 100 10 zeros).0 0 ≡ 4096)
    × (get8 (itoa 4096 100 10 zeros).1 (100 + (itoa 4096 100 10 zeros).0) ≡ 0)
itoa-text_value_example = itoa-text_value 4096 100 zeros (omega arith) (omega arith)

hexadecimal : get8 (itoa 0xAF 0 16 zeros).1 0 ≡ b'a'
unfolding itoa digits digit_char put_digits terminate get8 put8
hexadecimal = refl

-- "%d-%s".
abbrev pattern_text : List ℕ
pattern_text = b'%' ∷ b'd' ∷ b'-' ∷ b'%' ∷ b's' ∷ []

abbrev values : List Arg
values = num 42 ∷ str (some (b'o' ∷ b'k' ∷ [])) ∷ []

-- A buffer of four bytes for the five characters of "42-ok".
abbrev short : List ℕ
short = b'4' ∷ b'2' ∷ b'-' ∷ []

snprintf_bounds_example :
    (3 < 4)
    × (get8 (put8 (store_text short 0 zeros) 3 0) 3 ≡ 0)
    × ((a : ℕ) → 4 ≤ a → get8 (put8 (store_text short 0 zeros) 3 0) a ≡ get8 zeros a)
unfolding snprintf store_loop convert_to_buffer number chars itoa terminate put_digits digits get8
    put8 digit_char room_of
snprintf_bounds_example =
    snprintf_bounds zeros 4 pattern_text values 3 (put8 (store_text short 0 zeros) 3 0)
      (omega arith) refl
