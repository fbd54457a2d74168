-- ===== src/CString.antt =====
-- lib/c/string.c over byte-addressed memory. Where a loop stops only at a NUL byte it takes fuel, and
-- `none` says that none was met within it. A function that writes has both arguments in one memory.
pub mod Compare
pub mod Copy
mod Tests
use ipo_os.Common.{ℕ, zero, suc, ◌+◌, Bool, not, ◌&&◌, Option, none, some, ◌==◌, if◌then◌else◌}
use ipo_os.Memory.{Mem, get8, put8}
use mathlib.Core.Option
use ipo_os.Common.Int.{ℤ, pos, sub_ℕ}

-- `(int)(unsigned char)*a - (int)(unsigned char)*b`.
abbrev pub byte_diff : Mem → ℕ → Mem → ℕ → ℤ
byte_diff m p n q = sub_ℕ (get8 m p) (get8 n q)

-- `*a && *b && *a == *b`.
abbrev pub going_on : Mem → ℕ → Mem → ℕ → Bool
going_on m p n q = not (get8 m p == 0) && not (get8 n q == 0) && (get8 m p == get8 n q)

unfoldable pub strcpy : ℕ → Mem → ℕ → ℕ → Option Mem
strcpy zero m dest src = none
strcpy (suc fuel) m dest src =
    let rest = strcpy fuel (put8 m dest (get8 m src)) (dest + 1) (src + 1) in
    if get8 m src == 0 then some (put8 m dest 0) else rest

-- `while (i < n) dest[i++] = '\0'`.
unfoldable pub pad : ℕ → Mem → ℕ → Mem
pad zero m dest = m
pad (suc n) m dest = pad n (put8 m dest 0) (dest + 1)

unfoldable pub strncpy : Mem → ℕ → ℕ → ℕ → Mem
strncpy m dest src zero = m
strncpy m dest src (suc n) =
    let rest = strncpy (put8 m dest (get8 m src)) (dest + 1) (src + 1) n in
    if get8 m src == 0 then pad (suc n) m dest else rest

unfoldable pub strcmp : ℕ → Mem → ℕ → Mem → ℕ → Option ℤ
strcmp zero m a n b = none
strcmp (suc fuel) m a n b =
    let rest = strcmp fuel m (a + 1) n (b + 1) in
    if going_on m a n b then rest else some (byte_diff m a n b)

unfoldable pub strncmp : Mem → ℕ → Mem → ℕ → ℕ → ℤ
strncmp m a n b zero = pos 0
strncmp m a n b (suc left) =
    let rest = strncmp m (a + 1) n (b + 1) left in
    if going_on m a n b then rest else byte_diff m a n b

-- `some none` is NULL. The character is below 256.
unfoldable pub strchr : ℕ → Mem → ℕ → ℕ → Option (Option ℕ)
strchr zero m s c = none
strchr (suc fuel) m s c =
    let rest = strchr fuel m (s + 1) c in
    if get8 m s == 0 then some none else if get8 m s == c then some (some s) else rest

unfoldable pub memset : Mem → ℕ → ℕ → ℕ → Mem
memset m s c zero = m
memset m s c (suc n) = memset (put8 m s c) (s + 1) c n

unfoldable pub memcpy : Mem → ℕ → ℕ → ℕ → Mem
memcpy m dest src zero = m
memcpy m dest src (suc n) = memcpy (put8 m dest (get8 m src)) (dest + 1) (src + 1) n

unfoldable pub strlen : ℕ → Mem → ℕ → Option ℕ
strlen zero m s = none
strlen (suc fuel) m s =
    let rest = strlen fuel m (s + 1) in if get8 m s == 0 then some 0 else Option.map suc rest

unfoldable pub memcmp : Mem → ℕ → Mem → ℕ → ℕ → ℤ
memcmp m a n b zero = pos 0
memcmp m a n b (suc left) =
    let rest = memcmp m (a + 1) n (b + 1) left in
    if get8 m a == get8 n b then rest else byte_diff m a n b
