-- ===== src/Memory.antt =====
-- Byte-addressed memory: RAM, a sector buffer, a C struct seen as its bytes. A cell holds a number
-- of which every access reads the low eight bits, so a store truncates as `uint8_t` does. Words are
-- little-endian, as on the i386. Addresses do not wrap.
pub mod Laws
use ipo_os.Common.{
  ℕ, ◌+◌, ◌-◌, ◌*◌, ◌/◌, ◌%◌, ◌≡◌, Bool, ◌&&◌, ltb, leb, ◌==◌, if◌then◌else◌, ◌<◌, ◌^◌, ◌≤◌,
}

abbrev pub Mem : Type 0
Mem = ℕ → ℕ

unfoldable pub get8 : Mem → ℕ → ℕ
get8 m p = m p % 256

unfoldable pub put8 : Mem → ℕ → ℕ → Mem
put8 m p v a = if a == p then v else m a

unfoldable pub load32 : Mem → ℕ → ℕ
unfolding get8
load32 m p = get8 m p + 256 * get8 m (p + 1) + 65536 * get8 m (p + 2) + 16777216 * get8 m (p + 3)

unfoldable pub store32 : Mem → ℕ → ℕ → Mem
store32 m p v a =
    if a == p
    then v
    else if a == p + 1
    then v / 256
    else if a == p + 2
    then v / 65536
    else if a == p + 3
    then v / 16777216
    else m a

-- `memset(m + p, c, n)`.
unfoldable pub fill : Mem → ℕ → ℕ → ℕ → Mem
fill m p c n a = if leb p a && ltb a (p + n) then c else m a

-- `memcpy(m + p, src + q, n)` between two objects.
unfoldable pub blit : Mem → ℕ → Mem → ℕ → ℕ → Mem
blit m p src q n a = if leb p a && ltb a (p + n) then src (q + (a - p)) else m a

-- An object of zeros.
abbrev pub zeros : Mem
zeros _ = 0

-- The same bytes from `lo` up to `hi`.
abbrev pub Agree : Mem → Mem → ℕ → ℕ → Type 0
Agree m m' lo hi = (a : ℕ) → lo ≤ a → a < hi → get8 m' a ≡ get8 m a

-- The 512 bytes of a sector, out of a buffer that holds them.
unfoldable pub cut : Mem → Mem
cut m a = if ltb a 512 then m a % 256 else 0
