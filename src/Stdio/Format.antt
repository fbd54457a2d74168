-- ===== src/Stdio/Format.antt =====
-- Formatted output: lib/c/stdio/printf.c, serial_printf.c, serial_putc.c and snprintf.c. The arguments
-- are a list of values, and `none` stands for a conversion that reads an argument of another kind than
-- the next one, or none at all, which C leaves undefined.
pub mod Bounds
use ipo_os.Common.{
  ℕ, zero, suc, ◌+◌, ◌-◌, ◌*◌, ◌/◌, ◌%◌, ◌^◌, ◌≤◌, ◌<◌, min, ◌≡◌, refl, sym, ap, ◌∙◌, fun_ext, ◌≢◌,
  ◌↔◌, ◌⊎◌, inl, inr, Bool, true, false, not, ◌&&◌, ◌||◌, Option, none, some, List, [], ◌∷◌, ◌++◌,
  map, reverse, arith, ltb, leb, ◌==◌, if◌then◌else◌, Bool-cases, tests, lt→ltb, le→ltb, ltb→lt,
  leb→le, ltb→le, leb→lt, ==_iff, and_left, and_right, all_below, all_below_sound, length,
  get_elem?, set, take, drop, replicate, is_some, length-append, length-set, get_elem?-set_self,
  get_elem?-set_ne, u32_mod, add32, sub32,
}
use ipo_os.Memory.{Mem, get8, put8, load32, store32, fill, blit, zeros, Agree}
use ipo_os.Memory.Laws.{
  load32-store32, load32-store32_ne, get8-store32_ne, load32-put8_ne, get8-put8, get8-put8_ne,
  get8-put8_self, get8-fill_ne, load32-fill_ne, get8-fill, get8-blit, get8-blit_in, get8-blit_ne,
  load32-lt, get8-lt, load32-Agree,
}
use ipo_os.Stdio.{itoa, itoa64}
use ipo_os.Driver.{Ports}
use Prim.Native.Nat.{bit_and}

-- An `int` or `unsigned int` by its 32 bits, a `long long` by its 64 bits, a string or NULL.
pub data Arg : Type 0 where
  num : ℕ → Arg
  long : ℕ → Arg
  str : Option (List ℕ) → Arg

abbrev pub next_num : List Arg → Option (ℕ × List Arg)
next_num (num v ∷ args) = some (v, args)
next_num _ = none

abbrev pub next_long : List Arg → Option (ℕ × List Arg)
next_long (long v ∷ args) = some (v, args)
next_long _ = none

abbrev pub next_str : List Arg → Option (Option (List ℕ) × List Arg)
next_str (str s ∷ args) = some (s, args)
next_str _ = none

-- `n` characters of a buffer from `i` on.
unfoldable pub chars : Mem → (i n : ℕ) → List ℕ
chars m i zero = []
chars m i (suc n) = get8 m i ∷ chars m (i + 1) n

-- What `itoa` and `itoa64` write to a buffer.
unfoldable pub number : (value base : ℕ) → List ℕ
number value base = let out = itoa value 0 base zeros in chars out.1 0 out.0

unfoldable pub number64 : (value base : ℕ) → List ℕ
number64 value base = let out = itoa64 value 0 base zeros in chars out.1 0 out.0

-- The text of an argument, and the arguments behind it.
abbrev pub Text : Type 0
Text = Option (List ℕ × List Arg)

abbrev pub with_arg : {A : Type 0} → (A → List ℕ) → Option (A × List Arg) → Text
with_arg f none = none
with_arg f (some (v, args)) = some (f v, args)

-- `%d` of `printf`.
unfoldable pub signed : ℕ → List ℕ
signed v = if leb 0x80000000 v then b'-' ∷ number (0x100000000 - v) 10 else number v 10

abbrev pub str_or : List ℕ → Option (List ℕ) → List ℕ
str_or other none = other
str_or other (some s) = s

-- The `switch` of `printf` and of `serial_printf`.
unfoldable pub convert : (is_long : Bool) → ℕ → List Arg → Text
convert is_long c args =
    if c == b'd'
    then with_arg signed (next_num args)
    else if (c == b'u') && is_long
    then with_arg (λ v. number64 v 10) (next_long args)
    else if c == b'u'
    then with_arg (λ v. number v 10) (next_num args)
    else if c == b'x'
    then with_arg (λ v. number v 16) (next_num args)
    else if c == b'c'
    then with_arg (λ v. v % 256 ∷ []) (next_num args)
    else if c == b's'
    then with_arg (str_or []) (next_str args)
    else if c == b'%'
    then some (b'%' ∷ [], args)
    else some (b'%' ∷ c ∷ [], args)

abbrev pub null_text : List ℕ
null_text = b'(' ∷ b'n' ∷ b'u' ∷ b'l' ∷ b'l' ∷ b')' ∷ []

-- The `switch` of `snprintf`, less the room in the buffer. `itoa` takes an `unsigned int`.
unfoldable pub convert_to_buffer : (is_long : Bool) → ℕ → List Arg → Text
convert_to_buffer is_long c args =
    if ((c == b'd') || (c == b'i')) && is_long
    then with_arg (λ v. number (v % 0x100000000) 10) (next_long args)
    else if (c == b'd') || (c == b'i')
    then with_arg (λ v. number v 10) (next_num args)
    else if c == b's'
    then with_arg (str_or null_text) (next_str args)
    else if c == b'x'
    then with_arg (λ v. number v 16) (next_num args)
    else if c == b'c'
    then with_arg (λ v. v % 256 ∷ []) (next_num args)
    else if c == b'%'
    then some (b'%' ∷ [], args)
    else some (b'%' ∷ c ∷ [], args)

-- Where the loop over the format stands: between items, behind a percent sign, behind its first `l`,
-- behind its second.
pub data Mode : Type 0 where
  plain : Mode
  percent : Mode
  ell : Mode
  ells : Mode

abbrev pub is_end : List ℕ → Bool
is_end [] = true
is_end (c ∷ cs) = false

-- What a character of the format does: goes to another mode, yields itself, or converts.
pub data Item : Type 0 where
  mode : Mode → Item
  itself : Item
  conversion : Bool → Item

abbrev pub item : Mode → ℕ → List ℕ → Item
item plain c rest = if (c == b'%') && not (is_end rest) then mode percent else itself
item percent c rest = if c == b'l' then mode ell else conversion false
item ell c rest = if c == b'l' then mode ells else conversion true
item ells c rest = conversion true

module _ {S : Type 0} (putc : ℕ → S → Option S) where
  -- Characters put one by one, and their count.
  unfoldable pub put_all : List ℕ → (count : ℕ) → S → Option (ℕ × S)
  put_all [] count s = some (count, s)
  put_all (c ∷ cs) count s = elim (putc c s) [ none ↦ none | some t ↦ put_all cs (count + 1) t ]

  abbrev pub then_print :
      (List Arg → ℕ → S → Option (ℕ × S)) → (count : ℕ) → S → Text → Option (ℕ × S)
  then_print go count s none = none
  then_print go count s (some (text, args)) = elim (put_all text count s) [
    | none ↦ none
    | some (count', t) ↦ go args count' t
  ]

  -- The loop of `printf` and of `serial_printf`, which differ in where a character goes.
  unfoldable pub print_loop : Mode → List ℕ → List Arg → (count : ℕ) → S → Option (ℕ × S)
  print_loop m [] args count s = some (count, s)
  print_loop m (c ∷ fmt) args count s = elim (item m c fmt) [
    | mode m' ↦ print_loop m' fmt args count s
    | itself ↦ then_print (print_loop plain fmt) count s (some (c ∷ [], args))
    | conversion is_long ↦ then_print (print_loop plain fmt) count s (convert is_long c args)
  ]

-- `printf` with a `putchar` that always returns, such as that of the terminal.
unfoldable pub printf : {S : Type 0} → (ℕ → S → S) → List ℕ → List Arg → S → Option (ℕ × S)
printf putchar fmt args s = print_loop (λ c t. some (putchar c t)) plain fmt args 0 s

module _ {D : Type 0} (ports : Ports D) where
  -- `while (!(inb(0x3FD) & 0x20))`, with fuel.
  unfoldable pub wait_ready : ℕ → D → Option D
  wait_ready zero d = none
  wait_ready (suc fuel) d =
      let r = ports.inb 0x3FD d in
      let rest = wait_ready fuel r.1 in if bit_and r.0 0x20 == 0 then rest else some r.1

  unfoldable pub serial_putc : (fuel : ℕ) → ℕ → D → Option D
  serial_putc fuel c d = elim (wait_ready fuel d) [
    | none ↦ none
    | some d' ↦ some (ports.outb 0x3F8 (c % 256) d')
  ]

  unfoldable pub serial_printf : (fuel : ℕ) → List ℕ → List Arg → D → Option (ℕ × D)
  serial_printf fuel fmt args d = print_loop (serial_putc fuel) plain fmt args 0 d

-- The text of `snprintf` in the buffer so far, cut where the room for it ends.
abbrev pub then_store :
    (List Arg → List ℕ → Option (List ℕ)) → (room : ℕ) → List ℕ → Text → Option (List ℕ)
then_store go room out none = none
then_store go room out (some (text, args)) = go args (out ++ take room text)

-- The room that conversion `c` sees. That of a number is cast to `int`: from 2^31 on it is negative,
-- and nothing is copied.
unfoldable pub room_of : (c room : ℕ) → ℕ
room_of c room =
    if ((c == b'd') || (c == b'i') || (c == b'x')) && leb 0x80000000 room then 0 else room

abbrev pub between_items : Mode → Bool
between_items plain = true
between_items _ = false

-- The loop of `snprintf`, whose test for room is made between two items.
unfoldable pub store_loop : (max : ℕ) → Mode → List ℕ → List Arg → List ℕ → Option (List ℕ)
store_loop max m [] args out = some out
store_loop max m (c ∷ fmt) args out = elim (between_items m && leb max (length out)) [
  | true ↦ some out
  | false ↦ elim (item m c fmt) [
    | mode m' ↦ store_loop max m' fmt args out
    | itself ↦ then_store (store_loop max plain fmt) (max - length out) out (some (c ∷ [], args))
    | conversion is_long ↦
        then_store (store_loop max plain fmt) (room_of c (max - length out)) out
          (convert_to_buffer is_long c args)
  ]
]

-- The characters at the start of a buffer.
unfoldable pub store_text : List ℕ → (at : ℕ) → Mem → Mem
store_text [] at buf = buf
store_text (c ∷ cs) at buf = store_text cs (at + 1) (put8 buf at c)

-- The length and the buffer. The buffer is not NULL.
unfoldable pub snprintf : Mem → (size : ℕ) → List ℕ → List Arg → Option (ℕ × Mem)
snprintf buf size fmt args = elim (size == 0) [
  | true ↦ some (0, buf)
  | false ↦ elim (store_loop (size - 1) plain fmt args []) [
    | none ↦ none
    | some out ↦ some (length out, put8 (store_text out 0 buf) (length out) 0)
  ]
]
