-- ===== src/Stdio/Format/Bounds.antt =====
-- `snprintf` stays within its buffer.
use ipo_os.Common.{
  ℕ, zero, suc, ◌+◌, ◌-◌, ◌≤◌, ◌<◌, ◌≡◌, refl, ap, ◌∙◌, Bool, true, false, ◌&&◌, Option, none, some,
  List, [], ◌∷◌, ◌++◌, arith, leb, ◌==◌, length, take, length-append,
}
use ipo_os.Memory.{Mem, get8, put8}
use ipo_os.Memory.Laws.{get8-put8_ne, get8-put8_self}
use ipo_os.Stdio.Format.{
  Arg, Text, Mode, Item, mode, itself, conversion, plain, item, between_items, convert_to_buffer,
  then_store, room_of, store_loop, store_text, snprintf,
}

pub length-take : {A : Type 0} → (n : ℕ) (xs : List A) → length (take n xs) ≤ n
length-take zero xs = omega arith
length-take (suc n) [] = omega arith
length-take (suc n) (x ∷ xs) = omega (arith, length-take n xs)

abbrev AtMost : ℕ → Option (List ℕ) → Type 0
AtMost max none = Unit {0}
AtMost max (some out) = length out ≤ max

room_of-le : (c room : ℕ) → room_of c room ≤ room
unfolding room_of
room_of-le c room = ground arith

store_loop-AtMost :
    (max : ℕ) (m : Mode) (fmt : List ℕ) (args : List Arg) (out : List ℕ)
    → length out ≤ max
    → AtMost max (store_loop max m fmt args out)
unfolding store_loop
store_loop-AtMost max m [] args out le = le
store_loop-AtMost max m (c ∷ fmt) args out le =
    round (between_items m && leb max (length out)) (item m c fmt)
      (λ m' args' out' le'. store_loop-AtMost max m' fmt args' out' le')
  where
    stored :
        ((m' : Mode) (args' : List Arg) (out' : List ℕ)
          → length out' ≤ max
          → AtMost max (store_loop max m' fmt args' out'))
        → (room : ℕ) (t : Text) → room ≤ max - length out
        → AtMost max (then_store (store_loop max plain fmt) room out t)
    stored ih room none fits = tt
    stored ih room (some (text, args')) fits =
        ih plain args' (out ++ take room text)
          (omega (arith, length-append out (take room text), length-take room text))

    round :
        (full : Bool) (i : Item)
        → ((m' : Mode) (args' : List Arg) (out' : List ℕ)
            → length out' ≤ max
            → AtMost max (store_loop max m' fmt args' out'))
        → AtMost max (elim full as (λ _. Option (List ℕ)) [
          | true ↦ some out
          | false ↦ elim i as (λ _. Option (List ℕ)) [
            | mode m' ↦ store_loop max m' fmt args out
            | itself ↦
                then_store (store_loop max plain fmt) (max - length out) out (some (c ∷ [], args))
            | conversion is_long ↦
                then_store
                  (store_loop max plain fmt)
                  (room_of c (max - length out))
                  out
                  (convert_to_buffer is_long c args)
          ]
        ])
    round true i ih = le
    round false (mode m') ih = ih m' args out le
    round false itself ih = stored ih _ (some (c ∷ [], args)) (omega arith)
    round false (conversion is_long) ih =
        stored ih _ (convert_to_buffer is_long c args) (room_of-le c (max - length out))

store_text_ne :
    (text : List ℕ) (at a : ℕ) (buf : Mem)
    → at + length text ≤ a
    → get8 (store_text text at buf) a ≡ get8 buf a
unfolding store_text
store_text_ne [] at a buf le = refl
store_text_ne (c ∷ cs) at a buf le =
    store_text_ne cs (at + 1) a (put8 buf at c) (omega arith)
    ∙ get8-put8_ne buf at c a (omega arith)

-- Whatever the format is, with arguments that fit it and a buffer that is not empty, `snprintf`
-- returns a length below the buffer's, writes a NUL behind the text, and writes nothing behind the
-- buffer.
pub snprintf_bounds :
    (buf : Mem) (size : ℕ) (fmt : List ℕ) (args : List Arg) (n : ℕ) (b : Mem)
    → 0 < size
    → snprintf buf size fmt args ≡ some (n, b)
    → (n < size) × (get8 b n ≡ 0) × ((a : ℕ) → size ≤ a → get8 b a ≡ get8 buf a)
unfolding snprintf
snprintf_bounds buf size fmt args n b pos e =
    empty (size == 0) (ground arith) (store_loop (size - 1) plain fmt args [])
      (store_loop-AtMost (size - 1) plain fmt args [] (omega arith)) e
  where
    ended :
        (o : Option (List ℕ))
        → AtMost (size - 1) o
        → elim o as (λ _. Option (ℕ × Mem)) [
          | none ↦ none
          | some out ↦ some (length out, put8 (store_text out 0 buf) (length out) 0)
        ]
          ≡ some (n, b)
        → (n < size) × (get8 b n ≡ 0) × ((a : ℕ) → size ≤ a → get8 b a ≡ get8 buf a)
    ended none le q = cc
    ended (some out) le q =
        let pair : (length out, put8 (store_text out 0 buf) (length out) 0) ≡ (n, b) = cc q in
        let count : length out ≡ n = ap (λ (x : ℕ × Mem). x.0) pair in
        let stored : put8 (store_text out 0 buf) (length out) 0 ≡ b =
          ap (λ (x : ℕ × Mem). x.1) pair in
        let small : length out ≤ size - 1 = le in
        rw (← count, ← stored)
          (
            omega arith,
            get8-put8_self (store_text out 0 buf) (length out) 0,
            λ a past.
                get8-put8_ne (store_text out 0 buf) (length out) 0 a (omega arith)
                ∙ store_text_ne out 0 a buf (omega arith),
          )

    empty :
        (none_left : Bool)
        → none_left ≡ false
        → (o : Option (List ℕ)) → AtMost (size - 1) o
        → elim none_left as (λ _. Option (ℕ × Mem)) [
          | true ↦ some (0, buf)
          | false ↦ elim o as (λ _. Option (ℕ × Mem)) [
            | none ↦ none
            | some out ↦ some (length out, put8 (store_text out 0 buf) (length out) 0)
          ]
        ]
          ≡ some (n, b)
        → (n < size) × (get8 b n ≡ 0) × ((a : ℕ) → size ≤ a → get8 b a ≡ get8 buf a)
    empty true ne o le q = cc
    empty false ne o le q = ended o le q
