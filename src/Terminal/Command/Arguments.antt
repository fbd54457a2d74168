-- ===== src/Terminal/Command/Arguments.antt =====
-- The arguments fit their array and their buffer.
use ipo_os.Common.{
  ℕ, ◌+◌, ◌≤◌, ◌<◌, ◌≡◌, false, not, List, [], ◌∷◌, ◌++◌, ltb, ◌==◌, Bool-cases, inl, inr, length,
  length-append, arith,
}
use ipo_os.Process.Allocator.{Heap}
use ipo_os.Terminal.Command.{is_blank, Copies, end_argument, end_if_any, parse_arguments}

-- No space and no tab.
abbrev pub IsWord : List ℕ → Type 0
IsWord [] = Unit {0}
IsWord (c ∷ cs) = (is_blank c ≡ false) × IsWord cs

-- Words that fit `arg_buf` with a NUL.
abbrev pub AreWords : Copies → Type 0
AreWords [] = Unit {0}
AreWords (copy ∷ copies) = (length copy.1 ≤ 511) × IsWord copy.1 × AreWords copies

-- 1 where there is something in the buffer.
abbrev pub pending : List ℕ → ℕ
pending [] = 0
pending (c ∷ cs) = 1

IsWord-snoc : (cs : List ℕ) (c : ℕ) → is_blank c ≡ false → IsWord cs → IsWord (cs ++ c ∷ [])
IsWord-snoc [] c e word = (e, tt)
IsWord-snoc (d ∷ cs) c e (a, word) = (a, IsWord-snoc cs c e word)

AreWords-snoc :
    (copies : Copies) (copy : ℕ × List ℕ)
    → length copy.1 ≤ 511
    → IsWord copy.1
    → AreWords copies
    → AreWords (copies ++ copy ∷ [])
AreWords-snoc [] copy short word all = (short, word, tt)
AreWords-snoc (d ∷ copies) copy short word (a, b, all) =
    (a, b, AreWords-snoc copies copy short word all)

pending_le : (cs : List ℕ) → pending cs ≤ 1
pending_le [] = omega arith
pending_le (c ∷ cs) = omega arith

module _ {H : Type 0} (heap : Heap H) where
  end_if_any-AreWords :
      (arg_buf : List ℕ) (s : Copies × H)
      → length arg_buf ≤ 511
      → IsWord arg_buf
      → AreWords s.0
      → (length (end_if_any heap arg_buf s).0 ≤ length s.0 + pending arg_buf)
        × AreWords (end_if_any heap arg_buf s).0
  unfolding end_if_any end_argument
  end_if_any-AreWords [] s short word all = (omega arith, all)
  end_if_any-AreWords (c ∷ cs) (copies, h) short word all =
      let m = heap.kmalloc (length (c ∷ cs) + 1) h in
      elim (Bool-cases (m.0 == 0)) [
        | inl e ↦ rw (end_if_any, end_argument, e) (omega arith, all)
        | inr e ↦
            rw (end_if_any, end_argument, e)
              (
                omega (arith, length-append copies ((m.0, c ∷ cs) ∷ [])),
                AreWords-snoc copies (m.0, c ∷ cs) short word all,
              )
      ]

  parse-AreWords :
      (cs arg_buf : List ℕ) (s : Copies × H)
      → length s.0 + pending arg_buf ≤ 30
      → length arg_buf ≤ 511
      → IsWord arg_buf
      → AreWords s.0
      → (length (parse_arguments heap cs arg_buf s).0 ≤ 30)
        × AreWords (parse_arguments heap cs arg_buf s).0
  unfolding parse_arguments
  parse-AreWords [] arg_buf s few short word all =
      let (n, words) = end_if_any-AreWords arg_buf s short word all in (omega (arith, n), words)
  parse-AreWords (c ∷ cs) arg_buf s few short word all =
      let (n, words) = end_if_any-AreWords arg_buf s short word all in
      elim (Bool-cases (not (ltb (length s.0 + 1) 31))) [
        | inl e ↦ rw (parse_arguments, e) (omega (arith, n), words)
        | inr e ↦ elim (Bool-cases (is_blank c)) [
          | inl f ↦
              rw (parse_arguments, e, f)
                (parse-AreWords cs [] (end_if_any heap arg_buf s) (omega (arith, n)) (omega arith)
                  tt words)
          | inr f ↦ elim (Bool-cases (ltb (length arg_buf) 511)) [
            | inl g ↦
                let shorter : length arg_buf < 511 = ground arith in
                let room : length s.0 + 1 < 31 = ground arith in
                rw (parse_arguments, e, f, g)
                  (parse-AreWords cs (arg_buf ++ c ∷ []) s
                    (omega (arith, pending_le (arg_buf ++ c ∷ []), room))
                    (omega (arith, length-append arg_buf (c ∷ []), shorter))
                    (IsWord-snoc arg_buf c f word) all)
            | inr g ↦ rw (parse_arguments, e, f, g) (parse-AreWords cs arg_buf s few short word all)
          ]
        ]
      ]

  -- Whatever stands behind the name of a command, it is split into 30 arguments at most, so that with
  -- the name and the NULL behind them they fit the 32 places of `argv`; and each is free of spaces and
  -- tabs and of 511 characters at most, as its buffer has room for.
  pub parse_arguments-AreWords :
      (rest : List ℕ) (h : H)
      → (length (parse_arguments heap rest [] ([], h)).0 ≤ 30)
        × AreWords (parse_arguments heap rest [] ([], h)).0
  parse_arguments-AreWords rest h = parse-AreWords rest [] ([], h) (omega arith) (omega arith) tt tt
