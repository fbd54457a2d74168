-- ===== src/Fs/Dir/Search.antt =====
-- The search for the first number that is free, when the numbers become one more.
use ipo_os.Common.{
  arith, ℕ, zero, suc, ◌+◌, ◌≤◌, ◌<◌, ◌≡◌, refl, ap, ◌∙◌, Bool, true, false, inl, inr, Bool-cases,
  none, some,
}
use ipo_os.Fs.Inode.Alloc.{first_clear}

-- A search that finds nothing, and finds the number behind it.
pub first_clear_next :
    (taken taken' : ℕ → Bool) (left i : ℕ)
    → ((j : ℕ) → i ≤ j → j < i + left → taken' j ≡ taken j)
    → first_clear taken left i ≡ none
    → taken' (i + left) ≡ false
    → first_clear taken' (suc left) i ≡ some (i + left)
unfolding first_clear
first_clear_next taken taken' zero i same e clear =
    let here : taken' i ≡ false = ap taken' (omega arith) ∙ clear in rw here (ap some (omega arith))
first_clear_next taken taken' (suc left) i same e clear = elim (Bool-cases (taken i)) [
  | inr open_here ↦ let found : some i ≡ none = rw open_here at e in cc found
  | inl busy ↦
      let busy' : taken' i ≡ true = same i (omega arith) (omega arith) ∙ busy in
      let rest =
        first_clear_next taken taken' left (i + 1)
          (λ j from below. same j (omega arith) (omega arith)) (rw busy at e)
          (ap taken' (omega arith) ∙ clear) in
      rw busy' (rest ∙ ap some (omega arith))
]

-- One number more, at which the search does not stop.
pub first_clear_more :
    (taken taken' : ℕ → Bool) (left i : ℕ)
    → ((j : ℕ) → i ≤ j → j < i + left → taken' j ≡ taken j)
    → taken' (i + left) ≡ true
    → first_clear taken' (suc left) i ≡ first_clear taken left i
unfolding first_clear
first_clear_more taken taken' zero i same stop =
    let here : taken' i ≡ true = ap taken' (omega arith) ∙ stop in rw here refl
first_clear_more taken taken' (suc left) i same stop =
    let rest =
      first_clear_more taken taken' left (i + 1)
        (λ j from below. same j (omega arith) (omega arith)) (ap taken' (omega arith) ∙ stop) in
    let here = same i (omega arith) (omega arith) in
    elim (Bool-cases (taken i)) [
      | inl busy ↦ let busy' : taken' i ≡ true = here ∙ busy in rw (busy, busy') rest
      | inr clear ↦ let clear' : taken' i ≡ false = here ∙ clear in rw (clear, clear') refl
    ]
