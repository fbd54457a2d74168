-- ===== src/Common/Action.antt =====
-- Functions that change a state and may fail. The state that a failing call has reached is kept, as
-- what a C function wrote before `return false` or `return -1` stays written.
use ipo_os.Common.{Bool, Option, none, some, if◌then◌else◌}

abbrev pub Act : Type 0 → Type 0 → Type 0
Act S A = S → Option A × S

module _ {S : Type 0} where
  abbrev pub pure : {A : Type 0} → A → Act S A
  pure a s = (some a, s)

  abbrev pub fail : {A : Type 0} → Act S A
  fail s = (none, s)

  abbrev pub and_then : {A B : Type 0} → Option A × S → (A → Act S B) → Option B × S
  and_then (some a, s) k = k a s
  and_then (none, s) k = (none, s)

  infixl 5 ◌>>=◌ ◌>>◌
  abbrev pub ◌>>=◌ : {A B : Type 0} → Act S A → (A → Act S B) → Act S B
  ◌>>=◌ m k s = and_then (m s) k

  abbrev pub ◌>>◌ : {A B : Type 0} → Act S A → Act S B → Act S B
  ◌>>◌ m n s = and_then (m s) (λ _. n)

  -- A call whose failure the caller looks at, or passes over.
  abbrev pub attempt : {A : Type 0} → Act S A → Act S (Option A)
  attempt m s = (some (m s).0, (m s).1)

  abbrev pub guard : Bool → Act S (Unit {0})
  guard b = if b then pure tt else fail

  abbrev pub asks : {A : Type 0} → (S → A) → Act S A
  asks f s = (some (f s), s)

  abbrev pub modify : (S → S) → Act S (Unit {0})
  modify f s = (some tt, f s)

-- A call on the second half of the state.
abbrev pub lift : {L S A : Type 0} → Act S A → Act (L × S) A
lift m (l, s) = ((m s).0, (l, (m s).1))
