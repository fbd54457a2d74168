-- ===== src/Fs/Path/Rounds.antt =====
-- The loop of `fs_canonicalize` ends within as many rounds as the path has bytes.
use ipo_os.Common.{
  ℕ, zero, suc, ◌≤◌, ◌<◌, ◌≡◌, refl, ap, inl, inr, false, Option, none, some, List, [], ◌∷◌, arith,
  ◌==◌, Bool-cases, length,
}
use ipo_os.Fs.Dir.{Name}
use ipo_os.Fs.Path.{
  slash, skip_slashes, read_token, next_token, push_token, pushed, round, canonical_tokens,
}

skip_slashes-length : (p : Name) → length (skip_slashes p) ≤ length p
unfolding skip_slashes
skip_slashes-length [] = omega arith
skip_slashes-length (c ∷ cs) = ground (arith, skip_slashes-length cs)

skip_slashes-first : (p : Name) (c : ℕ) (cs : Name) → skip_slashes p ≡ c ∷ cs → (c == slash) ≡ false
unfolding skip_slashes
skip_slashes-first [] c cs e = cc
skip_slashes-first (d ∷ p) c cs e = elim (Bool-cases (d == slash)) [
  | inl hit ↦ skip_slashes-first p c cs (rw hit at e)
  | inr miss ↦ ground arith
]

read_token-length : (room : ℕ) (p : Name) → length (read_token room p).1 ≤ length p
unfolding read_token
read_token-length room [] = omega arith
read_token-length zero (c ∷ cs) = ground (arith, read_token-length zero cs)
read_token-length (suc room) (c ∷ cs) = ground (arith, read_token-length room cs)

read_token-shorter :
    (room c : ℕ) (cs : Name)
    → (c == slash) ≡ false
    → length (read_token (suc room) (c ∷ cs)).1 ≤ length cs
unfolding read_token
read_token-shorter room c cs ne = ground (arith, read_token-length room cs)

-- A token takes a byte at least.
next_token-length : (p t r : Name) → next_token p ≡ some (t, r) → length r < length p
unfolding next_token
next_token-length p t r e = go (skip_slashes p) refl e
  where
    go :
        (q : Name)
        → skip_slashes p ≡ q
        → elim q as (λ _. Option (Name × Name)) [
          | [] ↦ none
          | c ∷ cs ↦ some (read_token 63 (c ∷ cs))
        ]
          ≡ some (t, r)
        → length r < length p
    go [] h e = cc
    go (c ∷ cs) h e =
        let same : read_token 63 (c ∷ cs) ≡ (t, r) = cc e in
        let left : (read_token 63 (c ∷ cs)).1 ≡ r = ap (λ (x : Name × Name). x.1) same in
        omega (
          arith,
          ap length left,
          read_token-shorter 62 c cs (skip_slashes-first p c cs h),
          skip_slashes-length p,
          ap length h,
        )

-- The loop of `fs_canonicalize` ends by itself: with any two bounds on its rounds that are larger than
-- the length of the path it ends before they run out, with the same tokens.
pub canonical_tokens-rounds :
    (f g : ℕ) (path : Name) (tokens : List Name)
    → length path < f
    → length path < g
    → (ts : List Name) × (canonical_tokens f path tokens ≡ some ts)
      × (canonical_tokens g path tokens ≡ some ts)
unfolding canonical_tokens
canonical_tokens-rounds zero g path tokens a b = absurd (omega arith)
canonical_tokens-rounds (suc f) zero path tokens a b = absurd (omega arith)
canonical_tokens-rounds (suc f) (suc g) path tokens a b =
    go (canonical_tokens-rounds f g) (next_token path) refl
  where
    behind :
        ((q : Name) (us : List Name)
          → length q < f
          → length q < g
          → (ts : List Name) × (canonical_tokens f q us ≡ some ts)
            × (canonical_tokens g q us ≡ some ts))
        → (r : Name) (o : Option (List Name)) → length r < length path
        → (ts : List Name) × (pushed (canonical_tokens f) tokens r o ≡ some ts)
          × (pushed (canonical_tokens g) tokens r o ≡ some ts)
    behind ih r none lt = (tokens, refl, refl)
    behind ih r (some us) lt = ih r us (omega arith) (omega arith)

    go :
        ((q : Name) (us : List Name)
          → length q < f
          → length q < g
          → (ts : List Name) × (canonical_tokens f q us ≡ some ts)
            × (canonical_tokens g q us ≡ some ts))
        → (o : Option (Name × Name)) → next_token path ≡ o
        → (ts : List Name) × (round (canonical_tokens f) tokens o ≡ some ts)
          × (round (canonical_tokens g) tokens o ≡ some ts)
    go ih none e = (tokens, refl, refl)
    go ih (some (t, r)) e = behind ih r (push_token t tokens) (next_token-length path t r e)
