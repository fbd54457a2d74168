-- ===== src/Fs/Path.antt =====
-- Paths, lib/c/file_system/ipo_path.c. A path is the list of its bytes before the NUL.
pub mod Rounds
use ipo_os.Common.{
  ℕ, zero, suc, ◌+◌, Bool, true, false, ◌&&◌, Option, none, some, List, [], ◌∷◌, ◌++◌, ltb, leb,
  ◌==◌, if◌then◌else◌, length, drop,
}
use ipo_os.Common.Action.{Act, pure, fail, ◌>>=◌, ◌>>◌, guard}
use ipo_os.Fs.{Ata, Fs, ipo_fs_max_name}
use ipo_os.Fs.Dir.{Name, dot, dot_dot, dir_find_entry, inode_of}

abbrev pub slash : ℕ
slash = b'/'

-- `while (*c == '/') c++`.
unfoldable pub skip_slashes : Name → Name
skip_slashes [] = []
skip_slashes (c ∷ cs) = if c == slash then skip_slashes cs else (c ∷ cs)

-- The bytes up to the next slash, of which the first `room` are kept, and what is left of the path.
unfoldable pub read_token : ℕ → Name → Name × Name
read_token room [] = ([], [])
read_token zero (c ∷ cs) = if c == slash then ([], c ∷ cs) else read_token zero cs
read_token (suc room) (c ∷ cs) =
    let rest = read_token room cs in if c == slash then ([], c ∷ cs) else (c ∷ rest.0, rest.1)

abbrev pub same_name : Name → Name → Bool
same_name [] [] = true
same_name (a ∷ as') (b ∷ bs) = (a == b) && same_name as' bs
same_name _ _ = false

abbrev pub drop_last : List Name → List Name
drop_last [] = []
drop_last (t ∷ []) = []
drop_last (t ∷ u ∷ ts) = t ∷ drop_last (u ∷ ts)

-- What a token does to the stack of tokens; `none` is the `break` at 128 tokens.
unfoldable pub push_token : Name → List Name → Option (List Name)
push_token token tokens =
    if same_name token dot
    then some tokens
    else if same_name token dot_dot
    then some (drop_last tokens)
    else if leb 128 (length tokens)
    then none
    else some (tokens ++ (token ∷ []))

-- The next token and what is left of the path behind it.
unfoldable pub next_token : Name → Option (Name × Name)
next_token path = elim (skip_slashes path) [ [] ↦ none | c ∷ cs ↦ some (read_token 63 (c ∷ cs)) ]

-- A round of the loop of `fs_canonicalize`: the loop ends with the path or at `break`, and else goes
-- on by `loop`.
abbrev pub pushed :
    (Name → List Name → Option (List Name))
    → List Name
    → Name
    → Option (List Name)
    → Option (List Name)
pushed loop tokens rest none = some tokens
pushed loop tokens rest (some tokens') = loop rest tokens'

abbrev pub round :
    (Name → List Name → Option (List Name)) → List Name → Option (Name × Name) → Option (List Name)
round loop tokens none = some tokens
round loop tokens (some (token, rest)) = pushed loop tokens rest (push_token token tokens)

-- The loop of `fs_canonicalize`; `none` where the rounds run out.
unfoldable pub canonical_tokens : ℕ → Name → List Name → Option (List Name)
canonical_tokens zero path tokens = none
canonical_tokens (suc fuel) path tokens = round (canonical_tokens fuel) tokens (next_token path)

-- The tokens behind slashes, as many as fit `out_size` bytes, `pos` of which are written.
unfoldable pub join_tokens : ℕ → ℕ → List Name → Name
join_tokens out_size pos [] = []
join_tokens out_size pos (t ∷ ts) =
    let rest = join_tokens out_size (pos + 1 + length t) ts in
    if leb out_size (pos + 1 + length t + 1) then [] else (slash ∷ (t ++ rest))

-- Each round takes a byte of the path at least, and the last one finds its end, so that the rounds do
-- not run out. `out_size` is not 0. An empty path and one with no token are the root.
unfoldable pub fs_canonicalize : Name → ℕ → Name
fs_canonicalize path out_size = elim (canonical_tokens (suc (length path)) path []) [
  | none ↦ []
  | some [] ↦ if ltb 1 out_size then slash ∷ [] else []
  | some (t ∷ ts) ↦ join_tokens out_size 0 (t ∷ ts)
]

-- The bytes before the first slash, and those behind it where there is one.
unfoldable pub split_slash : Name → Name × Option Name
split_slash [] = ([], none)
split_slash (c ∷ cs) =
    let rest = split_slash cs in if c == slash then ([], some cs) else (c ∷ rest.0, rest.1)

-- The bytes before the last slash and behind it.
unfoldable pub split_last : Name → Option (Name × Name)
split_last [] = none
split_last (c ∷ cs) = elim (split_last cs) [
  | some (before, name) ↦ some (c ∷ before, name)
  | none ↦ if c == slash then some ([], cs) else none
]

module _ {D : Type 0} (ata : Ata D) where
  -- The loop of `path_resolve`; each round takes a byte at least.
  unfoldable pub walk : ℕ → ℕ → Name → Act (Fs D) ℕ
  walk zero cur p = pure cur
  walk (suc fuel) cur [] = pure cur
  walk (suc fuel) cur (c ∷ cs) = do
    let t = split_slash (c ∷ cs)
    guard (ltb (length t.0) ipo_fs_max_name)
    de ← dir_find_entry ata cur t.0
    elim t.1 [ none ↦ pure (inode_of de) | some rest ↦ walk fuel (inode_of de) rest ]

  unfoldable pub path_resolve : Name → Act (Fs D) ℕ
  path_resolve path =
      let tmp = fs_canonicalize path 512 in
      if same_name tmp (slash ∷ []) then pure 1 else walk (length tmp) 1 (drop 1 tmp)

  -- The parent's inode and the last name.
  unfoldable pub path_resolve_parent : Name → Act (Fs D) (ℕ × Name)
  path_resolve_parent path =
      let tmp = fs_canonicalize path 512 in
      if same_name tmp (slash ∷ []) then fail else elim (split_last tmp) [
        | none ↦ fail
        | some (before, name) ↦ do
          guard (ltb (length name) ipo_fs_max_name)
          parent ← path_resolve (elim before [ [] ↦ slash ∷ [] | c ∷ cs ↦ c ∷ cs ])
          pure (parent, name)
      ]
