-- ===== src/Fs/Dir/Naming.antt =====
-- What `dir_find_entry` takes for an entry's name, and the entry that `dir_add_entry` writes.
use ipo_os.Common.{
  arith, ℕ, zero, suc, ◌+◌, ◌≤◌, ◌<◌, ◌≡◌, refl, ap, ◌∙◌, ◌⊎◌, true, false, ◌==◌, inl, inr, length,
  u32_mod,
}
use ipo_os.CString.{strncmp}
use ipo_os.CString.Compare.{strncmp-same}
use ipo_os.Memory.{cut, Mem, get8, put8, load32, store32, blit, fill, Agree}
use ipo_os.Memory.Laws.{get8-cut, load32-Agree}
use ipo_os.Fs.Dir.{
  Name, text, entry_inode, entry_type, entry_name_len, entry_length, is_named, put_entry,
}

-- An entry that is used has a name of 1 to 64 bytes and says so.
abbrev pub IsEntry : Mem → ℕ → Type 0
IsEntry buf o = (entry_inode buf o ≡ 0) ⊎ ((1 ≤ entry_name_len buf o) × (entry_name_len buf o ≤ 64))

-- The comparison sees only the bytes that it compares.
strncmp-Agree :
    (m m' k : Mem) (p q n : ℕ)
    → ((i : ℕ) → i < n → get8 m' (p + i) ≡ get8 m (p + i))
    → strncmp m' p k q n ≡ strncmp m p k q n
unfolding strncmp
strncmp-Agree m m' k p q zero same = refl
strncmp-Agree m m' k p q (suc n) same =
    let head : get8 m' p ≡ get8 m p =
      ap (get8 m') (omega arith) ∙ same 0 (omega arith) ∙ ap (get8 m) (omega arith) in
    let rest = strncmp-Agree m m' k (p + 1) (q + 1) n (λ i lt.
      ap (get8 m') (omega arith) ∙ same (suc i) (omega arith) ∙ ap (get8 m) (omega arith)) in
    rw (head, rest) refl

-- The bytes of an entry settle whether it bears a name.
pub is_named-Agree :
    (buf buf' : Mem) (o : ℕ) (name : Name)
    → Agree buf buf' o (o + 72)
    → IsEntry buf o
    → is_named buf' o name ≡ is_named buf o name
unfolding is_named
is_named-Agree buf buf' o name same (inl free) =
    let number : entry_inode buf' o ≡ entry_inode buf o =
      load32-Agree buf buf' o (o + 72) o same (omega arith) (omega arith) in
    rw (number, free) refl
is_named-Agree buf buf' o name same (inr (used, fits)) =
    let number : entry_inode buf' o ≡ entry_inode buf o =
      load32-Agree buf buf' o (o + 72) o same (omega arith) (omega arith) in
    let size : entry_name_len buf' o ≡ entry_name_len buf o =
      same (o + 5) (omega arith) (omega arith) in
    let some_length : (entry_name_len buf o == 0) ≡ false = ground arith in
    let bytes : strncmp buf' (o + 8) (text name) 0 (entry_name_len buf o)
        ≡ strncmp buf (o + 8) (text name) 0 (entry_name_len buf o) =
      strncmp-Agree buf buf' (text name) (o + 8) 0 (entry_name_len buf o)
        (λ i lt. same (o + 8 + i) (omega arith) (omega arith)) in
    rw (number, size, some_length, bytes) refl

pub IsEntry-Agree :
    (buf buf' : Mem) (o : ℕ) → Agree buf buf' o (o + 72) → IsEntry buf o → IsEntry buf' o
IsEntry-Agree buf buf' o same (inl free) =
    inl (load32-Agree buf buf' o (o + 72) o same (omega arith) (omega arith) ∙ free)
IsEntry-Agree buf buf' o same (inr (used, fits)) =
    let size : entry_name_len buf' o ≡ entry_name_len buf o =
      same (o + 5) (omega arith) (omega arith) in
    inr (omega (arith, size, used), omega (arith, size, fits))

-- An entry as it stands in a sector.
module _ (m : Mem) (o : ℕ) (inside : o + 72 ≤ 512) where
  cut-Agree : Agree m (cut m) o (o + 72)
  cut-Agree a low high = get8-cut m a (omega arith)

  pub is_named-cut : (name : Name) → IsEntry m o → is_named (cut m) o name ≡ is_named m o name
  is_named-cut name e = is_named-Agree m (cut m) o name cut-Agree e

  pub IsEntry-cut : IsEntry m o → IsEntry (cut m) o
  IsEntry-cut e = IsEntry-Agree m (cut m) o cut-Agree e

pub put_entry-out :
    (buf : Mem) (o : ℕ) (name : Name) (inode_no type a : ℕ)
    → length name < 64
    → (a < o) ⊎ (o + 72 ≤ a)
    → put_entry buf o name inode_no type a ≡ buf a
unfolding put_entry put8 store32 fill blit
put_entry-out buf o name inode_no type a short off = ground arith

module _ (buf : Mem) (o : ℕ) (name : Name) (inode_no type : ℕ) (short : length name < 64) where
  pub put_entry-inode :
      inode_no < u32_mod → entry_inode (put_entry buf o name inode_no type) o ≡ inode_no
  unfolding put_entry load32 get8 put8 store32 fill blit
  put_entry-inode word = ground arith

  put_entry-length : entry_name_len (put_entry buf o name inode_no type) o ≡ length name
  unfolding put_entry get8 put8 store32 fill blit
  put_entry-length = ground arith

  pub put_entry-IsEntry : 1 ≤ length name → IsEntry (put_entry buf o name inode_no type) o
  put_entry-IsEntry filled =
      inr (omega (arith, put_entry-length, filled), omega (arith, put_entry-length, short))

  pub put_entry-type : type < 256 → entry_type (put_entry buf o name inode_no type) o ≡ type
  unfolding put_entry get8 put8 store32 fill blit
  put_entry-type byte = ground arith

  pub put_entry-text :
      (i : ℕ)
      → i < length name
      → get8 (put_entry buf o name inode_no type) (o + 8 + i) ≡ get8 (text name) (0 + i)
  unfolding put_entry get8 put8 store32 fill blit
  put_entry-text i lt = ground arith

  pub put_entry-length' :
      1 ≤ length name → entry_length (put_entry buf o name inode_no type) o ≡ length name
  put_entry-length' filled =
      let some_length : (length name == 0) ≡ false = ground arith in
      rw (put_entry-length, some_length) refl

  -- The entry written bears the name.
  pub is_named-put_entry :
      1 ≤ length name
      → 0 < inode_no
      → inode_no < u32_mod
      → is_named (put_entry buf o name inode_no type) o name ≡ true
  unfolding is_named
  is_named-put_entry filled pos_no word =
      let number : (entry_inode (put_entry buf o name inode_no type) o == 0) ≡ false =
        ground (arith, put_entry-inode word) in
      let size : (length name == length name) ≡ true = ground arith in
      let some_length : (length name == 0) ≡ false = ground arith in
      let same =
        strncmp-same (put_entry buf o name inode_no type) (o + 8) (text name) 0 (length name)
          put_entry-text in
      rw (number, put_entry-length' filled, size, some_length, same) refl
