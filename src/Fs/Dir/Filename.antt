-- ===== src/Fs/Dir/Filename.antt =====
-- File names: an entry that `dir_add_entry` writes bears no name but its own.
use ipo_os.Common.{
  arith, ℕ, zero, suc, ◌+◌, ◌≤◌, ◌<◌, ◌≡◌, ◌≢◌, refl, sym, ap, ◌∙◌, Bool, true, false, not, ◌&&◌,
  ◌==◌, Bool-cases, inl, inr, [], ◌∷◌, length, ==_iff, and_left, and_right,
}
use mathlib.Core.Path.{ap₂}
use ipo_os.Common.Int.{is_zero, sub_ℕ}
use ipo_os.CString.{strncmp, byte_diff, going_on}
use ipo_os.Memory.{Mem, get8}
use ipo_os.Fs.Dir.{
  Name, text, entry_inode, entry_length, is_named, is_name_char, all_name_chars, is_valid_filename,
  put_entry,
}
use ipo_os.Fs.Dir.Naming.{put_entry-length', put_entry-text}

-- A comparison that stops at a byte of the second text finds a difference there.
stopped :
    (a b : ℕ)
    → b ≢ 0
    → is_zero (sub_ℕ a b) ≡ true
    → (not (a == 0) && not (b == 0) && (a == b)) ≡ false
    → ⊥
stopped a b ne zero_diff stop = ground arith

-- Bytes that compare as equal are equal, where none of them is a NUL.
strncmp-zero :
    (m k : Mem) (p q n : ℕ)
    → is_zero (strncmp m p k q n) ≡ true
    → ((i : ℕ) → i < n → get8 k (q + i) ≢ 0)
    → (i : ℕ) → i < n
    → get8 m (p + i) ≡ get8 k (q + i)
unfolding strncmp
strncmp-zero m k p q zero e filled i lt = absurd (omega arith)
strncmp-zero m k p q (suc n) e filled i lt =
    let filled' : get8 k q ≢ 0 = λ z. filled 0 (omega arith) (ap (get8 k) (omega arith) ∙ z) in
    elim (Bool-cases (going_on m p k q)) [
      | inr stop ↦
          let zero_diff : is_zero (byte_diff m p k q) ≡ true = rw stop at e in
          absurd (stopped (get8 m p) (get8 k q) filled' zero_diff stop)
      | inl on ↦
          let rest : is_zero (strncmp m (p + 1) k (q + 1) n) ≡ true = rw on at e in
          let head : get8 m p ≡ get8 k q = ground arith in
          shifted i lt head (
            strncmp-zero m k (p + 1) (q + 1) n rest
              (λ j below. λ z. filled (suc j) (omega arith) (ap (get8 k) (omega arith) ∙ z)))
    ]
  where
    shifted :
        (i : ℕ)
        → i < suc n
        → get8 m p ≡ get8 k q
        → ((j : ℕ) → j < n → get8 m (p + 1 + j) ≡ get8 k (q + 1 + j))
        → get8 m (p + i) ≡ get8 k (q + i)
    shifted zero lt head rest = ap (get8 m) (omega arith) ∙ head ∙ ap (get8 k) (omega arith)
    shifted (suc j) lt head rest =
        ap (get8 m) (omega arith) ∙ rest j (omega arith) ∙ ap (get8 k) (omega arith)

-- What a file name is.
pub is_valid_filename-length :
    (name : Name) → is_valid_filename name ≡ true → (1 ≤ length name) × (length name < 64)
unfolding is_valid_filename
is_valid_filename-length name valid = ground arith

is_valid_filename-chars : (name : Name) → is_valid_filename name ≡ true → all_name_chars name ≡ true
unfolding is_valid_filename
is_valid_filename-chars name valid = ground arith

name_char_byte : (c : ℕ) → is_name_char c ≡ true → (c ≢ 0) × (c < 256)
unfolding is_name_char
name_char_byte c e = ground arith

name_byte :
    (name : Name) (i : ℕ) → all_name_chars name ≡ true → i < length name → get8 (text name) i ≢ 0
unfolding get8
name_byte [] i e lt = absurd (omega arith)
name_byte (c ∷ cs) zero e lt = let byte = name_char_byte c (and_left _ _ e) in omega arith
name_byte (c ∷ cs) (suc i) e lt = name_byte cs i (and_right _ _ e) (omega arith)

text_injective :
    (a b : Name)
    → length a ≡ length b
    → all_name_chars a ≡ true
    → all_name_chars b ≡ true
    → ((i : ℕ) → i < length a → get8 (text a) i ≡ get8 (text b) i)
    → a ≡ b
unfolding get8
text_injective [] [] size chars chars' same = refl
text_injective [] (d ∷ b) size chars chars' same = absurd (omega arith)
text_injective (c ∷ a) [] size chars chars' same = absurd (omega arith)
text_injective (c ∷ a) (d ∷ b) size chars chars' same =
    let left = name_char_byte c (and_left _ _ chars) in
    let right = name_char_byte d (and_left _ _ chars') in
    let head : c ≡ d = omega (arith, same 0 (omega arith)) in
    let rest =
      text_injective a b (omega arith) (and_right _ _ chars) (and_right _ _ chars')
        (λ i lt. same (suc i) (omega arith)) in
    ap₂ ◌∷◌ head rest

-- Three tests in a row.
last_test : (a b c d : Bool) → (a && b && c && d) ≡ true → (b ≡ true) × (d ≡ true)
last_test a b c d e = ground arith

is_named-put_entry_eq :
    (buf : Mem) (o : ℕ) (name other : Name) (inode_no type : ℕ)
    → is_valid_filename name ≡ true
    → is_valid_filename other ≡ true
    → is_named (put_entry buf o name inode_no type) o other ≡ true
    → name ≡ other
unfolding is_named
is_named-put_entry_eq buf o name other inode_no type valid valid' hit =
    let (filled, short) = is_valid_filename-length name valid in
    let m = put_entry buf o name inode_no type in
    let (size, compared) =
      last_test (not (entry_inode m o == 0)) (entry_length m o == length other)
        (not (entry_length m o == 0))
        (is_zero (strncmp m (o + 8) (text other) 0 (entry_length m o))) hit in
    let long = put_entry-length' buf o name inode_no type short filled in
    let same : length name ≡ length other =
      sym long ∙ (==_iff (entry_length m o) (length other)).0 size in
    let chars' = is_valid_filename-chars other valid' in
    let equal =
      strncmp-zero (put_entry buf o name inode_no type) (text other) (o + 8) 0 (length name)
        (rw long at compared)
        (λ i lt z.
          name_byte other i chars' (omega arith) (ap (get8 (text other)) (omega arith) ∙ z)) in
    text_injective name other same (is_valid_filename-chars name valid) chars' (λ i lt.
      ap (get8 (text name)) (omega arith)
      ∙ sym (put_entry-text buf o name inode_no type short i lt)
      ∙ equal i lt
      ∙ ap (get8 (text other)) (omega arith))

-- The entry written bears no other name.
pub is_named-put_entry_ne :
    (buf : Mem) (o : ℕ) (name other : Name) (inode_no type : ℕ)
    → is_valid_filename name ≡ true
    → is_valid_filename other ≡ true
    → name ≢ other
    → is_named (put_entry buf o name inode_no type) o other ≡ false
is_named-put_entry_ne buf o name other inode_no type valid valid' ne =
    elim (Bool-cases (is_named (put_entry buf o name inode_no type) o other)) [
      | inr miss ↦ miss
      | inl hit ↦
          absurd (ne (is_named-put_entry_eq buf o name other inode_no type valid valid' hit))
    ]
