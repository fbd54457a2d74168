-- ===== src/Fs/Format/Blank.antt =====
-- The entries that `ipo_fs_format` makes, and the blocks that it clears before.
use ipo_os.Memory.Laws.{cut-zeros}
use ipo_os.Common.{
  arith, ℕ, zero, suc, ◌+◌, ◌*◌, ◌%◌, ◌^◌, ◌≤◌, ◌<◌, ◌≡◌, refl, ap, ◌∙◌, ◌⊎◌, inl, inr, true, false,
  some, add32,
}
use native.Mathlib.Decide.{ℕ_discrete}
use native.Mathlib.Nat.{zero-div}
use ipo_os.CString.{strncmp}
use ipo_os.Memory.{cut, Mem, zeros, get8, load32, fill, put8, store32, blit}
use ipo_os.Fs.{Ata, Fs, ipo_inode_type_dir, ipo_inode_type_file}
use ipo_os.Fs.Block.{
  IsDisk, content, written, block_write-written, content-written_self, content-written_ne,
}
use ipo_os.Fs.Bitmap.{test_bit}
use ipo_os.Fs.Bitmap.Laws.{bit_in}
use ipo_os.Fs.Dir.{is_name_char, is_dots, is_valid_filename, put_entry, is_named, entry_name_len}
use ipo_os.Fs.Dir.Naming.{IsEntry}
use ipo_os.Fs.Format.{clear_blocks, dots_block, dots_entry, app, autorun}

-- The blocks of the root directory, with `.` and `..`, with `app`, and with `autorun`.
abbrev pub dots_rows : Mem
dots_rows = cut (dots_block 1 1)

abbrev pub app_rows : Mem
app_rows = cut (put_entry dots_rows 144 app 2 ipo_inode_type_dir)

abbrev pub first_rows : Mem
first_rows = cut (put_entry app_rows 216 autorun 3 ipo_inode_type_file)

pub bit_in-zeros : (j : ℕ) → bit_in zeros j ≡ false
unfolding test_bit get8
bit_in-zeros j = rw (zero-div (2 ^ (j % 8))) refl

-- No entry of the root bears the name that comes next, and each says how long its name is.
pub app_free : (j : ℕ) → j < 2 → is_named dots_rows (j * 72) app ≡ false
unfolding is_named cut dots_block dots_entry load32 get8 put8 store32 fill
app_free zero lt = refl
app_free (suc zero) lt = refl
app_free (suc (suc j)) lt = absurd (omega arith)

pub autorun_free : (j : ℕ) → j < 3 → is_named app_rows (j * 72) autorun ≡ false
unfolding is_named cut dots_block dots_entry put_entry load32 get8 put8 store32 fill blit
autorun_free zero lt = refl
autorun_free (suc zero) lt = refl
autorun_free (suc (suc zero)) lt = refl
autorun_free (suc (suc (suc j))) lt = absurd (omega arith)

dots_sizes : (entry_name_len dots_rows 0 ≡ 1) × (entry_name_len dots_rows 72 ≡ 2)
unfolding cut dots_block dots_entry get8 put8 store32 fill
dots_sizes = (refl, refl)

app_sizes :
    (entry_name_len app_rows 0 ≡ 1)
    × (entry_name_len app_rows 72 ≡ 2)
    × (entry_name_len app_rows 144 ≡ 3)
unfolding cut dots_block dots_entry put_entry get8 put8 store32 fill blit
app_sizes = (refl, refl, refl)

pub app_entries : (j : ℕ) → j < 3 → IsEntry app_rows (j * 72)
app_entries zero lt = inr (omega (arith, app_sizes), omega (arith, app_sizes))
app_entries (suc zero) lt = inr (omega (arith, app_sizes), omega (arith, app_sizes))
app_entries (suc (suc zero)) lt = inr (omega (arith, app_sizes), omega (arith, app_sizes))
app_entries (suc (suc (suc j))) lt = absurd (omega arith)

pub dots_entries : (j : ℕ) → j < 2 → IsEntry dots_rows (j * 72)
dots_entries zero lt = inr (omega (arith, dots_sizes), omega (arith, dots_sizes))
dots_entries (suc zero) lt = inr (omega (arith, dots_sizes), omega (arith, dots_sizes))
dots_entries (suc (suc j)) lt = absurd (omega arith)

first_sizes :
    (entry_name_len first_rows 0 ≡ 1)
    × (entry_name_len first_rows 72 ≡ 2)
    × (entry_name_len first_rows 144 ≡ 3)
    × (entry_name_len first_rows 216 ≡ 7)
unfolding cut dots_block dots_entry put_entry get8 put8 store32 fill blit
first_sizes = (refl, refl, refl, refl)

pub first_entries : (j : ℕ) → j < 4 → IsEntry first_rows (j * 72)
first_entries zero lt = inr (omega (arith, first_sizes), omega (arith, first_sizes))
first_entries (suc zero) lt = inr (omega (arith, first_sizes), omega (arith, first_sizes))
first_entries (suc (suc zero)) lt = inr (omega (arith, first_sizes), omega (arith, first_sizes))
first_entries (suc (suc (suc zero))) lt =
    inr (omega (arith, first_sizes), omega (arith, first_sizes))
first_entries (suc (suc (suc (suc j)))) lt = absurd (omega arith)

-- `app` is the third entry and `autorun` the fourth.
pub app_third :
    ((k : ℕ) → k < 2 → is_named first_rows (k * 72) app ≡ false)
    × (is_named first_rows 144 app ≡ true)
    × (load32 first_rows 144 ≡ 2)
    × (get8 first_rows 148 ≡ ipo_inode_type_dir)
unfolding is_named cut dots_block dots_entry put_entry load32 get8 put8 store32 fill blit strncmp
app_third = (before, refl, refl, refl)
  where
    before : (k : ℕ) → k < 2 → is_named first_rows (k * 72) app ≡ false
    before zero lt = refl
    before (suc zero) lt = refl
    before (suc (suc k)) lt = absurd (omega arith)

pub autorun_fourth :
    ((k : ℕ) → k < 3 → is_named first_rows (k * 72) autorun ≡ false)
    × (is_named first_rows 216 autorun ≡ true)
    × (load32 first_rows 216 ≡ 3)
    × (get8 first_rows 220 ≡ ipo_inode_type_file)
unfolding is_named cut dots_block dots_entry put_entry load32 get8 put8 store32 fill blit strncmp
autorun_fourth = (before, refl, refl, refl)
  where
    before : (k : ℕ) → k < 3 → is_named first_rows (k * 72) autorun ≡ false
    before zero lt = refl
    before (suc zero) lt = refl
    before (suc (suc zero)) lt = refl
    before (suc (suc (suc k))) lt = absurd (omega arith)

pub app_valid : is_valid_filename app ≡ true
unfolding is_valid_filename is_name_char is_dots
app_valid = refl

pub autorun_valid : is_valid_filename autorun ≡ true
unfolding is_valid_filename is_name_char is_dots
autorun_valid = refl

module _ {D : Type 0} (ata : Ata D) (disk : IsDisk ata) where
  -- The disk behind the loop that clears blocks.
  pub clear_blocks-zeros :
      (left start : ℕ) (s : Fs D)
      → s.fs_start_lba + (start + left) ≤ disk.sectors
      → (d : D) × (clear_blocks ata left start s ≡ (some tt, record s { disk = d }))
        × ((m : ℕ)
            → start ≤ m
            → m < start + left
            → content ata disk (record s { disk = d }) m ≡ zeros)
        × ((m : ℕ)
            → s.fs_start_lba + m < disk.sectors
            → (m < start) ⊎ (start + left ≤ m)
            → content ata disk (record s { disk = d }) m ≡ content ata disk s m)
  unfolding clear_blocks
  clear_blocks-zeros zero start s low =
      (s.disk, refl, (λ m a z. absurd (omega arith)), (λ m a z. refl))
  clear_blocks-zeros (suc left) start s low =
      let (d, e, cleared, others) =
        clear_blocks-zeros left (start + 1) (written ata disk s start zeros) (omega arith) in
      let next : add32 start 1 ≡ start + 1 = omega arith in
      (
        d,
        rw (block_write-written ata disk s start zeros (omega arith), next, e) refl,
        (λ m a z. elim (ℕ_discrete m start) [
          | yes same ↦
              others m (omega arith) (inl (omega arith))
              ∙ ap (content ata disk (written ata disk s start zeros)) same
              ∙ content-written_self ata disk s start zeros (omega arith)
              ∙ cut-zeros
          | no ne ↦ cleared m (omega arith) (omega arith)
        ]),
        (λ m a z.
            others m a (elim z [ inl l ↦ inl (omega arith) | inr r ↦ inr (omega arith) ])
            ∙ content-written_ne ata disk s start m zeros (omega arith) a
                (elim z [ inl l ↦ omega arith | inr r ↦ omega arith ])),
      )
