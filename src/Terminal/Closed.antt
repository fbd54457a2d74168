-- ===== src/Terminal/Closed.antt =====
-- What the loops of the terminal leave in a cell.
use ipo_os.Common.{
  ℕ, zero, suc, ◌+◌, ◌*◌, ◌≤◌, ◌<◌, ◌≡◌, refl, ap, ◌∙◌, ◌⊎◌, inl, inr, true, false, ◌&&◌, arith,
  ltb, leb, if◌then◌else◌,
}
use native.Mathlib.Decide.{ℕ_discrete}
use ipo_os.Driver.Vga.{Cells, put_cell, blank_cells}
use ipo_os.Terminal.{copy_row, shift_up, shift_down}

pub blank_cells_lem :
    (left at value : ℕ) (vga : Cells) (a : ℕ)
    → blank_cells left at value vga a ≡ (if leb at a && ltb a (at + left) then value else vga a)
unfolding blank_cells put_cell
blank_cells_lem zero at value vga a = ground arith
blank_cells_lem (suc left) at value vga a =
    blank_cells_lem left (at + 1) value (put_cell vga at value) a ∙ ground arith

copy_row_in :
    (dst src i : ℕ) (vga : Cells)
    → i < 80
    → copy_row dst src vga (dst * 80 + i) ≡ vga (src * 80 + i)
unfolding copy_row
copy_row_in dst src i vga lt =
    let within : (leb (dst * 80) (dst * 80 + i) && ltb (dst * 80 + i) (dst * 80 + 80)) ≡ true =
      ground arith in
    rw within (ap vga (omega arith))

copy_row_ne :
    (dst src a : ℕ) (vga : Cells)
    → (a < dst * 80) ⊎ (dst * 80 + 80 ≤ a)
    → copy_row dst src vga a ≡ vga a
unfolding copy_row
copy_row_ne dst src a vga out =
    let outside : (leb (dst * 80) a && ltb a (dst * 80 + 80)) ≡ false = ground arith in rw outside

pub shift_up_ne :
    (left row a : ℕ) (vga : Cells)
    → (a < row * 80) ⊎ ((row + left) * 80 ≤ a)
    → shift_up left row vga a ≡ vga a
unfolding shift_up
shift_up_ne zero row a vga out = refl
shift_up_ne (suc left) row a vga out =
    shift_up_ne left (row + 1) a (copy_row row (row + 1) vga) (narrower out)
    ∙ copy_row_ne row (row + 1) a vga (omega arith)
  where
    narrower :
        (a < row * 80) ⊎ ((row + suc left) * 80 ≤ a)
        → (a < (row + 1) * 80) ⊎ ((row + 1 + left) * 80 ≤ a)
    narrower (inl h) = inl (omega arith)
    narrower (inr h) = inr (omega arith)

pub shift_up_in :
    (left row i col : ℕ) (vga : Cells)
    → i < left
    → col < 80
    → shift_up left row vga ((row + i) * 80 + col) ≡ vga ((row + i + 1) * 80 + col)
unfolding shift_up
shift_up_in zero row i col vga lt lt' = absurd (omega arith)
shift_up_in (suc left) row zero col vga lt lt' =
    shift_up_ne left (row + 1) ((row + 0) * 80 + col) (copy_row row (row + 1) vga)
      (inl (omega arith))
    ∙ ap (copy_row row (row + 1) vga) (omega arith)
    ∙ copy_row_in row (row + 1) col vga lt'
    ∙ ap vga (omega arith)
shift_up_in (suc left) row (suc i) col vga lt lt' =
    ap (shift_up left (row + 1) (copy_row row (row + 1) vga)) (omega arith)
    ∙ shift_up_in left (row + 1) i col (copy_row row (row + 1) vga) (omega arith) lt'
    ∙ copy_row_ne row (row + 1) ((row + 1 + i + 1) * 80 + col) vga (inr (omega arith))
    ∙ ap vga (omega arith)

pub shift_down_ne :
    (left row a : ℕ) (vga : Cells)
    → (a < (row + 1) * 80) ⊎ ((row + 1 + left) * 80 ≤ a)
    → shift_down left row vga a ≡ vga a
unfolding shift_down
shift_down_ne zero row a vga out = refl
shift_down_ne (suc left) row a vga out =
    shift_down_ne left row a (copy_row (row + suc left) (row + left) vga) (narrower out)
    ∙ copy_row_ne (row + suc left) (row + left) a vga (omega arith)
  where
    narrower :
        (a < (row + 1) * 80) ⊎ ((row + 1 + suc left) * 80 ≤ a)
        → (a < (row + 1) * 80) ⊎ ((row + 1 + left) * 80 ≤ a)
    narrower (inl h) = inl (omega arith)
    narrower (inr h) = inr (omega arith)

pub shift_down_in :
    (left row i col : ℕ) (vga : Cells)
    → i < left
    → col < 80
    → shift_down left row vga ((row + i + 1) * 80 + col) ≡ vga ((row + i) * 80 + col)
unfolding shift_down
shift_down_in zero row i col vga lt lt' = absurd (omega arith)
shift_down_in (suc left) row i col vga lt lt' = elim (ℕ_discrete i left) [
  | yes last ↦
      shift_down_ne left row ((row + i + 1) * 80 + col) (copy_row (row + suc left) (row + left) vga)
        (inr (omega arith))
      ∙ ap (copy_row (row + suc left) (row + left) vga) (omega arith)
      ∙ copy_row_in (row + suc left) (row + left) col vga lt'
      ∙ ap vga (omega arith)
  | no earlier ↦
      shift_down_in left row i col (copy_row (row + suc left) (row + left) vga) (omega arith) lt'
      ∙ copy_row_ne (row + suc left) (row + left) ((row + i) * 80 + col) vga (inl (omega arith))
]
