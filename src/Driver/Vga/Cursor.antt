-- ===== src/Driver/Vga/Cursor.antt =====
-- The cursor of a display controller in order.
use ipo_os.Common.{ℕ, ◌+◌, ◌*◌, ◌/◌, ◌%◌, ◌<◌, ◌≡◌, ap, ◌∙◌, arith, ◌==◌, if◌then◌else◌}
use ipo_os.Driver.{Ports}
use mathlib.Core.Path.{ap₂}
use ipo_os.Driver.Vga.{vga_set_cursor, vga_get_cursor_position}

-- A display controller in order: a write to the first port selects a register, the second port reads
-- and writes the register that is selected, and registers hold bytes.
pub record IsCrtc {D : Type 0} (ports : Ports D) : Type 0 where
  pub index : D → ℕ
  pub register : D → ℕ → ℕ
  pub selects : (v : ℕ) (d : D) → index (ports.outb 0x3D4 v d) ≡ v
  pub selects-register : (v i : ℕ) (d : D) → register (ports.outb 0x3D4 v d) i ≡ register d i
  pub writes-index : (v : ℕ) (d : D) → index (ports.outb 0x3D5 v d) ≡ index d
  pub writes :
      (v i : ℕ) (d : D)
      → v < 256
      → register (ports.outb 0x3D5 v d) i ≡ (if index d == i then v else register d i)
  pub reads : (d : D) → (ports.inb 0x3D5 d).0 ≡ register d (index d)
  pub reads-index : (d : D) → index (ports.inb 0x3D5 d).1 ≡ index d
  pub reads-register : (i : ℕ) (d : D) → register (ports.inb 0x3D5 d).1 i ≡ register d i

module _ {D : Type 0} (ports : Ports D) (crtc : IsCrtc ports) where
  -- The cursor that the registers hold.
  abbrev pub cursor : D → ℕ
  cursor d = crtc.register d 0x0E * 256 + crtc.register d 0x0F

  write_register :
      (r v i : ℕ) (d : D)
      → v < 256
      → crtc.register (ports.outb 0x3D5 v (ports.outb 0x3D4 r d)) i
        ≡ (if r == i then v else crtc.register d i)
  write_register r v i d lt =
      crtc.writes v i (ports.outb 0x3D4 r d) lt
      ∙ ap₂ (λ (k x : ℕ). if k == i then v else x) (crtc.selects r d) (crtc.selects-register r i d)

  read_register : (r : ℕ) (d : D) → (ports.inb 0x3D5 (ports.outb 0x3D4 r d)).0 ≡ crtc.register d r
  read_register r d =
      crtc.reads (ports.outb 0x3D4 r d)
      ∙ ap (crtc.register (ports.outb 0x3D4 r d)) (crtc.selects r d)
      ∙ crtc.selects-register r r d

  read_keeps :
      (r i : ℕ) (d : D)
      → crtc.register (ports.inb 0x3D5 (ports.outb 0x3D4 r d)).1 i ≡ crtc.register d i
  read_keeps r i d = crtc.reads-register i (ports.outb 0x3D4 r d) ∙ crtc.selects-register r i d

  -- `vga_get_cursor_position` returns the cursor and leaves it where it is.
  pub vga_get_cursor_position-cursor :
      (d : D)
      → ((vga_get_cursor_position ports d).0 ≡ cursor d)
        × (cursor (vga_get_cursor_position ports d).1 ≡ cursor d)
  unfolding vga_get_cursor_position
  vga_get_cursor_position-cursor d =
      let d1 = (ports.inb 0x3D5 (ports.outb 0x3D4 0x0E d)).1 in
      (
        omega (arith, read_register 0x0E d, read_register 0x0F d1, read_keeps 0x0E 0x0F d),
        omega (
          arith,
          read_keeps 0x0E 0x0E d,
          read_keeps 0x0E 0x0F d,
          read_keeps 0x0F 0x0E d1,
          read_keeps 0x0F 0x0F d1,
        ),
      )

  pub cursor-vga_set_cursor : (c : ℕ) (d : D) → c < 65536 → cursor (vga_set_cursor ports c d) ≡ c
  unfolding vga_set_cursor
  cursor-vga_set_cursor c d lt =
      let d1 = ports.outb 0x3D5 (c / 256 % 256) (ports.outb 0x3D4 0x0E d) in
      omega (
        arith,
        write_register 0x0E (c / 256 % 256) 0x0E d (omega arith),
        write_register 0x0F (c % 256) 0x0E d1 (omega arith),
        write_register 0x0F (c % 256) 0x0F d1 (omega arith),
      )
