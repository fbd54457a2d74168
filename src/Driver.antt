-- ===== src/Driver.antt =====
-- The drivers, over port I/O (lib/h/ioport.h): the processor's `in` and `out` instructions and the
-- devices behind them are a parameter.
pub mod Ata
pub mod Keymap
pub mod Vga
pub mod Pit
mod Tests
use ipo_os.Common.{ℕ}

-- What reads and writes of a port do, `D` being the state of the devices.
pub record Ports (D : Type 0) : Type 0 where
  pub inb : ℕ → D → ℕ × D
  pub inw : ℕ → D → ℕ × D
  pub outb : ℕ → ℕ → D → D
  pub outw : ℕ → ℕ → D → D
