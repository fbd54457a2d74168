-- ===== src/Driver/Tests.antt =====
-- Runs of the drivers.
use ipo_os.Driver.Ata.Drive.{Drive}
use ipo_os.Common.{ℕ, ◌+◌, ◌*◌, ◌≡◌, refl, true, false, ◌||◌, [], ◌∷◌}
use ipo_os.Memory.{zeros}
use ipo_os.Driver.{Ports}
use ipo_os.Driver.Ata.{ata_read_sectors_lba28}
use ipo_os.Driver.Ata.Bounds.{Keeps, ata_read_sectors_lba28-Keeps}
use ipo_os.Driver.Keymap.{
  KeymapState, on_scancode, on_scancodes, hot_key_handler, update_hot_key_state, update_keys,
  update_key, switch_to_next_keyboard,
}
use ipo_os.Driver.Keymap.Held.{held, on_scancodes-held}

-- A device that is always ready and whose every word is 0x4141; its state counts the words read.
abbrev ready : Ports ℕ
ready = record {
  inb = λ port n. (0x08, n);
  inw = λ port n. (0x4141, n + 1);
  outb = λ port v n. n;
  outw = λ port v n. n;
}

ata_read_sectors_lba28-Keeps_example :
    Keeps
      (512 * 1)
      zeros
      (ata_read_sectors_lba28 ready 7 1 zeros (record { io = 0; ata_device_count = 1 })).0
ata_read_sectors_lba28-Keeps_example =
    ata_read_sectors_lba28-Keeps ready 7 1 zeros (record { io = 0; ata_device_count = 1 })

abbrev released : KeymapState
released = record { key_state = λ k. false; shift_mode = false; current_index = 0 }

-- Both shift keys go down, the left one comes up.
on_scancodes-held_example : (on_scancodes 1 (0x2A ∷ 0x36 ∷ 0xAA ∷ []) released).shift_mode ≡ (
    held 0x2A 0xAA (0x2A ∷ 0x36 ∷ 0xAA ∷ []) false
    || held 0x36 0xB6 (0x2A ∷ 0x36 ∷ 0xAA ∷ []) false)
on_scancodes-held_example = on_scancodes-held 1 (0x2A ∷ 0x36 ∷ 0xAA ∷ []) released refl

still_shifted : (on_scancodes 1 (0x2A ∷ 0x36 ∷ 0xAA ∷ []) released).shift_mode ≡ true
unfolding on_scancodes on_scancode hot_key_handler update_hot_key_state update_keys update_key
    switch_to_next_keyboard
still_shifted = refl
