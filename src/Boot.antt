-- ===== src/Boot.antt =====
-- The start of the kernel, src/kernel/kernel32.c: the file system is mounted, or made and mounted, and
-- the startup sound is played. What `printf` prints is left out. `kmain` calls these between the
-- initialisation of the other parts, each of which is in its own module.
pub mod Mounted
mod Tests
use ipo_os.Common.{ℕ, ◌*◌, ◌==◌, if◌then◌else◌, some, none, List, [], ◌∷◌}
use ipo_os.Common.Action.{Act, pure, ◌>>=◌, ◌>>◌, attempt}
use ipo_os.Memory.{Mem}
use ipo_os.Driver.{Ports}
use ipo_os.Driver.Pit.{sound_play, sound_stop, wait}
use ipo_os.Fs.{Ata, Fs}
use ipo_os.Fs.Format.{ipo_fs_format, ipo_fs_mount}

abbrev pub fs_start_sector : ℕ
fs_start_sector = 2048

abbrev pub note_rest : ℕ
note_rest = 0

abbrev pub note_c6 : ℕ
note_c6 = 1047

abbrev pub note_e6 : ℕ
note_e6 = 1319

abbrev pub note_g6 : ℕ
note_g6 = 1568

abbrev pub note_c7 : ℕ
note_c7 = 2093

module _ {D : Type 0} (ata : Ata D) where
  -- `junk` and `tail` are those of `ipo_fs_format`.
  unfoldable pub ensure_fs_mounted : (junk tail : Mem) → Act (Fs D) (Unit {0})
  ensure_fs_mounted junk tail = do
    mounted ← attempt (ipo_fs_mount ata fs_start_sector)
    elim mounted [
      | some _ ↦ pure tt
      | none ↦ do
        formatted ← attempt (ipo_fs_format ata junk tail fs_start_sector 10000 1024)
        elim formatted [
          | none ↦ pure tt
          | some _ ↦ do attempt (ipo_fs_mount ata fs_start_sector); pure tt
        ]
    ]

-- The notes and their durations in milliseconds.
abbrev pub startup_sound : List (ℕ × ℕ)
startup_sound = (note_c6, 150) ∷ (note_e6, 150) ∷ (note_g6, 150) ∷ (note_c7, 200) ∷ []

module _ {D : Type 0} (ports : Ports D) (io_wait : D → D) where
  unfoldable pub play_note_smooth : (freq duration_ms : ℕ) → D → D
  play_note_smooth freq duration_ms d =
      let started =
        if freq == note_rest then sound_stop ports io_wait d else sound_play ports io_wait freq d in
      wait ports io_wait 20000
        (sound_stop ports io_wait (wait ports io_wait (duration_ms * 10000) started))

  unfoldable pub play_notes : List (ℕ × ℕ) → D → D
  play_notes [] d = d
  play_notes (n ∷ notes) d = play_notes notes (play_note_smooth n.0 n.1 d)

  unfoldable pub play_startup_sound : D → D
  play_startup_sound d = play_notes startup_sound d
