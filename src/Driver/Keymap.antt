-- ===== src/Driver/Keymap.antt =====
-- Hot keys, lib/c/driver/input/keymaps/keymap.c.
pub mod Held
use ipo_os.Common.{ℕ, ◌+◌, Bool, true, false, ◌&&◌, ◌||◌, List, [], ◌∷◌, leb, ◌==◌, if◌then◌else◌}

abbrev pub sc_press_left_shift : ℕ
sc_press_left_shift = 0x2A

abbrev pub sc_unpress_left_shift : ℕ
sc_unpress_left_shift = 0xAA

abbrev pub sc_press_right_shift : ℕ
sc_press_right_shift = 0x36

abbrev pub sc_unpress_right_shift : ℕ
sc_unpress_right_shift = 0xB6

abbrev pub sc_press_ctrl : ℕ
sc_press_ctrl = 0x1D

abbrev pub sc_unpress_ctrl : ℕ
sc_unpress_ctrl = 0x9D

abbrev pub sc_press_alt : ℕ
sc_press_alt = 0x38

abbrev pub sc_unpress_alt : ℕ
sc_unpress_alt = 0xB8

-- `struct keyboard_struct` less its name: what a scancode types, without and with shift.
pub record Keyboard : Type 0 where
  pub keymap : ℕ → ℕ
  pub shift_keymap : ℕ → ℕ

pub record KeymapState : Type 0 where
  pub key_state : ℕ → Bool
  pub shift_mode : Bool
  pub current_index : ℕ

-- `if (scancode == sc) key_state[key] = value`.
unfoldable pub update_key : (scancode sc key : ℕ) → Bool → (ℕ → Bool) → ℕ → Bool
update_key scancode sc key value keys k = if (scancode == sc) && (k == key) then value else keys k

unfoldable pub update_keys : ℕ → (ℕ → Bool) → ℕ → Bool
update_keys scancode keys =
    let a = update_key scancode sc_press_left_shift sc_press_left_shift true keys in
    let b = update_key scancode sc_unpress_left_shift sc_press_left_shift false a in
    let c = update_key scancode sc_press_right_shift sc_press_right_shift true b in
    let d = update_key scancode sc_unpress_right_shift sc_press_right_shift false c in
    let e = update_key scancode sc_press_ctrl sc_press_ctrl true d in
    let f = update_key scancode sc_unpress_ctrl sc_press_ctrl false e in
    let g = update_key scancode sc_press_alt sc_press_alt true f in
    update_key scancode sc_unpress_alt sc_press_alt false g

unfoldable pub update_hot_key_state : ℕ → KeymapState → KeymapState
update_hot_key_state scancode s = record s { key_state = update_keys scancode s.key_state }

-- `count` is `keyboards_count`.
unfoldable pub switch_to_next_keyboard : ℕ → KeymapState → KeymapState
switch_to_next_keyboard count s = record s {
  current_index = if leb count (s.current_index + 1) then 0 else s.current_index + 1;
}

unfoldable pub hot_key_handler : (count scancode : ℕ) → KeymapState → KeymapState
hot_key_handler count scancode s =
    let shift = s.key_state sc_press_left_shift || s.key_state sc_press_right_shift in
    let held = record s { shift_mode = shift } in
    if s.key_state sc_press_ctrl && shift then switch_to_next_keyboard count held else held

-- What the terminal does with a scancode.
unfoldable pub on_scancode : (count scancode : ℕ) → KeymapState → KeymapState
on_scancode count scancode s = hot_key_handler count scancode (update_hot_key_state scancode s)

unfoldable pub on_scancodes : (count : ℕ) → List ℕ → KeymapState → KeymapState
on_scancodes count [] s = s
on_scancodes count (c ∷ cs) s = on_scancodes count cs (on_scancode count c s)

unfoldable pub get_char : Keyboard → ℕ → KeymapState → ℕ
get_char keyboard scancode s =
    if scancode == 0
    then 0
    else if s.shift_mode
    then keyboard.shift_keymap scancode
    else keyboard.keymap scancode
