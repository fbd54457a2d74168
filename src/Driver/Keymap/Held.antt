-- ===== src/Driver/Keymap/Held.antt =====
-- The keys that are held behind a sequence of scancodes.
use ipo_os.Common.{
  ℕ, ◌≡◌, refl, sym, ap, ◌∙◌, Bool, true, false, ◌&&◌, ◌||◌, List, [], ◌∷◌, arith, ◌==◌,
  if◌then◌else◌,
}
use mathlib.Core.Path.{ap₂}
use ipo_os.Driver.Keymap.{
  KeymapState, update_keys, update_key, update_hot_key_state, hot_key_handler,
  switch_to_next_keyboard, on_scancode, on_scancodes, sc_press_left_shift, sc_unpress_left_shift,
  sc_press_right_shift, sc_unpress_right_shift,
}

-- Whether a key is down behind the scancodes: what its last press or release says, and else `before`.
unfoldable pub held : (press release : ℕ) → List ℕ → (before : Bool) → Bool
held press release [] before = before
held press release (c ∷ cs) before =
    held press release cs (if c == press then true else if c == release then false else before)

left_shift :
    (c : ℕ) (keys : ℕ → Bool)
    → update_keys c keys 0x2A ≡ (if c == 0x2A then true else if c == 0xAA then false else keys 0x2A)
unfolding update_keys update_key
left_shift c keys = ground arith

right_shift :
    (c : ℕ) (keys : ℕ → Bool)
    → update_keys c keys 0x36 ≡ (if c == 0x36 then true else if c == 0xB6 then false else keys 0x36)
unfolding update_keys update_key
right_shift c keys = ground arith

on_scancode-keys :
    (count c : ℕ) (s : KeymapState) → (on_scancode count c s).key_state ≡ update_keys c s.key_state
unfolding on_scancode hot_key_handler switch_to_next_keyboard update_hot_key_state
on_scancode-keys count c s =
    go
      (update_keys c s.key_state 0x1D
        && (update_keys c s.key_state 0x2A || update_keys c s.key_state 0x36))
      _ _ refl refl
  where
    go :
        (b : Bool) (x y : KeymapState)
        → x.key_state ≡ update_keys c s.key_state
        → y.key_state ≡ update_keys c s.key_state
        → (if b then x else y).key_state ≡ update_keys c s.key_state
    go true x y p q = p
    go false x y p q = q

on_scancode-shift :
    (count c : ℕ) (s : KeymapState)
    → (on_scancode count c s).shift_mode
      ≡ (update_keys c s.key_state 0x2A || update_keys c s.key_state 0x36)
unfolding on_scancode hot_key_handler switch_to_next_keyboard update_hot_key_state
on_scancode-shift count c s =
    go
      (update_keys c s.key_state 0x1D
        && (update_keys c s.key_state 0x2A || update_keys c s.key_state 0x36))
      _ _ refl refl
  where
    go :
        (b : Bool) (x y : KeymapState)
        → x.shift_mode ≡ (update_keys c s.key_state 0x2A || update_keys c s.key_state 0x36)
        → y.shift_mode ≡ (update_keys c s.key_state 0x2A || update_keys c s.key_state 0x36)
        → (if b then x else y).shift_mode
          ≡ (update_keys c s.key_state 0x2A || update_keys c s.key_state 0x36)
    go true x y p q = p
    go false x y p q = q

-- Behind any scancodes the shifted keymap is in use exactly when a shift key is down, by the last press
-- or release of each of the two, provided that this was so before.
pub on_scancodes-held :
    (count : ℕ) (codes : List ℕ) (s : KeymapState)
    → s.shift_mode ≡ (s.key_state sc_press_left_shift || s.key_state sc_press_right_shift)
    → (on_scancodes count codes s).shift_mode ≡ (
        held sc_press_left_shift sc_unpress_left_shift codes (s.key_state sc_press_left_shift)
        || held sc_press_right_shift sc_unpress_right_shift codes
            (s.key_state sc_press_right_shift))
unfolding on_scancodes held
on_scancodes-held count [] s inv = inv
on_scancodes-held count (c ∷ cs) s inv =
    let keys = on_scancode-keys count c s in
    on_scancodes-held count cs (on_scancode count c s)
      (on_scancode-shift count c s ∙ sym (ap (λ (k : ℕ → Bool). k 0x2A || k 0x36) keys))
    ∙ ap₂ (λ (l r : Bool). held 0x2A 0xAA cs l || held 0x36 0xB6 cs r)
        (ap (λ (k : ℕ → Bool). k 0x2A) keys ∙ left_shift c s.key_state)
        (ap (λ (k : ℕ → Bool). k 0x36) keys ∙ right_shift c s.key_state)
