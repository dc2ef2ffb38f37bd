-- ===== src/Input/Keyboard.antt =====
-- Keyboards in src/input/evdev.c: EV_KEY of a key in `evdev_handle_event`, and the combination that
-- quits.
pub mod Codes
pub mod Quit
mod Tests
use moonlight_embedded_for_d.Base.{
  ℕ, ◌+◌, ◌==◌, ltb, ℤ, pos, ◌==ℤ◌, Bool, true, false, not, ◌&&◌, ◌||◌, Option, none, some, List,
  [], ◌∷◌, get_or, set_bit, clear_bit, test_bit, if◌then◌else◌,
}
use moonlight_embedded_for_d.Input.Limelight.{Sent, key_down, key_up}
use moonlight_embedded_for_d.Input.Keyboard.Codes.{key_codes, key_count}

-- `modifiers` of a device, `waitingToExitOnModifiersUp`, and the calls so far.
pub record Keyboard (F : Type 0) : Type 0 where
  pub modifiers : ℕ
  pub waiting : Bool
  pub sent : List (Sent F)

-- The bit of a modifier: MODIFIER_SHIFT is 1, MODIFIER_CTRL 2, MODIFIER_ALT 4 and MODIFIER_META 8.
unfoldable pub modifier_of : ℕ → Option ℕ
modifier_of code =
    if code == 42 || code == 54
    then some 0
    else if code == 56 || code == 100
    then some 2
    else if code == 29 || code == 97
    then some 1
    else if code == 125 || code == 126
    then some 3
    else none

unfoldable pub with_modifier : Option ℕ → ℤ → ℕ → ℕ
with_modifier none value mask = mask
with_modifier (some bit) value mask =
    if value ==ℤ pos 0 then clear_bit mask bit else set_bit mask bit

-- All of ACTION_MODIFIERS.
unfoldable pub all_held : ℕ → Bool
all_held mask = test_bit mask 0 && (test_bit mask 1 && test_bit mask 2)

-- KEY_Q
abbrev pub quit_key : ℕ
quit_key = 16

module _ {F : Type 0} where
  -- A key with a virtual key goes to the host, marked by the upper bit of a `short`.
  unfoldable pub send_key : ℕ → ℤ → Keyboard F → Keyboard F
  send_key code value k =
      let key = get_or key_codes code 0 in
      if key == 0
      then k
      else if value ==ℤ pos 0
      then record k { sent = key_up (0x8000 + key) k.modifiers ∷ k.sent }
      else record k { sent = key_down (0x8000 + key) k.modifiers ∷ k.sent }

  -- EV_KEY; false ends the stream. The codes behind the table are buttons.
  unfoldable pub handle_key : ℕ → ℤ → Keyboard F → Keyboard F × Bool
  handle_key code value k =
      let held = record k { modifiers = with_modifier (modifier_of code) value k.modifiers } in
      if ltb code key_count
      then if all_held held.modifiers && (code == quit_key && not (value ==ℤ pos 0))
        then (record held { waiting = true }, true)
        else if held.waiting && held.modifiers == 0
        then (held, false)
        else (send_key code value held, true)
      else (k, true)

  -- Keys one after the other, until the stream ends.
  unfoldable pub handle_keys : List (ℕ × ℤ) → Keyboard F → Keyboard F × Bool
  handle_keys [] k = (k, true)
  handle_keys ((code, value) ∷ keys) k =
      let rest = handle_keys keys (handle_key code value k).0 in
      if (handle_key code value k).1 then rest else ((handle_key code value k).0, false)
