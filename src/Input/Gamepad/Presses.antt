-- ===== src/Input/Gamepad/Presses.antt =====
-- Buttons of a gamepad: EV_KEY in `evdev_handle_event` of src/input/evdev.c.
use moonlight_embedded_for_d.Base.{
  ℕ, ◌==◌, ℤ, pos, ◌==ℤ◌, ◌-ℤ◌, ◌/ℤ◌, leb_ℤ, Bool, false, not, ◌&&◌, Option, none, some, ◌∷◌,
  set_bit, clear_bit, if◌then◌else◌,
}
use moonlight_embedded_for_d.Input.Limelight.{
  at_rest, controller, MouseButton, left, middle, right, x1, x2, button_press, button_release,
}
use moonlight_embedded_for_d.Input.Mapping.{Mapping}
use moonlight_embedded_for_d.Input.Gamepad.State.{
  Gamepad, Outcome, finish, gamepad_code, mapped_buttons, evdev_update_byte, store_left_trigger,
  store_right_trigger, a_flag, b_flag, x_flag, lb_flag, rb_flag, play_flag,
}

-- The mouse button that stands for a button while the mouse is emulated.
unfoldable pub emulated_button : ℕ → Option MouseButton
emulated_button code =
    if code == a_flag
    then some left
    else if code == b_flag
    then some right
    else if code == x_flag
    then some middle
    else if code == lb_flag
    then some x1
    else if code == rb_flag
    then some x2
    else none

-- `ev->value` as a condition.
abbrev pub is_down : ℤ → Bool
is_down value = not (value ==ℤ pos 0)

-- `buttonFlags` after a button.
unfoldable pub with_button : ℕ → ℤ → ℕ → ℕ
with_button code value buttons =
    if is_down value then set_bit buttons code else clear_bit buttons code

-- Whether this is the end of a long press of Start, which switches the emulation of the mouse.
unfoldable pub switches : Bool → ℕ → ℤ → ℤ → ℤ → Bool
switches enabled code value time down_time =
    enabled
    && (code == play_flag && (value ==ℤ pos 0 && leb_ℤ (pos 750) ((time -ℤ down_time) /ℤ pos 1000)))

module _ {F : Type 0} where
  unfoldable pub switch_emulation : Gamepad F → Gamepad F
  switch_emulation g = record g {
    mouse_emulation = not g.mouse_emulation;
    sent = controller g.controller_id g.assigned at_rest ∷ g.sent;
  }

  unfoldable pub send_emulated : Option MouseButton → ℤ → Gamepad F → Gamepad F
  send_emulated none value g = g
  send_emulated (some b) value g = record g {
    sent = (if is_down value then button_press b else button_release b) ∷ g.sent;
  }

  -- The emulation of the mouse on a button: Start, when it may switch it, is no mouse button.
  unfoldable pub emulate : Bool → ℕ → ℤ → ℤ → Gamepad F → Gamepad F
  unfolding switches switch_emulation send_emulated emulated_button
  emulate enabled code value time g =
      if enabled && (code == play_flag && value ==ℤ pos 0)
      then if switches enabled code value time g.down_time then switch_emulation g else g
      else if g.mouse_emulation
      then send_emulated (emulated_button code) value g
      else g

  -- A button of the mapping.
  unfoldable pub press : Bool → ℕ → ℤ → ℤ → Gamepad F → Outcome F
  unfolding finish emulate with_button
  press enabled code value time g =
      let buttons = with_button code value g.controls.buttons in
      let down_time = if is_down value then time else g.down_time in
      finish (emulate enabled code value time (record g { down_time = down_time }))
        (record g.controls { buttons = buttons }, not (g.controls.buttons == buttons))

  -- A button that stands for a trigger, or none.
  unfoldable pub press_trigger : Mapping → ℤ → ℤ → Gamepad F → Outcome F
  unfolding finish evdev_update_byte
  press_trigger m index value g =
      let full = if is_down value then 255 else 0 in
      let c = g.controls in
      if index ==ℤ m.btn_lefttrigger
      then finish g (store_left_trigger c (evdev_update_byte c.left_trigger full))
      else if index ==ℤ m.btn_righttrigger
      then finish g (store_right_trigger c (evdev_update_byte c.right_trigger full))
      else finish g (c, false)

  unfoldable pub press_code : Bool → Mapping → Option ℕ → ℤ → ℤ → ℤ → Gamepad F → Outcome F
  unfolding press press_trigger
  press_code enabled m none index value time g = press_trigger m index value g
  press_code enabled m (some code) index value time g = press enabled code value time g

  -- EV_KEY with the index that `key_map` has for the code.
  unfoldable pub handle_button : Bool → Mapping → ℤ → ℤ → ℤ → Gamepad F → Outcome F
  unfolding press_code gamepad_code
  handle_button enabled m index value time g =
      press_code enabled m (gamepad_code index (mapped_buttons m)) index value time g
