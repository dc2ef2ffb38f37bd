-- ===== src/Input/Gamepad/Motions.antt =====
-- Axes and hats of a gamepad: EV_ABS in `evdev_handle_event` of src/input/evdev.c.
pub mod Marked
pub mod Hats
use moonlight_embedded_for_d.Base.{
  ℕ, ◌==◌, ltb, ℤ, pos, negsuc, pos_part, ◌==ℤ◌, ◌+ℤ◌, ltb_ℤ, Bool, false, not, ◌||◌, List, [], ◌∷◌,
  set_bit, clear_bit, bit_and, get_or, set, if◌then◌else◌,
}
use moonlight_embedded_for_d.Input.Limelight.{Controls}
use moonlight_embedded_for_d.Input.Mapping.{Mapping}
use moonlight_embedded_for_d.Input.Axes.{AbsParms, evdev_convert_value, evdev_convert_value_byte}
use moonlight_embedded_for_d.Input.Gamepad.State.{
  Gamepad, Outcome, Change, finish, evdev_update_byte, evdev_update_short, store_left_stick_x,
  store_left_stick_y, store_right_stick_x, store_right_stick_y, up_flag, down_flag, left_flag,
  right_flag,
}

-- The ranges of the axes, as `evdev_init_parms` read them.
pub record AxisParms : Type 0 where
  pub x : AbsParms
  pub y : AbsParms
  pub rx : AbsParms
  pub ry : AbsParms
  pub z : AbsParms
  pub rz : AbsParms
  pub left : AbsParms
  pub right : AbsParms
  pub up : AbsParms
  pub down : AbsParms

-- The hats that `hats_state` has room for.
pub data Hat : Type 0 where
  hat0 hat1 hat2 : Hat

abbrev pub hat_index : Hat → ℕ
hat_index hat0 = 0
hat_index hat1 = 1
hat_index hat2 = 2

unfoldable pub hat_constants : List (List ℕ)
hat_constants = (9 ∷ 1 ∷ 3 ∷ []) ∷ (8 ∷ 0 ∷ 2 ∷ []) ∷ (12 ∷ 4 ∷ 6 ∷ []) ∷ []

-- A direction of a hat, as -1, 0 or 1.
unfoldable pub hat_sign : ℤ → ℤ
hat_sign value = if ltb_ℤ value (pos 0) then negsuc 0 else if value ==ℤ pos 0 then pos 0 else pos 1

-- `hats_state` after a value on the X or Y axis of a hat.
unfoldable pub with_hat : Hat → Bool → ℤ → List (ℤ × ℤ) → List (ℤ × ℤ)
unfolding hat_sign
with_hat hat is_y value hats =
    let (x, y) = get_or hats (hat_index hat) (pos 0, pos 0) in
    set hats (hat_index hat) (if is_y then (x, hat_sign value) else (hat_sign value, y))

-- The directions that a hat points to.
unfoldable pub hat_state : ℤ × ℤ → ℕ
unfolding hat_constants
hat_state (x, y) =
    get_or (get_or hat_constants (pos_part (y +ℤ pos 1)) []) (pos_part (x +ℤ pos 1)) 0

-- `(hat & hat_flag) == hat_flag`; with a negative flag, the right side is negative and the left not.
unfoldable pub points : ℕ → ℤ → Bool
points hat (pos flag) = bit_and hat flag == flag
points hat (negsuc flag) = false

-- `set_hat`, if the direction belongs to this hat.
unfoldable pub set_hat : Hat → ℤ → ℤ → ℕ → ℕ → ℕ → ℕ
unfolding points
set_hat hat of_hat dir state flag buttons =
    if pos (hat_index hat) ==ℤ of_hat
    then if points state dir then set_bit buttons flag else clear_bit buttons flag
    else buttons

unfoldable pub hat_buttons : Mapping → Hat → ℕ → ℕ → ℕ
unfolding set_hat
hat_buttons m hat state buttons = set_hat hat m.hat_dpleft m.hat_dir_dpleft state left_flag (
    set_hat hat m.hat_dpright m.hat_dir_dpright state right_flag (
      set_hat hat m.hat_dpdown m.hat_dir_dpdown state down_flag
        (set_hat hat m.hat_dpup m.hat_dir_dpup state up_flag buttons)))

unfoldable pub move_stick : Mapping → AxisParms → ℤ → ℤ → Controls → Change
unfolding evdev_convert_value evdev_update_short
move_stick m p index value c =
    if index ==ℤ m.abs_leftx
    then store_left_stick_x c
        (evdev_update_short c.left_stick_x (evdev_convert_value p.x m.reverse_leftx value))
    else if index ==ℤ m.abs_lefty
    then store_left_stick_y c
        (evdev_update_short c.left_stick_y (evdev_convert_value p.y (not m.reverse_lefty) value))
    else if index ==ℤ m.abs_rightx
    then store_right_stick_x c
        (evdev_update_short c.right_stick_x (evdev_convert_value p.rx m.reverse_rightx value))
    else if index ==ℤ m.abs_righty
    then store_right_stick_y c
        (evdev_update_short c.right_stick_y (evdev_convert_value p.ry (not m.reverse_righty) value))
    else (c, false)

unfoldable pub move_lefttrigger : Mapping → AxisParms → ℤ → ℤ → Change → Change
unfolding evdev_convert_value_byte evdev_update_byte
move_lefttrigger m p index value (c, changed) =
    let (v, moves) =
      evdev_update_byte c.left_trigger
        (evdev_convert_value_byte p.z m.halfaxis_lefttrigger value) in
    if index ==ℤ m.abs_lefttrigger
    then (record c { left_trigger = v }, changed || moves)
    else (c, changed)

unfoldable pub move_righttrigger : Mapping → AxisParms → ℤ → ℤ → Change → Change
unfolding evdev_convert_value_byte evdev_update_byte
move_righttrigger m p index value (c, changed) =
    let (v, moves) =
      evdev_update_byte c.right_trigger
        (evdev_convert_value_byte p.rz m.halfaxis_righttrigger value) in
    if index ==ℤ m.abs_righttrigger
    then (record c { right_trigger = v }, changed || moves)
    else (c, changed)

-- A direction of the pad on an axis: its index in the mapping, its half, its range and its button.
unfoldable pub move_direction : ℤ → ℕ → AbsParms → ℕ → ℤ → ℤ → Change → Change
unfolding evdev_convert_value_byte
move_direction of_index halfaxis p flag index value (c, changed) =
    let buttons =
      if ltb 127 (evdev_convert_value_byte p halfaxis value)
      then set_bit c.buttons flag
      else clear_bit c.buttons flag in
    if index ==ℤ of_index
    then (record c { buttons = buttons }, changed || not (c.buttons == buttons))
    else (c, changed)

-- The axes that are no hats.
unfoldable pub move_axis : Mapping → AxisParms → ℤ → ℤ → Controls → Change
unfolding move_stick move_lefttrigger move_righttrigger move_direction
move_axis m p index value c =
    move_direction m.abs_dpdown m.halfaxis_dpdown p.down down_flag index value (
      move_direction m.abs_dpup m.halfaxis_dpup p.up up_flag index value (
        move_direction m.abs_dpleft m.halfaxis_dpleft p.left left_flag index value (
          move_direction m.abs_dpright m.halfaxis_dpright p.right right_flag index value (
            move_righttrigger m p index value
              (move_lefttrigger m p index value (move_stick m p index value c))))))

module _ {F : Type 0} where
  unfoldable pub handle_hat : Mapping → Hat → Bool → ℤ → Gamepad F → Outcome F
  unfolding finish hat_buttons hat_state with_hat
  handle_hat m hat is_y value g =
      let hats = with_hat hat is_y value g.hats in
      let c = g.controls in
      let buttons =
        hat_buttons m hat (hat_state (get_or hats (hat_index hat) (pos 0, pos 0))) c.buttons in
      finish (record g { hats = hats }) (record c { buttons = buttons }, not (c.buttons == buttons))

  -- EV_ABS with the index that `abs_map` has for the code.
  unfoldable pub handle_axis : Mapping → AxisParms → ℤ → ℤ → Gamepad F → Outcome F
  unfolding finish move_axis
  handle_axis m p index value g = finish g (move_axis m p index value g.controls)
