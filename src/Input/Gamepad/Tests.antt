-- ===== src/Input/Gamepad/Tests.antt =====
-- Gamepads on concrete events.
use moonlight_embedded_for_d.Base.{
  ℕ, pos, negsuc, ◌+ℤ◌, ◌≡◌, refl, Bool, true, false, arith, some, test_bit, chars, set_bit,
}
use moonlight_embedded_for_d.Input.Limelight.{at_rest, host_controls}
use moonlight_embedded_for_d.Input.Mapping.{Mapping, unmapped}
use moonlight_embedded_for_d.Input.Axes.{AbsParms}
use moonlight_embedded_for_d.Input.Gamepad.State.{Gamepad, new_gamepad, gamepad_code}
use moonlight_embedded_for_d.Input.Gamepad.Motions.Hats.{hat_state-directions}
use moonlight_embedded_for_d.Input.Gamepad.Motions.{hat_sign, points, AxisParms, hat_state}
use moonlight_embedded_for_d.Input.Gamepad.Arrival.{
  Identity, controller_type, supported_flags, announced_buttons,
}
use moonlight_embedded_for_d.Input.Gamepad.Arrival.Announced.{gamepad_code-announced}
use moonlight_embedded_for_d.Input.Gamepad.Events.{
  button, flush, handle_event, plausible, Reach, plugged, handled,
}
use moonlight_embedded_for_d.Input.Gamepad.Events.View.{flush-Shown}

abbrev four_buttons : Mapping
four_buttons = record (unmapped (chars "03") (chars "pad")) {
  btn_a = pos 0;
  btn_start = pos 1;
  btn_back = pos 2;
  btn_leftshoulder = pos 3;
  btn_rightshoulder = pos 4;
  hat_dpup = pos 0;
  hat_dir_dpup = pos 1;
}

abbrev no_axis : AbsParms
no_axis = record {
  flat = pos 0;
  min = pos 0;
  max = pos 0;
  avg = pos 0;
  range = pos 0;
  diff = pos 0;
}

abbrev no_axes : AxisParms
no_axes = record {
  x = no_axis;
  y = no_axis;
  rx = no_axis;
  ry = no_axis;
  z = no_axis;
  rz = no_axis;
  left = no_axis;
  right = no_axis;
  up = no_axis;
  down = no_axis;
}

abbrev x_pad : Identity
x_pad = record { vendor = 0x1234; name = some (chars "Generic X-Box pad") }

knows_x_box : controller_type x_pad ≡ 1
unfolding controller_type
knows_x_box = refl

hat_up_left : hat_state (negsuc 0, negsuc 0) ≡ 9
unfolding hat_state ◌+ℤ◌
hat_up_left = refl

-- The gamepad with a mask of buttons that were not yet reported, the last one pressed at `time`.
abbrev pressed : ℕ → ℕ → Gamepad Bool
pressed mask time = record (new_gamepad 0) {
  controls = record at_rest { buttons = mask };
  modified = true;
  down_time = pos time;
}

abbrev PadRun : Gamepad Bool → Type 0
PadRun = Reach true four_buttons no_axes x_pad

abbrev after_start : PadRun (pressed 16 5)
unfolding handle_event plausible set_bit test_bit
after_start =
    handled {g = new_gamepad 0} {h = pressed 16 5} (plugged 0) (button (pos 1) (pos 1) (pos 5)) refl
      refl

abbrev after_back : PadRun (pressed 48 6)
unfolding handle_event plausible set_bit test_bit
after_back =
    handled {g = pressed 16 5} {h = pressed 48 6} after_start (button (pos 2) (pos 1) (pos 6)) refl
      refl

abbrev after_lb : PadRun (pressed 304 7)
unfolding handle_event plausible set_bit test_bit
after_lb =
    handled {g = pressed 48 6} {h = pressed 304 7} after_back (button (pos 3) (pos 1) (pos 7)) refl
      refl

flush-Shown_example :
    host_controls (flush four_buttons x_pad (pressed 304 7)).sent ≡ (pressed 304 7).controls
flush-Shown_example = flush-Shown true four_buttons no_axes x_pad (pressed 304 7) after_lb refl

gamepad_code-announced_example :
    test_bit (supported_flags (announced_buttons four_buttons)) 8 ≡ true
unfolding gamepad_code
gamepad_code-announced_example =
    gamepad_code-announced four_buttons (pos 3) 8 (omega arith) (omega arith) refl

hat_state-directions_example :
    (points (hat_state (hat_sign (negsuc 4), hat_sign (pos 7))) (pos 1) ≡ false)
    × (points (hat_state (hat_sign (negsuc 4), hat_sign (pos 7))) (pos 4) ≡ true)
    × (points (hat_state (hat_sign (negsuc 4), hat_sign (pos 7))) (pos 8) ≡ true)
    × (points (hat_state (hat_sign (negsuc 4), hat_sign (pos 7))) (pos 2) ≡ false)
hat_state-directions_example = hat_state-directions (negsuc 4) (pos 7)
