-- ===== src/Input/Gamepad/State.antt =====
-- What src/input/evdev.c keeps of a gamepad, and the buttons that a mapping gives it.
use moonlight_embedded_for_d.Base.{
  ℕ, ◌==◌, ℤ, pos, negsuc, ◌==ℤ◌, Bool, true, false, ◌&&◌, ◌||◌, Option, none, some, List, [], ◌∷◌,
  test_bit, if◌then◌else◌,
}
use moonlight_embedded_for_d.Input.Limelight.{Controls, at_rest, Sent, controller}
use moonlight_embedded_for_d.Input.Mapping.{Mapping}

-- The buttons of Limelight.h, by the number of their bit.
abbrev pub a_flag : ℕ
a_flag = 12

abbrev pub x_flag : ℕ
x_flag = 14

abbrev pub y_flag : ℕ
y_flag = 15

abbrev pub b_flag : ℕ
b_flag = 13

abbrev pub up_flag : ℕ
up_flag = 0

abbrev pub down_flag : ℕ
down_flag = 1

abbrev pub right_flag : ℕ
right_flag = 3

abbrev pub left_flag : ℕ
left_flag = 2

abbrev pub ls_clk_flag : ℕ
ls_clk_flag = 6

abbrev pub rs_clk_flag : ℕ
rs_clk_flag = 7

abbrev pub lb_flag : ℕ
lb_flag = 8

abbrev pub rb_flag : ℕ
rb_flag = 9

abbrev pub play_flag : ℕ
play_flag = 4

abbrev pub back_flag : ℕ
back_flag = 5

abbrev pub special_flag : ℕ
special_flag = 10

abbrev pub misc_flag : ℕ
misc_flag = 21

abbrev pub paddle1_flag : ℕ
paddle1_flag = 16

abbrev pub paddle2_flag : ℕ
paddle2_flag = 17

abbrev pub paddle3_flag : ℕ
paddle3_flag = 18

abbrev pub paddle4_flag : ℕ
paddle4_flag = 19

abbrev pub touchpad_flag : ℕ
touchpad_flag = 20

-- The comparisons of an index with the buttons of a mapping, in their order.
abbrev pub mapped_buttons : Mapping → List (ℤ × ℕ)
mapped_buttons m =
    (m.btn_a, a_flag)
    ∷ (m.btn_x, x_flag)
    ∷ (m.btn_y, y_flag)
    ∷ (m.btn_b, b_flag)
    ∷ (m.btn_dpup, up_flag)
    ∷ (m.btn_dpdown, down_flag)
    ∷ (m.btn_dpright, right_flag)
    ∷ (m.btn_dpleft, left_flag)
    ∷ (m.btn_leftstick, ls_clk_flag)
    ∷ (m.btn_rightstick, rs_clk_flag)
    ∷ (m.btn_leftshoulder, lb_flag)
    ∷ (m.btn_rightshoulder, rb_flag)
    ∷ (m.btn_start, play_flag)
    ∷ (m.btn_back, back_flag)
    ∷ (m.btn_guide, special_flag)
    ∷ (m.btn_misc1, misc_flag)
    ∷ (m.btn_paddle1, paddle1_flag)
    ∷ (m.btn_paddle2, paddle2_flag)
    ∷ (m.btn_paddle3, paddle3_flag)
    ∷ (m.btn_paddle4, paddle4_flag)
    ∷ (m.btn_touchpad, touchpad_flag)
    ∷ []

-- `gamepadCode`: the first button that has the index.
unfoldable pub gamepad_code : ℤ → List (ℤ × ℕ) → Option ℕ
gamepad_code index [] = none
gamepad_code index ((i, flag) ∷ rest) = if index ==ℤ i then some flag else gamepad_code index rest

-- `struct input_device` as far as a gamepad needs it, with `assignedControllerIds`, and the calls so
-- far. `down_time` is in microseconds, and so are the times of events.
pub record Gamepad (F : Type 0) : Type 0 where
  pub controller_id : ℤ
  pub assigned : ℕ
  pub controls : Controls
  pub hats : List (ℤ × ℤ)
  pub modified : Bool
  pub mouse_emulation : Bool
  pub down_time : ℤ
  pub sent : List (Sent F)

-- What `evdev_create` leaves, while the mask says which numbers other gamepads have.
abbrev pub new_gamepad : {F : Type 0} → ℕ → Gamepad F
new_gamepad mask = record {
  controller_id = negsuc 0;
  assigned = mask;
  controls = at_rest;
  hats = (pos 0, pos 0) ∷ (pos 0, pos 0) ∷ (pos 0, pos 0) ∷ [];
  modified = false;
  mouse_emulation = false;
  down_time = pos 0;
  sent = [];
}

-- The result of `evdev_handle_event`: true for goes_on.
pub data Outcome (F : Type 0) : Type 0 where
  goes_on : Gamepad F → Outcome F
  quits : Gamepad F → Outcome F

-- `buttonFlags & QUIT_BUTTONS`, all of them.
unfoldable pub has_quit : ℕ → Bool
has_quit buttons =
    test_bit buttons play_flag
    && (test_bit buttons back_flag && (test_bit buttons lb_flag && test_bit buttons rb_flag))

-- `gamepadModified` and the controls that an event leaves.
abbrev pub Change : Type 0
Change = Controls × Bool

-- `evdev_update_byte`: what is stored, and whether that is new.
unfoldable pub evdev_update_byte : ℕ → ℕ → ℕ × Bool
evdev_update_byte target value = if target == value then (target, false) else (value, true)

unfoldable pub evdev_update_short : ℤ → ℤ → ℤ × Bool
evdev_update_short target value = if target ==ℤ value then (target, false) else (value, true)

-- A value stored.
abbrev pub store_left_trigger : Controls → ℕ × Bool → Change
store_left_trigger c (v, changed) = (record c { left_trigger = v }, changed)

abbrev pub store_right_trigger : Controls → ℕ × Bool → Change
store_right_trigger c (v, changed) = (record c { right_trigger = v }, changed)

abbrev pub store_left_stick_x : Controls → ℤ × Bool → Change
store_left_stick_x c (v, changed) = (record c { left_stick_x = v }, changed)

abbrev pub store_left_stick_y : Controls → ℤ × Bool → Change
store_left_stick_y c (v, changed) = (record c { left_stick_y = v }, changed)

abbrev pub store_right_stick_x : Controls → ℤ × Bool → Change
store_right_stick_x c (v, changed) = (record c { right_stick_x = v }, changed)

abbrev pub store_right_stick_y : Controls → ℤ × Bool → Change
store_right_stick_y c (v, changed) = (record c { right_stick_y = v }, changed)

-- The end of `evdev_handle_event`, on what the event left.
unfoldable pub finish : {F : Type 0} → Gamepad F → Change → Outcome F
unfolding has_quit
finish g (controls, changed) =
    if changed && has_quit controls.buttons
    then quits (record g {
      controls = controls;
      sent = controller g.controller_id g.assigned at_rest ∷ g.sent;
    })
    else goes_on (record g { controls = controls; modified = g.modified || changed })
