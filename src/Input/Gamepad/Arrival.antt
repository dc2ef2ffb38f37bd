-- ===== src/Input/Gamepad/Arrival.antt =====
-- What the host is told of a new gamepad: `send_controller_arrival` of src/input/evdev.c.
pub mod Announced
use moonlight_embedded_for_d.Base.{
  ℕ, ◌+◌, ◌==◌, ℤ, pos, leb_ℤ, Bool, true, false, ◌&&◌, ◌||◌, Option, none, some, List, [], ◌∷◌,
  Text, chars, set_bit, contains, if◌then◌else◌,
}
use moonlight_embedded_for_d.Input.Mapping.{Mapping}
use moonlight_embedded_for_d.Input.Gamepad.State.{
  a_flag, b_flag, x_flag, y_flag, back_flag, play_flag, special_flag, ls_clk_flag, rs_clk_flag,
  lb_flag, rb_flag, misc_flag, paddle1_flag, paddle2_flag, paddle3_flag, paddle4_flag,
  touchpad_flag,
}

-- What libevdev knows of a device.
pub record Identity : Type 0 where
  pub vendor : ℕ
  pub name : Option Text

unfoldable pub xbox_name : Option Text → Bool
unfolding contains
xbox_name none = false
xbox_name (some name) =
    contains name (chars "Xbox")
    || (contains name (chars "X-Box")
        || (contains name (chars "XBox") || contains name (chars "XBOX")))

-- LI_CTYPE_XBOX is 1, LI_CTYPE_NINTENDO 3 and LI_CTYPE_UNKNOWN 0.
unfoldable pub controller_type : Identity → ℕ
unfolding xbox_name
controller_type d =
    if d.vendor == 0x045e
    then 1
    else if d.vendor == 0x054c
    then 1
    else if d.vendor == 0x057e
    then 3
    else if xbox_name d.name
    then 1
    else 0

-- The buttons that SET_BTN_FLAG asks for.
abbrev pub announced_buttons : Mapping → List (ℤ × ℕ)
announced_buttons m =
    (m.btn_a, a_flag)
    ∷ (m.btn_b, b_flag)
    ∷ (m.btn_x, x_flag)
    ∷ (m.btn_y, y_flag)
    ∷ (m.btn_back, back_flag)
    ∷ (m.btn_start, play_flag)
    ∷ (m.btn_guide, special_flag)
    ∷ (m.btn_leftstick, ls_clk_flag)
    ∷ (m.btn_rightstick, rs_clk_flag)
    ∷ (m.btn_leftshoulder, lb_flag)
    ∷ (m.btn_rightshoulder, rb_flag)
    ∷ (m.btn_misc1, misc_flag)
    ∷ (m.btn_paddle1, paddle1_flag)
    ∷ (m.btn_paddle2, paddle2_flag)
    ∷ (m.btn_paddle3, paddle3_flag)
    ∷ (m.btn_paddle4, paddle4_flag)
    ∷ (m.btn_touchpad, touchpad_flag)
    ∷ []

-- `supportedButtonFlags` over a list of buttons.
unfoldable pub supported_flags : List (ℤ × ℕ) → ℕ
supported_flags [] = 0
supported_flags ((i, flag) ∷ rest) =
    if leb_ℤ (pos 0) i then set_bit (supported_flags rest) flag else supported_flags rest

-- LI_CCAP_ANALOG_TRIGGERS is 1 and LI_CCAP_RUMBLE 2.
unfoldable pub capabilities : Mapping → ℕ
capabilities m =
    if leb_ℤ (pos 0) m.abs_lefttrigger && leb_ℤ (pos 0) m.abs_righttrigger then 1 + 2 else 2
