-- ===== src/Input/Mapping/Generated.antt =====
-- The mapping that src/input/evdev.c makes for a gamepad without one: `evdev_generate_default_mapping`.
pub mod Apart
use moonlight_embedded_for_d.Base.{
  ℕ, ◌==◌, ltb, ℤ, pos, negsuc, ◌==ℤ◌, leb_ℤ, Bool, true, false, not, ◌&&◌, ◌||◌, Option, none,
  some, List, [], ◌∷◌, Text, chars, take, get_or, if◌then◌else◌,
}
use moonlight_embedded_for_d.Input.Mapping.{Mapping, unmapped}

-- What the mapping is made from: the index that `key_map` and `abs_map` have for each code, and what
-- libevdev knows of the device.
pub record Device : Type 0 where
  pub key_map : List ℤ
  pub abs_map : List ℤ
  pub has_hat : Bool
  pub vendor : ℕ
  pub product : ℕ
  pub name : Option Text

-- KEY_CNT is 0x300.
unfoldable pub mapped_key_index : Device → ℕ → ℤ
mapped_key_index d code = if ltb code 0x300 then get_or d.key_map code (negsuc 0) else negsuc 0

-- ABS_CNT is 0x40.
unfoldable pub mapped_abs_index : Device → ℕ → ℤ
mapped_abs_index d code = if ltb code 0x40 then get_or d.abs_map code (negsuc 0) else negsuc 0

unfoldable pub first_mapped_key : Device → List ℕ → ℤ
unfolding mapped_key_index
first_mapped_key d [] = negsuc 0
first_mapped_key d (code ∷ codes) =
    let rest = first_mapped_key d codes in
    if leb_ℤ (pos 0) (mapped_key_index d code) then mapped_key_index d code else rest

abbrev pub default_name : Option Text → Text
default_name none = chars "Linux evdev gamepad"
default_name (some name) = name

-- The buttons, by the codes of linux/input-event-codes.h.
unfoldable pub generated_buttons : Device → Mapping
unfolding first_mapped_key
generated_buttons d = record (unmapped (chars "generated") (take 256 (default_name d.name))) {
  btn_a = first_mapped_key d (0x130 ∷ 0x100 ∷ 0x120 ∷ []);
  btn_b = first_mapped_key d (0x131 ∷ 0x101 ∷ 0x121 ∷ []);
  btn_x = first_mapped_key d (0x133 ∷ 0x102 ∷ 0x122 ∷ []);
  btn_y = first_mapped_key d (0x134 ∷ 0x103 ∷ 0x123 ∷ []);
  btn_leftshoulder = first_mapped_key d (0x136 ∷ 0x104 ∷ 0x124 ∷ []);
  btn_rightshoulder = first_mapped_key d (0x137 ∷ 0x105 ∷ 0x125 ∷ []);
  btn_lefttrigger = first_mapped_key d (0x138 ∷ 0x106 ∷ 0x126 ∷ []);
  btn_righttrigger = first_mapped_key d (0x139 ∷ 0x107 ∷ 0x127 ∷ []);
  btn_back = first_mapped_key d (0x13a ∷ 0x108 ∷ 0x128 ∷ []);
  btn_start = first_mapped_key d (0x13b ∷ 0x109 ∷ 0x129 ∷ []);
  btn_guide = first_mapped_key d (0x13c ∷ 0x12a ∷ []);
  btn_leftstick = first_mapped_key d (0x13d ∷ 0x12b ∷ []);
  btn_rightstick = first_mapped_key d (0x13e ∷ []);
  btn_dpup = first_mapped_key d (0x220 ∷ []);
  btn_dpdown = first_mapped_key d (0x221 ∷ []);
  btn_dpleft = first_mapped_key d (0x222 ∷ []);
  btn_dpright = first_mapped_key d (0x223 ∷ []);
}

-- The indices of the axes that are looked at.
pub record Found : Type 0 where
  pub rx : ℤ
  pub ry : ℤ
  pub z : ℤ
  pub rz : ℤ
  pub brake : ℤ
  pub gas : ℤ

abbrev pub found : ℤ → Bool
found index = leb_ℤ (pos 0) index

-- The right stick, given whether the triggers are buttons.
unfoldable pub right_stick : Found → Bool → ℤ × ℤ
right_stick f trigger_buttons =
    if found f.rx && found f.ry
    then (f.rx, f.ry)
    else if found f.z && (found f.rz && (found f.brake || (found f.gas || trigger_buttons)))
    then (f.z, f.rz)
    else (negsuc 0, negsuc 0)

-- A trigger: an axis of its own, or one that the right stick does not use.
unfoldable pub trigger : ℤ → ℤ → ℤ → ℤ
trigger own shared stick =
    if found own then own else if found shared && not (stick ==ℤ shared) then shared else negsuc 0

unfoldable pub find_axes : Device → Found
find_axes d = record {
  rx = mapped_abs_index d 3;
  ry = mapped_abs_index d 4;
  z = mapped_abs_index d 2;
  rz = mapped_abs_index d 5;
  brake = mapped_abs_index d 10;
  gas = mapped_abs_index d 9;
}

unfoldable pub generated_axes : Device → Mapping → Mapping
unfolding find_axes
generated_axes d m =
    let f = find_axes d in
    let (rightx, righty) = right_stick f (found m.btn_lefttrigger || found m.btn_righttrigger) in
    record m {
      abs_leftx = mapped_abs_index d 0;
      abs_lefty = mapped_abs_index d 1;
      abs_rightx = rightx;
      abs_righty = righty;
      abs_lefttrigger = trigger f.brake f.z rightx;
      abs_righttrigger = trigger f.gas f.rz righty;
    }

unfoldable pub generated_hat : Device → Mapping → Mapping
generated_hat d m =
    if d.has_hat
    then record m {
      hat_dpright = pos 0;
      hat_dir_dpright = pos 2;
      hat_dpleft = pos 0;
      hat_dir_dpleft = pos 8;
      hat_dpup = pos 0;
      hat_dir_dpup = pos 1;
      hat_dpdown = pos 0;
      hat_dir_dpdown = pos 4;
    }
    else m

-- The DualShock 4.
unfoldable pub dualshock : Device → Bool
dualshock d = d.vendor == 0x054c && (d.product == 0x05c4 || d.product == 0x09cc)

unfoldable pub dualshock_mapping : Device → Mapping → Mapping
dualshock_mapping d m = record m {
  btn_a = mapped_key_index d 0x130;
  btn_b = mapped_key_index d 0x131;
  btn_x = mapped_key_index d 0x134;
  btn_y = mapped_key_index d 0x133;
  btn_leftshoulder = mapped_key_index d 0x136;
  btn_rightshoulder = mapped_key_index d 0x137;
  btn_lefttrigger = mapped_key_index d 0x138;
  btn_righttrigger = mapped_key_index d 0x139;
  btn_back = mapped_key_index d 0x13a;
  btn_start = mapped_key_index d 0x13b;
  btn_guide = mapped_key_index d 0x13c;
  btn_leftstick = mapped_key_index d 0x13d;
  btn_rightstick = mapped_key_index d 0x13e;
  abs_leftx = mapped_abs_index d 0;
  abs_lefty = mapped_abs_index d 1;
  abs_rightx = mapped_abs_index d 2;
  abs_righty = mapped_abs_index d 5;
  abs_lefttrigger = mapped_abs_index d 3;
  abs_righttrigger = mapped_abs_index d 4;
}

unfoldable pub evdev_generate_default_mapping : Device → Mapping
evdev_generate_default_mapping d =
    let m = generated_hat d (generated_axes d (generated_buttons d)) in
    if dualshock d then dualshock_mapping d m else m
