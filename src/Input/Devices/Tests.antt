-- ===== src/Input/Devices/Tests.antt =====
-- Devices on concrete answers of libevdev.
use moonlight_embedded_for_d.Base.{
  ℕ, Text, Option, negsuc, is_space, leb, ◌==◌, ◌&&◌, ◌||◌, pos, ◌≡◌, refl, true, false, some, [],
  ◌∷◌, chars, get_or, contains, is_prefix,
}
use moonlight_embedded_for_d.Input.TouchSettings.{TouchEnv, evdev_configure_touch_from_env}
use moonlight_embedded_for_d.Input.TouchSettings.Settled.{IsSettled, configure_touch-IsSettled}
use moonlight_embedded_for_d.Input.TouchSlot.{ml_touch_device_allowed}
use moonlight_embedded_for_d.Input.Mapping.{Mapping, unmapped}
use moonlight_embedded_for_d.Input.Mapping.Generated.{evdev_generate_default_mapping}
use moonlight_embedded_for_d.Input.Mapping.Generated.Apart.{TriggersApart}
use moonlight_embedded_for_d.Input.Devices.{
  Probe, TouchConfig, Opened, evdev_has_keyboard_keys, is_mouse, is_touchscreen,
  has_touch_capability, has_gamepad_axis, has_gamepad_button, is_gamepad, is_accelerometer,
  str_guid, find_mapping, file_mapping, number_codes, plain_axis, axis_indices, device_of,
  evdev_create,
}
use moonlight_embedded_for_d.Input.Devices.Indices.{generated_apart}
use moonlight_embedded_for_d.Input.Devices.Mapped.{IsMapped, evdev_create-IsMapped}

-- A pad with the buttons BTN_A to BTN_TR, the axes X to RZ and a hat.
abbrev x_probe : Probe
x_probe = record {
  has_key = λ code. leb 0x130 code && leb code 0x137;
  has_abs = λ code. leb code 5 || (code == 0x10 || code == 0x11);
  has_keys = true;
  has_rel = false;
  bustype = 3;
  vendor = 0x045e;
  product = 0x028e;
  version = 0x0110;
  name = chars "X-Box pad";
}

abbrev no_touch : TouchConfig
no_touch = record { configured = false; matches = false }

guid_of_pad : str_guid x_probe ≡ chars "030000005e0400008e02000010010000"
unfolding str_guid
guid_of_pad = refl

fifth_axis : get_or (axis_indices x_probe) 5 (pos 99) ≡ pos 5
unfolding axis_indices number_codes plain_axis
fifth_axis = refl

abbrev pad_mapping : Mapping
pad_mapping = unmapped (chars "030000005e0400008e02000010010000") (chars "pad")

abbrev opened_pad : Opened
opened_pad = record {
  keyboard = false;
  mouse = false;
  touchscreen = false;
  gamepad = true;
  map = some pad_mapping;
}

opens_pad :
    evdev_create x_probe no_touch (unmapped (chars "default") (chars "d") ∷ pad_mapping ∷ [])
    ≡ some opened_pad
unfolding evdev_create evdev_has_keyboard_keys is_mouse is_touchscreen has_touch_capability
    is_gamepad has_gamepad_axis has_gamepad_button is_accelerometer file_mapping str_guid
    find_mapping contains is_prefix ml_touch_device_allowed
opens_pad = refl

evdev_create-IsMapped_example : IsMapped opened_pad
evdev_create-IsMapped_example =
    evdev_create-IsMapped x_probe no_touch
      (unmapped (chars "default") (chars "d") ∷ pad_mapping ∷ []) opened_pad opens_pad

generated_apart_example : TriggersApart (evdev_generate_default_mapping (device_of x_probe))
generated_apart_example = generated_apart x_probe

abbrev touch_env : TouchEnv
touch_env = record {
  device = some (chars "/dev/x");
  rotation = some (chars " +90");
  offset_x = some (chars "12px");
  offset_y = some (chars "-7");
}

abbrev one_device : Text → Option ℕ
one_device path = some 5

reads_env : evdev_configure_touch_from_env one_device touch_env ≡ record {
  configured = true;
  valid = true;
  rdev = 5;
  path = chars "/dev/x";
  rotation = pos 90;
  offset_x = pos 0;
  offset_y = negsuc 6;
}
unfolding evdev_configure_touch_from_env is_space
reads_env = refl

configure_touch-IsSettled_example : IsSettled (evdev_configure_touch_from_env one_device touch_env)
configure_touch-IsSettled_example = configure_touch-IsSettled one_device touch_env
