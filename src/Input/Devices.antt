-- ===== src/Input/Devices.antt =====
-- The opening of a device: `evdev_create` of src/input/evdev.c.
pub mod Indices
pub mod Mapped
mod Tests
use moonlight_embedded_for_d.Base.{
  ℕ, zero, suc, ◌+◌, ◌*◌, ◌/◌, ◌%◌, ◌==◌, leb, ltb, ℤ, pos, negsuc, Bool, true, false, not, ◌&&◌,
  ◌||◌, Option, none, some, List, [], ◌∷◌, ◌++◌, Text, chars, str_eq, contains, take, length, ◌^◌,
  if◌then◌else◌,
}
use moonlight_embedded_for_d.Gamestream.Hex.{bytes_to_hex}
use moonlight_embedded_for_d.Input.Mapping.{Mapping}
use moonlight_embedded_for_d.Input.TouchSlot.{ml_touch_device_allowed}
use moonlight_embedded_for_d.Input.Mapping.Generated.{Device, evdev_generate_default_mapping}

-- What libevdev says of a device: its keys, its axes, and whether it has keys and relative axes at all.
pub record Probe : Type 0 where
  pub has_key : ℕ → Bool
  pub has_abs : ℕ → Bool
  pub has_keys : Bool
  pub has_rel : Bool
  pub bustype : ℕ
  pub vendor : ℕ
  pub product : ℕ
  pub version : ℕ
  pub name : Text

-- The configured touchscreen: whether one is configured, and whether this is it.
pub record TouchConfig : Type 0 where
  pub configured : Bool
  pub matches : Bool

unfoldable pub evdev_has_keyboard_keys : Probe → Bool
evdev_has_keyboard_keys d =
    d.has_key 16
    || (d.has_key 30 || (d.has_key 44 || (d.has_key 2 || ((d.has_key 28 && d.has_key 57)))))

unfoldable pub is_mouse : Probe → Bool
is_mouse d = d.has_rel || d.has_key 0x110

unfoldable pub has_touch_capability : Probe → Bool
has_touch_capability d =
    (d.has_key 0x14a || d.has_abs 0x39)
    && ((d.has_abs 0 && d.has_abs 1) || (d.has_abs 0x35 && d.has_abs 0x36))

unfoldable pub is_accelerometer : Probe → Bool
is_accelerometer d =
    ((d.has_abs 0 && (d.has_abs 1 && d.has_abs 2)) || (d.has_abs 3 && (d.has_abs 4 && d.has_abs 5)))
    && not d.has_keys

unfoldable pub has_gamepad_axis : Probe → Bool
has_gamepad_axis d =
    (d.has_abs 0 && d.has_abs 1)
    || ((d.has_abs 0x10 && d.has_abs 0x11)
        || (d.has_abs 3
            || (d.has_abs 4
                || (d.has_abs 5
                    || (d.has_abs 6
                        || (d.has_abs 7 || (d.has_abs 8 || (d.has_abs 9 || (d.has_abs 10)))))))))

unfoldable pub has_gamepad_button : Probe → Bool
has_gamepad_button d =
    d.has_key 0x120
    || (d.has_key 0x130
        || (d.has_key 0x131
            || (d.has_key 0x133
                || (d.has_key 0x134
                    || (d.has_key 0x101
                        || (d.has_key 0x130
                            || (d.has_key 0x136
                                || (d.has_key 0x137
                                    || (d.has_key 0x13a
                                        || (d.has_key 0x13b || (d.has_key 0x13c)))))))))))

unfoldable pub is_gamepad : Probe → Bool
unfolding evdev_has_keyboard_keys has_gamepad_axis has_gamepad_button
is_gamepad d = has_gamepad_button d && (has_gamepad_axis d || not (evdev_has_keyboard_keys d))

-- A touchscreen that is let through.
unfoldable pub is_touchscreen : Probe → TouchConfig → Bool
unfolding has_touch_capability is_gamepad
is_touchscreen d c =
    ml_touch_device_allowed (has_touch_capability d) (is_gamepad d) c.configured c.matches

-- A 16-bit number of the guid, and the empty one behind it.
abbrev pub guid_part : ℕ → List ℕ
guid_part n = (n % 2 ^ 8) ∷ (n / 2 ^ 8 % 2 ^ 8) ∷ 0 ∷ 0 ∷ []

abbrev zeros : ℕ → List ℕ
zeros zero = []
zeros (suc n) = 0 ∷ zeros n

-- `strncpy` of 11 bytes of the name, and the byte behind them.
abbrev name_part : Text → List ℕ
name_part name = take 11 (name ++ zeros 11) ++ (0 ∷ [])

unfoldable pub str_guid : Probe → Text
unfolding bytes_to_hex
str_guid d = bytes_to_hex (
    guid_part d.bustype
    ++ (if d.vendor == 0 || d.product == 0
        then name_part d.name
        else guid_part d.vendor ++ (guid_part d.product ++ guid_part d.version)))

-- `strncmp` of 32 bytes.
unfoldable pub same_guid : Text → Text → Bool
unfolding str_eq
same_guid a b = str_eq (take 32 a) (take 32 b)

-- What the loop over the mappings finds: the one of the device, or the last of the two others.
pub record Choice : Type 0 where
  pub own : Option Mapping
  pub default : Option Mapping
  pub xwc : Option Mapping

unfoldable pub find_mapping : Text → List Mapping → Choice → Choice
unfolding same_guid
find_mapping guid [] c = c
find_mapping guid (m ∷ ms) c =
    let next =
      if same_guid (chars "default") m.guid
      then record c { default = some m }
      else if same_guid (chars "xwc") m.guid
      then record c { xwc = some m }
      else c in
    let rest = find_mapping guid ms next in
    if same_guid guid m.guid then record c { own = some m } else rest

abbrev pub or_else : Option Mapping → Option Mapping → Option Mapping
or_else none other = other
or_else (some m) other = some m

-- The mapping from the file of mappings.
unfoldable pub file_mapping : Probe → List Mapping → Option Mapping
file_mapping d ms =
    let c = find_mapping (str_guid d) ms (record { own = none; default = none; xwc = none }) in
    let m =
      or_else c.own
        (if contains d.name (chars "Xbox 360 Wireless Receiver") then c.xwc else none) in
    if is_gamepad d then or_else m c.default else none

-- What `memset` with -2 leaves in a `short`.
abbrev pub unused : ℤ
unused = negsuc 257

-- `n` codes from `code` on, numbered from `next` on where the device has them and they are no hats.
unfoldable pub number_codes : (ℕ → Bool) → ℕ → ℕ → ℕ → List ℤ
number_codes has zero code next = []
number_codes has (suc n) code next =
    let rest = number_codes has n (suc code) (if has code then suc next else next) in
    (if has code then pos next else unused) ∷ rest

-- How many of `n` codes the device has.
unfoldable pub count_codes : (ℕ → Bool) → ℕ → ℕ → ℕ
count_codes has zero code = 0
count_codes has (suc n) code =
    let rest = count_codes has n (suc code) in if has code then suc rest else rest

-- `key_map`: the codes from BTN_JOYSTICK on come first. KEY_MAX is not numbered.
unfoldable pub key_indices : Probe → List ℤ
key_indices d =
    number_codes d.has_key 0x120 0 (count_codes d.has_key 0x1df 0x120)
    ++ (number_codes d.has_key 0x1df 0x120 0 ++ (unused ∷ []))

-- An axis that is no hat.
unfoldable pub plain_axis : Probe → ℕ → Bool
plain_axis d code = d.has_abs code && not (leb 0x10 code && leb code 0x17)

-- `abs_map`. ABS_MAX is not numbered.
unfoldable pub axis_indices : Probe → List ℤ
axis_indices d = number_codes (plain_axis d) 0x3f 0 0 ++ (unused ∷ [])

-- What a generated mapping is made from.
unfoldable pub device_of : Probe → Device
device_of d = record {
  key_map = key_indices d;
  abs_map = axis_indices d;
  has_hat = d.has_abs 0x10 && d.has_abs 0x11;
  vendor = d.vendor;
  product = d.product;
  name = some d.name;
}

-- What becomes of a device that could be opened and is not there yet.
pub record Opened : Type 0 where
  pub keyboard : Bool
  pub mouse : Bool
  pub touchscreen : Bool
  pub gamepad : Bool
  pub map : Option Mapping

abbrev generated_for : Probe → Option Mapping
generated_for d = if is_gamepad d then some (evdev_generate_default_mapping (device_of d)) else none

unfoldable pub evdev_create : Probe → TouchConfig → List Mapping → Option Opened
evdev_create d c ms =
    if is_accelerometer d
    then none
    else if not (evdev_has_keyboard_keys d)
        && (not (is_mouse d) && (not (is_touchscreen d c) && not (is_gamepad d)))
    then none
    else some (record {
      keyboard = evdev_has_keyboard_keys d;
      mouse = is_mouse d;
      touchscreen = is_touchscreen d c;
      gamepad = is_gamepad d;
      map = or_else (file_mapping d ms) (generated_for d);
    })
