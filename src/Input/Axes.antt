-- ===== src/Input/Axes.antt =====
-- The axes of gamepads in src/input/evdev.c: their ranges, and how a position is scaled.
pub mod Range
mod Tests
use moonlight_embedded_for_d.Base.{
  ℕ, suc, ◌+◌, ◌-◌, ◌*◌, ◌/◌, ◌%◌, ◌^◌, ltb, ◌==◌, ℤ, pos, negsuc, pos_part, neg_part, ◌+ℤ◌, ◌-ℤ◌,
  ◌*ℤ◌, ◌/ℤ◌, neg, ltb_ℤ, ◌==ℤ◌, Bool, true, false, ◌&&◌, Option, none, some, if◌then◌else◌,
}

-- `struct input_abs_parms`
pub record AbsParms : Type 0 where
  pub flat : ℤ
  pub min : ℤ
  pub max : ℤ
  pub avg : ℤ
  pub range : ℤ
  pub diff : ℤ

-- `evdev_init_parms` on what libevdev knows of the axis (flat, minimum and maximum): the parameters
-- that `parms` holds after, and the result. Without an axis nothing is written.
unfoldable pub evdev_init_parms : Option (ℤ × ℤ × ℤ) → AbsParms → AbsParms × Bool
evdev_init_parms none parms = (parms, true)
evdev_init_parms (some (flat, min, max)) parms =
    let read = record parms { flat = flat; min = min; max = max } in
    let avg = (min +ℤ max) /ℤ pos 2 in
    if flat ==ℤ pos 0 && (min ==ℤ pos 0 && max ==ℤ pos 0)
    then (read, false)
    else (record read { avg = avg; range = max -ℤ avg; diff = max -ℤ min }, true)

-- `abs`
abbrev pub magnitude : ℤ → ℤ
magnitude a = pos (pos_part a + neg_part a)

-- The conversion to `short`.
unfoldable pub to_i16 : ℤ → ℤ
to_i16 a =
    let w = (pos_part a + 2 ^ 16 - neg_part a % 2 ^ 16) % 2 ^ 16 in
    if ltb w (2 ^ 15) then pos w else negsuc (2 ^ 16 - 1 - w)

-- The conversion to `unsigned char`.
unfoldable pub to_u8 : ℤ → ℕ
to_u8 a = (pos_part a + 2 ^ 8 - neg_part a % 2 ^ 8) % 2 ^ 8

abbrev pub shrt_max : ℤ
shrt_max = pos 32767

abbrev pub shrt_min : ℤ
shrt_min = negsuc 32767

-- What the dead zone takes from the positions beyond it.
unfoldable pub dead_zone : Bool → ℤ → ℤ
dead_zone beyond flat = if beyond then flat *ℤ pos 2 else pos 0

-- The width that is left of the axis.
abbrev pub axis_width : AbsParms → ℤ
axis_width p = p.max -ℤ p.min -ℤ p.flat *ℤ pos 2

-- The way from the end of the axis, which is scaled.
unfoldable pub moved : AbsParms → Bool → ℤ → ℤ
unfolding dead_zone
moved p reverse value =
    if reverse
    then p.max -ℤ dead_zone (ltb_ℤ value p.avg) p.flat -ℤ value
    else value -ℤ dead_zone (ltb_ℤ p.avg value) p.flat -ℤ p.min

-- The last two branches of `evdev_convert_value`, before the conversion to `short`.
unfoldable pub scaled : AbsParms → Bool → ℤ → ℤ
scaled p reverse value = (moved p reverse value *ℤ pos 65535) /ℤ axis_width p +ℤ shrt_min

unfoldable pub evdev_convert_value : AbsParms → Bool → ℤ → ℤ
unfolding scaled to_i16
evdev_convert_value p reverse value =
    if p.max ==ℤ pos 0 && p.min ==ℤ pos 0
    then pos 0
    else if ltb_ℤ (magnitude (value -ℤ p.avg)) p.flat
    then pos 0
    else if ltb_ℤ p.max value
    then (if reverse then shrt_min else shrt_max)
    else if ltb_ℤ value p.min
    then (if reverse then shrt_max else shrt_min)
    else to_i16 (scaled p reverse value)

-- `halfaxis` is `+` or `-` where the axis is used on one side only.
unfoldable pub evdev_convert_value_byte : AbsParms → ℕ → ℤ → ℕ
unfolding evdev_convert_value to_u8
evdev_convert_value_byte p halfaxis value =
    let val = evdev_convert_value p false value in
    if p.max ==ℤ pos 0 && p.min ==ℤ pos 0
    then 0
    else if halfaxis == 0
    then if ltb_ℤ (magnitude (value -ℤ p.min)) p.flat
      then 0
      else if ltb_ℤ p.max value
      then 255
      else to_u8 (((value -ℤ p.flat -ℤ p.min) *ℤ pos 255) /ℤ (p.diff -ℤ p.flat))
    else if halfaxis == b'-' && ltb_ℤ val (pos 0)
    then to_u8 ((neg val *ℤ pos 255) /ℤ pos 65535)
    else if halfaxis == b'+' && ltb_ℤ (pos 0) val
    then to_u8 ((val *ℤ pos 255) /ℤ pos 65535)
    else 0
