-- ===== src/Input/Axes/Tests.antt =====
-- Axes of gamepads on concrete values.
use moonlight_embedded_for_d.Base.{
  pos, negsuc, ◌/ℤ◌, ◌*ℤ◌, ◌-ℤ◌, ◌+ℤ◌, ◌≤ℤ◌, ◌≤◌, ◌≡◌, refl, true, arith, some,
}
use moonlight_embedded_for_d.Input.Axes.{
  AbsParms, evdev_init_parms, moved, scaled, dead_zone, evdev_convert_value,
  evdev_convert_value_byte, shrt_min, shrt_max,
}
use moonlight_embedded_for_d.Input.Axes.Range.{IsAxis, IsOutside, half_axis-le, convert_value-exact}

abbrev no_axis : AbsParms
no_axis = record {
  flat = pos 0;
  min = pos 0;
  max = pos 0;
  avg = pos 0;
  range = pos 0;
  diff = pos 0;
}

abbrev stick : AbsParms
stick = record {
  flat = pos 128;
  min = negsuc 32767;
  max = pos 32767;
  avg = pos 0;
  range = pos 32767;
  diff = pos 65535;
}

reads_stick : evdev_init_parms (some (pos 128, negsuc 32767, pos 32767)) no_axis ≡ (stick, true)
unfolding evdev_init_parms ◌/ℤ◌ ◌+ℤ◌ ◌-ℤ◌
reads_stick = refl

full_half : evdev_convert_value_byte stick b'+' (pos 32767) ≡ 127
unfolding evdev_convert_value_byte ◌/ℤ◌ ◌*ℤ◌ dead_zone moved scaled ◌-ℤ◌ ◌+ℤ◌
full_half = refl

full_trigger : evdev_convert_value_byte stick 0 (pos 32767) ≡ 255
unfolding evdev_convert_value_byte ◌/ℤ◌ ◌*ℤ◌ dead_zone moved scaled ◌-ℤ◌ ◌+ℤ◌
full_trigger = refl

abbrev stick-IsAxis : IsAxis stick
unfolding ◌/ℤ◌ ◌+ℤ◌
stick-IsAxis = record { wide = omega arith; flat_pos = refl; middle = refl }

abbrev at_half-IsOutside : IsOutside stick (pos 16000)
unfolding ◌-ℤ◌
at_half-IsOutside = record { above = omega arith; below = omega arith; beyond = refl }

half_axis-le_example : evdev_convert_value_byte stick b'+' (pos 32767) ≤ 127
half_axis-le_example = half_axis-le stick b'+' (pos 32767) (λ e. ground (arith, e))

convert_value-exact_example :
    (evdev_convert_value stick true (pos 16000) ≡ scaled stick true (pos 16000))
    × (shrt_min ≤ℤ scaled stick true (pos 16000))
    × (scaled stick true (pos 16000) ≤ℤ shrt_max)
convert_value-exact_example =
    convert_value-exact stick true (pos 16000) stick-IsAxis at_half-IsOutside
