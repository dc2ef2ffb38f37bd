-- ===== src/Input/Devices/Mapped.antt =====
-- A gamepad always has a mapping once `evdev_create` of src/input/evdev.c has taken it.
use mathlib.Core.Path.{subst}
use moonlight_embedded_for_d.Base.{
  ◌≡◌, ◌≢◌, refl, Bool, true, false, not, ◌&&◌, Option, none, some, List, if◌then◌else◌, arith,
  by_test,
}
use moonlight_embedded_for_d.Input.Mapping.{Mapping}
use moonlight_embedded_for_d.Input.Devices.{
  Probe, TouchConfig, Opened, is_gamepad, is_accelerometer, is_mouse, is_touchscreen,
  evdev_has_keyboard_keys, or_else, file_mapping, evdev_create,
}

-- A device has a mapping if it is a gamepad, and only then.
pub record IsMapped (o : Opened) : Type 0 where
  pub gamepad : o.gamepad ≡ true → o.map ≢ none
  pub other : o.gamepad ≡ false → o.map ≡ none

unfoldable Result : Option Opened → Type 0
Result none = Unit
Result (some o) = IsMapped o

or_else-some : (m : Option Mapping) (g : Mapping) → or_else m (some g) ≢ none
or_else-some none g e = ground (arith, e)
or_else-some (some m) g e = ground (arith, e)

-- The mapping of a file, or a generated one, both of them for gamepads.
chosen :
    (b : Bool) (m : Option Mapping) (g : Mapping)
    → (b ≡ true → or_else (if b then m else none) (if b then some g else none) ≢ none)
      × (b ≡ false → or_else (if b then m else none) (if b then some g else none) ≡ none)
chosen true m g = (λ e. or_else-some m g, λ e. cc)
chosen false m g = (λ e. cc, λ e. refl)

evdev_create-Result :
    (d : Probe) (c : TouchConfig) (ms : List Mapping) → Result (evdev_create d c ms)
unfolding evdev_create file_mapping Result
evdev_create-Result d c ms =
    by_test Result (is_accelerometer d) (λ e. tt)
      (λ e.
        by_test Result
          (not (evdev_has_keyboard_keys d)
            && (not (is_mouse d) && (not (is_touchscreen d c) && not (is_gamepad d))))
          (λ f. tt)
          (λ f.
            let (gamepad, other) = chosen (is_gamepad d) _ _ in
            record { gamepad = gamepad; other = other }))

-- A device that `evdev_create` takes has a mapping if it is a gamepad, whether or not the file of
-- mappings has one for it, and none if it is no gamepad.
pub evdev_create-IsMapped :
    (d : Probe) (c : TouchConfig) (ms : List Mapping) (o : Opened)
    → evdev_create d c ms ≡ some o
    → IsMapped o
unfolding Result
evdev_create-IsMapped d c ms o e = subst Result e (evdev_create-Result d c ms)
