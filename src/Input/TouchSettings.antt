-- ===== src/Input/TouchSettings.antt =====
-- The configured touchscreen: `evdev_configure_touch_from_env` of src/input/evdev.c.
pub mod Settled
use moonlight_embedded_for_d.Base.{
  ℕ, ◌-◌, ◌^◌, ℤ, pos, negsuc, ◌==ℤ◌, leb_ℤ, Bool, true, false, ◌&&◌, ◌||◌, ◌==◌, Option, none,
  some, List, [], ◌∷◌, Text, take, if◌then◌else◌,
}
use moonlight_embedded_for_d.Config.Files.{skip_spaces}
use moonlight_embedded_for_d.Input.Mapping.Scan.{scan_int}

abbrev pub int_max : ℤ
int_max = pos 2147483647

abbrev pub int_min : ℤ
int_min = negsuc 2147483647

-- What `strtol` read, if it read all.
unfoldable pub parsed_int : Option (ℤ × Text) → ℤ → ℤ
parsed_int none fallback = fallback
parsed_int (some (n, [])) fallback = if leb_ℤ int_min n && leb_ℤ n int_max then n else fallback
parsed_int (some (n, c ∷ s)) fallback = fallback

unfoldable pub env_int : Option Text → ℤ → ℤ
unfolding parsed_int scan_int skip_spaces
env_int none fallback = fallback
env_int (some value) fallback = parsed_int (scan_int (skip_spaces value)) fallback

unfoldable pub normalize_rotation : ℤ → ℤ → ℤ
normalize_rotation rotation fallback =
    if rotation ==ℤ pos 0 || (rotation ==ℤ pos 90 || (rotation ==ℤ pos 180 || rotation ==ℤ pos 270))
    then rotation
    else fallback

-- The variables MOONLIGHT_RK_TOUCH_DEVICE, _ROTATION, _OFFSET_X and _OFFSET_Y.
pub record TouchEnv : Type 0 where
  pub device : Option Text
  pub rotation : Option Text
  pub offset_x : Option Text
  pub offset_y : Option Text

-- The globals `configuredTouch...`.
pub record TouchSettings : Type 0 where
  pub configured : Bool
  pub valid : Bool
  pub rdev : ℕ
  pub path : Text
  pub rotation : ℤ
  pub offset_x : ℤ
  pub offset_y : ℤ

abbrev pub path_of : Option Text → Text
path_of none = []
path_of (some path) = path

-- `stat`, with the device number that it gives.
unfoldable pub with_device : (Text → Option ℕ) → Text → TouchSettings → TouchSettings
with_device stat [] s = s
with_device stat (c ∷ path) s = elim (stat (c ∷ path)) [
  | none ↦ record s { configured = true; path = take 4095 (c ∷ path) }
  | some rdev ↦ record s {
    configured = true;
    path = take 4095 (c ∷ path);
    rdev = rdev;
    valid = true;
  }
]

unfoldable pub evdev_configure_touch_from_env : (Text → Option ℕ) → TouchEnv → TouchSettings
unfolding env_int normalize_rotation with_device
evdev_configure_touch_from_env stat env = with_device stat (path_of env.device) (record {
  configured = false;
  valid = false;
  rdev = 0;
  path = [];
  rotation = normalize_rotation (env_int env.rotation (negsuc 0)) (negsuc 0);
  offset_x = env_int env.offset_x (pos 0);
  offset_y = env_int env.offset_y (pos 0);
})

abbrev pub found_again : Option ℕ → TouchSettings → TouchSettings
found_again none s = s
found_again (some rdev) s = record s { rdev = rdev; valid = true }

unfoldable pub configured_touch_matches :
    (Text → Option ℕ) → ℕ → TouchSettings → TouchSettings × Bool
configured_touch_matches stat rdev s =
    let t = found_again (stat s.path) s in
    if s.configured then (t, t.valid && t.rdev == rdev) else (s, false)
