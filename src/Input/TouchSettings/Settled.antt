-- ===== src/Input/TouchSettings/Settled.antt =====
-- What the environment can set for touchscreens.
use moonlight_embedded_for_d.Base.{
  ℕ, ℤ, pos, negsuc, ◌==ℤ◌, leb_ℤ, ◌≤ℤ◌, ◌≡◌, refl, Bool, true, ◌&&◌, ◌||◌, Option, none, some, [],
  ◌∷◌, Text, take, arith, by_test, false_ne_true,
}
use moonlight_embedded_for_d.Config.Files.{skip_spaces}
use moonlight_embedded_for_d.Input.Mapping.Scan.{scan_int}
use moonlight_embedded_for_d.Input.TouchSettings.{
  int_max, int_min, parsed_int, env_int, normalize_rotation, TouchEnv, TouchSettings, path_of,
  with_device, evdev_configure_touch_from_env,
}

-- One of the rotations that the touch code knows, or -1 for none.
unfoldable pub is_rotation : ℤ → Bool
is_rotation r =
    r ==ℤ negsuc 0 || (r ==ℤ pos 0 || (r ==ℤ pos 90 || (r ==ℤ pos 180 || r ==ℤ pos 270)))

pub record IsSettled (s : TouchSettings) : Type 0 where
  pub rotation : is_rotation s.rotation ≡ true
  pub above_x : int_min ≤ℤ s.offset_x
  pub below_x : s.offset_x ≤ℤ int_max
  pub above_y : int_min ≤ℤ s.offset_y
  pub below_y : s.offset_y ≤ℤ int_max
  pub validated : s.valid ≡ true → s.configured ≡ true

normalize_rotation-is_rotation : (r : ℤ) → is_rotation (normalize_rotation r (negsuc 0)) ≡ true
unfolding is_rotation normalize_rotation
normalize_rotation-is_rotation r = ground arith

parsed_int-fits :
    (o : Option (ℤ × Text)) → (int_min ≤ℤ parsed_int o (pos 0)) × (parsed_int o (pos 0) ≤ℤ int_max)
unfolding parsed_int
parsed_int-fits none = (omega arith, omega arith)
parsed_int-fits (some (n, [])) =
    by_test (λ m. (int_min ≤ℤ m) × (m ≤ℤ int_max)) (leb_ℤ int_min n && leb_ℤ n int_max)
      (λ e. (ground (arith, e), ground (arith, e))) (λ e. (omega arith, omega arith))
parsed_int-fits (some (n, c ∷ s)) = (omega arith, omega arith)

env_int-fits :
    (value : Option Text) → (int_min ≤ℤ env_int value (pos 0)) × (env_int value (pos 0) ≤ℤ int_max)
unfolding env_int
env_int-fits none = (omega arith, omega arith)
env_int-fits (some value) = parsed_int-fits (scan_int (skip_spaces value))

with_device-IsSettled :
    (stat : Text → Option ℕ) (path : Text) (s : TouchSettings)
    → IsSettled s
    → IsSettled (with_device stat path s)
unfolding with_device
with_device-IsSettled stat [] s h = h
with_device-IsSettled stat (c ∷ path) s h = found (stat (c ∷ path))
  where
    found :
        (o : Option ℕ)
        → IsSettled (elim o [
          | none ↦ record s { configured = true; path = take 4095 (c ∷ path) }
          | some rdev ↦ record s {
            configured = true;
            path = take 4095 (c ∷ path);
            rdev = rdev;
            valid = true;
          }
        ])
    found none = record {
      rotation = h.rotation;
      above_x = h.above_x;
      below_x = h.below_x;
      above_y = h.above_y;
      below_y = h.below_y;
      validated = λ e. refl;
    }
    found (some rdev) = record {
      rotation = h.rotation;
      above_x = h.above_x;
      below_x = h.below_x;
      above_y = h.above_y;
      below_y = h.below_y;
      validated = λ e. refl;
    }

-- Whatever texts the environment holds: the rotation of touchscreens is -1 or one of 0, 90, 180 and
-- 270, the offsets fit an `int`, and a device number is only valid where a device is configured.
pub configure_touch-IsSettled :
    (stat : Text → Option ℕ) (env : TouchEnv) → IsSettled (evdev_configure_touch_from_env stat env)
unfolding evdev_configure_touch_from_env
configure_touch-IsSettled stat env =
    let (above_x, below_x) = env_int-fits env.offset_x in
    let (above_y, below_y) = env_int-fits env.offset_y in
    with_device-IsSettled stat (path_of env.device) _ (record {
      rotation = normalize_rotation-is_rotation (env_int env.rotation (negsuc 0));
      above_x = above_x;
      below_x = below_x;
      above_y = above_y;
      below_y = below_y;
      validated = λ e. absurd (false_ne_true e);
    })
