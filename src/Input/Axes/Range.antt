-- ===== src/Input/Axes/Range.antt =====
-- The bounds of `evdev_convert_value` and `evdev_convert_value_byte` of src/input/evdev.c.
use native.Mathlib.Nat.{div-le_of_le-mul}
use moonlight_embedded_for_d.Base.{
  ℕ, suc, ◌+◌, ◌*◌, ◌/◌, ◌≤◌, ◌<◌, ◌==◌, ℤ, pos, negsuc, pos_part, neg_part, ◌+ℤ◌, ◌-ℤ◌, ◌*ℤ◌, ◌/ℤ◌,
  ◌≤ℤ◌, neg, ltb_ℤ, ◌==ℤ◌, +ℤ_parts, -ℤ_parts, ◌≡◌, ◌≢◌, ◌⊎◌, refl, Bool, true, false, ◌&&◌, arith,
  if◌then◌else◌, Bool-cases, inl, inr,
}
use moonlight_embedded_for_d.Input.Axes.{
  AbsParms, magnitude, to_i16, to_u8, shrt_max, shrt_min, dead_zone, axis_width, moved, scaled,
  evdev_convert_value, evdev_convert_value_byte,
}

-- Products and quotients of two positive numbers.
pos-mul : (a b : ℕ) → pos a *ℤ pos b ≡ pos (a * b)
unfolding ◌*ℤ◌
pos-mul a b = ground arith

pos-div : (a b : ℕ) → pos a /ℤ pos b ≡ pos (a / b)
unfolding ◌/ℤ◌
pos-div a b = ground arith

to_i16-fits : (a : ℤ) → shrt_min ≤ℤ a → a ≤ℤ shrt_max → to_i16 a ≡ a
unfolding to_i16
to_i16-fits a h k = ground arith

to_i16-bounds : (a : ℤ) → (shrt_min ≤ℤ to_i16 a) × (to_i16 a ≤ℤ shrt_max)
unfolding to_i16
to_i16-bounds a = ground arith

convert_value-bounds :
    (p : AbsParms) (reverse : Bool) (value : ℤ)
    → (shrt_min ≤ℤ evdev_convert_value p reverse value)
      × (evdev_convert_value p reverse value ≤ℤ shrt_max)
unfolding evdev_convert_value
convert_value-bounds p reverse value = ground (arith, to_i16-bounds (scaled p reverse value))

half-le : (n : ℕ) → n ≤ 32768 → to_u8 ((pos n *ℤ pos 255) /ℤ pos 65535) ≤ 127
unfolding to_u8
half-le n h = rw (pos-mul n 255, pos-div (n * 255) 65535) (omega arith)

-- A trigger or a direction pad on one half of an axis (`halfaxis` is `+` or `-`) never gives more
-- than 127, at whatever position: half of a trigger's way, and not the more than 127 that
-- `evdev_handle_event` wants for a direction.
pub half_axis-le :
    (p : AbsParms) (halfaxis : ℕ) (value : ℤ)
    → halfaxis ≢ 0
    → evdev_convert_value_byte p halfaxis value ≤ 127
unfolding evdev_convert_value_byte
half_axis-le p halfaxis value h =
    half_cases (evdev_convert_value p false value) (convert_value-bounds p false value)
  where
    half_cases :
        (val : ℤ)
        → (shrt_min ≤ℤ val) × (val ≤ℤ shrt_max)
        → (if p.max ==ℤ pos 0 && p.min ==ℤ pos 0
            then 0
            else if halfaxis == 0
            then if ltb_ℤ (magnitude (value -ℤ p.min)) p.flat
              then 0
              else if ltb_ℤ p.max value
              then 255
              else to_u8 (((value -ℤ p.flat -ℤ p.min) *ℤ pos 255) /ℤ (p.diff -ℤ p.flat))
            else if halfaxis == b'-' && ltb_ℤ val (pos 0)
            then to_u8 ((neg val *ℤ pos 255) /ℤ pos 65535)
            else if halfaxis == b'+' && ltb_ℤ (pos 0) val
            then to_u8 ((val *ℤ pos 255) /ℤ pos 65535)
            else 0)
          ≤ 127
    half_cases (pos n) (a, b) = ground (arith, half-le n (omega arith), h)
    half_cases (negsuc n) (a, b) = ground (arith, half-le (suc n) (omega arith), h)

-- What `evdev_init_parms` leaves for an axis whose range is wider than its dead zone.
pub record IsAxis (p : AbsParms) : Type 0 where
  pub wide : pos_part p.min + neg_part p.max + 2 * pos_part p.flat < pos_part p.max + neg_part p.min
  pub flat_pos : neg_part p.flat ≡ 0
  pub middle : p.avg ≡ (p.min +ℤ p.max) /ℤ pos 2

half-parts :
    (s : ℤ) → (pos_part (s /ℤ pos 2) ≡ pos_part s / 2) × (neg_part (s /ℤ pos 2) ≡ neg_part s / 2)
unfolding ◌/ℤ◌
half-parts (pos n) = ground arith
half-parts (negsuc n) = ground arith

double-parts :
    (s : ℤ) → (pos_part (s *ℤ pos 2) ≡ pos_part s * 2) × (neg_part (s *ℤ pos 2) ≡ neg_part s * 2)
unfolding ◌*ℤ◌
double-parts (pos n) = ground arith
double-parts (negsuc n) = ground arith

-- The middle lies within half a step of the exact one.
middle-bounds :
    (p : AbsParms)
    → IsAxis p
    → (2 * pos_part p.avg + neg_part p.min + neg_part p.max
        ≤ 2 * neg_part p.avg + pos_part p.min + pos_part p.max + 1)
      × (2 * neg_part p.avg + pos_part p.min + pos_part p.max
          ≤ 2 * pos_part p.avg + neg_part p.min + neg_part p.max + 1)
middle-bounds p h =
    rw (h.middle)
      (omega (arith, half-parts (p.min +ℤ p.max), +ℤ_parts p.min p.max, one_sided (p.min +ℤ p.max)))
  where
    one_sided : (s : ℤ) → (pos_part s ≡ 0) ⊎ (neg_part s ≡ 0)
    one_sided (pos n) = inr refl
    one_sided (negsuc n) = inl refl

-- A position in the range and outside the dead zone.
pub record IsOutside (p : AbsParms) (value : ℤ) : Type 0 where
  pub above : p.min ≤ℤ value
  pub below : value ≤ℤ p.max
  pub beyond : ltb_ℤ (magnitude (value -ℤ p.avg)) p.flat ≡ false

side :
    (p : AbsParms) (value : ℤ)
    → IsAxis p
    → IsOutside p value
    → (pos_part value + neg_part p.avg + pos_part p.flat ≤ pos_part p.avg + neg_part value)
      ⊎ (pos_part p.avg + neg_part value + pos_part p.flat ≤ pos_part value + neg_part p.avg)
side p value h o = ground (arith, h.flat_pos, o.beyond, -ℤ_parts value p.avg)

axis_width-positive : (p : AbsParms) → IsAxis p → neg_part (axis_width p) < pos_part (axis_width p)
axis_width-positive p h = omega (
  arith,
  -ℤ_parts (p.max -ℤ p.min) (p.flat *ℤ pos 2),
  -ℤ_parts p.max p.min,
  double-parts p.flat,
  h.wide,
  h.flat_pos,
)

moved-bounds :
    (p : AbsParms) (reverse : Bool) (value : ℤ)
    → IsAxis p
    → IsOutside p value
    → (neg_part (moved p reverse value) ≤ pos_part (moved p reverse value))
      × (moved p reverse value ≤ℤ axis_width p)
unfolding moved dead_zone
moved-bounds p true value h o = elim (Bool-cases (ltb_ℤ value p.avg)) [
  | inl e ↦ rw e (
      ground (
        arith,
        side p value h o,
        middle-bounds p h,
        h.wide,
        h.flat_pos,
        o.above,
        o.below,
        double-parts p.flat,
        e,
        -ℤ_parts (p.max -ℤ p.flat *ℤ pos 2) value,
        -ℤ_parts p.max (p.flat *ℤ pos 2),
        -ℤ_parts (p.max -ℤ p.min) (p.flat *ℤ pos 2),
        -ℤ_parts p.max p.min,
      ))
  | inr e ↦ rw e (
      ground (
        arith,
        side p value h o,
        middle-bounds p h,
        h.wide,
        h.flat_pos,
        o.above,
        o.below,
        double-parts p.flat,
        e,
        -ℤ_parts (p.max -ℤ pos 0) value,
        -ℤ_parts p.max (pos 0),
        -ℤ_parts (p.max -ℤ p.min) (p.flat *ℤ pos 2),
        -ℤ_parts p.max p.min,
      ))
]
moved-bounds p false value h o = elim (Bool-cases (ltb_ℤ p.avg value)) [
  | inl e ↦ rw e (
      ground (
        arith,
        side p value h o,
        middle-bounds p h,
        h.wide,
        h.flat_pos,
        o.above,
        o.below,
        double-parts p.flat,
        e,
        -ℤ_parts (value -ℤ p.flat *ℤ pos 2) p.min,
        -ℤ_parts value (p.flat *ℤ pos 2),
        -ℤ_parts (p.max -ℤ p.min) (p.flat *ℤ pos 2),
        -ℤ_parts p.max p.min,
      ))
  | inr e ↦ rw e (
      ground (
        arith,
        side p value h o,
        middle-bounds p h,
        h.wide,
        h.flat_pos,
        o.above,
        o.below,
        double-parts p.flat,
        e,
        -ℤ_parts (value -ℤ pos 0) p.min,
        -ℤ_parts value (pos 0),
        -ℤ_parts (p.max -ℤ p.min) (p.flat *ℤ pos 2),
        -ℤ_parts p.max p.min,
      ))
]

least :
    (s w : ℤ) → neg_part s ≤ pos_part s → neg_part w < pos_part w → s ≤ℤ w → pos_part s ≤ pos_part w
least (pos a) (pos d) hs hw h = omega arith
least (pos a) (negsuc d) hs hw h = absurd (omega arith)
least (negsuc a) w hs hw h = omega arith

ratio-le : (a d : ℕ) → 0 < d → a ≤ d → a * 65535 / d ≤ 65535
ratio-le a d hd h = div-le_of_le-mul d (omega (arith))

-- A part of a positive width, as natural numbers.
share :
    (s w : ℤ)
    → neg_part s ≤ pos_part s
    → neg_part w < pos_part w
    → s ≤ℤ w
    → (s *ℤ pos 65535) /ℤ w +ℤ shrt_min ≡ pos (pos_part s * 65535 / pos_part w) +ℤ shrt_min
share (pos a) (pos d) hs hw h = rw (pos-mul a 65535, pos-div (a * 65535) d) refl
share (pos a) (negsuc d) hs hw h = absurd (omega arith)
share (negsuc a) w hs hw h = absurd (omega arith)

scaled-bounds :
    (p : AbsParms) (reverse : Bool) (value : ℤ)
    → IsAxis p
    → IsOutside p value
    → (shrt_min ≤ℤ scaled p reverse value) × (scaled p reverse value ≤ℤ shrt_max)
unfolding scaled
scaled-bounds p reverse value h o =
    let (a, b) = moved-bounds p reverse value h o in
    let w = axis_width-positive p h in
    rw (share (moved p reverse value) (axis_width p) a w b) (
      omega (
        arith,
        +ℤ_parts (pos (pos_part (moved p reverse value) * 65535 / pos_part (axis_width p)))
            shrt_min,
        ratio-le (pos_part (moved p reverse value)) (pos_part (axis_width p)) (omega (arith, w))
            (least (moved p reverse value) (axis_width p) a w b),
      ))

not_both_zero : (p : AbsParms) → IsAxis p → (p.max ==ℤ pos 0 && p.min ==ℤ pos 0) ≡ false
not_both_zero p h = ground (arith, h.wide, h.flat_pos)

-- In the range of an axis and outside its dead zone, on both directions, the conversion to `short`
-- loses nothing: `evdev_convert_value` is the scaled value, which lies between SHRT_MIN and SHRT_MAX.
pub convert_value-exact :
    (p : AbsParms) (reverse : Bool) (value : ℤ)
    → IsAxis p
    → IsOutside p value
    → (evdev_convert_value p reverse value ≡ scaled p reverse value)
      × (shrt_min ≤ℤ scaled p reverse value)
      × (scaled p reverse value ≤ℤ shrt_max)
unfolding evdev_convert_value
convert_value-exact p reverse value h o =
    let (a, b) = scaled-bounds p reverse value h o in
    let zero_test : (p.max ==ℤ pos 0 && p.min ==ℤ pos 0) ≡ false = not_both_zero p h in
    let over : ltb_ℤ p.max value ≡ false = ground (arith, o.below) in
    let under : ltb_ℤ value p.min ≡ false = ground (arith, o.above) in
    (rw (zero_test, o.beyond, over, under) (to_i16-fits (scaled p reverse value) a b), a, b)
