-- ===== src/Input/Axis.antt =====
-- The axis functions of src/input/touch_utils.c. `float` is a parameter.
use moonlight_embedded_for_d.Base.{
  ℤ, pos, ◌+ℤ◌, ◌-ℤ◌, ltb_ℤ, leb_ℤ, ◌==ℤ◌, ◌≡◌, Bool, false, arith, if◌then◌else◌,
}

-- The operations of `float` that the code calls.
pub record Floats (F : Type 0) : Type 0 where
  pub of_int : ℤ → F
  pub sub : F → F → F
  pub add : F → F → F
  pub mul : F → F → F
  pub div : F → F → F
  pub lt : F → F → Bool
  pub half : F
  -- the conversion to `int`, which cuts off
  pub to_int : F → ℤ

module _ {F : Type 0} (fl : Floats F) where
  abbrev pub zero_f : F
  zero_f = fl.of_int (pos 0)

  abbrev pub one_f : F
  one_f = fl.of_int (pos 1)

  unfoldable pub clamp_unit : F → F
  clamp_unit value =
      if fl.lt value zero_f then zero_f else if fl.lt one_f value then one_f else value

  -- The least value of the axis that counts: `minimum + offset`, kept between the two ends.
  unfoldable pub active_minimum : ℤ → ℤ → ℤ → ℤ
  active_minimum minimum maximum offset =
      let a = minimum +ℤ offset in
      let b = (if ltb_ℤ a minimum then minimum else a) in if ltb_ℤ maximum b then maximum else b

  unfoldable pub ml_touch_normalize_axis : ℤ → ℤ → ℤ → ℤ → F
  unfolding clamp_unit active_minimum
  ml_touch_normalize_axis value minimum maximum offset =
      let low = active_minimum minimum maximum offset in
      if leb_ℤ maximum low
      then zero_f
      else clamp_unit (fl.div (fl.of_int (value -ℤ low)) (fl.of_int (maximum -ℤ low)))

  unfoldable pub ml_touchpad_normalize_axis : ℤ → ℤ → ℤ → ℤ → ℤ
  unfolding ml_touch_normalize_axis
  ml_touchpad_normalize_axis value minimum maximum offset = fl.to_int (
      fl.add (fl.mul (ml_touch_normalize_axis value minimum maximum offset) (fl.of_int (pos 4095)))
        fl.half)

  -- The switch of `ml_touch_transform` on the rotation.
  unfoldable pub rotate_unit : ℤ → F → F → F × F
  rotate_unit rotation x y =
      if rotation ==ℤ pos 90
      then (y, fl.sub one_f x)
      else if rotation ==ℤ pos 180
      then (fl.sub one_f x, fl.sub one_f y)
      else if rotation ==ℤ pos 270
      then (fl.sub one_f y, x)
      else (x, y)

  unfoldable pub ml_touch_transform : ℤ → ℤ → ℤ → ℤ → ℤ → ℤ → ℤ → ℤ → ℤ → F × F
  unfolding ml_touch_normalize_axis rotate_unit
  ml_touch_transform x y min_x max_x min_y max_y offset_x offset_y rotation =
      rotate_unit rotation (ml_touch_normalize_axis x min_x max_x offset_x)
        (ml_touch_normalize_axis y min_y max_y offset_y)

  -- Neither below 0 nor above 1. (A value that is no number passes; the quotient of two numbers of
  -- which the second is positive is one.)
  abbrev pub InUnit : F → Type 0
  InUnit v = (fl.lt v zero_f ≡ false) × (fl.lt one_f v ≡ false)

  -- What the program relies on: the order of 0 and 1, and that 1 - v stays between them.
  pub record FloatLaws : Type 0 where
    pub zero_zero : fl.lt zero_f zero_f ≡ false
    pub one_zero : fl.lt one_f zero_f ≡ false
    pub one_one : fl.lt one_f one_f ≡ false
    pub sub_unit : (v : F) → InUnit v → InUnit (fl.sub one_f v)

  module _ (laws : FloatLaws) where
    normalize-InUnit :
        (value minimum maximum offset : ℤ)
        → InUnit (ml_touch_normalize_axis value minimum maximum offset)
    unfolding ml_touch_normalize_axis
    normalize-InUnit value minimum maximum offset =
        ground (arith, laws.zero_zero, laws.one_zero, laws.one_one)

    rotate-InUnit :
        (rotation : ℤ) (x y : F)
        → InUnit x
        → InUnit y
        → InUnit (rotate_unit rotation x y).0 × InUnit (rotate_unit rotation x y).1
    unfolding rotate_unit
    rotate-InUnit rotation x y hx hy = ground (arith, laws.sub_unit x hx, laws.sub_unit y hy)

    -- Wherever on the device or off its range a finger is reported, under every rotation, bounds
    -- and offset, what goes to the host lies in the unit square.
    pub ml_touch_transform-InUnit :
        (x y min_x max_x min_y max_y offset_x offset_y rotation : ℤ)
        → let p = ml_touch_transform x y min_x max_x min_y max_y offset_x offset_y rotation in
          InUnit p.0 × InUnit p.1
    unfolding ml_touch_transform
    ml_touch_transform-InUnit x y min_x max_x min_y max_y offset_x offset_y rotation =
        rotate-InUnit rotation _ _ (normalize-InUnit x min_x max_x offset_x)
          (normalize-InUnit y min_y max_y offset_y)
