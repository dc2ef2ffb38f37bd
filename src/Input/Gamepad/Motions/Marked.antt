-- ===== src/Input/Gamepad/Motions/Marked.antt =====
-- Which events of src/input/evdev.c change the controls of a gamepad without saying so: none.
use moonlight_embedded_for_d.Base.{
  ℕ, ◌==◌, ℤ, ◌==ℤ◌, ◌≡◌, refl, sym, ap, ◌∙◌, Bool, true, false, not, ◌||◌, by_test, arith,
  false_ne_true,
}
use moonlight_embedded_for_d.Input.Limelight.{Controls}
use moonlight_embedded_for_d.Input.Mapping.{Mapping}
use moonlight_embedded_for_d.Input.Axes.{AbsParms}
use moonlight_embedded_for_d.Input.Gamepad.State.{
  Change, evdev_update_byte, evdev_update_short, up_flag, down_flag, left_flag, right_flag,
}
use moonlight_embedded_for_d.Input.Gamepad.Motions.{
  AxisParms, move_stick, move_lefttrigger, move_righttrigger, move_direction, move_axis,
}

-- A change that is not marked is none.
pub record IsMarked (c : Controls) (r : Change) : Type 0 where
  pub still : r.1 ≡ false → r.0 ≡ c

pub update_byte-IsMarked :
    (a v : ℕ) → (evdev_update_byte a v).1 ≡ false → (evdev_update_byte a v).0 ≡ a
unfolding evdev_update_byte
update_byte-IsMarked a v h = ground arith

pub update_short-IsMarked :
    (a v : ℤ) → (evdev_update_short a v).1 ≡ false → (evdev_update_short a v).0 ≡ a
unfolding evdev_update_short
update_short-IsMarked a v h = ground arith

pub or_left : (a b : Bool) → (a || b) ≡ false → a ≡ false
or_left false b h = refl
or_left true b h = h

pub or_right : (a b : Bool) → (a || b) ≡ false → b ≡ false
or_right false b h = h
or_right true b h = absurd (false_ne_true (sym h))

pub same_buttons : (a b : ℕ) → not (a == b) ≡ false → b ≡ a
same_buttons a b h = ground arith

move_stick-IsMarked :
    (m : Mapping) (p : AxisParms) (index value : ℤ) (c : Controls)
    → IsMarked c (move_stick m p index value c)
unfolding move_stick
move_stick-IsMarked m p index value c =
    by_test (IsMarked c) (index ==ℤ m.abs_leftx)
      (λ e. record {
        still = λ h. ap (λ v. record c { left_stick_x = v }) (update_short-IsMarked _ _ h);
      })
      (λ e.
        by_test (IsMarked c) (index ==ℤ m.abs_lefty)
          (λ e. record {
            still = λ h. ap (λ v. record c { left_stick_y = v }) (update_short-IsMarked _ _ h);
          })
          (λ e.
            by_test (IsMarked c) (index ==ℤ m.abs_rightx)
              (λ e. record {
                still = λ h. ap (λ v. record c { right_stick_x = v }) (update_short-IsMarked _ _ h);
              })
              (λ e.
                by_test (IsMarked c) (index ==ℤ m.abs_righty)
                  (λ e. record {
                    still =
                        λ h. ap (λ v. record c { right_stick_y = v }) (update_short-IsMarked _ _ h);
                  })
                  (λ e. record { still = λ h. refl }))))

move_lefttrigger-IsMarked :
    (m : Mapping) (p : AxisParms) (index value : ℤ) (c : Controls) (r : Change)
    → IsMarked c r
    → IsMarked c (move_lefttrigger m p index value r)
unfolding move_lefttrigger
move_lefttrigger-IsMarked m p index value c (d, ch) h =
    by_test (IsMarked c) (index ==ℤ m.abs_lefttrigger)
      (λ e. record {
        still = λ k.
            ap (λ v. record d { left_trigger = v }) (update_byte-IsMarked _ _ (or_right _ _ k))
            ∙ h.still (or_left _ _ k);
      })
      (λ e. h)

move_righttrigger-IsMarked :
    (m : Mapping) (p : AxisParms) (index value : ℤ) (c : Controls) (r : Change)
    → IsMarked c r
    → IsMarked c (move_righttrigger m p index value r)
unfolding move_righttrigger
move_righttrigger-IsMarked m p index value c (d, ch) h =
    by_test (IsMarked c) (index ==ℤ m.abs_righttrigger)
      (λ e. record {
        still = λ k.
            ap (λ v. record d { right_trigger = v }) (update_byte-IsMarked _ _ (or_right _ _ k))
            ∙ h.still (or_left _ _ k);
      })
      (λ e. h)

move_direction-IsMarked :
    (i : ℤ) (half : ℕ) (p : AbsParms) (flag : ℕ) (index value : ℤ) (c : Controls) (r : Change)
    → IsMarked c r
    → IsMarked c (move_direction i half p flag index value r)
unfolding move_direction
move_direction-IsMarked i half p flag index value c (d, ch) h =
    by_test (IsMarked c) (index ==ℤ i)
      (λ e. record {
        still = λ k.
            ap (λ v. record d { buttons = v }) (same_buttons _ _ (or_right _ _ k))
            ∙ h.still (or_left _ _ k);
      })
      (λ e. h)

pub move_axis-IsMarked :
    (m : Mapping) (p : AxisParms) (index value : ℤ) (c : Controls)
    → IsMarked c (move_axis m p index value c)
unfolding move_axis
move_axis-IsMarked m p index value c =
    move_direction-IsMarked m.abs_dpdown m.halfaxis_dpdown p.down down_flag index value c _ (
      move_direction-IsMarked m.abs_dpup m.halfaxis_dpup p.up up_flag index value c _ (
        move_direction-IsMarked m.abs_dpleft m.halfaxis_dpleft p.left left_flag index value c _ (
          move_direction-IsMarked m.abs_dpright m.halfaxis_dpright p.right right_flag index value c
            _
            (move_righttrigger-IsMarked m p index value c _ (
              move_lefttrigger-IsMarked m p index value c _
                (move_stick-IsMarked m p index value c))))))
