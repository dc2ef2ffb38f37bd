-- ===== src/Input/Gamepad/Motions/Hats.antt =====
-- The table `hat_constants` of src/input/evdev.c against what it means.
use moonlight_embedded_for_d.Base.{
  ℤ, pos, negsuc, ◌==ℤ◌, ◌+ℤ◌, ltb_ℤ, ◌≡◌, sym, true, false, arith, by_test,
}
use moonlight_embedded_for_d.Input.Gamepad.Motions.{hat_sign, hat_state, points}

-- A value by its sign.
sign-cases :
    (P : ℤ → Type 0) (v : ℤ)
    → (ltb_ℤ v (pos 0) ≡ true → ltb_ℤ (pos 0) v ≡ false → P (negsuc 0))
    → (ltb_ℤ v (pos 0) ≡ false → ltb_ℤ (pos 0) v ≡ false → P (pos 0))
    → (ltb_ℤ v (pos 0) ≡ false → ltb_ℤ (pos 0) v ≡ true → P (pos 1))
    → P (hat_sign v)
unfolding hat_sign
sign-cases P v f g h =
    by_test P (ltb_ℤ v (pos 0)) (λ e. f e (ground (arith, e)))
      (λ e.
        by_test P (v ==ℤ pos 0) (λ k. g e (ground (arith, k))) (λ k. h e (ground (arith, e, k))))

-- Whatever the two axes of a hat report: the state that the table gives points up exactly if the
-- vertical value is negative and down if it is positive, left exactly if the horizontal value is
-- negative and right if it is positive.
pub hat_state-directions :
    (x y : ℤ)
    → let state = hat_state (hat_sign x, hat_sign y) in
      (points state (pos 1) ≡ ltb_ℤ y (pos 0))
      × (points state (pos 4) ≡ ltb_ℤ (pos 0) y)
      × (points state (pos 8) ≡ ltb_ℤ x (pos 0))
      × (points state (pos 2) ≡ ltb_ℤ (pos 0) x)
unfolding hat_state points ◌+ℤ◌
hat_state-directions x y =
    sign-cases (λ sx. Shows sx (hat_sign y)) x
      (λ e f.
        sign-cases (Shows (negsuc 0)) y (λ g h. (sym g, sym h, sym e, sym f))
          (λ g h. (sym g, sym h, sym e, sym f)) (λ g h. (sym g, sym h, sym e, sym f)))
      (λ e f.
        sign-cases (Shows (pos 0)) y (λ g h. (sym g, sym h, sym e, sym f))
          (λ g h. (sym g, sym h, sym e, sym f)) (λ g h. (sym g, sym h, sym e, sym f)))
      (λ e f.
        sign-cases (Shows (pos 1)) y (λ g h. (sym g, sym h, sym e, sym f))
          (λ g h. (sym g, sym h, sym e, sym f)) (λ g h. (sym g, sym h, sym e, sym f)))
  where
    Shows : ℤ → ℤ → Type 0
    Shows sx sy =
        (points (hat_state (sx, sy)) (pos 1) ≡ ltb_ℤ y (pos 0))
        × (points (hat_state (sx, sy)) (pos 4) ≡ ltb_ℤ (pos 0) y)
        × (points (hat_state (sx, sy)) (pos 8) ≡ ltb_ℤ x (pos 0))
        × (points (hat_state (sx, sy)) (pos 2) ≡ ltb_ℤ (pos 0) x)
