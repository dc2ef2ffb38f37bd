-- ===== src/Input/Touchpad/Scroll.antt =====
-- `touchpad_add_scroll_delta` of src/input/evdev.c: no motion is lost between two calls.
use moonlight_embedded_for_d.Base.{
  ◌+◌, ◌*◌, ◌/◌, ◌<◌, ℤ, pos, negsuc, pos_part, neg_part, ◌+ℤ◌, ◌-ℤ◌, ◌*ℤ◌, ◌/ℤ◌, ◌==ℤ◌, ◌≡◌, refl,
  arith, not, Bool, true, false, by_test, false_ne_true, sym, neg, +ℤ_parts,
}
use moonlight_embedded_for_d.Input.Contacts.{scroll_axis}
use moonlight_embedded_for_d.Input.Touchpad.{Pad, touchpad_add_scroll_delta}

-- Less than one tick, in either direction.
abbrev pub IsRest : ℤ → Type 0
IsRest r = (pos_part r < 35) × (neg_part r < 35)

-- Before and after: 35 times the ticks and the remainder, as a sum over the parts of the integers.
abbrev pub Conserves : ℤ → ℤ → ℤ → ℤ × ℤ → Type 0
Conserves s r d (s', r') =
    35 * pos_part s' + pos_part r' + 35 * neg_part s + neg_part r + neg_part d
    ≡ 35 * pos_part s + pos_part r + pos_part d + 35 * neg_part s' + neg_part r'

quotient-parts :
    (r : ℤ)
    → (pos_part (r /ℤ pos 35) ≡ pos_part r / 35) × (neg_part (r /ℤ pos 35) ≡ neg_part r / 35)
unfolding ◌/ℤ◌
quotient-parts (pos n) = ground arith
quotient-parts (negsuc n) = ground arith

IsRest-parts :
    (r : ℤ)
    → let q = r -ℤ r /ℤ pos 35 *ℤ pos 35 in
      IsRest q
      × (pos_part q + 35 * pos_part (r /ℤ pos 35) + neg_part r
          ≡ pos_part r + 35 * neg_part (r /ℤ pos 35) + neg_part q)
unfolding ◌-ℤ◌ ◌*ℤ◌
IsRest-parts (pos n) = ground (arith, quotient-parts (pos n))
IsRest-parts (negsuc n) = ground (arith, quotient-parts (negsuc n))

zero-parts : (a : ℤ) → (a ==ℤ pos 0) ≡ true → (pos_part a ≡ 0) × (neg_part a ≡ 0)
zero-parts a h = ground arith

short_of_zero : (r : ℤ) → (r /ℤ pos 35 ==ℤ pos 0) ≡ true → IsRest r
short_of_zero r h =
    let (a, b) = quotient-parts r in
    let (c, d) = zero-parts (r /ℤ pos 35) h in (omega (arith, a, c), omega (arith, b, d))

scroll_axis-Conserves :
    (s r d : ℤ) → IsRest (scroll_axis s r d).1 × Conserves s r d (scroll_axis s r d)
unfolding scroll_axis
scroll_axis-Conserves s r d =
    by_test (λ o. IsRest o.1 × Conserves s r d o) (not (q ==ℤ pos 0))
      (λ e. ((IsRest-parts t).0, omega (arith, (IsRest-parts t).1, +ℤ_parts r d, +ℤ_parts s q)))
      (λ e. (short_of_zero t (not_false _ e), omega (arith, +ℤ_parts r d)))
  where
    t : ℤ
    t = r +ℤ d

    q : ℤ
    q = t /ℤ pos 35

    not_false : (b : Bool) → not b ≡ false → b ≡ true
    not_false true h = refl
    not_false false h = absurd (false_ne_true (sym h))

module _ {F : Type 0} where
  -- A call of `touchpad_add_scroll_delta` loses no motion and counts none twice: on each axis the ticks gathered,
  -- at 35 pixels a tick, and the remainder kept change together by the motion (downwards motion
  -- scrolls up), and a remainder is less than a tick.
  pub add_scroll_delta-Conserves :
      (dx dy : ℤ) (p : Pad F)
      → let q = touchpad_add_scroll_delta dx dy p in
        Conserves p.v_scroll p.remainder_y (neg dy) (q.v_scroll, q.remainder_y)
        × Conserves p.h_scroll p.remainder_x dx (q.h_scroll, q.remainder_x)
        × IsRest q.remainder_y
        × IsRest q.remainder_x
  unfolding touchpad_add_scroll_delta
  add_scroll_delta-Conserves dx dy p =
      let (a, b) = scroll_axis-Conserves p.v_scroll p.remainder_y (neg dy) in
      let (c, d) = scroll_axis-Conserves p.h_scroll p.remainder_x dx in (b, d, a, c)
