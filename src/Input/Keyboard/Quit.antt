-- ===== src/Input/Keyboard/Quit.antt =====
-- The combination of keys that quits.
use moonlight_embedded_for_d.Base.{
  ℕ, ◌==◌, ltb, ℤ, pos, ◌==ℤ◌, ◌≡◌, ◌≢◌, refl, sym, ap, ◌∙◌, Bool, true, false, not, ◌&&◌, Option,
  none, List, [], ◌∷◌, test_bit, by_test, arith, false_ne_true, Bool-cases, inl, inr, get_or, ◌+◌,
}
use moonlight_embedded_for_d.Input.Keyboard.Codes.{key_codes, key_count}
use moonlight_embedded_for_d.Input.Limelight.{key_down, key_up}
use moonlight_embedded_for_d.Input.Keyboard.{
  Keyboard, modifier_of, with_modifier, all_held, quit_key, send_key, handle_key, handle_keys,
}

-- The modifiers after some keys, whatever else happens.
unfoldable pub modifiers_after : List (ℕ × ℤ) → ℕ → ℕ
modifiers_after [] mask = mask
modifiers_after ((code, value) ∷ keys) mask =
    modifiers_after keys (with_modifier (modifier_of code) value mask)

all_held-ne_zero : (mask : ℕ) → all_held mask ≡ true → mask ≢ 0
unfolding all_held test_bit
all_held-ne_zero mask h e = ground (arith, h, e)

-- No modifier stands behind the table.
modifier_of-behind : (code : ℕ) → ltb code key_count ≡ false → modifier_of code ≡ none
unfolding modifier_of
modifier_of-behind code h = ground (arith, h)

and_left : (a b : Bool) → (a && b) ≡ true → a ≡ true
and_left true b h = refl
and_left false b h = absurd (false_ne_true h)

-- Waiting for all modifiers to go up, and one is down.
record IsWaiting {F : Type 0} (k : Keyboard F) : Type 0 where
  waits : k.waiting ≡ true
  held : k.modifiers ≢ 0

module _ {F : Type 0} where
  send_key-keeps :
      (code : ℕ) (value : ℤ) (k : Keyboard F)
      → ((send_key code value k).waiting ≡ k.waiting)
        × ((send_key code value k).modifiers ≡ k.modifiers)
  unfolding send_key
  send_key-keeps code value k =
      by_test Same (get_or key_codes code 0 == 0) (λ e. (refl, refl))
        (λ e.
          by_test Same (value ==ℤ pos 0)
            {x = record k { sent = key_up (0x8000 + get_or key_codes code 0) k.modifiers ∷ k.sent }}
            {y = record k {
              sent = key_down (0x8000 + get_or key_codes code 0) k.modifiers ∷ k.sent;
            }}
            (λ f. (refl, refl)) (λ f. (refl, refl)))
    where
      Same : Keyboard F → Type 0
      Same l = (l.waiting ≡ k.waiting) × (l.modifiers ≡ k.modifiers)

  -- What a key does while the program waits.
  unfoldable Waits : Option ℕ → ℤ → Keyboard F → Keyboard F × Bool → Type 0
  Waits bit value k r =
      r.1 ≡ true → IsWaiting r.0 × (r.0.modifiers ≡ with_modifier bit value k.modifiers)

  handle_key-Waits :
      (code : ℕ) (value : ℤ) (k : Keyboard F)
      → IsWaiting k
      → Waits (modifier_of code) value k (handle_key code value k)
  unfolding handle_key Waits with_modifier
  handle_key-Waits code value k w =
      by_test (Waits (modifier_of code) value k) (ltb code key_count)
        (λ e.
          by_test (Waits (modifier_of code) value k)
            (all_held mask && (code == quit_key && not (value ==ℤ pos 0)))
            (λ f g. (record { waits = refl; held = all_held-ne_zero mask (and_left _ _ f) }, refl))
            (λ f.
              by_test (Waits (modifier_of code) value k) (k.waiting && mask == 0)
                (λ g h. absurd (false_ne_true h))
                (λ g h.
                  let (waits, same) = send_key-keeps code value (record k { modifiers = mask }) in
                  (
                    record { waits = waits ∙ w.waits; held = λ z. still_held g (sym same ∙ z) },
                    same,
                  ))))
        (λ e g. (w, ap (λ b. with_modifier b value k.modifiers) (sym (modifier_of-behind code e))))
    where
      mask : ℕ
      mask = with_modifier (modifier_of code) value k.modifiers

      still_held : (k.waiting && mask == 0) ≡ false → mask ≢ 0
      still_held g z = ground (arith, g, z, w.waits)

  waiting-ends :
      (keys : List (ℕ × ℤ)) (k : Keyboard F)
      → IsWaiting k
      → modifiers_after keys k.modifiers ≡ 0
      → (handle_keys keys k).1 ≡ false
  unfolding handle_keys modifiers_after Waits
  waiting-ends [] k w h = absurd (w.held h)
  waiting-ends ((code, value) ∷ keys) k w h = elim (Bool-cases (handle_key code value k).1) [
    | inl e ↦
        let (v, same) = handle_key-Waits code value k w e in
        rw e (waiting-ends keys (handle_key code value k).0 v (ap (modifiers_after keys) same ∙ h))
    | inr e ↦ rw e refl
  ]

  -- Once Q is pressed while Shift, Ctrl and Alt are down, the stream ends at the latest when the
  -- keys that follow have left no modifier down, whichever keys these are.
  pub quit_combination :
      (k : Keyboard F) (value : ℤ) (keys : List (ℕ × ℤ))
      → all_held k.modifiers ≡ true
      → value ≢ pos 0
      → modifiers_after keys k.modifiers ≡ 0
      → (handle_keys ((quit_key, value) ∷ keys) k).1 ≡ false
  unfolding handle_keys handle_key all_held test_bit with_modifier modifier_of
  quit_combination k value keys h v e =
      let pressed : (value ==ℤ pos 0) ≡ false = ground (arith, v) in
      rw (h, pressed)
        (waiting-ends keys (record k { waiting = true })
          (record { waits = refl; held = all_held-ne_zero k.modifiers h }) e)
