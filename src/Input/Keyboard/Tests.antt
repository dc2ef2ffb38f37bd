-- ===== src/Input/Keyboard/Tests.antt =====
-- Keyboards on concrete keys.
use moonlight_embedded_for_d.Base.{pos, ◌≡◌, refl, Bool, false, [], ◌∷◌, test_bit, clear_bit, arith}
use moonlight_embedded_for_d.Input.Limelight.{key_down}
use moonlight_embedded_for_d.Input.Keyboard.{
  Keyboard, quit_key, handle_key, handle_keys, all_held, modifier_of, with_modifier, send_key,
}
use moonlight_embedded_for_d.Input.Keyboard.Codes.{key_codes}
use moonlight_embedded_for_d.Input.Keyboard.Quit.{modifiers_after, quit_combination}

-- Shift, Ctrl and Alt are down.
abbrev three_down : Keyboard Bool
three_down = record { modifiers = 7; waiting = false; sent = [] }

escape_sent : (handle_key 1 (pos 1) three_down).0.sent ≡ key_down 0x801B 7 ∷ []
unfolding handle_key send_key key_codes modifier_of with_modifier all_held test_bit
escape_sent = refl

quit_combination_example :
    (handle_keys ((quit_key, pos 1) ∷ (42, pos 0) ∷ (29, pos 0) ∷ (56, pos 0) ∷ []) three_down).1
    ≡ false
unfolding all_held test_bit modifiers_after modifier_of with_modifier clear_bit
quit_combination_example =
    quit_combination three_down (pos 1) ((42, pos 0) ∷ (29, pos 0) ∷ (56, pos 0) ∷ []) refl
      (λ e. ground (arith, e)) refl
