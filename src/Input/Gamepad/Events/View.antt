-- ===== src/Input/Gamepad/Events/View.antt =====
-- What the host knows of a gamepad, and what src/input/evdev.c keeps of it.
use mathlib.Core.Path.{subst}
use moonlight_embedded_for_d.Base.{
  ℕ, ◌==◌, ℤ, pos, ◌==ℤ◌, ltb_ℤ, ◌≡◌, refl, sym, ap, ◌∙◌, Bool, true, false, not, ◌&&◌, Option,
  none, some, ◌∷◌, test_bit, set_bit, clear_bit, test_bit-clear_bit, if◌then◌else◌, by_test, arith,
  false_ne_true, Bool-cases, ==_iff, inl, inr,
}
use moonlight_embedded_for_d.Input.Limelight.{at_rest, host_controls, MouseButton, controller}
use moonlight_embedded_for_d.Input.Mapping.{Mapping}
use moonlight_embedded_for_d.Input.Gamepad.State.{
  Gamepad, Outcome, goes_on, quits, Change, finish, has_quit, play_flag,
}
use moonlight_embedded_for_d.Input.Gamepad.Presses.{
  is_down, with_button, switches, send_emulated, emulated_button, emulate, press, press_trigger,
  press_code, handle_button,
}
use moonlight_embedded_for_d.Input.Gamepad.Motions.{AxisParms, handle_hat, handle_axis, with_hat}
use moonlight_embedded_for_d.Input.Gamepad.Motions.Marked.{
  update_byte-IsMarked, or_left, or_right, same_buttons, move_axis-IsMarked,
}
use moonlight_embedded_for_d.Input.Gamepad.Arrival.{Identity}
use moonlight_embedded_for_d.Input.Gamepad.Events.{
  PadEvent, button, hat, axis, syn_report, send_controller_arrival, arrive, send_controls, flush,
  handle_event, was_held, plausible, Reach, plugged, handled,
}

both : (a b : Bool) → (a && b) ≡ true → b ≡ true
both true b h = h
both false b h = absurd (false_ne_true h)

-- A held button that is released changes the mask.
released-differs : (code b : ℕ) → test_bit b code ≡ true → not (b == clear_bit b code) ≡ true
released-differs code b h = elim (Bool-cases (b == clear_bit b code)) [
  | inl e ↦ ground (
    arith,
    ap (λ m. test_bit m code) ((==_iff b (clear_bit b code)).0 e),
    test_bit-clear_bit b code code,
    h,
  )
  | inr e ↦ rw e refl
]

switches-held :
    (enabled : Bool) (code : ℕ) (value time down_time : ℤ)
    → switches enabled code value time down_time ≡ true
    → (is_down value ≡ false) × ((code == play_flag) ≡ true)
unfolding switches
switches-held enabled code value time down_time h = (ground (arith, h), ground (arith, h))

-- With nothing left to report and no emulation, the host knows the controls as they are.
pub record IsShown {F : Type 0} (g : Gamepad F) : Type 0 where
  pub shown : g.modified ≡ false → g.mouse_emulation ≡ false → host_controls g.sent ≡ g.controls

module _ {F : Type 0} where
  -- How an event may end.
  unfoldable pub Fits : Outcome F → Type 0
  Fits (goes_on h) = IsShown h
  Fits (quits h) = (host_controls h.sent ≡ at_rest) × (has_quit h.controls.buttons ≡ true)

  finish-Fits :
      (g : Gamepad F) (r : Change)
      → (g.modified ≡ false → g.mouse_emulation ≡ false → r.1 ≡ false → host_controls g.sent ≡ r.0)
      → Fits (finish g r)
  unfolding finish Fits
  finish-Fits g (c, changed) k =
      by_test Fits (changed && has_quit c.buttons) (λ e. (refl, both _ _ e))
        (λ e. record { shown = λ m n. k (or_left _ _ m) n (or_right _ _ m) })

  -- The emulation of the mouse changes nothing that the host knows, except where it is switched.
  emulate-keeps :
      (enabled : Bool) (code : ℕ) (value time : ℤ) (g : Gamepad F)
      → switches enabled code value time g.down_time ≡ false
      → (host_controls (emulate enabled code value time g).sent ≡ host_controls g.sent)
        × ((emulate enabled code value time g).mouse_emulation ≡ g.mouse_emulation)
        × ((emulate enabled code value time g).modified ≡ g.modified)
  unfolding emulate send_emulated
  emulate-keeps enabled code value time g h =
      by_test Keeps (enabled && (code == play_flag && value ==ℤ pos 0))
        (λ e. rw h (refl, refl, refl))
        (λ e.
          by_test Keeps g.mouse_emulation (λ e. sent_keeps (emulated_button code))
            (λ e. (refl, refl, refl)))
    where
      Keeps : Gamepad F → Type 0
      Keeps e =
          (host_controls e.sent ≡ host_controls g.sent)
          × (e.mouse_emulation ≡ g.mouse_emulation)
          × (e.modified ≡ g.modified)

      sent_keeps : (b : Option MouseButton) → Keeps (send_emulated b value g)
      sent_keeps none = (refl, refl, refl)
      sent_keeps (some b) = (
        by_test (λ s. host_controls (s ∷ g.sent) ≡ host_controls g.sent) (is_down value) (λ e. refl)
            (λ e. refl),
        refl,
        refl,
      )

  press-Fits :
      (enabled : Bool) (code : ℕ) (value time : ℤ) (g : Gamepad F)
      → IsShown g
      → was_held (some code) value g ≡ true
      → Fits (press enabled code value time g)
  unfolding press with_button was_held
  press-Fits enabled code value time g s held =
      finish-Fits (emulate enabled code value time g_down) _
        (elim (Bool-cases (switches enabled code value time down)) [
          | inl e ↦ λ m n k.
              let (up, start) = switches-held enabled code value time down e in
              absurd (false_ne_true (sym k ∙ changes up start))
          | inr e ↦ λ m n k.
              let (a, b, c) = emulate-keeps enabled code value time g_down e in
              a
              ∙ s.shown (sym c ∙ m) (sym b ∙ n)
              ∙ sym (ap (λ v. record g.controls { buttons = v }) (same_buttons _ _ k))
        ])
    where
      down : ℤ
      down = if is_down value then time else g.down_time

      g_down : Gamepad F
      g_down = record g { down_time = down }

      released :
          is_down value ≡ false
          → (code == play_flag) ≡ true
          → test_bit g.controls.buttons code ≡ true
      released u start = ground (arith, u, start, held)

      changes :
          is_down value ≡ false
          → (code == play_flag) ≡ true
          → not (
              g.controls.buttons == (
                if is_down value
                then set_bit g.controls.buttons code
                else clear_bit g.controls.buttons code))
            ≡ true
      changes u start = rw u (released-differs code g.controls.buttons (released u start))

  press_trigger-Fits :
      (m : Mapping) (index value : ℤ) (g : Gamepad F)
      → IsShown g
      → Fits (press_trigger m index value g)
  unfolding press_trigger
  press_trigger-Fits m index value g s =
      by_test Fits (index ==ℤ m.btn_lefttrigger)
        (λ e. finish-Fits g _ (λ m n k.
          s.shown m n
          ∙ sym (ap (λ v. record g.controls { left_trigger = v }) (update_byte-IsMarked _ _ k))))
        (λ e.
          by_test Fits (index ==ℤ m.btn_righttrigger)
            (λ e. finish-Fits g _ (λ m n k.
              s.shown m n
              ∙ sym
                  (ap (λ v. record g.controls { right_trigger = v }) (update_byte-IsMarked _ _ k))))
            (λ e. finish-Fits g (g.controls, false) (λ m n k. s.shown m n)))

  press_code-Fits :
      (enabled : Bool) (m : Mapping) (code : Option ℕ) (index value time : ℤ) (g : Gamepad F)
      → IsShown g
      → was_held code value g ≡ true
      → Fits (press_code enabled m code index value time g)
  unfolding press_code
  press_code-Fits enabled m none index value time g s held = press_trigger-Fits m index value g s
  press_code-Fits enabled m (some code) index value time g s held =
      press-Fits enabled code value time g s held

  send_controls-Shown :
      (g : Gamepad F)
      → g.mouse_emulation ≡ false
      → host_controls (send_controls g).sent ≡ g.controls
  unfolding send_controls
  send_controls-Shown g h = rw h refl

  send_controls-keeps :
      (g : Gamepad F)
      → ((send_controls g).mouse_emulation ≡ g.mouse_emulation)
        × ((send_controls g).controls ≡ g.controls)
  unfolding send_controls
  send_controls-keeps g =
      by_test
        (λ (h : Gamepad F). (h.mouse_emulation ≡ g.mouse_emulation) × (h.controls ≡ g.controls))
        g.mouse_emulation
        {y = record g { sent = controller g.controller_id g.assigned g.controls ∷ g.sent }}
        (λ e. (refl, refl)) (λ e. (refl, refl))

  flush-IsShown : (m : Mapping) (d : Identity) (g : Gamepad F) → IsShown g → IsShown (flush m d g)
  unfolding flush
  flush-IsShown m d g s =
      by_test IsShown g.modified
        (λ e. record {
          shown = λ a b.
              let (emulation, controls) = send_controls-keeps (arrive m d g) in
              send_controls-Shown (arrive m d g) (sym emulation ∙ b) ∙ sym controls;
        })
        (λ e. s)

  handle_event-Fits :
      (enabled : Bool) (m : Mapping) (p : AxisParms) (d : Identity) (e : PadEvent) (g : Gamepad F)
      → IsShown g
      → plausible m e g ≡ true
      → Fits (handle_event enabled m p d e g)
  unfolding handle_event handle_button handle_hat handle_axis plausible Fits
  handle_event-Fits enabled m p d (button index value time) g s h =
      press_code-Fits enabled m _ index value time g s h
  handle_event-Fits enabled m p d (hat a is_y value) g s h =
      finish-Fits (record g { hats = with_hat a is_y value g.hats }) _
        (λ m n k.
          s.shown m n ∙ sym (ap (λ v. record g.controls { buttons = v }) (same_buttons _ _ k)))
  handle_event-Fits enabled m p d (axis index value) g s h =
      finish-Fits g _
        (λ a b k. s.shown a b ∙ sym ((move_axis-IsMarked m p index value g.controls).still k))
  handle_event-Fits enabled m p d syn_report g s h = flush-IsShown m d g s

  Reach-IsShown :
      (enabled : Bool) (m : Mapping) (p : AxisParms) (d : Identity) (g : Gamepad F)
      → Reach enabled m p d g
      → IsShown g
  unfolding Fits
  Reach-IsShown enabled m p d g (plugged mask) = record { shown = λ a b. refl }
  Reach-IsShown enabled m p d h (handled r e k q) =
      subst Fits q (handle_event-Fits enabled m p d e _ (Reach-IsShown enabled m p d _ r) k)

  arrive-keeps :
      (m : Mapping) (d : Identity) (g : Gamepad F)
      → ((arrive m d g).mouse_emulation ≡ g.mouse_emulation)
        × ((arrive m d g).controls ≡ g.controls)
  unfolding arrive send_controller_arrival
  arrive-keeps m d g =
      by_test
        (λ (h : Gamepad F). (h.mouse_emulation ≡ g.mouse_emulation) × (h.controls ≡ g.controls))
        (ltb_ℤ g.controller_id (pos 0)) (λ e. (refl, refl)) (λ e. (refl, refl))

  -- Whatever happened on a gamepad since it was plugged in, as long as Start is never reported as
  -- released where the program does not have it as held: at EV_SYN with the mouse not emulated, what the host was last told is the state of all
  -- buttons, triggers and sticks.
  pub flush-Shown :
      (enabled : Bool) (m : Mapping) (p : AxisParms) (d : Identity) (g : Gamepad F)
      → Reach enabled m p d g
      → g.mouse_emulation ≡ false
      → host_controls (flush m d g).sent ≡ g.controls
  unfolding flush
  flush-Shown enabled m p d g r f =
      by_test (λ (h : Gamepad F). host_controls h.sent ≡ g.controls) g.modified
        (λ e.
          let (emulation, controls) = arrive-keeps m d g in
          send_controls-Shown (arrive m d g) (emulation ∙ f) ∙ controls)
        (λ e. (Reach-IsShown enabled m p d g r).shown e f)
