-- ===== src/Input/Gamepad/Events.antt =====
-- The events of a gamepad: `evdev_handle_event` of src/input/evdev.c on a device with a mapping.
pub mod View
use moonlight_embedded_for_d.Base.{
  ◌==◌, ℕ, ℤ, pos, ◌==ℤ◌, ltb_ℤ, ◌≡◌, Bool, true, false, not, ◌&&◌, Option, none, some, List, [],
  ◌∷◌, test_bit, if◌then◌else◌,
}
use moonlight_embedded_for_d.Input.Limelight.{Sent, controller, controller_arrival}
use moonlight_embedded_for_d.Input.Mapping.{Mapping}
use moonlight_embedded_for_d.Input.Players.{free_id, assign_id, max_gamepads}
use moonlight_embedded_for_d.Input.Gamepad.State.{
  play_flag, Gamepad, Outcome, goes_on, quits, gamepad_code, mapped_buttons, new_gamepad,
}
use moonlight_embedded_for_d.Input.Gamepad.Presses.{handle_button, is_down}
use moonlight_embedded_for_d.Input.Gamepad.Motions.{AxisParms, Hat, handle_hat, handle_axis}
use moonlight_embedded_for_d.Input.Gamepad.Arrival.{
  Identity, controller_type, supported_flags, announced_buttons, capabilities,
}

-- What the kernel reports. A button and an axis come with the index that `key_map` or `abs_map` has
-- for their code, a negative number other than -1 if none; `hat` with true is the vertical axis of the hat. The axes
-- ABS_HAT3X and ABS_HAT3Y, for which `hats_state` has no room, are left out.
pub data PadEvent : Type 0 where
  button : ℤ → ℤ → ℤ → PadEvent
  hat : Hat → Bool → ℤ → PadEvent
  axis : ℤ → ℤ → PadEvent
  syn_report : PadEvent

unfoldable pub send_controls : {F : Type 0} → Gamepad F → Gamepad F
send_controls g =
    if g.mouse_emulation
    then g
    else record g { sent = controller g.controller_id g.assigned g.controls ∷ g.sent }

-- Start is reported as released only where the program has it as held.
unfoldable pub was_held : {F : Type 0} → Option ℕ → ℤ → Gamepad F → Bool
was_held none value g = true
was_held (some code) value g =
    if is_down value
    then true
    else if code == play_flag
    then test_bit g.controls.buttons code
    else true

unfoldable pub plausible : {F : Type 0} → Mapping → PadEvent → Gamepad F → Bool
unfolding was_held gamepad_code
plausible m (button index value time) g = was_held (gamepad_code index (mapped_buttons m)) value g
plausible m (hat h is_y value) g = true
plausible m (axis index value) g = true
plausible m syn_report g = true

module _ {F : Type 0} (m : Mapping) (d : Identity) where
  unfoldable pub send_controller_arrival : Gamepad F → Gamepad F
  unfolding controller_type supported_flags capabilities
  send_controller_arrival g = record g {
    sent =
        controller_arrival g.controller_id g.assigned (controller_type d)
          (supported_flags (announced_buttons m)) (capabilities m)
        ∷ g.sent;
  }

  -- A number for a gamepad that has none, and the arrival.
  unfoldable pub arrive : Gamepad F → Gamepad F
  unfolding assign_id free_id send_controller_arrival
  arrive g =
      let (mask, id) = assign_id g.assigned (free_id max_gamepads 0 g.assigned) in
      if ltb_ℤ g.controller_id (pos 0)
      then send_controller_arrival (record g { assigned = mask; controller_id = id })
      else g

  -- EV_SYN
  unfoldable pub flush : Gamepad F → Gamepad F
  flush g = if g.modified then record (send_controls (arrive g)) { modified = false } else g

module _ {F : Type 0} (enabled : Bool) (m : Mapping) (p : AxisParms) (d : Identity) where
  unfoldable pub handle_event : PadEvent → Gamepad F → Outcome F
  unfolding handle_button handle_hat handle_axis flush
  handle_event (button index value time) g = handle_button enabled m index value time g
  handle_event (hat h is_y value) g = handle_hat m h is_y value g
  handle_event (axis index value) g = handle_axis m p index value g
  handle_event syn_report g = goes_on (flush m d g)

  -- The states of a gamepad, from when it was plugged in, while the loop goes on.
  pub data Reach : Gamepad F → Type 0 where
    plugged : (mask : ℕ) → Reach (new_gamepad mask)
    handled :
        {g h : Gamepad F}
        → Reach g
        → (e : PadEvent) → plausible m e g ≡ true
        → handle_event e g ≡ goes_on h
        → Reach h
