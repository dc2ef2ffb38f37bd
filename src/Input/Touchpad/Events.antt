-- ===== src/Input/Touchpad/Events.antt =====
-- `evdev_handle_event` of src/input/evdev.c for a touchscreen in the touchpad mode.
pub mod Runs
use moonlight_embedded_for_d.Base.{
  ℤ, pos, negsuc, neg, leb_ℤ, ◌==ℤ◌, Bool, true, false, not, ◌&&◌, ◌||◌, List, [], ◌∷◌,
  if◌then◌else◌,
}
use moonlight_embedded_for_d.Input.Limelight.{Sent, mouse_move, scroll, h_scroll}
use moonlight_embedded_for_d.Input.Axis.{Floats}
use moonlight_embedded_for_d.Input.Contacts.{Timeval}
use moonlight_embedded_for_d.Input.Touchpad.{
  Pad, touchpad_begin_slot, touchpad_release_slot, touchpad_release_all, touchpad_flush,
  touchpad_update_slot_axis, touchpad_cancel,
}

-- What the device reports. `position is_x multi value` stands for ABS_X and ABS_Y, and for
-- ABS_MT_POSITION_X and ABS_MT_POSITION_Y where `multi` is true. `cancelled` stands for the call of
-- `evdev_cancel_touch_input` when the device goes away.
pub data PadEvent : Type 0 where
  syn_report cancelled : PadEvent
  mt_slot : ℤ → PadEvent
  mt_tracking_id : ℤ → Timeval → PadEvent
  position : Bool → Bool → ℤ → PadEvent
  btn_touch : ℤ → Timeval → PadEvent

module _ {F : Type 0} where
  -- The switch on the rotation under EV_SYN.
  unfoldable pub rotated_move : ℤ → ℤ → ℤ → Sent F
  rotated_move rotation dx dy =
      if rotation ==ℤ pos 90
      then mouse_move dy (neg dx)
      else if rotation ==ℤ pos 180
      then mouse_move (neg dx) (neg dy)
      else if rotation ==ℤ pos 270
      then mouse_move (neg dy) dx
      else mouse_move dx dy

  -- The pointer motion and the scroll ticks gathered since the last EV_SYN.
  unfoldable pub send_motion : Pad F → Pad F
  unfolding rotated_move
  send_motion p =
      if not (p.delta_x ==ℤ pos 0) || not (p.delta_y ==ℤ pos 0)
      then record p {
        sent = rotated_move p.rotate p.delta_x p.delta_y ∷ p.sent;
        delta_x = pos 0;
        delta_y = pos 0;
      }
      else p

  unfoldable pub send_v_scroll : Pad F → Pad F
  send_v_scroll p =
      if not (p.v_scroll ==ℤ pos 0)
      then record p { sent = scroll p.v_scroll ∷ p.sent; v_scroll = pos 0 }
      else p

  unfoldable pub send_h_scroll : Pad F → Pad F
  send_h_scroll p =
      if not (p.h_scroll ==ℤ pos 0)
      then record p { sent = h_scroll p.h_scroll ∷ p.sent; h_scroll = pos 0 }
      else p

  unfoldable pub handle_tracking_id : ℤ → Timeval → Pad F → Pad F
  unfolding touchpad_begin_slot touchpad_release_slot
  handle_tracking_id value time p =
      if leb_ℤ (pos 0) value
      then touchpad_begin_slot p.touch_slot value time p
      else touchpad_release_slot p.touch_slot time p

  unfoldable pub handle_btn_touch : ℤ → Timeval → Pad F → Pad F
  unfolding touchpad_begin_slot touchpad_release_slot touchpad_release_all
  handle_btn_touch value time p =
      if not p.has_mt_slots
      then if value ==ℤ pos 1
        then touchpad_begin_slot (pos 0) (pos 0) time p
        else touchpad_release_slot (pos 0) time p
      else if value ==ℤ pos 0
      then touchpad_release_all time p
      else p

  module _ (fl : Floats F) where
    unfoldable pub handle_pad_event : PadEvent → Pad F → Pad F
    unfolding touchpad_flush send_motion send_v_scroll send_h_scroll handle_tracking_id
        handle_btn_touch touchpad_update_slot_axis touchpad_cancel
    handle_pad_event syn_report p = send_h_scroll (send_v_scroll (send_motion (touchpad_flush p)))
    handle_pad_event cancelled p = touchpad_cancel p
    handle_pad_event (mt_slot value) p = record p { touch_slot = value }
    handle_pad_event (mt_tracking_id value time) p = handle_tracking_id value time p
    handle_pad_event (position is_x multi value) p =
        touchpad_update_slot_axis fl (if multi then p.touch_slot else pos 0) is_x value p
    handle_pad_event (btn_touch value time) p = handle_btn_touch value time p

    unfoldable pub handle_pad_events : List PadEvent → Pad F → Pad F
    unfolding handle_pad_event
    handle_pad_events [] p = p
    handle_pad_events (e ∷ es) p = handle_pad_events es (handle_pad_event e p)
