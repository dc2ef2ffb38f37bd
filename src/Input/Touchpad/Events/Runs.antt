-- ===== src/Input/Touchpad/Events/Runs.antt =====
-- The left button over any run of the touchpad mode of src/input/evdev.c.
use moonlight_embedded_for_d.Base.{
  ℕ, ◌<◌, ◌==◌, leb, ltb, ℤ, pos, negsuc, ◌==ℤ◌, leb_ℤ, ◌≡◌, refl, ap, ◌∙◌, Bool, false, not, ◌&&◌,
  ◌||◌, List, [], ◌∷◌, map, get_or, length, length-set, arith, if◌then◌else◌, Bool-cases, inl, inr,
  Option, none, some, by_test, ltb→lt,
}
use moonlight_embedded_for_d.Input.Limelight.{left_down, Sent}
use moonlight_embedded_for_d.Input.Axis.{Floats}
use moonlight_embedded_for_d.Input.Contacts.{
  Timeval, PadSlot, zero_slot, active_count, remember_position, first_active_slot,
}
use moonlight_embedded_for_d.Input.Touchpad.{
  Pad, max_slots, update_max_fingers, release_left_if_needed, reset_gesture, in_range, begin_at,
  touchpad_begin_slot, touchpad_release_slot, touchpad_add_scroll_delta, flush_two, flush_one,
  touchpad_flush, update_axis_at, touchpad_update_slot_axis, touchpad_cancel,
}
use moonlight_embedded_for_d.Input.Touchpad.Drag.{
  IsSettled, IsAlike, IsSettled-of_alike, IsSettled-of_free, fingers-IsSettled, begin_at-IsSettled,
  release_at-IsSettled, release_all-IsSettled, release-Agrees, release-dragging, release-slots,
  count-remember, length-map_slots, count-place,
}
use moonlight_embedded_for_d.Input.Touchpad.Events.{
  PadEvent, syn_report, cancelled, mt_slot, mt_tracking_id, position, btn_touch, rotated_move,
  send_motion, send_v_scroll, send_h_scroll, handle_tracking_id, handle_btn_touch, handle_pad_event,
  handle_pad_events,
}

module _ {F : Type 0} where
  scroll-facts :
      (dx dy : ℤ) (p : Pad F)
      → ((touchpad_add_scroll_delta dx dy p).slots ≡ p.slots)
        × ((touchpad_add_scroll_delta dx dy p).sent ≡ p.sent)
        × ((touchpad_add_scroll_delta dx dy p).dragging ≡ p.dragging)
  unfolding touchpad_add_scroll_delta
  scroll-facts dx dy p = (refl, refl, refl)

  flush_two-IsAlike : (p : Pad F) → IsAlike (flush_two p) p
  unfolding flush_two touchpad_add_scroll_delta
  flush_two-IsAlike p = ground arith

  flush_one-IsAlike : (o : Option PadSlot) (p : Pad F) → IsAlike (flush_one o p) p
  unfolding flush_one
  flush_one-IsAlike none p = (refl, refl, refl, refl)
  flush_one-IsAlike (some slot) p = ground arith

  remember-IsAlike : (p : Pad F) → IsAlike (record p { slots = map remember_position p.slots }) p
  remember-IsAlike p = (refl, refl, count-remember p.slots, length-map_slots _ p.slots)

  flush-IsSettled : (p : Pad F) → IsSettled p → IsSettled (touchpad_flush p)
  unfolding touchpad_flush
  flush-IsSettled p h =
      by_test IsSettled (leb (active_count p.slots) 0) (λ z. h)
        (λ z. IsSettled-of_alike _ r (remember-IsAlike r) (
          by_test IsSettled (leb 2 q.max_fingers && leb 2 (active_count p.slots))
            (λ w. IsSettled-of_alike _ q (flush_two-IsAlike q) q-IsSettled)
            (λ w.
              by_test IsSettled (q.max_fingers == 1 && active_count p.slots == 1)
                (λ o.
                  IsSettled-of_alike _ q (flush_one-IsAlike (first_active_slot q.slots) q)
                    q-IsSettled)
                (λ o. q-IsSettled))))
    where
      q : Pad F
      q = update_max_fingers p

      q-IsSettled : IsSettled q
      q-IsSettled = fingers-IsSettled p h

      r : Pad F
      r =
          (if leb 2 q.max_fingers && leb 2 (active_count p.slots)
            then flush_two q
            else if q.max_fingers == 1 && active_count p.slots == 1
            then flush_one (first_active_slot q.slots) q
            else q)

  in_range-IsSettled :
      (index : ℤ) (f : ℕ → Pad F → Pad F) (p : Pad F)
      → ((i : ℕ) → i < max_slots → IsSettled (f i p))
      → IsSettled p
      → IsSettled (in_range index f p)
  in_range-IsSettled (negsuc n) f p g h = h
  in_range-IsSettled (pos i) f p g h =
      by_test IsSettled (ltb i max_slots) (λ e. g i (ltb→lt i max_slots e)) (λ e. h)

  axis_at-IsSettled :
      (fl : Floats F) (is_x : Bool) (value : ℤ) (i : ℕ) (p : Pad F)
      → i < max_slots
      → IsSettled p
      → IsSettled (update_axis_at fl is_x value i p)
  unfolding update_axis_at
  axis_at-IsSettled fl is_x value i p hi h =
      IsSettled-of_alike _ q (refl, refl, count-place q.slots i is_x _, length-set q.slots i _)
        (by_test IsSettled (get_or p.slots i zero_slot).active (λ e. h)
          (λ e. begin_at-IsSettled i _ _ p hi h))
    where
      q : Pad F
      q =
          (if (get_or p.slots i zero_slot).active
            then p
            else begin_at i (pos 0) (record { sec = pos 0; usec = pos 0 }) p)

  begin-IsSettled :
      (index id : ℤ) (time : Timeval) (p : Pad F)
      → IsSettled p
      → IsSettled (touchpad_begin_slot index id time p)
  unfolding touchpad_begin_slot
  begin-IsSettled index id time p h =
      in_range-IsSettled index _ p (λ i hi. begin_at-IsSettled i id time p hi h) h

  release-IsSettled :
      (index : ℤ) (time : Timeval) (p : Pad F)
      → IsSettled p
      → IsSettled (touchpad_release_slot index time p)
  unfolding touchpad_release_slot
  release-IsSettled index time p h =
      in_range-IsSettled index _ p (λ i hi. release_at-IsSettled i time p hi h) h

  axis-IsSettled :
      (fl : Floats F) (index : ℤ) (is_x : Bool) (value : ℤ) (p : Pad F)
      → IsSettled p
      → IsSettled (touchpad_update_slot_axis fl index is_x value p)
  unfolding touchpad_update_slot_axis
  axis-IsSettled fl index is_x value p h =
      in_range-IsSettled index _ p (λ i hi. axis_at-IsSettled fl is_x value i p hi h) h

  cancel-IsSettled : (p : Pad F) → IsSettled p → IsSettled (touchpad_cancel p)
  unfolding touchpad_cancel reset_gesture
  cancel-IsSettled p h =
      IsSettled-of_free _ (release-Agrees p h.agrees) (release-dragging p)
        (length-map_slots _ (release_left_if_needed p).slots ∙ ap length (release-slots p) ∙ h.size)

  moved-left_down :
      (r dx dy : ℤ) (sent : List (Sent F))
      → left_down (rotated_move r dx dy ∷ sent) ≡ left_down sent
  unfolding rotated_move
  moved-left_down r dx dy sent = ground arith

  motion-IsSettled : (p : Pad F) → IsSettled p → IsSettled (send_motion p)
  unfolding send_motion
  motion-IsSettled p h =
      by_test IsSettled (not (p.delta_x ==ℤ pos 0) || not (p.delta_y ==ℤ pos 0))
        (λ e. record {
          agrees = moved-left_down p.rotate p.delta_x p.delta_y p.sent ∙ h.agrees;
          one_finger = h.one_finger;
          size = h.size;
        })
        (λ e. h)

  v_scroll-IsSettled : (p : Pad F) → IsSettled p → IsSettled (send_v_scroll p)
  unfolding send_v_scroll
  v_scroll-IsSettled p h =
      by_test IsSettled (not (p.v_scroll ==ℤ pos 0))
        (λ e. record { agrees = h.agrees; one_finger = h.one_finger; size = h.size }) (λ e. h)

  h_scroll-IsSettled : (p : Pad F) → IsSettled p → IsSettled (send_h_scroll p)
  unfolding send_h_scroll
  h_scroll-IsSettled p h =
      by_test IsSettled (not (p.h_scroll ==ℤ pos 0))
        (λ e. record { agrees = h.agrees; one_finger = h.one_finger; size = h.size }) (λ e. h)

  tracking-IsSettled :
      (value : ℤ) (time : Timeval) (p : Pad F)
      → IsSettled p
      → IsSettled (handle_tracking_id value time p)
  unfolding handle_tracking_id
  tracking-IsSettled value time p h =
      by_test IsSettled (leb_ℤ (pos 0) value) (λ e. begin-IsSettled p.touch_slot value time p h)
        (λ e. release-IsSettled p.touch_slot time p h)

  btn_touch-IsSettled :
      (value : ℤ) (time : Timeval) (p : Pad F)
      → IsSettled p
      → IsSettled (handle_btn_touch value time p)
  unfolding handle_btn_touch
  btn_touch-IsSettled value time p h =
      by_test IsSettled (not p.has_mt_slots)
        (λ e.
          by_test IsSettled (value ==ℤ pos 1) (λ o. begin-IsSettled (pos 0) (pos 0) time p h)
            (λ o. release-IsSettled (pos 0) time p h))
        (λ e. by_test IsSettled (value ==ℤ pos 0) (λ z. release_all-IsSettled time p h) (λ z. h))

  handle-IsSettled :
      (fl : Floats F) (e : PadEvent) (p : Pad F) → IsSettled p → IsSettled (handle_pad_event fl e p)
  unfolding handle_pad_event
  handle-IsSettled fl syn_report p h =
      h_scroll-IsSettled _ (v_scroll-IsSettled _ (motion-IsSettled _ (flush-IsSettled p h)))
  handle-IsSettled fl cancelled p h = cancel-IsSettled p h
  handle-IsSettled fl (mt_slot value) p h = record {
    agrees = h.agrees;
    one_finger = h.one_finger;
    size = h.size;
  }
  handle-IsSettled fl (mt_tracking_id value time) p h = tracking-IsSettled value time p h
  handle-IsSettled fl (position is_x multi value) p h =
      axis-IsSettled fl (if multi then p.touch_slot else pos 0) is_x value p h
  handle-IsSettled fl (btn_touch value time) p h = btn_touch-IsSettled value time p h

  -- After any run of events from a settled state, the device is settled: it knows whether the host
  -- holds the left button, holds it only while exactly one finger is down, and has all its slots.
  pub handle_pad_events-IsSettled :
      (fl : Floats F) (es : List PadEvent) (p : Pad F)
      → IsSettled p
      → IsSettled (handle_pad_events fl es p)
  unfolding handle_pad_events
  handle_pad_events-IsSettled fl [] p h = h
  handle_pad_events-IsSettled fl (e ∷ es) p h =
      handle_pad_events-IsSettled fl es (handle_pad_event fl e p) (handle-IsSettled fl e p h)

  -- However the fingers came and went, from a settled state on: when none is down, the host does
  -- not hold the left button.
  pub left_down-lifted :
      (fl : Floats F) (es : List PadEvent) (p : Pad F)
      → IsSettled p
      → active_count (handle_pad_events fl es p).slots ≡ 0
      → left_down (handle_pad_events fl es p).sent ≡ false
  left_down-lifted fl es p h z = elim (Bool-cases (handle_pad_events fl es p).dragging) [
    | inr d ↦ s.agrees ∙ d
    | inl d ↦ absurd (omega (arith, z, s.one_finger d))
  ]
    where
      s : IsSettled (handle_pad_events fl es p)
      s = handle_pad_events-IsSettled fl es p h
