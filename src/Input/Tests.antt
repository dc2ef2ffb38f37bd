-- ===== src/Input/Tests.antt =====
-- src/input on concrete inputs. For `float` stand integers, one being 4095.
use moonlight_embedded_for_d.Base.{
  to_i32, ℕ, ◌*◌, ℤ, pos, negsuc, ◌+ℤ◌, ◌-ℤ◌, ◌*ℤ◌, ◌/ℤ◌, ltb_ℤ, ltb, length, ◌≡◌, refl, true,
  false, List, [], ◌∷◌, arith, -ℤ_parts,
}
use moonlight_embedded_for_d.Input.Limelight.{left_down}
use moonlight_embedded_for_d.Input.Axis.{
  Floats, FloatLaws, InUnit, ml_touch_transform, rotate_unit, ml_touch_transform-InUnit,
  active_minimum, clamp_unit, ml_touch_normalize_axis, ml_touchpad_normalize_axis,
}
use moonlight_embedded_for_d.Input.TouchSlot.{
  fresh_slot, ml_touch_slot_begin, ml_touch_slot_update, set_axis,
}
use moonlight_embedded_for_d.Input.Direct.{
  Direct, TouchHost, TouchInput, sync, contact_id, coordinate, handle_direct_events,
  handle_direct_event, flush_touch, flush_slots, flush_slot, due_event, send_due, send_touch,
  transform_touch, send_touch_mouse_fallback, claim_mouse, fallback_button, is_up, after_event,
  start_fallback, begin_direct_slot, update_direct_slot,
}
use moonlight_embedded_for_d.Input.Direct.Mouse.{IsFollowing, handle_direct_events-IsFollowing}
use moonlight_embedded_for_d.Input.Contacts.{
  Timeval, zero_slot, active_count, timeval_diff_ms, released_slot, has_moved, place_slot,
  first_active_slot, remember_position,
}
use moonlight_embedded_for_d.Input.Touchpad.{
  Pad, touchpad_add_scroll_delta, touchpad_begin_slot, begin_at, begin_gesture, reset_gesture,
  press_left_if_needed, release_left_if_needed, update_max_fingers, touchpad_release_slot,
  release_at, touchpad_finish_gesture, send_click, touchpad_update_slot_axis, update_axis_at,
  touchpad_flush, flush_one,
}
use moonlight_embedded_for_d.Input.Touchpad.Drag.{IsSettled}
use moonlight_embedded_for_d.Input.Touchpad.Scroll.{IsRest, Conserves, add_scroll_delta-Conserves}
use moonlight_embedded_for_d.Input.Touchpad.Events.{
  PadEvent, syn_report, mt_tracking_id, position, handle_pad_events, handle_pad_event,
  handle_tracking_id, send_motion, send_v_scroll, send_h_scroll,
}
use moonlight_embedded_for_d.Input.Touchpad.Events.Runs.{
  handle_pad_events-IsSettled, left_down-lifted,
}

abbrev fixed : Floats ℤ
fixed = record {
  of_int = λ n. n *ℤ pos 4095;
  sub = λ a b. a -ℤ b;
  add = λ a b. a +ℤ b;
  mul = λ a b. (a *ℤ b) /ℤ pos 4095;
  div = λ a b. (a *ℤ pos 4095) /ℤ b;
  lt = λ a b. ltb_ℤ a b;
  half = pos 2047;
  to_int = λ a. a /ℤ pos 4095;
}

fixed_laws : FloatLaws fixed
unfolding ◌*ℤ◌
fixed_laws = record {
  zero_zero = refl;
  one_zero = refl;
  one_one = refl;
  sub_unit = λ v (a, b). ground (arith, -ℤ_parts (pos 4095) v);
}

ml_touch_transform-InUnit_example :
    let p =
      ml_touch_transform fixed
        (pos 5000)
        (negsuc 8)
        (pos 0)
        (pos 800)
        (pos 0)
        (pos 480)
        (pos 0)
        (pos 0)
        (pos 90) in
    InUnit fixed p.0 × InUnit fixed p.1
ml_touch_transform-InUnit_example =
    ml_touch_transform-InUnit fixed fixed_laws (pos 5000) (negsuc 8) (pos 0) (pos 800) (pos 0)
      (pos 480) (pos 0) (pos 0) (pos 90)

abbrev fresh_pad : Pad ℤ
fresh_pad = record {
  min_x = pos 0;
  max_x = pos 4095;
  min_y = pos 0;
  max_y = pos 4095;
  offset_x = pos 0;
  offset_y = pos 0;
  rotate = pos 0;
  touch_slot = pos 0;
  has_mt_slots = true;
  slots =
      zero_slot ∷ zero_slot ∷ zero_slot ∷ zero_slot ∷ zero_slot ∷ zero_slot ∷ zero_slot ∷ zero_slot
      ∷ zero_slot ∷ zero_slot ∷ [];
  max_fingers = 0;
  moved = false;
  avg_valid = false;
  last_avg_x = pos 0;
  last_avg_y = pos 0;
  remainder_x = pos 0;
  remainder_y = pos 0;
  dragging = false;
  last_tap_valid = false;
  last_tap_time = record { sec = pos 0; usec = pos 0 };
  delta_x = pos 0;
  delta_y = pos 0;
  v_scroll = pos 0;
  h_scroll = pos 0;
  sent = [];
}

fresh-IsSettled : IsSettled fresh_pad
unfolding active_count
fresh-IsSettled = record { agrees = refl; one_finger = λ d. absurd cc; size = refl }

abbrev at_ms : ℕ → Timeval
at_ms n = record { sec = pos 3; usec = pos (n * 1000) }

-- A tap, a second touch soon after it that drags, and its end.
abbrev tap_and_drag : List PadEvent
tap_and_drag =
    mt_tracking_id (pos 7) (at_ms 0)
    ∷ position true true (pos 100)
    ∷ position false true (pos 100)
    ∷ syn_report
    ∷ mt_tracking_id (negsuc 0) (at_ms 90)
    ∷ syn_report
    ∷ mt_tracking_id (pos 8) (at_ms 200)
    ∷ []

abbrev drag_end : List PadEvent
drag_end = mt_tracking_id (negsuc 0) (at_ms 400) ∷ syn_report ∷ []

-- The run ends with the button held.
drag-held : left_down (handle_pad_events fixed tap_and_drag fresh_pad).sent ≡ true
unfolding handle_pad_events handle_pad_event handle_tracking_id touchpad_begin_slot begin_at
    begin_gesture reset_gesture press_left_if_needed release_left_if_needed update_max_fingers
    active_count timeval_diff_ms to_i32 touchpad_release_slot release_at released_slot has_moved
    touchpad_finish_gesture send_click touchpad_update_slot_axis update_axis_at place_slot
    ml_touchpad_normalize_axis ml_touch_normalize_axis active_minimum clamp_unit touchpad_flush
    flush_one first_active_slot remember_position send_motion send_v_scroll send_h_scroll ◌+ℤ◌ ◌-ℤ◌
    ◌*ℤ◌ ◌/ℤ◌
drag-held = refl

drag_end-empty :
    active_count
      (handle_pad_events fixed drag_end (handle_pad_events fixed tap_and_drag fresh_pad)).slots
    ≡ 0
unfolding handle_pad_events handle_pad_event handle_tracking_id touchpad_begin_slot begin_at
    begin_gesture reset_gesture press_left_if_needed release_left_if_needed update_max_fingers
    active_count timeval_diff_ms to_i32 touchpad_release_slot release_at released_slot has_moved
    touchpad_finish_gesture send_click touchpad_update_slot_axis update_axis_at place_slot
    ml_touchpad_normalize_axis ml_touch_normalize_axis active_minimum clamp_unit touchpad_flush
    flush_one first_active_slot remember_position send_motion send_v_scroll send_h_scroll ◌+ℤ◌ ◌-ℤ◌
    ◌*ℤ◌ ◌/ℤ◌
drag_end-empty = refl

left_down-lifted_example :
    left_down
      (handle_pad_events fixed drag_end (handle_pad_events fixed tap_and_drag fresh_pad)).sent
    ≡ false
left_down-lifted_example =
    left_down-lifted fixed drag_end (handle_pad_events fixed tap_and_drag fresh_pad)
      (handle_pad_events-IsSettled fixed tap_and_drag fresh_pad fresh-IsSettled) drag_end-empty

handle_pad_events-IsSettled_example : IsSettled (handle_pad_events fixed tap_and_drag fresh_pad)
handle_pad_events-IsSettled_example =
    handle_pad_events-IsSettled fixed tap_and_drag fresh_pad fresh-IsSettled

add_scroll_delta-Conserves_example :
    let q = touchpad_add_scroll_delta (negsuc 99) (pos 80) fresh_pad in
    Conserves (pos 0) (pos 0) (negsuc 79) (q.v_scroll, q.remainder_y)
    × Conserves (pos 0) (pos 0) (negsuc 99) (q.h_scroll, q.remainder_x)
    × IsRest q.remainder_y
    × IsRest q.remainder_x
add_scroll_delta-Conserves_example = add_scroll_delta-Conserves (negsuc 99) (pos 80) fresh_pad

-- A host that takes two touches and no more.
abbrev fickle_host : TouchHost ℤ
fickle_host = record {
  floats = fixed;
  to_short = λ a. a;
  takes_touch = λ sent. ltb (length sent) 2;
}

abbrev fresh_direct : Direct ℤ
fresh_direct = record {
  min_x = pos 0;
  max_x = pos 800;
  min_y = pos 0;
  max_y = pos 480;
  offset_x = pos 0;
  offset_y = pos 0;
  rotate = pos 0;
  touch_slot = pos 0;
  has_mt_slots = true;
  slots =
      fresh_slot ∷ fresh_slot ∷ fresh_slot ∷ fresh_slot ∷ fresh_slot ∷ fresh_slot ∷ fresh_slot
      ∷ fresh_slot ∷ fresh_slot ∷ fresh_slot ∷ [];
  unsupported = false;
  mouse_down = false;
  mouse_slot = negsuc 0;
  sent = [];
}

fresh-IsFollowing : IsFollowing fresh_direct
fresh-IsFollowing = record { agrees = refl; owned = refl }

-- One finger that touches, moves three times and stays.
abbrev strokes : List TouchInput
strokes =
    contact_id (pos 4)
    ∷ coordinate true true (pos 100)
    ∷ coordinate false true (pos 90)
    ∷ sync
    ∷ coordinate true true (pos 110)
    ∷ sync
    ∷ coordinate true true (pos 120)
    ∷ sync
    ∷ coordinate true true (pos 130)
    ∷ sync
    ∷ []

handle_direct_events-IsFollowing_example :
    IsFollowing (handle_direct_events fickle_host strokes fresh_direct)
handle_direct_events-IsFollowing_example =
    handle_direct_events-IsFollowing fickle_host strokes fresh_direct fresh-IsFollowing

-- The mouse has stepped in, with the button held.
strokes-held : left_down (handle_direct_events fickle_host strokes fresh_direct).sent ≡ true
unfolding handle_direct_events handle_direct_event flush_touch flush_slots flush_slot due_event
    send_due send_touch transform_touch send_touch_mouse_fallback claim_mouse fallback_button is_up
    after_event start_fallback begin_direct_slot update_direct_slot ml_touch_slot_begin
    ml_touch_slot_update set_axis ml_touch_transform ml_touch_normalize_axis rotate_unit
    active_minimum clamp_unit ◌+ℤ◌ ◌-ℤ◌ ◌*ℤ◌ ◌/ℤ◌
strokes-held = refl
