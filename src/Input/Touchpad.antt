-- ===== src/Input/Touchpad.antt =====
-- The touchpad mode of src/input/evdev.c: contacts, gestures and what they send. The fields of
-- `struct input_device` that this mode uses are a record, with the history of what was sent.
pub mod Scroll
pub mod Drag
pub mod Events
use moonlight_embedded_for_d.Base.{
  ℕ, zero, suc, ◌+◌, ◌-◌, ◌*◌, ◌/◌, ltb, leb, ◌==◌, ℤ, pos, negsuc, neg, ◌+ℤ◌, ◌-ℤ◌, ◌*ℤ◌, ◌/ℤ◌,
  leb_ℤ, ltb_ℤ, ◌==ℤ◌, Bool, true, false, not, ◌&&◌, ◌||◌, List, [], ◌∷◌, map, get_or, set, Option,
  none, some, if◌then◌else◌,
}
use moonlight_embedded_for_d.Input.Limelight.{
  MouseButton, left, right, Sent, button_press, button_release,
}
use moonlight_embedded_for_d.Input.Axis.{Floats, ml_touchpad_normalize_axis}
use moonlight_embedded_for_d.Input.Contacts.{
  Timeval, timeval_diff_ms, PadSlot, zero_slot, active_count, first_active_slot, has_moved,
  scroll_axis, gather, remember_position, released_slot, place_slot, any_moved_active,
}

-- The part of `struct input_device` that the touchpad mode uses. `slots` has TOUCHPAD_MAX_SLOTS
-- entries.
pub record Pad (F : Type 0) : Type 0 where
  pub min_x : ℤ
  pub max_x : ℤ
  pub min_y : ℤ
  pub max_y : ℤ
  pub offset_x : ℤ
  pub offset_y : ℤ
  pub rotate : ℤ
  pub touch_slot : ℤ
  pub has_mt_slots : Bool
  pub slots : List PadSlot
  pub max_fingers : ℕ
  pub moved : Bool
  pub avg_valid : Bool
  pub last_avg_x : ℤ
  pub last_avg_y : ℤ
  pub remainder_x : ℤ
  pub remainder_y : ℤ
  pub dragging : Bool
  pub last_tap_valid : Bool
  pub last_tap_time : Timeval
  pub delta_x : ℤ
  pub delta_y : ℤ
  pub v_scroll : ℤ
  pub h_scroll : ℤ
  pub sent : List (Sent F)

abbrev pub max_slots : ℕ
max_slots = 10

module _ {F : Type 0} where
  unfoldable pub update_max_fingers : Pad F → Pad F
  unfolding active_count
  update_max_fingers p =
      if ltb p.max_fingers (active_count p.slots)
      then record p { max_fingers = active_count p.slots }
      else p

  unfoldable pub press_left_if_needed : Pad F → Pad F
  press_left_if_needed p =
      if not p.dragging then record p { sent = button_press left ∷ p.sent; dragging = true } else p

  unfoldable pub release_left_if_needed : Pad F → Pad F
  release_left_if_needed p =
      if p.dragging then record p { sent = button_release left ∷ p.sent; dragging = false } else p

  unfoldable pub reset_gesture : Pad F → Pad F
  reset_gesture p = record p {
    max_fingers = 0;
    moved = false;
    avg_valid = false;
    remainder_x = pos 0;
    remainder_y = pos 0;
  }

  unfoldable pub send_click : MouseButton → Pad F → Pad F
  send_click button p = record p { sent = button_release button ∷ button_press button ∷ p.sent }

  -- The part of `touchpad_begin_slot` for the first finger: a touch soon after a tap drags; 350 is
  -- TOUCHPAD_DRAG_TAP_WINDOW_MS.
  unfoldable pub begin_gesture : Timeval → Pad F → Pad F
  unfolding reset_gesture press_left_if_needed timeval_diff_ms
  begin_gesture time p =
      let q = reset_gesture p in
      if q.last_tap_valid && leb_ℤ (timeval_diff_ms time q.last_tap_time) (pos 350)
      then record (press_left_if_needed q) { last_tap_valid = false }
      else q

  -- `touchpad_begin_slot` on a slot in range.
  unfoldable pub begin_at : ℕ → ℤ → Timeval → Pad F → Pad F
  unfolding begin_gesture release_left_if_needed update_max_fingers active_count
  begin_at i tracking_id time p =
      let old_count = active_count p.slots in
      let slot = record zero_slot { active = true; tracking_id = tracking_id; down_time = time } in
      let q = record p { slots = set p.slots i slot } in
      update_max_fingers (
        if old_count == 0
        then begin_gesture time q
        else if q.dragging
        then release_left_if_needed q
        else q)

  -- `slotIndex < 0 || slotIndex >= TOUCHPAD_MAX_SLOTS` returns at once.
  abbrev pub in_range : ℤ → (ℕ → Pad F → Pad F) → Pad F → Pad F
  in_range (negsuc n) f p = p
  in_range (pos i) f p = if ltb i max_slots then f i p else p

  unfoldable pub touchpad_begin_slot : ℤ → ℤ → Timeval → Pad F → Pad F
  unfolding begin_at
  touchpad_begin_slot index tracking_id time p = in_range index (λ i. begin_at i tracking_id time) p

  unfoldable pub touchpad_finish_gesture : Timeval → Pad F → Pad F
  unfolding release_left_if_needed send_click reset_gesture
  touchpad_finish_gesture time p = reset_gesture (
      if p.dragging
      then release_left_if_needed p
      else if not p.moved
      then if leb 2 p.max_fingers
        then record (send_click right p) { last_tap_valid = false }
        else if p.max_fingers == 1
        then record (send_click left p) { last_tap_time = time; last_tap_valid = true }
        else p
      else record p { last_tap_valid = false })

  unfoldable pub release_at : ℕ → Timeval → Pad F → Pad F
  unfolding touchpad_finish_gesture released_slot has_moved active_count
  release_at i time p =
      let slot = get_or p.slots i zero_slot in
      let q = record p {
        moved = p.moved || has_moved slot;
        slots = set p.slots i (released_slot slot);
      } in
      if not slot.active
      then p
      else if active_count q.slots == 0
      then touchpad_finish_gesture time q
      else record q { avg_valid = false }

  unfoldable pub touchpad_release_slot : ℤ → Timeval → Pad F → Pad F
  unfolding release_at
  touchpad_release_slot index time p = in_range index (λ i. release_at i time) p

  unfoldable pub touchpad_release_all : Timeval → Pad F → Pad F
  unfolding any_moved_active touchpad_finish_gesture released_slot active_count
  touchpad_release_all time p =
      let q = record p {
        moved = p.moved || any_moved_active p.slots;
        slots = map (λ slot. if slot.active then released_slot slot else slot) p.slots;
      } in
      if active_count p.slots == 0 then p else touchpad_finish_gesture time q

  unfoldable pub touchpad_add_scroll_delta : ℤ → ℤ → Pad F → Pad F
  unfolding scroll_axis
  touchpad_add_scroll_delta dx dy p =
      let (v, ry) = scroll_axis p.v_scroll p.remainder_y (neg dy) in
      let (h, rx) = scroll_axis p.h_scroll p.remainder_x dx in
      record p { v_scroll = v; remainder_y = ry; h_scroll = h; remainder_x = rx }

  -- The part of `touchpad_flush` for two fingers or more.
  unfoldable pub flush_two : Pad F → Pad F
  unfolding gather touchpad_add_scroll_delta
  flush_two p =
      let g =
        gather p.slots
          (record { any_moved = false; sum_x = pos 0; sum_y = pos 0; valid_count = 0 }) in
      let q = record p { moved = p.moved || g.any_moved } in
      let ax = g.sum_x /ℤ pos 2 in
      let ay = g.sum_y /ℤ pos 2 in
      let dx = ax -ℤ q.last_avg_x in
      let dy = ay -ℤ q.last_avg_y in
      if not (g.valid_count == 2)
      then q
      else record (if q.avg_valid && (not (dx ==ℤ pos 0) || not (dy ==ℤ pos 0))
          then touchpad_add_scroll_delta dx dy (record q { moved = true })
          else q) { last_avg_x = ax; last_avg_y = ay; avg_valid = true }

  -- The part for one finger, TOUCHPAD_MOTION_MULTIPLIER being 1.
  unfoldable pub flush_one : Option PadSlot → Pad F → Pad F
  unfolding has_moved
  flush_one none p = p
  flush_one (some slot) p =
      let q = record p { moved = p.moved || has_moved slot } in
      if not slot.position_valid
      then p
      else if slot.last_position_valid
      then record q {
        delta_x = q.delta_x +ℤ (slot.x -ℤ slot.last_x);
        delta_y = q.delta_y +ℤ (slot.y -ℤ slot.last_y);
      }
      else q

  unfoldable pub touchpad_flush : Pad F → Pad F
  unfolding update_max_fingers flush_two flush_one first_active_slot remember_position active_count
  touchpad_flush p =
      let count = active_count p.slots in
      let q = update_max_fingers p in
      let r =
        (if leb 2 q.max_fingers && leb 2 count
          then flush_two q
          else if q.max_fingers == 1 && count == 1
          then flush_one (first_active_slot q.slots) q
          else q) in
      if leb count 0 then p else record r { slots = map remember_position r.slots }

  module _ (fl : Floats F) where
    -- `touchpad_update_slot_axis` on a slot in range; a slot that is not active begins first.
    unfoldable pub update_axis_at : Bool → ℤ → ℕ → Pad F → Pad F
    unfolding begin_at place_slot ml_touchpad_normalize_axis
    update_axis_at is_x value i p =
        let q =
          (if (get_or p.slots i zero_slot).active
            then p
            else begin_at i (pos 0) (record { sec = pos 0; usec = pos 0 }) p) in
        let placed =
          (if is_x
            then ml_touchpad_normalize_axis fl value q.min_x q.max_x q.offset_x
            else ml_touchpad_normalize_axis fl value q.min_y q.max_y q.offset_y) in
        record q { slots = set q.slots i (place_slot (get_or q.slots i zero_slot) is_x placed) }

    unfoldable pub touchpad_update_slot_axis : ℤ → Bool → ℤ → Pad F → Pad F
    unfolding update_axis_at
    touchpad_update_slot_axis index is_x value p = in_range index (update_axis_at is_x value) p

  -- The touchpad part of `evdev_cancel_touch_input`.
  unfoldable pub touchpad_cancel : Pad F → Pad F
  unfolding release_left_if_needed reset_gesture
  touchpad_cancel p =
      let q = release_left_if_needed p in
      reset_gesture (record q { slots = map (λ _. zero_slot) q.slots; last_tap_valid = false })
