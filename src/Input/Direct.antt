-- ===== src/Input/Direct.antt =====
-- The direct touch mode of src/input/evdev.c: contacts that are passed to the host as such, or as the
-- mouse where the host does not take them.
pub mod Mouse
use moonlight_embedded_for_d.Base.{
  ℕ, zero, suc, ◌+◌, ltb, ℤ, pos, negsuc, ltb_ℤ, leb_ℤ, ◌==ℤ◌, Bool, true, false, not, ◌&&◌, ◌||◌,
  List, [], ◌∷◌, map, get_or, set, length, Option, none, some, if◌then◌else◌,
}
use moonlight_embedded_for_d.Input.Limelight.{
  MouseButton, left, TouchEvent, down, move, up, cancel_all, Sent, button_press, button_release,
  mouse_position, touch,
}
use moonlight_embedded_for_d.Input.Axis.{Floats, ml_touch_transform}
use moonlight_embedded_for_d.Input.TouchSlot.{
  TouchSlot, fresh_slot, ml_touch_slot_begin, ml_touch_slot_update, ml_touch_slot_end,
}

-- The part of `struct input_device` that the direct mode uses. `slots` has ML_TOUCH_MAX_SLOTS
-- entries.
pub record Direct (F : Type 0) : Type 0 where
  pub min_x : ℤ
  pub max_x : ℤ
  pub min_y : ℤ
  pub max_y : ℤ
  pub offset_x : ℤ
  pub offset_y : ℤ
  pub rotate : ℤ
  pub touch_slot : ℤ
  pub has_mt_slots : Bool
  pub slots : List TouchSlot
  pub unsupported : Bool
  pub mouse_down : Bool
  pub mouse_slot : ℤ
  pub sent : List (Sent F)

abbrev pub max_touches : ℕ
max_touches = 10

-- What the device reports: EV_SYN, the end of the device, ABS_MT_SLOT, ABS_MT_TRACKING_ID, a position
-- (of the current contact where `multi` is true) and BTN_TOUCH.
pub data TouchInput : Type 0 where
  sync leaves : TouchInput
  slot_number contact_id key_touch : ℤ → TouchInput
  coordinate : Bool → Bool → ℤ → TouchInput

unfoldable pub is_up : TouchEvent → Bool
is_up up = true
is_up _ = false

-- The event that a contact calls for, if any.
unfoldable pub due_event : TouchSlot → Option TouchEvent
due_event slot =
    if slot.up_pending
    then some up
    else if slot.active && not slot.sent_down
    then some down
    else if slot.active && slot.dirty
    then some move
    else none

-- The slot after the event.
unfoldable pub after_event : TouchEvent → TouchSlot → TouchSlot
after_event down slot = record slot { sent_down = true; dirty = false }
after_event up slot = fresh_slot
after_event _ slot = record slot { dirty = false }

module _ {F : Type 0} where
  unfoldable pub begin_direct_slot : ℤ → ℤ → Direct F → Direct F
  unfolding ml_touch_slot_begin
  begin_direct_slot (negsuc n) tracking_id d = d
  begin_direct_slot (pos i) tracking_id d =
      if ltb i max_touches
      then record d { slots = set d.slots i (ml_touch_slot_begin tracking_id) }
      else d

  unfoldable pub release_direct_slot : ℤ → Direct F → Direct F
  unfolding ml_touch_slot_end
  release_direct_slot (negsuc n) d = d
  release_direct_slot (pos i) d =
      if ltb i max_touches
      then record d { slots = set d.slots i (ml_touch_slot_end (get_or d.slots i fresh_slot)) }
      else d

  unfoldable pub release_all_direct_slots : Direct F → Direct F
  unfolding ml_touch_slot_end
  release_all_direct_slots d = record d { slots = map ml_touch_slot_end d.slots }

  -- ABS_X, ABS_Y and the positions of contacts.
  unfoldable pub update_direct_slot : ℤ → Bool → ℤ → Direct F → Direct F
  unfolding ml_touch_slot_update
  update_direct_slot (negsuc n) is_x value d = d
  update_direct_slot (pos i) is_x value d =
      if ltb i max_touches
      then record d {
        slots = set d.slots i (ml_touch_slot_update (get_or d.slots i fresh_slot) is_x value);
      }
      else d

  -- The end of `evdev_send_touch_mouse_fallback`: the left button follows the finger.
  unfoldable pub fallback_button : TouchEvent → Direct F → Direct F
  unfolding is_up
  fallback_button event d =
      if not (is_up event) && not d.mouse_down
      then record d { sent = button_press left ∷ d.sent; mouse_down = true }
      else if is_up event && d.mouse_down
      then record d {
        sent = button_release left ∷ d.sent;
        mouse_down = false;
        mouse_slot = negsuc 0;
      }
      else d

  -- Its beginning: without an owner of the mouse, a finger that is down becomes it.
  unfoldable pub claim_mouse : ℤ → TouchEvent → Direct F → Direct F
  unfolding is_up
  claim_mouse index event d =
      if ltb_ℤ d.mouse_slot (pos 0) && not (is_up event) then record d { mouse_slot = index } else d

  -- `to_short` is `(short)(x * TOUCH_MOUSE_REFERENCE)`.
  unfoldable pub send_touch_mouse_fallback : (F → ℤ) → ℤ → TouchEvent → F → F → Direct F → Direct F
  unfolding fallback_button claim_mouse
  send_touch_mouse_fallback to_short index event x y d =
      let q = claim_mouse index event d in
      if not (q.mouse_slot ==ℤ index)
      then q
      else fallback_button event
          (record q { sent = mouse_position (to_short x) (to_short y) ∷ q.sent })

-- `LiSendTouchEvent`, of which the program reads only whether the host takes touches, is a function
-- of what was sent so far.
pub record TouchHost (F : Type 0) : Type 0 where
  pub floats : Floats F
  pub to_short : F → ℤ
  pub takes_touch : List (Sent F) → Bool

module _ {F : Type 0} (host : TouchHost F) where
  unfoldable pub transform_touch : TouchSlot → Direct F → F × F
  transform_touch slot d =
      ml_touch_transform host.floats slot.x slot.y d.min_x d.max_x d.min_y d.max_y d.offset_x
        d.offset_y d.rotate

  -- What `evdev_flush_touch` sends for one contact.
  unfoldable pub send_touch : ℕ → TouchSlot → TouchEvent → Direct F → Direct F
  unfolding transform_touch send_touch_mouse_fallback
  send_touch i slot event d =
      let (x, y) = transform_touch slot d in
      let id = (if leb_ℤ (pos 0) slot.tracking_id then slot.tracking_id else pos i) in
      let told = record d { sent = touch event id x y ∷ d.sent } in
      if d.unsupported
      then send_touch_mouse_fallback host.to_short (pos i) event x y d
      else if host.takes_touch d.sent
      then told
      else send_touch_mouse_fallback host.to_short (pos i) event x y
          (record told { unsupported = true })

  unfoldable pub send_due : ℕ → TouchSlot → Option TouchEvent → Direct F → Direct F
  unfolding after_event send_touch
  send_due i slot none d = d
  send_due i slot (some event) d =
      let q = send_touch i slot event d in
      record q { slots = set q.slots i (after_event event slot) }

  -- One round of the loop of `evdev_flush_touch` on slot `i`.
  unfoldable pub flush_slot : ℕ → TouchSlot → Direct F → Direct F
  unfolding due_event send_due
  flush_slot i slot d =
      if not slot.x_valid || not slot.y_valid
      then if slot.up_pending then record d { slots = set d.slots i fresh_slot } else d
      else send_due i slot (due_event slot) d

  -- The loop, from slot `i` on, over the slots as they were.
  unfoldable pub flush_slots : ℕ → List TouchSlot → Direct F → Direct F
  unfolding flush_slot
  flush_slots i [] d = d
  flush_slots i (slot ∷ slots) d = flush_slots (suc i) slots (flush_slot i slot d)

  -- `evdev_start_mouse_fallback_if_needed`, from slot `i` on.
  unfoldable pub start_fallback : ℕ → List TouchSlot → Direct F → Direct F
  unfolding transform_touch send_touch_mouse_fallback
  start_fallback i [] d = d
  start_fallback i (slot ∷ slots) d =
      let (x, y) = transform_touch slot d in
      if not slot.active || (not slot.x_valid || not slot.y_valid)
      then start_fallback (suc i) slots d
      else send_touch_mouse_fallback host.to_short (pos i) down x y d

  unfoldable pub flush_touch : Direct F → Direct F
  unfolding flush_slots start_fallback
  flush_touch d =
      let q = flush_slots 0 d.slots d in
      if not q.unsupported || leb_ℤ (pos 0) q.mouse_slot then q else start_fallback 0 q.slots q

  -- The direct part of `evdev_cancel_touch_input`.
  unfoldable pub direct_cancel : Direct F → Direct F
  direct_cancel d =
      let zero_f = host.floats.of_int (pos 0) in
      let s1 =
        (if d.unsupported then d.sent else touch cancel_all (pos 0) zero_f zero_f ∷ d.sent) in
      record d {
        sent = if d.mouse_down then button_release left ∷ s1 else s1;
        mouse_down = false;
        mouse_slot = negsuc 0;
        slots = map (λ _. fresh_slot) d.slots;
      }

  -- `evdev_handle_event` for a touchscreen in the direct mode.
  unfoldable pub handle_direct_event : TouchInput → Direct F → Direct F
  unfolding flush_touch direct_cancel begin_direct_slot release_direct_slot release_all_direct_slots
      update_direct_slot
  handle_direct_event sync d = flush_touch d
  handle_direct_event leaves d = direct_cancel d
  handle_direct_event (slot_number value) d = record d { touch_slot = value }
  handle_direct_event (contact_id value) d =
      if leb_ℤ (pos 0) value
      then begin_direct_slot d.touch_slot value d
      else release_direct_slot d.touch_slot d
  handle_direct_event (coordinate is_x multi value) d =
      update_direct_slot (if multi then d.touch_slot else pos 0) is_x value d
  handle_direct_event (key_touch value) d =
      if not d.has_mt_slots
      then if value ==ℤ pos 1
        then begin_direct_slot (pos 0) (pos 0) d
        else release_direct_slot (pos 0) d
      else if value ==ℤ pos 0
      then release_all_direct_slots d
      else d

  unfoldable pub handle_direct_events : List TouchInput → Direct F → Direct F
  unfolding handle_direct_event
  handle_direct_events [] d = d
  handle_direct_events (e ∷ es) d = handle_direct_events es (handle_direct_event e d)
