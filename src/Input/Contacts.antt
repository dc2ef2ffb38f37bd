-- ===== src/Input/Contacts.antt =====
-- A contact of the touchpad mode of src/input/evdev.c, and what the loops over the contacts compute.
use moonlight_embedded_for_d.Base.{
  to_i32, ℕ, ◌+◌, ltb, ℤ, pos, negsuc, ◌+ℤ◌, ◌-ℤ◌, ◌*ℤ◌, ◌/ℤ◌, leb_ℤ, ltb_ℤ, ◌==ℤ◌, Bool, true,
  false, not, ◌&&◌, ◌||◌, List, [], ◌∷◌, Option, none, some, if◌then◌else◌,
}

-- `struct timeval`
pub record Timeval : Type 0 where
  pub sec : ℤ
  pub usec : ℤ

-- `timeval_diff_ms`: `timersub` borrows a second where the microseconds would fall below zero,
-- and what is returned is an `int`.
unfoldable pub timeval_diff_ms : Timeval → Timeval → ℤ
timeval_diff_ms newer older =
    let s = newer.sec -ℤ older.sec in
    let u = newer.usec -ℤ older.usec in
    to_i32 (
      if ltb_ℤ u (pos 0)
      then (s -ℤ pos 1) *ℤ pos 1000 +ℤ (u +ℤ pos 1000000) /ℤ pos 1000
      else s *ℤ pos 1000 +ℤ u /ℤ pos 1000)

-- `struct touchpad_slot`
pub record PadSlot : Type 0 where
  pub active : Bool
  pub x_valid : Bool
  pub y_valid : Bool
  pub position_valid : Bool
  pub last_position_valid : Bool
  pub tracking_id : ℤ
  pub x : ℤ
  pub y : ℤ
  pub last_x : ℤ
  pub last_y : ℤ
  pub start_x : ℤ
  pub start_y : ℤ
  pub down_time : Timeval

-- The bytes of a slot after `memset(slot, 0, sizeof(*slot))`.
abbrev pub zero_slot : PadSlot
zero_slot = record {
  active = false;
  x_valid = false;
  y_valid = false;
  position_valid = false;
  last_position_valid = false;
  tracking_id = pos 0;
  x = pos 0;
  y = pos 0;
  last_x = pos 0;
  last_y = pos 0;
  start_x = pos 0;
  start_y = pos 0;
  down_time = record { sec = pos 0; usec = pos 0 };
}

-- `touchpad_active_count`
unfoldable pub active_count : List PadSlot → ℕ
active_count [] = 0
active_count (slot ∷ slots) = (if slot.active then 1 else 0) + active_count slots

-- `touchpad_first_active_slot`
unfoldable pub first_active_slot : List PadSlot → Option PadSlot
first_active_slot [] = none
first_active_slot (slot ∷ slots) = if slot.active then some slot else first_active_slot slots

-- The test of `touchpad_mark_moved_if_needed`: 10 is TOUCH_CLICK_RADIUS.
unfoldable pub has_moved : PadSlot → Bool
has_moved slot =
    let dx = slot.x -ℤ slot.start_x in
    let dy = slot.y -ℤ slot.start_y in slot.position_valid && leb_ℤ (pos 100) (dx *ℤ dx +ℤ dy *ℤ dy)

-- One direction of `touchpad_add_scroll_delta`: the ticks that are sent and the remainder; 35 is
-- TOUCHPAD_SCROLL_STEP.
unfoldable pub scroll_axis : ℤ → ℤ → ℤ → ℤ × ℤ
scroll_axis scroll remainder delta =
    let r = remainder +ℤ delta in
    let ticks = r /ℤ pos 35 in
    if not (ticks ==ℤ pos 0) then (scroll +ℤ ticks, r -ℤ ticks *ℤ pos 35) else (scroll, r)

-- What the loop of `touchpad_flush` over the first two fingers with a position gathers.
pub record Gathered : Type 0 where
  pub any_moved : Bool
  pub sum_x : ℤ
  pub sum_y : ℤ
  pub valid_count : ℕ

unfoldable pub gather : List PadSlot → Gathered → Gathered
unfolding has_moved
gather [] g = g
gather (slot ∷ slots) g = gather slots (
    if ltb g.valid_count 2 && (slot.active && slot.position_valid)
    then record {
      any_moved = g.any_moved || has_moved slot;
      sum_x = g.sum_x +ℤ slot.x;
      sum_y = g.sum_y +ℤ slot.y;
      valid_count = g.valid_count + 1;
    }
    else g)

-- The last loop of `touchpad_flush`.
unfoldable pub remember_position : PadSlot → PadSlot
remember_position slot =
    if slot.active && slot.position_valid
    then record slot { last_x = slot.x; last_y = slot.y; last_position_valid = true }
    else slot

-- What `touchpad_release_slot` and `touchpad_release_all` make of a contact.
unfoldable pub released_slot : PadSlot → PadSlot
released_slot slot = record slot {
  active = false;
  x_valid = false;
  y_valid = false;
  position_valid = false;
  last_position_valid = false;
  tracking_id = negsuc 0;
}

-- The body of `touchpad_update_slot_axis` on an active slot, with the value on the axis.
unfoldable pub place_slot : PadSlot → Bool → ℤ → PadSlot
place_slot slot is_x value =
    let placed =
      (if is_x
        then record slot { x = value; x_valid = true }
        else record slot { y = value; y_valid = true }) in
    let valid = placed.x_valid && placed.y_valid in
    let q = record placed { position_valid = valid } in
    if not slot.position_valid && valid
    then record q { start_x = q.x; start_y = q.y; last_position_valid = false }
    else q

-- The loop of `touchpad_release_all`: whether a finger had moved, and the slots after.
unfoldable pub any_moved_active : List PadSlot → Bool
unfolding has_moved
any_moved_active [] = false
any_moved_active (slot ∷ slots) = (slot.active && has_moved slot) || any_moved_active slots
