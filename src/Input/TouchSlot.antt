-- ===== src/Input/TouchSlot.antt =====
-- The slots of a touchscreen in src/input/touch_utils.c, and which devices are taken for one.
use moonlight_embedded_for_d.Base.{ℤ, pos, negsuc, Bool, true, false, not, ◌&&◌, if◌then◌else◌}

-- `struct ml_touch_slot`
pub record TouchSlot : Type 0 where
  pub active : Bool
  pub sent_down : Bool
  pub x_valid : Bool
  pub y_valid : Bool
  pub dirty : Bool
  pub up_pending : Bool
  pub tracking_id : ℤ
  pub x : ℤ
  pub y : ℤ

-- `ml_touch_slot_reset`
abbrev pub fresh_slot : TouchSlot
fresh_slot = record {
  active = false;
  sent_down = false;
  x_valid = false;
  y_valid = false;
  dirty = false;
  up_pending = false;
  tracking_id = negsuc 0;
  x = pos 0;
  y = pos 0;
}

unfoldable pub ml_touch_slot_begin : ℤ → TouchSlot
ml_touch_slot_begin tracking_id = record fresh_slot { active = true; tracking_id = tracking_id }

unfoldable pub set_axis : TouchSlot → Bool → ℤ → TouchSlot
set_axis slot true value = record slot { x = value; x_valid = true; dirty = true }
set_axis slot false value = record slot { y = value; y_valid = true; dirty = true }

unfoldable pub ml_touch_slot_update : TouchSlot → Bool → ℤ → TouchSlot
unfolding set_axis ml_touch_slot_begin
ml_touch_slot_update slot is_x value =
    set_axis (if slot.active then slot else ml_touch_slot_begin (pos 0)) is_x value

unfoldable pub ml_touch_slot_end : TouchSlot → TouchSlot
ml_touch_slot_end slot =
    if not slot.active && not slot.sent_down
    then slot
    else record slot { active = false; up_pending = true; dirty = false }

unfoldable pub ml_touch_device_allowed : Bool → Bool → Bool → Bool → Bool
ml_touch_device_allowed has_touch has_gamepad explicit_device device_matches =
    if not has_touch then false else if explicit_device then device_matches else not has_gamepad
