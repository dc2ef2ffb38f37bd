-- ===== src/Input/Direct/Mouse.antt =====
-- The mouse that stands in for touches in the direct mode of src/input/evdev.c.
use moonlight_embedded_for_d.Base.{
  ℕ, suc, ltb, ℤ, pos, negsuc, leb_ℤ, ◌==ℤ◌, ◌≡◌, refl, Bool, not, ◌||◌, List, [], ◌∷◌, Option,
  none, some, arith, if◌then◌else◌, by_test,
}
use moonlight_embedded_for_d.Input.Limelight.{TouchEvent, down, left_down}
use moonlight_embedded_for_d.Input.TouchSlot.{TouchSlot}
use moonlight_embedded_for_d.Input.Direct.{
  Direct, TouchHost, TouchInput, sync, leaves, slot_number, contact_id, coordinate, key_touch,
  is_up, begin_direct_slot, release_direct_slot, release_all_direct_slots, update_direct_slot,
  fallback_button, claim_mouse, transform_touch, send_touch_mouse_fallback, send_touch, due_event,
  send_due, flush_slot, flush_slots, start_fallback, flush_touch, direct_cancel,
  handle_direct_event, handle_direct_events,
}

module _ {F : Type 0} where
  -- The host holds the left button when the device believes so, and then a finger owns the mouse.
  pub record IsFollowing (d : Direct F) : Type 0 where
    pub agrees : left_down d.sent ≡ d.mouse_down
    pub owned : leb_ℤ (pos 0) d.mouse_slot ≡ d.mouse_down

  -- Only the slots differ.
  slots-IsFollowing :
      (d : Direct F) (slots : List TouchSlot)
      → IsFollowing d
      → IsFollowing (record d { slots = slots })
  slots-IsFollowing d slots h = record { agrees = h.agrees; owned = h.owned }

  fallback-IsFollowing :
      (to_short : F → ℤ) (i : ℕ) (event : TouchEvent) (x y : F) (d : Direct F)
      → IsFollowing d
      → IsFollowing (send_touch_mouse_fallback to_short (pos i) event x y d)
  unfolding send_touch_mouse_fallback claim_mouse fallback_button is_up
  fallback-IsFollowing to_short i event x y d h = record {
    agrees = ground (arith, h.agrees, h.owned);
    owned = ground (arith, h.agrees, h.owned);
  }

  begin-IsFollowing :
      (i id : ℤ) (d : Direct F) → IsFollowing d → IsFollowing (begin_direct_slot i id d)
  unfolding begin_direct_slot
  begin-IsFollowing (negsuc n) id d h = h
  begin-IsFollowing (pos i) id d h =
      by_test IsFollowing (ltb i 10) (λ e. slots-IsFollowing d _ h) (λ e. h)

  release-IsFollowing :
      (i : ℤ) (d : Direct F) → IsFollowing d → IsFollowing (release_direct_slot i d)
  unfolding release_direct_slot
  release-IsFollowing (negsuc n) d h = h
  release-IsFollowing (pos i) d h =
      by_test IsFollowing (ltb i 10) (λ e. slots-IsFollowing d _ h) (λ e. h)

  update-IsFollowing :
      (i : ℤ) (is_x : Bool) (value : ℤ) (d : Direct F)
      → IsFollowing d
      → IsFollowing (update_direct_slot i is_x value d)
  unfolding update_direct_slot
  update-IsFollowing (negsuc n) is_x value d h = h
  update-IsFollowing (pos i) is_x value d h =
      by_test IsFollowing (ltb i 10) (λ e. slots-IsFollowing d _ h) (λ e. h)

  module _ (host : TouchHost F) where
    send_touch-IsFollowing :
        (i : ℕ) (slot : TouchSlot) (event : TouchEvent) (d : Direct F)
        → IsFollowing d
        → IsFollowing (send_touch host i slot event d)
    unfolding send_touch
    send_touch-IsFollowing i slot event d h =
        let p = transform_touch host slot d in
        by_test IsFollowing d.unsupported
          (λ e. fallback-IsFollowing host.to_short i event p.0 p.1 d h)
          (λ e.
            by_test IsFollowing (host.takes_touch d.sent)
              (λ t. record { agrees = h.agrees; owned = h.owned })
              (λ t.
                fallback-IsFollowing host.to_short i event p.0 p.1 _
                  (record { agrees = h.agrees; owned = h.owned })))

    due-IsFollowing :
        (i : ℕ) (slot : TouchSlot) (due : Option TouchEvent) (d : Direct F)
        → IsFollowing d
        → IsFollowing (send_due host i slot due d)
    unfolding send_due
    due-IsFollowing i slot none d h = h
    due-IsFollowing i slot (some event) d h =
        slots-IsFollowing (send_touch host i slot event d) _
          (send_touch-IsFollowing i slot event d h)

    flush_slot-IsFollowing :
        (i : ℕ) (slot : TouchSlot) (d : Direct F)
        → IsFollowing d
        → IsFollowing (flush_slot host i slot d)
    unfolding flush_slot
    flush_slot-IsFollowing i slot d h =
        by_test IsFollowing (not slot.x_valid || not slot.y_valid)
          (λ e. by_test IsFollowing slot.up_pending (λ u. slots-IsFollowing d _ h) (λ u. h))
          (λ e. due-IsFollowing i slot (due_event slot) d h)

    flush_slots-IsFollowing :
        (i : ℕ) (slots : List TouchSlot) (d : Direct F)
        → IsFollowing d
        → IsFollowing (flush_slots host i slots d)
    unfolding flush_slots
    flush_slots-IsFollowing i [] d h = h
    flush_slots-IsFollowing i (slot ∷ slots) d h =
        flush_slots-IsFollowing (suc i) slots (flush_slot host i slot d)
          (flush_slot-IsFollowing i slot d h)

    start-IsFollowing :
        (i : ℕ) (slots : List TouchSlot) (d : Direct F)
        → IsFollowing d
        → IsFollowing (start_fallback host i slots d)
    unfolding start_fallback
    start-IsFollowing i [] d h = h
    start-IsFollowing i (slot ∷ slots) d h =
        let p = transform_touch host slot d in
        by_test IsFollowing (not slot.active || (not slot.x_valid || not slot.y_valid))
          (λ e. start-IsFollowing (suc i) slots d h)
          (λ e. fallback-IsFollowing host.to_short i down p.0 p.1 d h)

    flush-IsFollowing : (d : Direct F) → IsFollowing d → IsFollowing (flush_touch host d)
    unfolding flush_touch
    flush-IsFollowing d h =
        let q = flush_slots host 0 d.slots d in
        let hq = flush_slots-IsFollowing 0 d.slots d h in
        by_test IsFollowing (not q.unsupported || leb_ℤ (pos 0) q.mouse_slot) (λ e. hq)
          (λ e. start-IsFollowing 0 q.slots q hq)

    cancel-IsFollowing : (d : Direct F) → IsFollowing d → IsFollowing (direct_cancel host d)
    unfolding direct_cancel
    cancel-IsFollowing d h = record { agrees = ground (arith, h.agrees); owned = refl }

    handle-IsFollowing :
        (e : TouchInput) (d : Direct F) → IsFollowing d → IsFollowing (handle_direct_event host e d)
    unfolding handle_direct_event release_all_direct_slots
    handle-IsFollowing sync d h = flush-IsFollowing d h
    handle-IsFollowing leaves d h = cancel-IsFollowing d h
    handle-IsFollowing (slot_number value) d h = record { agrees = h.agrees; owned = h.owned }
    handle-IsFollowing (contact_id value) d h =
        by_test IsFollowing (leb_ℤ (pos 0) value) (λ e. begin-IsFollowing d.touch_slot value d h)
          (λ e. release-IsFollowing d.touch_slot d h)
    handle-IsFollowing (coordinate is_x multi value) d h =
        update-IsFollowing (if multi then d.touch_slot else pos 0) is_x value d h
    handle-IsFollowing (key_touch value) d h =
        by_test IsFollowing (not d.has_mt_slots)
          (λ e.
            by_test IsFollowing (value ==ℤ pos 1) (λ o. begin-IsFollowing (pos 0) (pos 0) d h)
              (λ o. release-IsFollowing (pos 0) d h))
          (λ e. by_test IsFollowing (value ==ℤ pos 0) (λ z. slots-IsFollowing d _ h) (λ z. h))

    -- Over any run of touch events, whenever the host stops taking touches: the host holds the left
    -- button exactly when the device believes so and when a finger owns the mouse.
    pub handle_direct_events-IsFollowing :
        (es : List TouchInput) (d : Direct F)
        → IsFollowing d
        → IsFollowing (handle_direct_events host es d)
    unfolding handle_direct_events
    handle_direct_events-IsFollowing [] d h = h
    handle_direct_events-IsFollowing (e ∷ es) d h =
        handle_direct_events-IsFollowing es (handle_direct_event host e d)
          (handle-IsFollowing e d h)
