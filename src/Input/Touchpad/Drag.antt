-- ===== src/Input/Touchpad/Drag.antt =====
-- What the touchpad mode of src/input/evdev.c does to the host's left button.
use moonlight_embedded_for_d.Base.{
  ℕ, zero, suc, ◌+◌, ◌<◌, ◌≤◌, ◌==◌, ℤ, ◌≡◌, refl, sym, ap, ◌∙◌, Bool, true, false, List, [], ◌∷◌,
  map, set, get_or, length, length-set, arith, if◌then◌else◌, Bool-cases, inl, inr, ==_iff, by_test,
  false_ne_true,
}
use moonlight_embedded_for_d.Input.Limelight.{left_down}
use moonlight_embedded_for_d.Input.Contacts.{
  Timeval, PadSlot, zero_slot, active_count, remember_position, released_slot, place_slot,
}
use moonlight_embedded_for_d.Input.Touchpad.{
  Pad, max_slots, update_max_fingers, press_left_if_needed, release_left_if_needed, reset_gesture,
  send_click, begin_gesture, begin_at, touchpad_finish_gesture, release_at, touchpad_release_all,
}

module _ {F : Type 0} where
  -- The device knows whether the host holds the left button.
  abbrev pub Agrees : Pad F → Type 0
  Agrees p = left_down p.sent ≡ p.dragging

  press-Agrees : (p : Pad F) → Agrees p → Agrees (press_left_if_needed p)
  unfolding press_left_if_needed
  press-Agrees p h = ground arith

  pub release-Agrees : (p : Pad F) → Agrees p → Agrees (release_left_if_needed p)
  unfolding release_left_if_needed
  release-Agrees p h = ground arith

  pub release-dragging : (p : Pad F) → (release_left_if_needed p).dragging ≡ false
  unfolding release_left_if_needed
  release-dragging p = ground arith

  pub release-slots : (p : Pad F) → (release_left_if_needed p).slots ≡ p.slots
  unfolding release_left_if_needed
  release-slots p = ground arith

  finish-Agrees :
      (time : Timeval) (p : Pad F)
      → Agrees p
      → Agrees (touchpad_finish_gesture time p)
        × ((touchpad_finish_gesture time p).dragging ≡ false)
        × ((touchpad_finish_gesture time p).slots ≡ p.slots)
  unfolding touchpad_finish_gesture send_click reset_gesture release_left_if_needed
  finish-Agrees time p h = ground arith

-- The slots after a write: the count moves by the slot that was there.
count-set_active :
    (slots : List PadSlot) (i : ℕ) (s : PadSlot)
    → s.active ≡ true
    → i < length slots
    → active_count (set slots i s) + (if (get_or slots i zero_slot).active then 1 else 0)
      ≡ active_count slots + 1
unfolding active_count
count-set_active [] i s hs h = absurd (omega arith)
count-set_active (x ∷ xs) zero s hs h = ground arith
count-set_active (x ∷ xs) (suc i) s hs h = omega (arith, count-set_active xs i s hs (omega arith))

count-set_inactive :
    (slots : List PadSlot) (i : ℕ) (s : PadSlot)
    → s.active ≡ false
    → i < length slots
    → active_count (set slots i s) + (if (get_or slots i zero_slot).active then 1 else 0)
      ≡ active_count slots
unfolding active_count
count-set_inactive [] i s hs h = absurd (omega arith)
count-set_inactive (x ∷ xs) zero s hs h = ground arith
count-set_inactive (x ∷ xs) (suc i) s hs h =
    omega (arith, count-set_inactive xs i s hs (omega arith))

pub count-remember :
    (slots : List PadSlot) → active_count (map remember_position slots) ≡ active_count slots
unfolding active_count remember_position
count-remember [] = refl
count-remember (x ∷ xs) = ground (arith, count-remember xs)

pub length-map_slots :
    (f : PadSlot → PadSlot) (slots : List PadSlot) → length (map f slots) ≡ length slots
length-map_slots f [] = refl
length-map_slots f (x ∷ xs) = ap suc (length-map_slots f xs)

place-active :
    (slot : PadSlot) (is_x : Bool) (v : ℤ) → (place_slot slot is_x v).active ≡ slot.active
unfolding place_slot
place-active slot is_x v = ground arith

active_le_count :
    (slots : List PadSlot) (i : ℕ)
    → (if (get_or slots i zero_slot).active then 1 else 0) ≤ active_count slots
unfolding active_count
active_le_count [] i = omega arith
active_le_count (x ∷ xs) zero = omega arith
active_le_count (x ∷ xs) (suc i) = omega (arith, active_le_count xs i)

module _ {F : Type 0} where
  -- What holds between two events: what the device believes of the left button is so, it is held
  -- only while exactly one finger is down, and no slot was lost.
  pub record IsSettled (p : Pad F) : Type 0 where
    pub agrees : left_down p.sent ≡ p.dragging
    pub one_finger : p.dragging ≡ true → active_count p.slots ≡ 1
    pub size : length p.slots ≡ max_slots

  -- Equal in all that `IsSettled` reads.
  abbrev pub IsAlike : Pad F → Pad F → Type 0
  IsAlike q p =
      (q.sent ≡ p.sent)
      × (q.dragging ≡ p.dragging)
      × (active_count q.slots ≡ active_count p.slots)
      × (length q.slots ≡ length p.slots)

  pub IsSettled-of_alike : (q p : Pad F) → IsAlike q p → IsSettled p → IsSettled q
  IsSettled-of_alike q p (es, ed, ec, el) h = record {
    agrees = ap left_down es ∙ h.agrees ∙ sym ed;
    one_finger = λ d. ec ∙ h.one_finger (sym ed ∙ d);
    size = el ∙ h.size;
  }

  -- Released, whatever was held.
  pub IsSettled-of_free :
      (p : Pad F) → Agrees p → p.dragging ≡ false → length p.slots ≡ max_slots → IsSettled p
  IsSettled-of_free p a f l = record {
    agrees = a;
    one_finger = λ d. absurd (false_ne_true (sym f ∙ d));
    size = l;
  }

  gesture-facts :
      (time : Timeval) (p : Pad F)
      → Agrees p
      → Agrees (begin_gesture time p) × ((begin_gesture time p).slots ≡ p.slots)
  unfolding begin_gesture press_left_if_needed reset_gesture
  gesture-facts time p h = ground arith

  fingers-IsAlike : (p : Pad F) → IsAlike (update_max_fingers p) p
  unfolding update_max_fingers
  fingers-IsAlike p = ground arith

  pub fingers-IsSettled : (p : Pad F) → IsSettled p → IsSettled (update_max_fingers p)
  fingers-IsSettled p h = IsSettled-of_alike (update_max_fingers p) p (fingers-IsAlike p) h

  module _ (i : ℕ) (id : ℤ) (time : Timeval) (p : Pad F) (hi : i < max_slots)
      (h : IsSettled p) where
    abbrev begun : PadSlot
    begun = record zero_slot { active = true; tracking_id = id; down_time = time }

    abbrev with_begun : Pad F
    with_begun = record p { slots = set p.slots i begun }

    begun-size : length (set p.slots i begun) ≡ max_slots
    begun-size = length-set p.slots i begun ∙ h.size

    begun-count : (active_count p.slots == 0) ≡ true → active_count (set p.slots i begun) ≡ 1
    begun-count e = omega (
      arith,
      count-set_active p.slots i begun refl (omega (arith, h.size)),
      (==_iff (active_count p.slots) 0).0 e,
      active_le_count p.slots i,
    )

    first_finger : (active_count p.slots == 0) ≡ true → IsSettled (begin_gesture time with_begun)
    first_finger e =
        let (b, s) = gesture-facts time with_begun h.agrees in
        record {
          agrees = b;
          one_finger = λ d. ap active_count s ∙ begun-count e;
          size = ap length s ∙ begun-size;
        }

    further_finger :
        IsSettled (if p.dragging then release_left_if_needed with_begun else with_begun)
    further_finger =
        by_test IsSettled p.dragging
          (λ d.
            IsSettled-of_free _ (release-Agrees with_begun h.agrees) (release-dragging with_begun)
              (ap length (release-slots with_begun) ∙ begun-size))
          (λ d. IsSettled-of_free _ h.agrees d begun-size)

    pub begin_at-IsSettled : IsSettled (begin_at i id time p)
    unfolding begin_at
    begin_at-IsSettled =
        fingers-IsSettled _
          (by_test IsSettled (active_count p.slots == 0) first_finger (λ e. further_finger))

  finish-IsSettled :
      (time : Timeval) (p : Pad F)
      → Agrees p
      → length p.slots ≡ max_slots
      → IsSettled (touchpad_finish_gesture time p)
  finish-IsSettled time p a l =
      let (b, f, s) = finish-Agrees time p a in IsSettled-of_free _ b f (ap length s ∙ l)

  module _ (i : ℕ) (time : Timeval) (p : Pad F) (hi : i < max_slots) (h : IsSettled p) where
    abbrev old : PadSlot
    old = get_or p.slots i zero_slot

    abbrev after : List PadSlot
    after = set p.slots i (released_slot old)

    after-size : length after ≡ max_slots
    after-size = length-set p.slots i (released_slot old) ∙ h.size

    after-count : old.active ≡ true → active_count after + 1 ≡ active_count p.slots
    unfolding released_slot
    after-count e =
        ap (λ b. active_count after + (if b then 1 else 0)) (sym e)
        ∙ count-set_inactive p.slots i (released_slot old) refl (omega (arith, h.size))

    not_last :
        old.active ≡ true
        → (active_count after == 0) ≡ false
        → p.dragging ≡ true
        → active_count after ≡ 1
    not_last e z d = absurd (
        false_ne_true (
          sym z ∙ (==_iff (active_count after) 0).1 (omega (arith, after-count e, h.one_finger d))))

    pub release_at-IsSettled : IsSettled (release_at i time p)
    unfolding release_at
    release_at-IsSettled = elim (Bool-cases old.active) [
      | inr e ↦ rw e h
      | inl e ↦ rw e (
          by_test IsSettled (active_count after == 0)
            (λ z. finish-IsSettled time _ h.agrees after-size)
            (λ z. record { agrees = h.agrees; one_finger = not_last e z; size = after-size }))
    ]

  pub release_all-IsSettled :
      (time : Timeval) (p : Pad F) → IsSettled p → IsSettled (touchpad_release_all time p)
  unfolding touchpad_release_all
  release_all-IsSettled time p h =
      by_test IsSettled (active_count p.slots == 0) (λ z. h)
        (λ z. finish-IsSettled time _ h.agrees (length-map_slots _ p.slots ∙ h.size))

-- A coordinate written into a slot leaves the count.
pub count-place :
    (slots : List PadSlot) (i : ℕ) (is_x : Bool) (v : ℤ)
    → active_count (set slots i (place_slot (get_or slots i zero_slot) is_x v)) ≡ active_count slots
unfolding active_count
count-place [] i is_x v = refl
count-place (x ∷ xs) zero is_x v =
    ap (λ b. (if b then 1 else 0) + active_count xs) (place-active x is_x v)
count-place (x ∷ xs) (suc i) is_x v =
    ap (λ n. (if x.active then 1 else 0) + n) (count-place xs i is_x v)
