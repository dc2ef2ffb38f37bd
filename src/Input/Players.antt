-- ===== src/Input/Players.antt =====
-- The player numbers of gamepads in src/input/evdev.c: `controllerId` of each device, in the order of
-- `devices`, and the mask `assignedControllerIds`.
pub mod Numbers
mod Tests
use moonlight_embedded_for_d.Base.{
  ℕ, zero, suc, ◌+◌, ◌<◌, ℤ, pos, negsuc, ltb_ℤ, leb_ℤ, count, Bool, true, false, List, [], ◌∷◌,
  ◌++◌, Option, none, some, get_or, set, length, test_bit, set_bit, clear_bit, swap_remove,
  if◌then◌else◌,
}

pub record Players : Type 0 where
  pub assigned : ℕ
  pub ids : List ℤ

abbrev pub max_gamepads : ℕ
max_gamepads = 16

-- The loop over the numbers, `i` on: the first whose bit is clear.
unfoldable pub free_id : ℕ → ℕ → ℕ → Option ℕ
free_id zero i mask = none
free_id (suc n) i mask =
    let rest = free_id n (suc i) mask in if test_bit mask i then rest else some i

-- The mask and the number for a device that reports for the first time: 0 when all are taken.
unfoldable pub assign_id : ℕ → Option ℕ → ℕ × ℤ
assign_id mask none = (mask, pos 0)
assign_id mask (some i) = (set_bit mask i, pos i)

-- `evdev_create` on a gamepad.
unfoldable pub plug : Players → Players
plug p = record p { ids = p.ids ++ (negsuc 0 ∷ []) }

-- EV_SYN of the device at `k`, with something to tell.
unfoldable pub report : ℕ → Players → Players
unfolding assign_id free_id
report k p =
    let (mask, id) = assign_id p.assigned (free_id max_gamepads 0 p.assigned) in
    if ltb_ℤ (get_or p.ids k (negsuc 0)) (pos 0)
    then record p { assigned = mask; ids = set p.ids k id }
    else p

-- The bit that goes with a number.
unfoldable pub clear_id : ℤ → ℕ → ℕ
clear_id (pos i) mask = clear_bit mask i
clear_id (negsuc n) mask = mask

-- `evdev_remove` of the device at `k`.
unfoldable pub unplug : ℕ → Players → Players
unfolding clear_id
unplug k p = record p {
  assigned = clear_id (get_or p.ids k (negsuc 0)) p.assigned;
  ids = swap_remove k p.ids;
}

abbrev pub no_players : Players
no_players = record { assigned = 0; ids = [] }

-- How many devices have a number.
abbrev pub players : List ℤ → ℕ
players ids = count (λ id. leb_ℤ (pos 0) id) ids

-- What may happen, as long as no more than sixteen gamepads report.
pub data Step : Players → Players → Type 0 where
  plugs : (p : Players) → Step p (plug p)
  reports : (p : Players) (k : ℕ) → k < length p.ids → players p.ids < 16 → Step p (report k p)
  unplugs : (p : Players) (k : ℕ) → k < length p.ids → Step p (unplug k p)

pub data Reach : Players → Type 0 where
  start : Reach no_players
  next : {p q : Players} → Reach p → Step p q → Reach q
