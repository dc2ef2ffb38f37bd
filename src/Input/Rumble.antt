-- ===== src/Input/Rumble.antt =====
-- The rumble motors of gamepads: `evdev_rumble` of src/input/evdev.c.
pub mod Single
mod Tests
use moonlight_embedded_for_d.Base.{
  ℕ, suc, ◌==◌, ℤ, pos, negsuc, ◌==ℤ◌, leb_ℤ, ◌≡◌, refl, sym, ap, ◌∙◌, Bool, true, false, ◌&&◌,
  Option, none, some, List, [], ◌∷◌, if◌then◌else◌, by_test, arith,
}

-- The calls on a device: EVIOCRMFF with whether it succeeds, EVIOCSFF where it succeeds, and the
-- event that plays an effect.
pub data Call : Type 0 where
  erase : ℤ → Bool → Call
  upload : ℤ → ℕ → ℕ → Call
  play : ℤ → Call

-- `controllerId` and `haptic_effect_id` of a device, and the calls so far, newest first.
pub record Motor : Type 0 where
  pub controller_id : ℤ
  pub haptic_effect_id : ℤ
  pub calls : List Call

-- The effect that was there is taken away. Whether the kernel did so is not looked at.
unfoldable pub erase_effect : Bool → Motor → Motor
erase_effect erased m =
    if leb_ℤ (pos 0) m.haptic_effect_id
    then record m { calls = erase m.haptic_effect_id erased ∷ m.calls; haptic_effect_id = negsuc 0 }
    else m

-- A new effect, with the id that the kernel gives it, `none` where it refuses.
unfoldable pub upload_effect : Option ℕ → ℕ → ℕ → Motor → Motor
upload_effect none low high m = m
upload_effect (some id) low high m = record m {
  calls = play (pos id) ∷ upload (pos id) low high ∷ m.calls;
  haptic_effect_id = pos id;
}

unfoldable pub rumble_device : Bool → Option ℕ → ℕ → ℕ → Motor → Motor
unfolding erase_effect upload_effect
rumble_device erased answer low high m =
    let quiet = erase_effect erased m in
    if low == 0 && high == 0 then quiet else upload_effect answer low high quiet

-- `evdev_rumble`, on the first device with the number.
unfoldable pub evdev_rumble : Bool → Option ℕ → ℕ → ℕ → ℕ → List Motor → List Motor
unfolding rumble_device
evdev_rumble erased answer id low high [] = []
evdev_rumble erased answer id low high (m ∷ ms) =
    let rest = evdev_rumble erased answer id low high ms in
    if m.controller_id ==ℤ pos id then rumble_device erased answer low high m ∷ ms else m ∷ rest

unfoldable pub remove_effect : ℤ → List ℤ → List ℤ
remove_effect id [] = []
remove_effect id (e ∷ es) = let rest = remove_effect id es in if e ==ℤ id then es else e ∷ rest

-- The effects that a device holds after some calls.
unfoldable pub held_effects : List Call → List ℤ
unfolding remove_effect
held_effects [] = []
held_effects (upload id low high ∷ calls) = id ∷ held_effects calls
held_effects (erase id erased ∷ calls) =
    let rest = held_effects calls in if erased then remove_effect id rest else rest
held_effects (play id ∷ calls) = held_effects calls

-- The effects that the kernel was asked to erase and did not.
unfoldable pub left_behind : List Call → List ℤ
left_behind [] = []
left_behind (upload id low high ∷ calls) = left_behind calls
left_behind (erase id erased ∷ calls) =
    let rest = left_behind calls in if erased then rest else id ∷ rest
left_behind (play id ∷ calls) = left_behind calls

-- A request of the host: the number of the gamepad, the two motors, and what the kernel answers:
-- whether it erases the old effect, and the id of the new one.
pub record Request : Type 0 where
  pub id : ℕ
  pub low : ℕ
  pub high : ℕ
  pub erased : Bool
  pub answer : Option ℕ

unfoldable pub rumble_all : List Request → List Motor → List Motor
unfolding evdev_rumble
rumble_all [] ms = ms
rumble_all (r ∷ rs) ms = rumble_all rs (evdev_rumble r.erased r.answer r.id r.low r.high ms)
