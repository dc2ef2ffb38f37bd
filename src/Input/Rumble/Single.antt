-- ===== src/Input/Rumble/Single.antt =====
-- Which rumble effects a device holds.
use moonlight_embedded_for_d.Base.{
  ℕ, ◌==◌, ℤ, pos, negsuc, ◌==ℤ◌, leb_ℤ, ◌≡◌, refl, ap, ◌∙◌, Bool, true, false, ◌&&◌, Option, none,
  some, List, [], ◌∷◌, if◌then◌else◌, by_test, arith,
}
use moonlight_embedded_for_d.Input.Rumble.{
  erase, Motor, erase_effect, upload_effect, rumble_device, evdev_rumble, remove_effect,
  held_effects, left_behind, Request, rumble_all,
}

-- The device holds the effect that the program knows of, and no other but those that the kernel
-- did not erase.
pub record IsSingle (m : Motor) : Type 0 where
  pub holds : held_effects m.calls ≡ (
      if leb_ℤ (pos 0) m.haptic_effect_id
      then m.haptic_effect_id ∷ left_behind m.calls
      else left_behind m.calls)

abbrev pub AllSingle : List Motor → Type 0
AllSingle [] = Unit
AllSingle (m ∷ ms) = IsSingle m × AllSingle ms

-- A device with no effect of the program's.
record IsQuiet (m : Motor) : Type 0 where
  pub holds : held_effects m.calls ≡ left_behind m.calls
  pub none_known : leb_ℤ (pos 0) m.haptic_effect_id ≡ false

erase_effect-IsQuiet : (erased : Bool) (m : Motor) → IsSingle m → IsQuiet (erase_effect erased m)
unfolding erase_effect held_effects left_behind
erase_effect-IsQuiet erased m h =
    by_test IsQuiet (leb_ℤ (pos 0) m.haptic_effect_id)
      {x = record m {
        calls = erase m.haptic_effect_id erased ∷ m.calls;
        haptic_effect_id = negsuc 0;
      }}
      (λ e. record {
        holds = asked erased (held_effects m.calls) (h.holds ∙ rw e refl);
        none_known = refl;
      })
      (λ e. record { holds = h.holds ∙ rw e refl; none_known = e })
  where
    gone : (id : ℤ) (es : List ℤ) → remove_effect id (id ∷ es) ≡ es
    gone id es = ground arith

    asked :
        (b : Bool) (es : List ℤ)
        → es ≡ m.haptic_effect_id ∷ left_behind m.calls
        → (if b then remove_effect m.haptic_effect_id es else es)
          ≡ (if b then left_behind m.calls else m.haptic_effect_id ∷ left_behind m.calls)
    asked true es p =
        ap (remove_effect m.haptic_effect_id) p ∙ gone m.haptic_effect_id (left_behind m.calls)
    asked false es p = p

upload_effect-IsSingle :
    (answer : Option ℕ) (low high : ℕ) (m : Motor)
    → IsQuiet m
    → IsSingle (upload_effect answer low high m)
unfolding upload_effect held_effects left_behind
upload_effect-IsSingle none low high m h = record { holds = h.holds ∙ rw (h.none_known) refl }
upload_effect-IsSingle (some id) low high m h = record {
  holds = ap (λ es. pos id ∷ es) (h.holds) ∙ ground arith;
}

rumble_device-IsSingle :
    (erased : Bool) (answer : Option ℕ) (low high : ℕ) (m : Motor)
    → IsSingle m
    → IsSingle (rumble_device erased answer low high m)
unfolding rumble_device upload_effect
rumble_device-IsSingle erased answer low high m h =
    let quiet = erase_effect-IsQuiet erased m h in
    by_test IsSingle (low == 0 && high == 0)
      (λ e. upload_effect-IsSingle none low high (erase_effect erased m) quiet)
      (λ e. upload_effect-IsSingle answer low high (erase_effect erased m) quiet)

evdev_rumble-AllSingle :
    (erased : Bool) (answer : Option ℕ) (id low high : ℕ) (ms : List Motor)
    → AllSingle ms
    → AllSingle (evdev_rumble erased answer id low high ms)
unfolding evdev_rumble
evdev_rumble-AllSingle erased answer id low high [] h = h
evdev_rumble-AllSingle erased answer id low high (m ∷ ms) (h, k) =
    by_test AllSingle (m.controller_id ==ℤ pos id)
      (λ e. (rumble_device-IsSingle erased answer low high m h, k))
      (λ e. (h, evdev_rumble-AllSingle erased answer id low high ms k))

-- Whatever the host asks for and whatever the kernel answers to EVIOCSFF and EVIOCRMFF, from devices
-- of which this holds, such as those without an effect: every device holds the effect whose id the
-- program keeps for it, none where that is -1, and besides exactly the effects that the kernel was
-- asked to erase and did not.
pub rumble_all-AllSingle :
    (rs : List Request) (ms : List Motor) → AllSingle ms → AllSingle (rumble_all rs ms)
unfolding rumble_all
rumble_all-AllSingle [] ms h = h
rumble_all-AllSingle (r ∷ rs) ms h =
    rumble_all-AllSingle rs _ (evdev_rumble-AllSingle r.erased r.answer r.id r.low r.high ms h)
