-- ===== src/Input/Devices/Indices.antt =====
-- The indices that `evdev_create` of src/input/evdev.c gives to axes.
use moonlight_embedded_for_d.Base.{
  ℕ, zero, suc, ltb, ℤ, pos, negsuc, pos_part, neg_part, ◌≤ℤ◌, ◌≢◌, refl, sym, ap, Bool, true,
  false, [], ◌∷◌, ◌++◌, get_or, if◌then◌else◌, arith,
}
use moonlight_embedded_for_d.Input.Mapping.Generated.{
  mapped_abs_index, evdev_generate_default_mapping,
}
use moonlight_embedded_for_d.Input.Mapping.Generated.Apart.{
  HasOwnIndices, TriggersApart, triggers_apart,
}
use moonlight_embedded_for_d.Input.Devices.{
  Probe, unused, number_codes, plain_axis, axis_indices, device_of,
}

-- The entry of a code.
entry : (ℕ → Bool) → ℕ → ℕ → ℕ → ℕ → ℤ
entry has n code next a = get_or (number_codes has n code next ++ (unused ∷ [])) a (negsuc 0)

entry-ge :
    (has : ℕ → Bool) (n code next a : ℕ)
    → pos 0 ≤ℤ entry has n code next a
    → pos next ≤ℤ entry has n code next a
unfolding entry number_codes
entry-ge has zero code next zero h = absurd (omega (arith, h))
entry-ge has zero code next (suc a) h = absurd (omega (arith, h))
entry-ge has (suc n) code next zero h = ground (arith, h)
entry-ge has (suc n) code next (suc a) h =
    ground (arith, entry-ge has n (suc code) (if has code then suc next else next) a h)

-- A number that is given is given once.
fresh : (has : ℕ → Bool) (n code next a : ℕ) → pos next ≢ entry has n code (suc next) a
fresh has n code next a e = omega (
  arith,
  entry-ge has n code (suc next) a (omega (arith, ap pos_part e, ap neg_part e)),
  ap pos_part e,
  ap neg_part e,
)

head-own :
    (b : Bool) (has : ℕ → Bool) (n code next a : ℕ)
    → pos 0 ≤ℤ (if b then pos next else unused)
    → (if b then pos next else unused) ≢ entry has n code (if b then suc next else next) a
head-own true has n code next a h e = fresh has n code next a e
head-own false has n code next a h e = absurd (omega (arith, h))

tail-own :
    (b : Bool) (has : ℕ → Bool) (n code next a : ℕ)
    → pos 0 ≤ℤ entry has n code (if b then suc next else next) a
    → entry has n code (if b then suc next else next) a ≢ (if b then pos next else unused)
tail-own true has n code next a h e = fresh has n code next a (sym e)
tail-own false has n code next a h e = absurd (omega (arith, h, ap pos_part e, ap neg_part e))

entry-own :
    (has : ℕ → Bool) (n code next a b : ℕ)
    → a ≢ b
    → pos 0 ≤ℤ entry has n code next a
    → entry has n code next a ≢ entry has n code next b
unfolding entry number_codes
entry-own has zero code next zero b d h e = absurd (omega (arith, h))
entry-own has zero code next (suc a) b d h e = absurd (omega (arith, h))
entry-own has (suc n) code next zero zero d h e = d refl
entry-own has (suc n) code next zero (suc b) d h e = head-own (has code) has n (suc code) next b h e
entry-own has (suc n) code next (suc a) zero d h e = tail-own (has code) has n (suc code) next a h e
entry-own has (suc n) code next (suc a) (suc b) d h e =
    entry-own has n (suc code) (if has code then suc next else next) a b (λ q. d (ap suc q)) h e

own_if :
    (x y : Bool) (u v : ℤ)
    → (pos 0 ≤ℤ u → u ≢ v)
    → pos 0 ≤ℤ (if x then u else negsuc 0)
    → (if x then u else negsuc 0) ≢ (if y then v else negsuc 0)
own_if true true u v f h e = f h e
own_if true false u v f h e = absurd (omega (arith, h, ap pos_part e, ap neg_part e))
own_if false y u v f h e = absurd (omega (arith, h))

pub device_of-HasOwnIndices : (d : Probe) → HasOwnIndices (device_of d)
unfolding device_of axis_indices mapped_abs_index entry
device_of-HasOwnIndices d = record {
  own = λ a b n h e.
      own_if (ltb a 0x40) (ltb b 0x40) _ _ (entry-own (plain_axis d) 0x3f 0 0 a b n) h e;
}

-- In the mapping that `evdev_create` has made for a gamepad without one: the axis of a trigger, where
-- the trigger has one, is used for no stick and not for the other trigger.
pub generated_apart : (d : Probe) → TriggersApart (evdev_generate_default_mapping (device_of d))
generated_apart d = triggers_apart (device_of d) (device_of-HasOwnIndices d)
