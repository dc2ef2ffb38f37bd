-- ===== src/Input/Mapping/Generated/Apart.antt =====
-- The axes of the mapping that src/input/evdev.c makes.
use moonlight_embedded_for_d.Base.{
  ℕ, ◌==◌, [], ◌∷◌, pos_part, neg_part, false_ne_true, ℤ, pos, negsuc, ◌==ℤ◌, ◌≤ℤ◌, ◌≡◌, ◌≢◌, refl,
  sym, ap, Bool, true, false, not, ◌&&◌, ◌||◌, List, arith, by_test,
}
use moonlight_embedded_for_d.Input.Mapping.{Mapping}
use moonlight_embedded_for_d.Input.Mapping.Generated.{
  Device, Found, found, right_stick, trigger, find_axes, mapped_abs_index, generated_buttons,
  generated_axes, generated_hat, dualshock, dualshock_mapping, evdev_generate_default_mapping,
}

-- No two axes of the device have the same index.
pub record HasOwnIndices (d : Device) : Type 0 where
  pub own :
      (a b : ℕ)
      → a ≢ b
      → pos 0 ≤ℤ mapped_abs_index d a
      → mapped_abs_index d a ≢ mapped_abs_index d b

-- An axis that is none of five others.
pub record IsApart (t leftx lefty rightx righty other : ℤ) : Type 0 where
  pub from_leftx : t ≢ leftx
  pub from_lefty : t ≢ lefty
  pub from_rightx : t ≢ rightx
  pub from_righty : t ≢ righty
  pub from_other : t ≢ other

-- The axis of a trigger, where there is one, is used for no stick and not for the other trigger.
abbrev pub TriggersApart : Mapping → Type 0
TriggersApart m =
    (pos 0 ≤ℤ m.abs_lefttrigger
      → IsApart m.abs_lefttrigger m.abs_leftx m.abs_lefty m.abs_rightx m.abs_righty
          m.abs_righttrigger)
    × (pos 0 ≤ℤ m.abs_righttrigger
        → IsApart m.abs_righttrigger m.abs_leftx m.abs_lefty m.abs_rightx m.abs_righty
            m.abs_lefttrigger)

abbrev is_one : ℕ → List ℕ → Bool
is_one a [] = false
is_one a (b ∷ bs) = a == b || is_one a bs

abbrev disjoint : List ℕ → List ℕ → Bool
disjoint [] bs = true
disjoint (a ∷ as') bs = not (is_one a bs) && disjoint as' bs

-- The index of one of a list of axes, or none.
data From (d : Device) : List ℕ → ℤ → Type 0 where
  nowhere : {codes : List ℕ} → From d codes (negsuc 0)
  at : {codes : List ℕ} (a : ℕ) → is_one a codes ≡ true → From d codes (mapped_abs_index d a)

disjoint-ne :
    (as' bs : List ℕ) (a b : ℕ)
    → disjoint as' bs ≡ true
    → is_one a as' ≡ true
    → is_one b bs ≡ true
    → a ≢ b
disjoint-ne [] bs a b h k l e = false_ne_true k
disjoint-ne (c ∷ as') bs a b h k l e = ground (arith, disjoint-ne as' bs a b, h, k, l, e)

From-ne :
    (d : Device) (as' bs : List ℕ) (t u : ℤ)
    → HasOwnIndices d
    → disjoint as' bs ≡ true
    → From d as' t
    → From d bs u
    → pos 0 ≤ℤ t
    → t ≢ u
From-ne d as' bs t u o h nowhere g k = absurd (omega (arith, k))
From-ne d as' bs t u o h (at a x) nowhere k =
    λ e. absurd (omega (arith, k, ap pos_part e, ap neg_part e))
From-ne d as' bs t u o h (at a x) (at b y) k = o.own a b (disjoint-ne as' bs a b h x y) k

-- A trigger takes its own axis, or the shared one.
trigger-cases :
    (P : ℤ → Type 0) (own shared stick : ℤ)
    → (pos 0 ≤ℤ own → P own)
    → (pos 0 ≤ℤ shared → stick ≢ shared → P shared)
    → P (negsuc 0)
    → P (trigger own shared stick)
unfolding trigger
trigger-cases P own shared stick f g h =
    by_test P (found own) (λ e. f (ground (arith, e)))
      (λ e.
        by_test P (found shared && not (stick ==ℤ shared))
          (λ k. g (ground (arith, k)) (λ q. ground (arith, k, q))) (λ k. h))

right_stick-cases :
    (P : ℤ × ℤ → Type 0) (f : Found) (b : Bool)
    → P (f.rx, f.ry)
    → P (f.z, f.rz)
    → P (negsuc 0, negsuc 0)
    → P (right_stick f b)
unfolding right_stick
right_stick-cases P f b x y z =
    by_test P (found f.rx && found f.ry) (λ e. x)
      (λ e.
        by_test P (found f.z && (found f.rz && (found f.brake || (found f.gas || b)))) (λ k. y)
          (λ k. z))

right_stick-From :
    (d : Device) (b : Bool)
    → From d (3 ∷ 2 ∷ []) (right_stick (find_axes d) b).0
      × From d (4 ∷ 5 ∷ []) (right_stick (find_axes d) b).1
unfolding find_axes
right_stick-From d b =
    right_stick-cases (λ p. From d (3 ∷ 2 ∷ []) p.0 × From d (4 ∷ 5 ∷ []) p.1) (find_axes d) b
      (at 3 refl, at 4 refl) (at 2 refl, at 5 refl) (nowhere, nowhere)

trigger-From :
    (d : Device) (own shared : ℕ) (stick : ℤ)
    → From d
        (own ∷ shared ∷ [])
        (trigger (mapped_abs_index d own) (mapped_abs_index d shared) stick)
trigger-From d own shared stick =
    trigger-cases (From d (own ∷ shared ∷ [])) (mapped_abs_index d own) (mapped_abs_index d shared)
      stick (λ e. at own (ground arith)) (λ e n. at shared (ground arith)) nowhere

trigger-stick :
    (d : Device) (own shared : ℕ) (codes : List ℕ) (stick : ℤ)
    → HasOwnIndices d
    → disjoint (own ∷ []) codes ≡ true
    → From d codes stick
    → pos 0 ≤ℤ trigger (mapped_abs_index d own) (mapped_abs_index d shared) stick
    → trigger (mapped_abs_index d own) (mapped_abs_index d shared) stick ≢ stick
trigger-stick d own shared codes stick o h s =
    trigger-cases (λ t. pos 0 ≤ℤ t → t ≢ stick) (mapped_abs_index d own) (mapped_abs_index d shared)
      stick (λ e k. From-ne d (own ∷ []) codes _ _ o h (at own (ground arith)) s k)
      (λ e n k q. n (sym q)) (λ k. absurd (omega (arith, k)))

axes_apart : (d : Device) (m : Mapping) → HasOwnIndices d → TriggersApart (generated_axes d m)
unfolding generated_axes find_axes
axes_apart d m o = (
  λ k. record {
    from_leftx = From-ne d (10 ∷ 2 ∷ []) (0 ∷ []) _ _ o refl left (at 0 refl) k;
    from_lefty = From-ne d (10 ∷ 2 ∷ []) (1 ∷ []) _ _ o refl left (at 1 refl) k;
    from_rightx = trigger-stick d 10 2 (3 ∷ 2 ∷ []) _ o refl stick.0 k;
    from_righty = From-ne d (10 ∷ 2 ∷ []) (4 ∷ 5 ∷ []) _ _ o refl left stick.1 k;
    from_other = From-ne d (10 ∷ 2 ∷ []) (9 ∷ 5 ∷ []) _ _ o refl left right k;
  },
  λ k. record {
    from_leftx = From-ne d (9 ∷ 5 ∷ []) (0 ∷ []) _ _ o refl right (at 0 refl) k;
    from_lefty = From-ne d (9 ∷ 5 ∷ []) (1 ∷ []) _ _ o refl right (at 1 refl) k;
    from_rightx = From-ne d (9 ∷ 5 ∷ []) (3 ∷ 2 ∷ []) _ _ o refl right stick.0 k;
    from_righty = trigger-stick d 9 5 (4 ∷ 5 ∷ []) _ o refl stick.1 k;
    from_other = From-ne d (9 ∷ 5 ∷ []) (10 ∷ 2 ∷ []) _ _ o refl right left k;
  },
)
  where
    by_button : Bool
    by_button = found m.btn_lefttrigger || found m.btn_righttrigger

    stick :
        From d (3 ∷ 2 ∷ []) (right_stick (find_axes d) by_button).0
        × From d (4 ∷ 5 ∷ []) (right_stick (find_axes d) by_button).1
    stick = right_stick-From d by_button

    left : From d (10 ∷ 2 ∷ []) (
        trigger
          (mapped_abs_index d 10)
          (mapped_abs_index d 2)
          (right_stick (find_axes d) by_button).0)
    left = trigger-From d 10 2 _

    right : From d (9 ∷ 5 ∷ []) (
        trigger
          (mapped_abs_index d 9)
          (mapped_abs_index d 5)
          (right_stick (find_axes d) by_button).1)
    right = trigger-From d 9 5 _

dualshock_apart :
    (d : Device) (m : Mapping) → HasOwnIndices d → TriggersApart (dualshock_mapping d m)
unfolding dualshock_mapping
dualshock_apart d m o =
    (λ k. apart 3 4 refl refl refl refl refl k, λ k. apart 4 3 refl refl refl refl refl k)
  where
    ne :
        (a b : ℕ)
        → disjoint (a ∷ []) (b ∷ []) ≡ true
        → pos 0 ≤ℤ mapped_abs_index d a
        → mapped_abs_index d a ≢ mapped_abs_index d b
    ne a b h k = o.own a b (ground (arith, h)) k

    apart :
        (a b : ℕ)
        → disjoint (a ∷ []) (0 ∷ []) ≡ true
        → disjoint (a ∷ []) (1 ∷ []) ≡ true
        → disjoint (a ∷ []) (2 ∷ []) ≡ true
        → disjoint (a ∷ []) (5 ∷ []) ≡ true
        → disjoint (a ∷ []) (b ∷ []) ≡ true
        → pos 0 ≤ℤ mapped_abs_index d a
        → IsApart
            (mapped_abs_index d a)
            (mapped_abs_index d 0)
            (mapped_abs_index d 1)
            (mapped_abs_index d 2)
            (mapped_abs_index d 5)
            (mapped_abs_index d b)
    apart a b h0 h1 h2 h5 hb k = record {
      from_leftx = ne a 0 h0 k;
      from_lefty = ne a 1 h1 k;
      from_rightx = ne a 2 h2 k;
      from_righty = ne a 5 h5 k;
      from_other = ne a b hb k;
    }

-- For a device whose axes have an index each:
-- no trigger shares its axis.
pub triggers_apart :
    (d : Device) → HasOwnIndices d → TriggersApart (evdev_generate_default_mapping d)
unfolding evdev_generate_default_mapping generated_hat
triggers_apart d o =
    by_test TriggersApart (dualshock d) (λ e. dualshock_apart d _ o)
      (λ e.
        by_test TriggersApart d.has_hat (λ f. axes_apart d (generated_buttons d) o)
          (λ f. axes_apart d (generated_buttons d) o))
