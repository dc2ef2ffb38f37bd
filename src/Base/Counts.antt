-- ===== src/Base/Counts.antt =====
-- How many entries of a list have a property, and how moving entries changes it.
use Prim.Native.Nat.{ℕ, zero, suc, ◌+◌, ◌≤◌, ◌<◌}
use mathlib.Core.Path.{◌≡◌, refl, ap, ◌∙◌}
use mathlib.Core.Logic.{inl, inr}
use mathlib.Core.Bool.{Bool, not, ◌&&◌}
use mathlib.Core.List.{List, [], ◌∷◌, ◌++◌}
use native.Mathlib.Omega.{arith}
use moonlight_embedded_for_d.Base.Tests.{ltb, ◌==◌, if◌then◌else◌, ==_iff, lt→ltb, Bool-cases}
use moonlight_embedded_for_d.Base.Lists.{length, get_or, set, take, length-set, get_or-set_ne}

module _ {ℓ} {A : Type ℓ} (p : A → Bool) where
  -- How many entries have the property.
  abbrev pub count : List A → ℕ
  count [] = 0
  count (x ∷ xs) = (if p x then 1 else 0) + count xs

  pub count-set :
      (xs : List A) (i : ℕ) (v d : A)
      → i < length xs
      → count (set xs i v) + (if p (get_or xs i d) then 1 else 0)
        ≡ count xs + (if p v then 1 else 0)
  count-set [] i v d h = absurd (omega arith)
  count-set (x ∷ xs) zero v d h = omega arith
  count-set (x ∷ xs) (suc i) v d h = omega (arith, count-set xs i v d (omega arith))

  pub count-take :
      (xs : List A) (n : ℕ) (d : A)
      → length xs ≡ suc n
      → count (take n xs) + (if p (get_or xs n d) then 1 else 0) ≡ count xs
  count-take [] n d h = absurd (omega arith)
  count-take (x ∷ []) zero d h = omega arith
  count-take (x ∷ y ∷ xs) zero d h = absurd (omega arith)
  count-take (x ∷ xs) (suc n) d h = omega (arith, count-take xs n d (omega arith))

  -- The last entry moved to `i` and the table cut.
  pub count-moved :
      (xs : List A) (i n : ℕ) (d : A)
      → length xs ≡ suc n
      → i < n
      → count (take n (set xs i (get_or xs n d))) + (if p (get_or xs i d) then 1 else 0) ≡ count xs
  count-moved xs i n d hl hi = omega (
    arith,
    count-set xs i (get_or xs n d) d (omega arith),
    count-take (set xs i (get_or xs n d)) n d (length-set xs i _ ∙ hl),
    ap {B = ℕ} (λ v. if p v then 1 else 0)
        (get_or-set_ne xs {i = i} {j = n} (get_or xs n d) d (λ e. absurd (omega (arith, e)))),
  )

  pub count-append : (xs ys : List A) → count (xs ++ ys) ≡ count xs + count ys
  count-append [] ys = omega arith
  count-append (x ∷ xs) ys = omega (arith, count-append xs ys)

  pub get_or-le-count :
      (xs : List A) (i : ℕ) (d : A)
      → i < length xs
      → (if p (get_or xs i d) then 1 else 0) ≤ count xs
  get_or-le-count [] i d h = absurd (omega arith)
  get_or-le-count (x ∷ xs) zero d h = omega arith
  get_or-le-count (x ∷ xs) (suc i) d h = omega (arith, get_or-le-count xs i d (omega arith))

pub get_or_default {ℓ} :
    {A : Type ℓ} (xs : List A) (i : ℕ) (d e : A) → i < length xs → get_or xs i d ≡ get_or xs i e
get_or_default [] i d e h = absurd (omega arith)
get_or_default (x ∷ xs) zero d e h = refl
get_or_default (x ∷ xs) (suc i) d e h = get_or_default xs i d e (omega arith)

-- An array entry taken out: the last one takes its place.
abbrev pub swap_remove {ℓ} : {A : Type ℓ} → ℕ → List A → List A
swap_remove i [] = []
swap_remove i (x ∷ xs) =
    let n = length xs in
    take n (if not (i == n) && ltb 0 n then set (x ∷ xs) i (get_or (x ∷ xs) n x) else x ∷ xs)

module _ {ℓ} {A : Type ℓ} (p : A → Bool) where
  pub count-swap_remove :
      (x : A) (xs : List A) (i : ℕ)
      → i ≤ length xs
      → count p (swap_remove i (x ∷ xs)) + (if p (get_or (x ∷ xs) i x) then 1 else 0)
        ≡ count p (x ∷ xs)
  count-swap_remove x xs i hi = elim (Bool-cases (i == length xs)) [
    | inl e ↦ rw (e, (==_iff i (length xs)).0 e) (count-take p (x ∷ xs) (length xs) x refl)
    | inr e ↦
        let below : i < length xs = ground arith in
        rw (e, lt→ltb 0 (length xs) (omega (arith, below)))
          (count-moved p (x ∷ xs) i (length xs) x refl below)
  ]

  -- The same, whatever stands for an entry out of bounds.
  pub count-swap_remove_at :
      (xs : List A) (i : ℕ) (d : A)
      → i < length xs
      → count p (swap_remove i xs) + (if p (get_or xs i d) then 1 else 0) ≡ count p xs
  count-swap_remove_at [] i d h = absurd (omega arith)
  count-swap_remove_at (x ∷ xs) i d h =
      ap (λ y. count p (swap_remove i (x ∷ xs)) + (if p y then 1 else 0))
        (get_or_default (x ∷ xs) i d x h)
      ∙ count-swap_remove x xs i (omega arith)
