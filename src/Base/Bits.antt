-- ===== src/Base/Bits.antt =====
-- The bits of a mask: `m & (1 << i)`, `m |= 1 << i` and `m &= ~(1 << i)`.
use Prim.Native.Nat.{ℕ, zero, suc, ◌+◌, ◌-◌, ◌*◌, ◌/◌, ◌%◌, ◌≤◌}
use mathlib.Core.Path.{◌≡◌, refl, sym, ap, ◌∙◌}
use mathlib.Core.Bool.{Bool, true, false}
use native.Mathlib.Omega.{arith}
use moonlight_embedded_for_d.Base.Tests.{ltb, ◌==◌, if◌then◌else◌}

unfoldable pub test_bit : ℕ → ℕ → Bool
test_bit m zero = m % 2 == 1
test_bit m (suc i) = test_bit (m / 2) i

unfoldable pub set_bit : ℕ → ℕ → ℕ
set_bit m zero = if m % 2 == 1 then m else m + 1
set_bit m (suc i) = 2 * set_bit (m / 2) i + m % 2

unfoldable pub clear_bit : ℕ → ℕ → ℕ
clear_bit m zero = if m % 2 == 1 then m - 1 else m
clear_bit m (suc i) = 2 * clear_bit (m / 2) i + m % 2

half-set_bit : (m : ℕ) → set_bit m 0 / 2 ≡ m / 2
unfolding set_bit
half-set_bit m = ground arith

half-clear_bit : (m : ℕ) → clear_bit m 0 / 2 ≡ m / 2
unfolding clear_bit
half-clear_bit m = ground arith

half-step : (n m : ℕ) → (2 * n + m % 2) / 2 ≡ n
half-step n m = omega arith

odd-step : (n m : ℕ) → (2 * n + m % 2) % 2 ≡ m % 2
odd-step n m = omega arith

same-suc : (i j : ℕ) → (suc i == suc j) ≡ (i == j)
same-suc i j = ground arith

pub test_bit-set_bit :
    (m i j : ℕ) → test_bit (set_bit m i) j ≡ (if i == j then true else test_bit m j)
unfolding test_bit set_bit
test_bit-set_bit m zero zero = ground arith
test_bit-set_bit m zero (suc j) = ap (λ n. test_bit n j) (half-set_bit m) ∙ rw zero_suc refl
  where
    zero_suc : (0 == suc j) ≡ false
    zero_suc = ground arith
test_bit-set_bit m (suc i) zero = ground (arith, odd-step (set_bit (m / 2) i) m)
test_bit-set_bit m (suc i) (suc j) =
    ap (λ n. test_bit n j) (half-step (set_bit (m / 2) i) m)
    ∙ test_bit-set_bit (m / 2) i j
    ∙ ap (λ b. if b then true else test_bit (m / 2) j) (sym (same-suc i j))

pub test_bit-clear_bit :
    (m i j : ℕ) → test_bit (clear_bit m i) j ≡ (if i == j then false else test_bit m j)
unfolding test_bit clear_bit
test_bit-clear_bit m zero zero = ground arith
test_bit-clear_bit m zero (suc j) = ap (λ n. test_bit n j) (half-clear_bit m) ∙ rw zero_suc refl
  where
    zero_suc : (0 == suc j) ≡ false
    zero_suc = ground arith
test_bit-clear_bit m (suc i) zero = ground (arith, odd-step (clear_bit (m / 2) i) m)
test_bit-clear_bit m (suc i) (suc j) =
    ap (λ n. test_bit n j) (half-step (clear_bit (m / 2) i) m)
    ∙ test_bit-clear_bit (m / 2) i j
    ∙ ap (λ b. if b then false else test_bit (m / 2) j) (sym (same-suc i j))

-- How many of the first `n` bits are set.
unfoldable pub pop_count : ℕ → ℕ → ℕ
pop_count zero m = 0
pop_count (suc n) m = pop_count n m + (if test_bit m n then 1 else 0)

pub pop_count-le : (n m : ℕ) → pop_count n m ≤ n
unfolding pop_count
pop_count-le zero m = omega arith
pop_count-le (suc n) m = ground (arith, pop_count-le n m)

pub pop_count-set_bit :
    (n m i : ℕ)
    → test_bit m i ≡ false
    → pop_count n (set_bit m i) ≡ pop_count n m + (if ltb i n then 1 else 0)
unfolding pop_count
pop_count-set_bit zero m i h = ground arith
pop_count-set_bit (suc n) m i h = ground (arith, pop_count-set_bit n m i h, test_bit-set_bit m i n)

pub pop_count-clear_bit :
    (n m i : ℕ)
    → test_bit m i ≡ true
    → pop_count n (clear_bit m i) + (if ltb i n then 1 else 0) ≡ pop_count n m
unfolding pop_count
pop_count-clear_bit zero m i h = ground arith
pop_count-clear_bit (suc n) m i h =
    ground (arith, pop_count-clear_bit n m i h, test_bit-clear_bit m i n)
