-- ===== src/Input/Players/Numbers.antt =====
-- Player numbers stay apart: what holds in every reachable state of src/input/evdev.c.
use moonlight_embedded_for_d.Base.{
  ℕ, zero, suc, ◌+◌, ◌<◌, ◌≤◌, ℤ, pos, negsuc, ◌==ℤ◌, ltb_ℤ, leb_ℤ, ◌≡◌, ◌≢◌, refl, sym, ap, ◌∙◌,
  Bool, true, false, List, [], ◌∷◌, none, some, get_or, set, length, test_bit, set_bit,
  test_bit-set_bit, test_bit-clear_bit, pop_count, pop_count-set_bit, pop_count-clear_bit, count,
  count-set, count-append, swap_remove, count-swap_remove_at, get_or-le-count, arith, if◌then◌else◌,
  Option-cases, inl, inr, by_test, ==_iff,
}
use moonlight_embedded_for_d.Input.Players.{
  Players, free_id, assign_id, plug, report, clear_id, unplug, no_players, players, Step, plugs,
  reports, unplugs, Reach, start, next,
}

-- How many devices have the number `i`.
abbrev pub having : ℕ → List ℤ → ℕ
having i ids = count (λ id. id ==ℤ pos i) ids

-- Every number below 16 is taken by as many devices as its bit says, one or none, and there are as
-- many bits as devices with a number.
pub record IsNumbered (p : Players) : Type 0 where
  pub once : (i : ℕ) → i < 16 → having i p.ids ≡ (if test_bit p.assigned i then 1 else 0)
  pub total : pop_count 16 p.assigned ≡ players p.ids
  pub small : count (λ id. leb_ℤ (pos 16) id) p.ids ≡ 0

free_id-some :
    (n i mask j : ℕ) → free_id n i mask ≡ some j → (test_bit mask j ≡ false) × (j < i + n)
unfolding free_id
free_id-some zero i mask j h = absurd cc
free_id-some (suc n) i mask j h = ground (arith, free_id-some n (suc i) mask j)

free_id-none : (n i mask k : ℕ) → free_id n i mask ≡ none → k < n → test_bit mask (i + k) ≡ true
unfolding free_id
free_id-none zero i mask k h hk = absurd (omega arith)
free_id-none (suc n) i mask zero h hk = ap (test_bit mask) (omega arith) ∙ here
  where
    here : test_bit mask i ≡ true
    here = ground (arith, h)
free_id-none (suc n) i mask (suc k) h hk =
    ap (test_bit mask) (omega arith) ∙ free_id-none n (suc i) mask k rest (omega arith)
  where
    rest : free_id n (suc i) mask ≡ none
    rest = ground (arith, h)

full : (n mask : ℕ) → ((k : ℕ) → k < n → test_bit mask k ≡ true) → pop_count n mask ≡ n
unfolding pop_count
full zero mask h = refl
full (suc n) mask h =
    rw (h n (omega arith)) (omega (arith, full n mask (λ k hk. h k (omega arith))))

-- While fewer than sixteen have one, there is a number left.
room : (mask : ℕ) → pop_count 16 mask < 16 → (i : ℕ) × (free_id 16 0 mask ≡ some i)
room mask h = elim (Option-cases (free_id 16 0 mask)) [
  | inr (i, e) ↦ (i, e)
  | inl e ↦ absurd (
      omega (
        arith,
        full 16 mask (λ k hk. ap (test_bit mask) (omega arith) ∙ free_id-none 16 0 mask k e hk),
      ))
]

no_bit : (i : ℕ) → test_bit 0 i ≡ false
unfolding test_bit
no_bit zero = refl
no_bit (suc i) = no_bit i

start-IsNumbered : IsNumbered no_players
unfolding test_bit pop_count
start-IsNumbered = record { once = λ i hi. rw (no_bit i) refl; total = refl; small = refl }

plug-IsNumbered : (p : Players) → IsNumbered p → IsNumbered (plug p)
unfolding plug
plug-IsNumbered p h = record {
  once =
      λ i hi. omega (arith, count-append (λ id. id ==ℤ pos i) p.ids (negsuc 0 ∷ []), h.once i hi);
  total = omega (arith, count-append (λ id. leb_ℤ (pos 0) id) p.ids (negsuc 0 ∷ []), h.total);
  small = omega (arith, count-append (λ id. leb_ℤ (pos 16) id) p.ids (negsuc 0 ∷ []), h.small);
}

-- A device that had no number gets the free number `i`.
given-IsNumbered :
    (p : Players) (k i : ℕ)
    → k < length p.ids
    → ltb_ℤ (get_or p.ids k (negsuc 0)) (pos 0) ≡ true
    → test_bit p.assigned i ≡ false
    → i < 16
    → IsNumbered p
    → IsNumbered (record { assigned = set_bit p.assigned i; ids = set p.ids k (pos i) })
given-IsNumbered p k i hk none_yet clear hi h = record {
  once = λ j hj. ground (
    arith,
    count-set (λ id. id ==ℤ pos j) p.ids k (pos i) (negsuc 0) hk,
    h.once j hj,
    test_bit-set_bit p.assigned i j,
    clear,
  );
  total = ground (
    arith,
    count-set (λ id. leb_ℤ (pos 0) id) p.ids k (pos i) (negsuc 0) hk,
    h.total,
    pop_count-set_bit 16 p.assigned i clear,
  );
  small =
      ground (arith, count-set (λ id. leb_ℤ (pos 16) id) p.ids k (pos i) (negsuc 0) hk, h.small);
}

report-IsNumbered :
    (p : Players) (k : ℕ)
    → k < length p.ids
    → players p.ids < 16
    → IsNumbered p
    → IsNumbered (report k p)
unfolding report assign_id
report-IsNumbered p k hk few h =
    let (i, e) = room p.assigned (omega (arith, h.total)) in
    let (clear, hi) = free_id-some 16 0 p.assigned i e in
    by_test IsNumbered (ltb_ℤ (get_or p.ids k (negsuc 0)) (pos 0))
      (λ none_yet. rw e (given-IsNumbered p k i hk none_yet clear (omega (arith, hi)) h))
      (λ known. h)

-- A device with the number `j` goes.
freed-IsNumbered :
    (p : Players) (k : ℕ) (id : ℤ)
    → k < length p.ids
    → get_or p.ids k (negsuc 0) ≡ id
    → IsNumbered p
    → IsNumbered (record { assigned = clear_id id p.assigned; ids = swap_remove k p.ids })
unfolding clear_id
freed-IsNumbered p k (negsuc n) hk e h = record {
  once = λ i hi. ground (arith, gone (λ id. id ==ℤ pos i), h.once i hi);
  total = ground (arith, gone (λ id. leb_ℤ (pos 0) id), h.total);
  small = ground (arith, gone (λ id. leb_ℤ (pos 16) id), h.small);
}
  where
    gone :
        (q : ℤ → Bool)
        → count q (swap_remove k p.ids) + (if q (negsuc n) then 1 else 0) ≡ count q p.ids
    gone q =
        ap (λ id. count q (swap_remove k p.ids) + (if q id then 1 else 0)) (sym e)
        ∙ count-swap_remove_at q p.ids k (negsuc 0) hk
freed-IsNumbered p k (pos j) hk e h = record {
  once = λ i hi. ground (
    arith,
    gone (λ id. id ==ℤ pos i),
    h.once i hi,
    test_bit-clear_bit p.assigned j i,
    h.once j below,
  );
  total = ground (
    arith,
    gone (λ id. leb_ℤ (pos 0) id),
    h.total,
    pop_count-clear_bit 16 p.assigned j taken,
    below,
  );
  small = ground (arith, gone (λ id. leb_ℤ (pos 16) id), h.small);
}
  where
    gone :
        (q : ℤ → Bool)
        → count q (swap_remove k p.ids) + (if q (pos j) then 1 else 0) ≡ count q p.ids
    gone q =
        ap (λ id. count q (swap_remove k p.ids) + (if q id then 1 else 0)) (sym e)
        ∙ count-swap_remove_at q p.ids k (negsuc 0) hk

    below : j < 16
    below = ground (arith, gone (λ id. leb_ℤ (pos 16) id), h.small)

    taken : test_bit p.assigned j ≡ true
    taken = ground (arith, gone (λ id. id ==ℤ pos j), h.once j below)

unplug-IsNumbered :
    (p : Players) (k : ℕ) → k < length p.ids → IsNumbered p → IsNumbered (unplug k p)
unfolding unplug
unplug-IsNumbered p k hk h = freed-IsNumbered p k (get_or p.ids k (negsuc 0)) hk refl h

Step-IsNumbered : {p q : Players} → Step p q → IsNumbered p → IsNumbered q
Step-IsNumbered (plugs p) h = plug-IsNumbered p h
Step-IsNumbered (reports p k hk few) h = report-IsNumbered p k hk few h
Step-IsNumbered (unplugs p k hk) h = unplug-IsNumbered p k hk h

pub Reach-IsNumbered : {p : Players} → Reach p → IsNumbered p
Reach-IsNumbered start = start-IsNumbered
Reach-IsNumbered (next r st) = Step-IsNumbered st (Reach-IsNumbered r)

-- Two places with one value make it count twice.
count_two :
    (q : ℤ → Bool) (ids : List ℤ) (k l : ℕ) (d : ℤ)
    → k < l
    → l < length ids
    → q (get_or ids k d) ≡ true
    → q (get_or ids l d) ≡ true
    → 2 ≤ count q ids
count_two q [] k l d hkl hl a b = absurd (omega arith)
count_two q (x ∷ ids) zero zero d hkl hl a b = absurd (omega arith)
count_two q (x ∷ ids) zero (suc l) d hkl hl a b = rw a (omega (arith, one_more))
  where
    one_more : 1 ≤ count q ids
    one_more = ground (arith, get_or-le-count q ids l d (omega arith))
count_two q (x ∷ ids) (suc k) zero d hkl hl a b = absurd (omega arith)
count_two q (x ∷ ids) (suc k) (suc l) d hkl hl a b =
    omega (arith, count_two q ids k l d (omega arith) (omega arith) a b)

-- However gamepads come, report and go, sixteen of them with a number at most: no two devices have
-- the same player number, and the bit of each number in `assignedControllerIds`, of which the host
-- is told, is set if one device has it and clear if none has.
pub numbers_apart :
    {p : Players}
    → Reach p
    → ((k l i : ℕ)
        → k < l
        → l < length p.ids
        → i < 16
        → get_or p.ids k (negsuc 0) ≡ pos i
        → get_or p.ids l (negsuc 0) ≢ pos i)
      × ((i : ℕ) → i < 16 → having i p.ids ≡ (if test_bit p.assigned i then 1 else 0))
numbers_apart {p} r = (
  λ k l i hkl hl hi ek el. absurd (
      omega (
        arith,
        count_two (λ id. id ==ℤ pos i) p.ids k l (negsuc 0) hkl hl (is i ek) (is i el),
        single i hi,
      )),
  (Reach-IsNumbered r).once,
)
  where
    is : (i : ℕ) {id : ℤ} → id ≡ pos i → (id ==ℤ pos i) ≡ true
    is i e = rw e ((==_iff i i).1 refl)

    single : (i : ℕ) → i < 16 → having i p.ids ≤ 1
    single i hi = ground (arith, (Reach-IsNumbered r).once i hi)
