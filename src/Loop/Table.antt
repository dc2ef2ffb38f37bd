-- ===== src/Loop/Table.antt =====
-- What `loop_remove_fd` of src/loop.c leaves in the table.
use moonlight_embedded_for_d.Base.{
  ℕ, suc, ◌+◌, ◌<◌, ◌-◌, ℤ, ◌==ℤ◌, ◌≡◌, Bool, true, false, ◌||◌, List, [], ◌∷◌, get_or, length,
  count, count-swap_remove, arith, if◌then◌else◌, false_ne_true, Bool-cases, inl, inr,
}
use moonlight_embedded_for_d.Loop.{Watch, index_of, loop_remove_fd}

module _ {H : Type 0} where
  abbrev pub has_fd : ℤ → List (Watch H) → Bool
  has_fd fd [] = false
  has_fd fd (w ∷ fds) = w.fd ==ℤ fd || has_fd fd fds

  -- The index that the loop finds: within the table, and at an entry of that descriptor.
  index_of-has_fd :
      (i : ℕ) (fd : ℤ) (fds : List (Watch H)) (n : ℕ) (d : Watch H)
      → has_fd fd fds ≡ true
      → (j : ℕ) × (index_of i fd fds n ≡ i + j)
        × (j < length fds)
        × (((get_or fds j d).fd ==ℤ fd) ≡ true)
  unfolding index_of
  index_of-has_fd i fd [] n d h = absurd (false_ne_true h)
  index_of-has_fd i fd (w ∷ fds) n d h = elim (Bool-cases (w.fd ==ℤ fd)) [
    | inl e ↦ rw e (0, omega arith, omega arith, e)
    | inr e ↦ rw e (
        let (j, a, b, c) = index_of-has_fd (suc i) fd fds n d (ground arith) in
        (suc j, omega (arith, a), omega (arith, b), c))
  ]

  -- Removing a descriptor that is watched takes out exactly one entry of that descriptor: every
  -- other entry is there as often as before, whatever property one counts by, though the last
  -- entry may have changed its place.
  pub loop_remove_fd-count :
      (fd : ℤ) (fds : List (Watch H))
      → has_fd fd fds ≡ true
      → (gone : Watch H) × ((gone.fd ==ℤ fd) ≡ true)
        × ((p : Watch H → Bool)
            → count p (loop_remove_fd fd fds) + (if p gone then 1 else 0) ≡ count p fds)
  unfolding loop_remove_fd
  loop_remove_fd-count fd [] h = absurd (false_ne_true h)
  loop_remove_fd-count fd (w ∷ fds) h =
      let (j, a, b, c) = index_of-has_fd 0 fd (w ∷ fds) (length (w ∷ fds) - 1) w h in
      let at_j : index_of 0 fd (w ∷ fds) (length (w ∷ fds) - 1) ≡ j = omega (arith, a) in
      (
        get_or (w ∷ fds) j w,
        c,
        λ p. rw (at_j, loop_remove_fd) (count-swap_remove p w fds j (omega (arith, b))),
      )
