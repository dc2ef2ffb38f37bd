-- ===== src/Loop.antt =====
-- The table of descriptors of src/loop.c. `fds` and `fdHandlers` are one list of numFds entries.
pub mod Table
mod Tests
use moonlight_embedded_for_d.Base.{
  ℕ, zero, suc, ◌-◌, ◌==◌, ltb, ℤ, ◌==ℤ◌, Bool, true, false, not, ◌&&◌, ◌||◌, List, [], ◌∷◌, ◌++◌,
  get_or, set, take, length, swap_remove, if◌then◌else◌,
}

-- One `struct pollfd` with its handler, of type `H`.
pub record Watch (H : Type 0) : Type 0 where
  pub fd : ℤ
  pub events : ℕ
  pub handler : H

module _ {H : Type 0} where
  unfoldable pub loop_add_fd : ℤ → H → ℕ → List (Watch H) → List (Watch H)
  loop_add_fd fd handler events fds =
      fds ++ (record { fd = fd; events = events; handler = handler } ∷ [])

  -- The loop of `loop_remove_fd`: the first index from `i` on that has the descriptor, or `n`.
  unfoldable pub index_of : ℕ → ℤ → List (Watch H) → ℕ → ℕ
  index_of i fd [] n = n
  index_of i fd (w ∷ fds) n =
      let rest = index_of (suc i) fd fds n in if w.fd ==ℤ fd then i else rest

  -- The last entry takes the place of the one that goes. (On an empty table the count would fall
  -- below 0.)
  unfoldable pub loop_remove_fd : ℤ → List (Watch H) → List (Watch H)
  unfolding index_of
  loop_remove_fd fd fds = swap_remove (index_of 0 fd fds (length fds - 1)) fds
