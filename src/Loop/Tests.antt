-- ===== src/Loop/Tests.antt =====
-- src/loop.c on a table of three.
use moonlight_embedded_for_d.Base.{
  ℕ, ◌+◌, pos, ◌==ℤ◌, ◌≡◌, refl, Bool, true, List, [], if◌then◌else◌, count,
}
use moonlight_embedded_for_d.Loop.{Watch, loop_add_fd, loop_remove_fd}
use moonlight_embedded_for_d.Loop.Table.{has_fd, loop_remove_fd-count}

abbrev three : List (Watch ℕ)
unfolding loop_add_fd
three = loop_add_fd (pos 9) 2 1 (loop_add_fd (pos 7) 1 1 (loop_add_fd (pos 4) 0 25 []))

three-has_fd : has_fd (pos 4) three ≡ true
unfolding loop_add_fd three
three-has_fd = refl

loop_remove_fd-count_example :
    (gone : Watch ℕ) × ((gone.fd ==ℤ pos 4) ≡ true)
    × ((p : Watch ℕ → Bool)
        → count p (loop_remove_fd (pos 4) three) + (if p gone then 1 else 0) ≡ count p three)
loop_remove_fd-count_example = loop_remove_fd-count (pos 4) three three-has_fd
