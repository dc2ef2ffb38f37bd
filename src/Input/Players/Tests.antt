-- ===== src/Input/Players/Tests.antt =====
-- Player numbers on a concrete run: two gamepads come and report, and the first goes.
use moonlight_embedded_for_d.Base.{
  ℕ, ◌<◌, pos, negsuc, ◌≡◌, ◌≢◌, refl, [], ◌∷◌, get_or, length, test_bit, set_bit, clear_bit, arith,
  if◌then◌else◌,
}
use moonlight_embedded_for_d.Input.Players.{
  Players, free_id, assign_id, plug, report, clear_id, unplug, no_players, plugs, reports, Reach,
  start, next,
}
use moonlight_embedded_for_d.Input.Players.Numbers.{having, numbers_apart}

abbrev two_players : Players
unfolding plug report assign_id free_id
two_players = report 1 (report 0 (plug (plug no_players)))

two_players-ids : two_players.ids ≡ pos 0 ∷ pos 1 ∷ []
unfolding two_players plug report assign_id free_id test_bit set_bit
two_players-ids = refl

two_players-Reach : Reach two_players
unfolding two_players plug report assign_id free_id test_bit set_bit
two_players-Reach =
    next (next (next (next start (plugs _)) (plugs _)) (reports _ 0 (omega arith) (omega arith)))
      (reports _ 1 (omega arith) (omega arith))

left_behind : (unplug 0 two_players).ids ≡ pos 1 ∷ []
unfolding two_players plug report assign_id free_id test_bit set_bit unplug clear_id clear_bit
left_behind = refl

numbers_apart_example :
    ((k l i : ℕ)
      → k < l
      → l < length two_players.ids
      → i < 16
      → get_or two_players.ids k (negsuc 0) ≡ pos i
      → get_or two_players.ids l (negsuc 0) ≢ pos i)
    × ((i : ℕ)
        → i < 16
        → having i two_players.ids ≡ (if test_bit two_players.assigned i then 1 else 0))
numbers_apart_example = numbers_apart two_players-Reach
