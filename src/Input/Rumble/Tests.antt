-- ===== src/Input/Rumble/Tests.antt =====
-- Rumble motors on concrete requests.
use moonlight_embedded_for_d.Base.{pos, negsuc, ◌≡◌, refl, true, false, none, some, [], ◌∷◌}
use moonlight_embedded_for_d.Input.Rumble.{
  Motor, erase, upload, play, Request, rumble_all, held_effects, left_behind,
}
use moonlight_embedded_for_d.Input.Rumble.Single.{IsSingle, AllSingle, rumble_all-AllSingle}

abbrev quiet : Motor
quiet = record { controller_id = pos 0; haptic_effect_id = negsuc 0; calls = [] }

abbrev strong : Request
strong = record { id = 0; low = 9; high = 5; erased = true; answer = some 3 }

abbrev stop : Request
stop = record { id = 0; low = 0; high = 0; erased = true; answer = none }

erased_after :
    rumble_all (strong ∷ stop ∷ []) (quiet ∷ [])
    ≡ record quiet { calls = erase (pos 3) true ∷ play (pos 3) ∷ upload (pos 3) 9 5 ∷ [] } ∷ []
unfolding rumble_all
erased_after = refl

abbrev quiet-IsSingle : IsSingle quiet
unfolding held_effects left_behind
quiet-IsSingle = record { holds = refl }

-- A stop whose erasure the kernel refuses.
abbrev refused : Request
refused = record stop { erased = false }

left_after :
    held_effects (upload (pos 4) 9 5 ∷ erase (pos 3) false ∷ play (pos 3) ∷ upload (pos 3) 9 5 ∷ [])
    ≡ pos 4 ∷ pos 3 ∷ []
unfolding held_effects
left_after = refl

rumble_all-AllSingle_example : AllSingle (rumble_all (strong ∷ refused ∷ strong ∷ []) (quiet ∷ []))
rumble_all-AllSingle_example =
    rumble_all-AllSingle (strong ∷ refused ∷ strong ∷ []) (quiet ∷ []) (quiet-IsSingle, tt)
