-- ===== src/Gamestream/Client/Pairing/Cleanup.antt =====
-- What `gs_pair` of libgamestream/client.c leaves behind when it fails.
use moonlight_embedded_for_d.Base.{
  ℤ, pos, ◌≡◌, ◌≢◌, refl, sym, ap, ◌∙◌, false, List, ◌∷◌, ◌++◌, Text, chars, snprintf, ◌==ℤ◌,
  Bool-cases, inl, inr,
}
use mathlib.Core.Bool.{false≢true}
use moonlight_embedded_for_d.Gamestream.Errors.{is_ok, gs_ok, gs_wrong_state}
use moonlight_embedded_for_d.Gamestream.Client.{
  Server, Session, Host, Outcome, done, exit, ◌>>=◌, server_of,
}
use moonlight_embedded_for_d.Gamestream.Client.Steps.{ExitsInError}
use moonlight_embedded_for_d.Gamestream.Client.Requests.{base_url}
use moonlight_embedded_for_d.Gamestream.Client.Pairing.{
  exchanges, blame_game, pair_cleanup, gs_unpair, gs_pair,
}
use moonlight_embedded_for_d.Gamestream.Client.Pairing.Tame.{exchanges-IsTame}
use moonlight_embedded_for_d.Gamestream.Client.Pairing.Safety.{pair_exit, pair_done}

-- The last request was the host's `unpair` command, over HTTP.
abbrev pub AsksUnpair : Host → Server → List Text → Type 0
AsksUnpair host v requests =
    (rest : Text) × (before : List Text) × (requests
      ≡ snprintf 4096
          (base_url host (chars "http") v.address v.http_port ++ (chars "unpair" ++ rest))
        ∷ before)

-- What a failed pairing leaves: the server's record as it was, the host told to unpair, and a code
-- that names the running game where there is one.
pub record IsUndone (host : Host) (v : Server) (r : ℤ × Session) : Type 0 where
  pub server_same : r.1.server ≡ v
  pub asks_unpair : AsksUnpair host v r.1.requests
  pub failed : is_ok r.0 ≡ false
  pub game_named : (v.current_game ==ℤ pos 0) ≡ false → r.0 ≡ gs_wrong_state

module _ (host : Host) where
  unpair-server : (s : Session) → (gs_unpair host s).1.server ≡ s.server
  unfolding gs_unpair ◌>>=◌ server_of
  unpair-server s = refl

  unpair-requests : (s : Session) → AsksUnpair host s.server (gs_unpair host s).1.requests
  unfolding gs_unpair ◌>>=◌ server_of
  unpair-requests s = (_, s.requests, refl)

  blame-IsUndone :
      (c : ℤ) (s : Session) (v : Server)
      → is_ok c ≡ false
      → s.server ≡ v
      → AsksUnpair host v s.requests
      → IsUndone host v (blame_game host c s)
  unfolding blame_game
  blame-IsUndone c s v h e asks = elim (Bool-cases (s.server.current_game ==ℤ pos 0)) [
    | inl none_runs ↦
        rw (none_runs, blame_game)
          (record {
            server_same = e;
            asks_unpair = asks;
            failed = h;
            game_named = λ g. absurd (
                false≢true
                  (sym g ∙ ap (λ (x : Server). x.current_game ==ℤ pos 0) (sym e) ∙ none_runs));
          })
    | inr runs ↦
        rw (runs, blame_game)
          (record { server_same = e; asks_unpair = asks; failed = refl; game_named = λ _. refl })
  ]

  cleanup-IsUndone :
      (c : ℤ) (t : Session) → is_ok c ≡ false → IsUndone host t.server (pair_cleanup host c t)
  unfolding pair_cleanup
  cleanup-IsUndone c t h =
      rw (h, pair_cleanup)
        (blame-IsUndone c (gs_unpair host t).1 t.server h (unpair-server t) (unpair-requests t))

  failure_cases :
      (pin : Text) (s : Session) (r : Outcome (Unit {0}) × Session)
      → exchanges host pin s ≡ r
      → (r.1.server ≡ s.server) × ExitsInError r.0
      → (gs_pair host pin s).0 ≢ gs_ok
      → IsUndone host s.server (gs_pair host pin s)
  failure_cases pin s (done u, t) e h failed =
      absurd (failed (ap (λ (p : ℤ × Session). p.0) (pair_done host pin s t e)))
  failure_cases pin s (exit c, t) e h failed =
      rw (pair_exit host pin s c t e, ← h.0) (cleanup-IsUndone c t h.1)

  -- When `gs_pair` returns anything but GS_OK, at whatever point it failed, the server's record is
  -- as it was before the call, the last request that went out was the host's `unpair` command, and
  -- the code is an error, GS_WRONG_STATE if the server's record names a running game.
  pub gs_pair-IsUndone :
      (pin : Text) (s : Session)
      → (gs_pair host pin s).0 ≢ gs_ok
      → IsUndone host s.server (gs_pair host pin s)
  gs_pair-IsUndone pin s failed =
      failure_cases pin s _ refl ((exchanges-IsTame host pin).apply s) failed
