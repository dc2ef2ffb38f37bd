-- ===== src/Gamestream/Client/Pairing/Safety.antt =====
-- What is known of the host when `gs_pair` of libgamestream/client.c succeeds.
use moonlight_embedded_for_d.Base.{ℤ, ◌≡◌, refl, sym, ap, ◌∙◌, true, false, Text, drop, arith}
use moonlight_embedded_for_d.Gamestream.Errors.{is_ok, gs_ok}
use moonlight_embedded_for_d.Gamestream.Client.{
  Session, Host, Outcome, done, exit, modify_server, code_of,
}
use moonlight_embedded_for_d.Gamestream.Client.Steps.{ExitsInError, >>-exit, >>-done}
use moonlight_embedded_for_d.Gamestream.Client.Pairing.Gathered.{exchanges-Evidence}
use moonlight_embedded_for_d.Gamestream.Client.Pairing.Evidence.{Evidence}
use moonlight_embedded_for_d.Gamestream.Client.Pairing.{exchanges, pair_body, pair_cleanup, gs_pair}
use moonlight_embedded_for_d.Gamestream.Client.Pairing.Tame.{exchanges-IsTame}

module _ (host : Host) where
  cleanup_fails : (c : ℤ) (s : Session) → is_ok c ≡ false → is_ok (pair_cleanup host c s).0 ≡ false
  unfolding pair_cleanup
  cleanup_fails c s h = rw h (ground arith)

  gs_pair-eq :
      (pin : Text) (s : Session) {r : Outcome (Unit {0}) × Session}
      → pair_body host pin s ≡ r
      → gs_pair host pin s ≡ pair_cleanup host (code_of r.0) r.1
  unfolding gs_pair
  gs_pair-eq pin s e =
      ap (λ (p : Outcome (Unit {0}) × Session). pair_cleanup host (code_of p.0) p.1) e

  pub pair_exit :
      (pin : Text) (s : Session) (c : ℤ) (t : Session)
      → exchanges host pin s ≡ (exit c, t)
      → gs_pair host pin s ≡ pair_cleanup host c t
  unfolding pair_body
  pair_exit pin s c t e = gs_pair-eq pin s (>>-exit (exchanges host pin) _ s e)

  pub pair_done :
      (pin : Text) (s t : Session)
      → exchanges host pin s ≡ (done tt, t)
      → gs_pair host pin s ≡ (gs_ok, record t { server = record (t.server) { paired = true } })
  unfolding pair_body pair_cleanup modify_server
  pair_done pin s t e = gs_pair-eq pin s (>>-done (exchanges host pin) _ s e)

  pair_exits :
      (pin : Text) (s : Session) (c : ℤ) (t : Session)
      → exchanges host pin s ≡ (exit c, t)
      → is_ok c ≡ false
      → ¬ ((gs_pair host pin s).0 ≡ gs_ok)
  pair_exits pin s c t e h ok = cc (sym (ap is_ok ok) ∙ fails)
    where
      result : gs_pair host pin s ≡ pair_cleanup host c t
      result = pair_exit pin s c t e

      fails : is_ok (gs_pair host pin s).0 ≡ false
      fails = rw result (cleanup_fails c t h)

  pair_cases :
      (pin : Text) (s : Session) (r : Outcome (Unit {0}) × Session)
      → exchanges host pin s ≡ r
      → ExitsInError r.0
      → (gs_pair host pin s).0 ≡ gs_ok
      → (exchanges host pin s ≡ (done tt, r.1))
        × ((gs_pair host pin s).1.server.paired ≡ true)
        × ((gs_pair host pin s).1.requests ≡ r.1.requests)
  pair_cases pin s (done u, t) e h ok =
      let result = pair_done pin s t e in
      (
        e,
        ap (λ (p : ℤ × Session). p.1.server.paired) result,
        ap (λ (p : ℤ × Session). p.1.requests) result,
      )
  pair_cases pin s (exit c, t) e h ok = absurd (pair_exits pin s c t e h ok)

  -- When `gs_pair` returns GS_OK, the host was not yet paired and is now. Of the addresses that were
  -- asked, the last but three had the host's certificate in its answer, the last but two carried
  -- the client's challenge, encrypted with the key of this call's salt and PIN and cut where the
  -- address has 16383 characters, and the last but one had the host's pairing secret in its answer.
  -- The secret is signed by the key of that certificate, and the answer to the challenge, decrypted
  -- with the same key of salt and PIN, begins with the hash of the challenge, the certificate's
  -- signature and the secret. Salt and challenge are random bytes drawn in this call.
  pub gs_pair_authenticates :
      (pin : Text) (s : Session)
      → (gs_pair host pin s).0 ≡ gs_ok
      → let asked = (gs_pair host pin s).1.requests in
        (s.server.paired ≡ false)
        × ((gs_pair host pin s).1.server.paired ≡ true)
        × Evidence host pin s (drop 1 asked) (drop 2 asked) (drop 3 asked)
  gs_pair_authenticates pin s ok =
      let (e, now_paired, asked) =
        pair_cases pin s _ refl ((exchanges-IsTame host pin).apply s).1 ok in
      let (fresh, evidence) = exchanges-Evidence host pin s e in
      (ground arith, now_paired, rw asked evidence)
