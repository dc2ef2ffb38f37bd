-- ===== src/Gamestream/Client/Pairing/Gathered.antt =====
-- The evidence that the exchanges of `gs_pair` in libgamestream/client.c have gathered.
use moonlight_embedded_for_d.Base.{
  ℕ, suc, ◌∷◌, ◌++◌, snprintf, chars, ℤ, ◌≡◌, refl, sym, ap, ◌∙◌, true, not, List, Text,
  eq_of_str_eq, c_string, take, drop, Option, none, some,
}
use moonlight_embedded_for_d.Gamestream.Errors.{gs_failed}
use moonlight_embedded_for_d.Gamestream.Http.{HttpData}
use moonlight_embedded_for_d.Gamestream.Hex.{bytes_to_hex, hex_to_bytes}
use moonlight_embedded_for_d.Gamestream.Client.{
  Server, Session, Host, Outcome, done, M, leave_saying,
}
use moonlight_embedded_for_d.Gamestream.Client.Steps.{
  IsTame, >>=-eq-done, >>-eq-done, require_saying-eq-done, done-injective, server_of-eq,
}
use moonlight_embedded_for_d.Gamestream.Client.Requests.{draw_bytes}
use moonlight_embedded_for_d.Gamestream.Client.Pairing.Exchange.{
  pair_query, derive_key, hash_length, verify_signature, expected_response, server_cert,
  client_challenge, server_challenge_response, client_pairing_secret, check_pairing_secret,
  check_answer,
}
use moonlight_embedded_for_d.Gamestream.Client.Requests.Answers.{text_in, is_document}
use moonlight_embedded_for_d.Gamestream.Client.Pairing.Heard.{IsHeard-IsSized}
use moonlight_embedded_for_d.Gamestream.Client.Pairing.Asked.{bytes_in, server_cert-done}
use moonlight_embedded_for_d.Gamestream.Client.Pairing.Answered.{
  client_challenge-done, server_challenge_response-done, client_pairing_secret-done,
}
use moonlight_embedded_for_d.Gamestream.Client.Pairing.Evidence.{
  IsAnswered, sent_cert, sent_secret, sent_answer, Evidence,
}
use moonlight_embedded_for_d.Gamestream.Client.Pairing.{exchanges}
use moonlight_embedded_for_d.Gamestream.Client.Requests.Tame.{draw_bytes-IsTame}
use moonlight_embedded_for_d.Gamestream.Client.Pairing.Tame.{
  server_cert-IsTame, client_challenge-IsTame, server_challenge_response-IsTame,
}

kept :
    {A : Type 0} (m : M A) (s : Session) {o : Outcome A} {t : Session}
    → IsTame m
    → m s ≡ (o, t)
    → t.server ≡ s.server
kept {A} m s h e = ap (λ (p : Outcome A × Session). p.1.server) (sym e) ∙ (h.apply s).0

module _ (host : Host) where
  done-draw :
      (n : ℕ) (s : Session) {bytes : List ℕ} {t : Session}
      → draw_bytes host n s ≡ (done bytes, t)
      → (bytes ≡ host.random s.draws n) × (t.requests ≡ s.requests) × (t.draws ≡ suc s.draws)
  unfolding draw_bytes
  done-draw n s e =
      let (value, at) = done-injective e in
      (sym value, sym (ap (λ (x : Session). x.requests) at), sym (ap (λ (x : Session). x.draws) at))

  done-check_answer :
      (version : ℤ) (challenge response secret : List ℕ) (o : Option (List ℕ)) (s : Session)
      {t : Session}
      → check_answer host version challenge response secret o s ≡ (done tt, t)
      → (signature : List ℕ) × (o ≡ some signature)
        × (expected_response host version challenge signature secret
            ≡ take (hash_length host version) response)
        × (t ≡ s)
  unfolding check_answer leave_saying
  done-check_answer version challenge response secret none s e = cc
  done-check_answer version challenge response secret (some signature) s e =
      let (same, at) = require_saying-eq-done _ _ gs_failed e in
      (signature, refl, eq_of_str_eq _ _ same, at)

  done-check :
      (challenge response secret plaincert : List ℕ) (s : Session) {t : Session}
      → check_pairing_secret host challenge response secret plaincert s ≡ (done tt, t)
      → (verify_signature host (take 16 secret) (drop 16 secret) (c_string plaincert) ≡ true)
        × ((signature : List ℕ) × (host.pem_signature (c_string plaincert) ≡ some signature)
            × (expected_response host s.server.server_major_version challenge signature secret
                ≡ take (hash_length host s.server.server_major_version) response)
            × (t ≡ s))
  unfolding check_pairing_secret
  done-check challenge response secret plaincert s e =
      let (s1, e1, e2) = >>-eq-done _ _ s (server_of-eq _ s e) in
      let (signed, at1) = require_saying-eq-done _ _ gs_failed e1 in
      let (signature, has, same, at2) = done-check_answer _ challenge response secret _ s1 e2 in
      (signed, (signature, has, same, at2 ∙ at1))

  -- The evidence, from what the exchanges have heard and what the client has checked.
  gathered :
      (pin : Text) (s : Session) (version : ℤ) (prefix : Text)
      (salt challenge cert response secret signature : List ℕ)
      (secrets challenges certs : List Text)
      → s.server.server_major_version ≡ version
      → salt ≡ host.random s.draws 16
      → challenge ≡ host.random (suc (suc s.draws)) 16
      → IsAnswered host certs × IsAnswered host challenges × IsAnswered host secrets
      → cert ≡ sent_cert host certs
      → secret ≡ sent_secret host secrets
      → challenges
        ≡ snprintf 16384 (
            prefix
            ++ pair_query (chars "clientchallenge") (
                bytes_to_hex (
                  host.aes_encrypt
                    (derive_key host s.server.server_major_version salt pin)
                    challenge)))
          ∷ certs
      → response
        ≡ host.aes_decrypt
            (derive_key host s.server.server_major_version salt pin)
            (sent_answer host challenges)
      → verify_signature host (take 16 secret) (drop 16 secret) (c_string cert) ≡ true
      → host.pem_signature (c_string cert) ≡ some signature
      → expected_response host version challenge signature secret
        ≡ take (hash_length host version) response
      → Evidence host pin s secrets challenges certs
  gathered pin s version prefix salt challenge cert response secret signature secrets challenges
        certs ev es ec (a, b, c) et ep asked er signed has same =
      record {
        cert_answered = a;
        challenge_answered = b;
        secret_answered = c;
        prefix = prefix;
        challenge_asked = rw (← es, ← ec) asked;
        signature = signature;
        has_signature = rw (← et) has;
        signed = rw (← et, ← ep) signed;
        same_pin = rw (← es, ← ec, ← ep, ← er, ev) same;
      }

  -- All exchanges, one after the other.
  chained :
      (pin : Text) (s s1 s2 s3 s4 s5 s6 s7 s8 t : Session) (salt challenge secret : List ℕ)
      (certs response proof : HttpData × List ℕ)
      → s1 ≡ s
      → draw_bytes host 16 s1 ≡ (done salt, s2)
      → server_cert host salt s2 ≡ (done certs, s3)
      → draw_bytes host 16 s3 ≡ (done challenge, s4)
      → let key = derive_key host s.server.server_major_version salt pin in
        client_challenge host key challenge certs.0 s4 ≡ (done response, s5)
        → draw_bytes host 16 s5 ≡ (done secret, s6)
        → server_challenge_response host key response.1 secret response.0 s6 ≡ (done proof, s7)
        → check_pairing_secret host challenge response.1 proof.1 certs.1 s7 ≡ (done tt, s8)
        → client_pairing_secret host secret proof.0 s8 ≡ (done tt, t)
        → Evidence host pin s (drop 1 t.requests) (drop 2 t.requests) (drop 3 t.requests)
  unfolding sent_cert sent_secret sent_answer
  chained pin s s1 s2 s3 s4 s5 s6 s7 s8 t salt challenge secret certs response proof at1 e2 e3 e4 e5
        e6 e7 e8 f8 =
      let key : List ℕ = derive_key host s.server.server_major_version salt pin in
      let (is_salt, _, draws2) = done-draw 16 s1 e2 in
      let (heard3, document3, is_cert, draws3) = server_cert-done host salt s2 e3 in
      let (is_challenge, requests4, _) = done-draw 16 s3 e4 in
      let (asked5, document5, is_response) =
        client_challenge-done host _ challenge certs.0 s4 (IsHeard-IsSized host certs.0 s3 heard3)
          e5 in
      let url5 : Text = snprintf 16384 (
        asked5.prefix
        ++ pair_query (chars "clientchallenge") (bytes_to_hex (host.aes_encrypt key challenge))) in
      let (_, requests6, _) = done-draw 16 s5 e6 in
      let (heard7, (url7, requests7), document7, is_secret) =
        server_challenge_response-done host _ response.1 secret response.0 s6
          (IsHeard-IsSized host response.0 s5 asked5.heard) e7 in
      let (signed, (signature, has, same, at8)) =
        done-check challenge response.1 proof.1 certs.1 s7 e8 in
      let (url9, requests9) =
        client_pairing_secret-done host secret proof.0 s8 (IsHeard-IsSized host proof.0 s7 heard7)
          f8 in
      let server_same : s7.server ≡ s.server =
        kept _ s6 (server_challenge_response-IsTame host _ response.1 secret response.0) e7
        ∙ kept _ s5 (draw_bytes-IsTame host 16) e6
        ∙ kept _ s4 (client_challenge-IsTame host _ challenge certs.0) e5
        ∙ kept _ s3 (draw_bytes-IsTame host 16) e4
        ∙ kept _ s2 (server_cert-IsTame host salt) e3
        ∙ kept _ s1 (draw_bytes-IsTame host 16) e2
        ∙ ap (λ (x : Session). x.server) at1 in
      let draws : s3.draws ≡ suc (suc s.draws) =
        draws3 ∙ ap suc (draws2 ∙ ap (λ (x : Session). suc x.draws) at1) in
      let last : t.requests ≡ url9 ∷ s7.requests =
        requests9 ∙ ap (λ (x : Session). url9 ∷ x.requests) at8 in
      let before : t.requests ≡ url9 ∷ url7 ∷ s5.requests =
        last ∙ ap (λ rs. url9 ∷ rs) (requests7 ∙ ap (λ rs. url7 ∷ rs) requests6) in
      let first : drop 3 t.requests ≡ s3.requests =
        ap (drop 3) before ∙ ap (drop 1) asked5.requests ∙ requests4 in
      rw (ap (drop 1) last, ap (drop 2) before, first)
        (gathered pin s _ asked5.prefix salt challenge certs.1 response.1 proof.1 signature
          s7.requests s5.requests s3.requests
          (ap (λ (v : Server). v.server_major_version) (sym server_same))
          (is_salt ∙ ap (λ (x : Session). host.random x.draws 16) at1)
          (is_challenge ∙ ap (λ n. host.random n 16) draws)
          (
            (heard3.arrived, sym (ap (is_document host) heard3.is_answer) ∙ document3),
            (asked5.heard.arrived, sym (ap (is_document host) asked5.heard.is_answer) ∙ document5),
            (heard7.arrived, sym (ap (is_document host) heard7.is_answer) ∙ document7),
          )
          (is_cert ∙ ap (λ m. bytes_in host (text_in host m (chars "plaincert"))) heard3.is_answer)
          (is_secret
            ∙ ap (λ m. bytes_in host (text_in host m (chars "pairingsecret"))) heard7.is_answer)
          (asked5.requests ∙ ap (λ rs. url5 ∷ rs) requests4)
          (is_response
            ∙ ap
                (λ m.
                  host.aes_decrypt key (
                    hex_to_bytes (text_in host m (chars "challengeresponse")) (take 64 host.stale)))
                asked5.heard.is_answer)
          signed has same)

  -- Success of all exchanges, from a session `s`.
  pub exchanges-Evidence :
      (pin : Text) (s : Session) {t : Session}
      → exchanges host pin s ≡ (done tt, t)
      → (not s.server.paired ≡ true)
        × Evidence host pin s (drop 1 t.requests) (drop 2 t.requests) (drop 3 t.requests)
  unfolding exchanges
  exchanges-Evidence pin s {t} e =
      let (s1, e1, f1) = >>-eq-done _ _ s (server_of-eq _ s e) in
      let (fresh, at1) = require_saying-eq-done _ _ _ e1 in
      let (salt, s2, e2, f2) = >>=-eq-done _ _ s1 f1 in
      let (certs, s3, e3, f3) = >>=-eq-done _ _ s2 f2 in
      let (challenge, s4, e4, f4) = >>=-eq-done _ _ s3 f3 in
      let (response, s5, e5, f5) = >>=-eq-done _ _ s4 f4 in
      let (secret, s6, e6, f6) = >>=-eq-done _ _ s5 f5 in
      let (proof, s7, e7, f7) = >>=-eq-done _ _ s6 f6 in
      let (s8, e8, f8) = >>-eq-done _ _ s7 f7 in
      (
        fresh,
        chained pin s s1 s2 s3 s4 s5 s6 s7 s8 t salt challenge secret certs response proof at1 e2 e3
            e4 e5 e6 e7 e8 f8,
      )
