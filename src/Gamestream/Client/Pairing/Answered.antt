-- ===== src/Gamestream/Client/Pairing/Answered.antt =====
-- What the later exchanges of `gs_pair` in libgamestream/client.c have asked and heard.
use mathlib.Core.Path.{subst}
use moonlight_embedded_for_d.Base.{
  ℕ, ◌≡◌, sym, ap, ◌∙◌, true, List, ◌∷◌, Text, chars, take, Option, none, some,
}
use moonlight_embedded_for_d.Gamestream.Errors.{gs_failed, gs_invalid}
use moonlight_embedded_for_d.Gamestream.Http.{HttpData}
use moonlight_embedded_for_d.Gamestream.Hex.{bytes_to_hex, hex_to_bytes}
use moonlight_embedded_for_d.Gamestream.Client.{Session, Host, done, pure, leave_saying}
use moonlight_embedded_for_d.Gamestream.Client.Steps.{
  >>=-eq-done, >>-eq-done, require-eq-done, require_saying-eq-done, done-injective, server_of-eq,
}
use moonlight_embedded_for_d.Gamestream.Client.Requests.Answers.{
  IsSized, answer, text_in, is_answered, is_document, search_or-done,
}
use moonlight_embedded_for_d.Gamestream.Client.Pairing.Heard.{IsHeard}
use moonlight_embedded_for_d.Gamestream.Client.Pairing.Asked.{
  IsAsked, bytes_in, pair_request-done, confirm_paired-keeps,
}
use moonlight_embedded_for_d.Gamestream.Client.Pairing.Exchange.{
  client_challenge, server_challenge_response, send_secret, client_pairing_secret,
}

module _ (host : Host) where
  IsAsked-later :
      (name value : Text) (m : HttpData) (s s' t : Session)
      → t.requests ≡ s'.requests
      → t.draws ≡ s'.draws
      → IsAsked host name value m s s'
      → IsAsked host name value m s t
  IsAsked-later name value m s s' t requests draws asked = record {
    heard = record {
      arrived = ap (is_answered host) requests ∙ asked.heard.arrived;
      is_answer = asked.heard.is_answer ∙ ap (answer host) (sym requests);
    };
    prefix = asked.prefix;
    requests = requests ∙ asked.requests;
    draws = draws ∙ asked.draws;
  }

  -- A request, its confirmation, and a text of the answer that is then read.
  abbrev Read : Text → Text → Text → HttpData → Text → Session → Session → Type 0
  Read name value node mem text s t =
      IsAsked host name value mem s t
      × (is_document host mem ≡ true)
      × (text ≡ text_in host mem node)

  Read-later :
      (name value node : Text) (m m' : HttpData) (text : Text) (s s1 s2 s3 : Session)
      → IsAsked host name value m s s1
      → (s2.requests ≡ s1.requests) × (s2.draws ≡ s1.draws)
      → (is_document host m ≡ true) × (text ≡ text_in host m node) × (s3 ≡ s2)
      → m ≡ m'
      → Read name value node m' text s s3
  Read-later name value node m m' text s s1 s2 s3 asked (requests, draws) (document, is_text, at)
        e =
      subst (λ x. Read name value node x text s s3) e
        (
          IsAsked-later name value m s s1 s3 (ap (λ (x : Session). x.requests) at ∙ requests)
              (ap (λ (x : Session). x.draws) at ∙ draws) asked,
          document,
          is_text,
        )

  -- The client's challenge was asked, and the response is the host's answer under the key.
  pub client_challenge-done :
      (key challenge : List ℕ) (mem : HttpData) (s : Session) {r : HttpData × List ℕ} {t : Session}
      → IsSized mem
      → client_challenge host key challenge mem s ≡ (done r, t)
      → IsAsked host
          (chars "clientchallenge")
          (bytes_to_hex (host.aes_encrypt key challenge))
          r.0
          s
          t
        × (is_document host r.0 ≡ true)
        × (r.1
            ≡ host.aes_decrypt key
                (hex_to_bytes (text_in host r.0 (chars "challengeresponse")) (take 64 host.stale)))
  unfolding client_challenge pure
  client_challenge-done key challenge mem s {r} {t} h e =
      let (m, s1, e1, f1) = >>=-eq-done _ _ s e in
      let asked = pair_request-done host _ _ mem s h e1 in
      let (s2, e2, f2) = >>-eq-done _ _ s1 f1 in
      let (result, s3, e3, f3) = >>=-eq-done _ _ s2 f2 in
      let (s4, e4, f4) = >>-eq-done _ _ s3 f3 in
      let (is_r, is_t) = done-injective f4 in
      let at : t ≡ s3 = sym is_t ∙ (require_saying-eq-done _ _ gs_failed e4).1 in
      let (document, is_text, at3) = search_or-done host gs_invalid m _ s2 e3 in
      let (read, is_document, is_text') =
        Read-later _ _ (chars "challengeresponse") m r.0 result s s1 s2 t asked
          (confirm_paired-keeps host m s1 e2) (document, is_text, at ∙ at3)
          (ap (λ (x : HttpData × List ℕ). x.0) is_r) in
      (
        read,
        is_document,
        sym (ap (λ (x : HttpData × List ℕ). x.1) is_r)
            ∙ ap (λ x. host.aes_decrypt key (hex_to_bytes x (take 64 host.stale))) is_text',
      )

  -- The pairing secret is what the host's answer holds as `pairingsecret`.
  pub server_challenge_response-done :
      (key response secret : List ℕ) (mem : HttpData) (s : Session) {r : HttpData × List ℕ}
      {t : Session}
      → IsSized mem
      → server_challenge_response host key response secret mem s ≡ (done r, t)
      → IsHeard host r.0 t
        × ((url : Text) × (t.requests ≡ url ∷ s.requests))
        × (is_document host r.0 ≡ true)
        × (r.1 ≡ bytes_in host (text_in host r.0 (chars "pairingsecret")))
  unfolding server_challenge_response pure bytes_in
  server_challenge_response-done key response secret mem s {r} {t} h e =
      let (m, s1, e1, f1) = >>=-eq-done _ _ s (server_of-eq _ s e) in
      let asked = pair_request-done host _ _ mem s h e1 in
      let (s2, e2, f2) = >>-eq-done _ _ s1 f1 in
      let (result, s3, e3, f3) = >>=-eq-done _ _ s2 f2 in
      let (s4, e4, f4) = >>-eq-done _ _ s3 f3 in
      let (is_r, is_t) = done-injective f4 in
      let at : t ≡ s3 = sym is_t ∙ (require-eq-done _ gs_invalid e4).1 in
      let (document, is_text, at3) = search_or-done host gs_invalid m _ s2 e3 in
      let (asked', is_document, is_text') =
        Read-later _ _ (chars "pairingsecret") m r.0 result s s1 s2 t asked
          (confirm_paired-keeps host m s1 e2) (document, is_text, at ∙ at3)
          (ap (λ (x : HttpData × List ℕ). x.0) is_r) in
      (
        asked'.heard,
        (_, asked'.requests),
        is_document,
        sym (ap (λ (x : HttpData × List ℕ). x.1) is_r) ∙ ap (bytes_in host) is_text',
      )

  -- The client's secret was the last thing asked.
  pub client_pairing_secret-done :
      (secret : List ℕ) (mem : HttpData) (s : Session) {u : Unit {0}} {t : Session}
      → IsSized mem
      → client_pairing_secret host secret mem s ≡ (done u, t)
      → (url : Text) × (t.requests ≡ url ∷ s.requests)
  unfolding client_pairing_secret send_secret leave_saying
  client_pairing_secret-done secret mem s {u} {t} h = sent (host.digest_sign secret)
    where
      sent :
          (o : Option (List ℕ))
          → send_secret host secret mem o s ≡ (done u, t)
          → (url : Text) × (t.requests ≡ url ∷ s.requests)
      sent none e = cc
      sent (some signature) e =
          let (m, s1, e1, f1) = >>=-eq-done _ _ s e in
          let asked = pair_request-done host _ _ mem s h e1 in
          (_, (confirm_paired-keeps host m s1 f1).0 ∙ asked.requests)
