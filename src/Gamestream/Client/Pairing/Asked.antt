-- ===== src/Gamestream/Client/Pairing/Asked.antt =====
-- What the requests of `gs_pair` in libgamestream/client.c have asked and heard, and the certificate.
use mathlib.Core.List.{append_assoc}
use mathlib.Core.Path.{subst}
use moonlight_embedded_for_d.Base.{
  ℕ, suc, ◌*◌, ◌/◌, pos, ◌≡◌, refl, sym, ap, ◌∙◌, true, List, [], ◌∷◌, ◌++◌, Text, chars, length,
  take, snprintf,
}
use moonlight_embedded_for_d.Gamestream.Errors.{gs_failed}
use moonlight_embedded_for_d.Gamestream.Http.{HttpData, http_create_data}
use moonlight_embedded_for_d.Gamestream.Hex.{hex_to_bytes}
use moonlight_embedded_for_d.Gamestream.Client.{Session, Host, done, pure, session_of}
use moonlight_embedded_for_d.Gamestream.Client.Steps.{
  >>=-eq-done, >>-eq-done, require-eq-done, require_saying-eq-done, done-injective, server_of-eq,
}
use moonlight_embedded_for_d.Gamestream.Client.Requests.{
  draw_uuid, command_url, pair_request_wait_paired, base_url,
}
use moonlight_embedded_for_d.Gamestream.Client.Requests.Answers.{
  IsSized, answer, text_in, is_answered, is_document, request_ok-done, search_ok-done,
  status_of-keeps,
}
use moonlight_embedded_for_d.Gamestream.Client.Pairing.Heard.{
  IsHeard, created-IsSized, wait_paired-done,
}
use moonlight_embedded_for_d.Gamestream.Client.Pairing.Exchange.{
  pair_query, pair_request, confirm_paired, server_cert,
}

module _ (host : Host) where
  -- The bytes that a text gives in hexadecimal, read into a new buffer of their number.
  unfoldable pub bytes_in : Text → List ℕ
  bytes_in text =
      let len = length text / 2 in hex_to_bytes (take (len * 2) text) (take len host.stale)

  -- The rest of an address stands at its end.
  abbrev EndsIn : Text → Text → Type 0
  EndsIn text rest = (prefix : Text) × (text ≡ prefix ++ rest)

  append-EndsIn : (a b rest : Text) → EndsIn b rest → EndsIn (a ++ b) rest
  append-EndsIn a b rest (prefix, e) =
      (a ++ prefix, ap (λ t. a ++ t) e ∙ sym (append_assoc a prefix rest))

  command_url-done :
      (limit : ℕ) (scheme command : Text) (port : ℕ) (uuid rest : Text) (s : Session) {url : Text}
      {t : Session}
      → command_url host limit scheme command port uuid rest s ≡ (done url, t)
      → ((prefix : Text) × (url ≡ snprintf limit (prefix ++ rest))) × (t ≡ s)
  unfolding command_url
  command_url-done limit scheme command port uuid rest s e =
      let (is_url, at) = done-injective e in
      let (prefix, ends) = append-EndsIn (base_url host scheme s.server.address port) _ rest (
        append-EndsIn command _ rest (
          append-EndsIn (chars "?uniqueid=") _ rest (
            append-EndsIn s.unique_id _ rest
              (append-EndsIn (chars "&uuid=") _ rest (append-EndsIn uuid _ rest ([], refl)))))) in
      ((prefix, sym is_url ∙ ap (snprintf limit) ends), sym at)

  draw_uuid-done :
      (s : Session) {uuid : Text} {t : Session}
      → draw_uuid host s ≡ (done uuid, t)
      → (t.requests ≡ s.requests) × (t.draws ≡ suc s.draws)
  unfolding draw_uuid
  draw_uuid-done s e =
      let at = (done-injective e).1 in
      (sym (ap (λ (x : Session). x.requests) at), sym (ap (λ (x : Session). x.draws) at))

  session_of-done : (s : Session) {r t : Session} → session_of s ≡ (done r, t) → t ≡ s
  unfolding session_of
  session_of-done s e = sym (done-injective e).1

  -- The host's certificate is what its answer holds as `plaincert`.
  pub server_cert-done :
      (salt : List ℕ) (s : Session) {r : HttpData × List ℕ} {t : Session}
      → server_cert host salt s ≡ (done r, t)
      → IsHeard host r.0 t
        × (is_document host r.0 ≡ true)
        × (r.1 ≡ bytes_in (text_in host r.0 (chars "plaincert")))
        × (t.draws ≡ suc s.draws)
  unfolding server_cert pair_request_wait_paired pure bytes_in
  server_cert-done salt s {r} {t} e =
      let (uuid, s1, e1, f1) = >>=-eq-done _ _ s e in
      let (session, s2, e2, f2) = >>=-eq-done _ _ s1 f1 in
      let (url, s3, e3, f3) = >>=-eq-done _ _ s2 f2 in
      let (mem, s4, e4, f4) = >>=-eq-done _ _ s3 f3 in
      let (heard, draws) =
        wait_paired-done host 61 url http_create_data 0 60000 s3 (created-IsSized host) e4 in
      let (result, s5, e5, f5) = >>=-eq-done _ _ s4 f4 in
      let (document, is_text, at5) = search_ok-done host mem _ s4 e5 in
      let (is_r, is_t) = done-injective f5 in
      let is_mem : mem ≡ r.0 = ap (λ (x : HttpData × List ℕ). x.0) is_r in
      let at : t ≡ s4 = sym is_t ∙ at5 in
      let at3 : s3 ≡ s1 = (command_url-done _ _ _ _ _ _ s2 e3).1 ∙ session_of-done s1 e2 in
      (
        subst (IsHeard host r.0) (sym at) (subst (λ m. IsHeard host m s4) is_mem heard),
        ap (is_document host) (sym is_mem) ∙ document,
        sym (ap (λ (x : HttpData × List ℕ). x.1) is_r)
            ∙ ap bytes_in
                (is_text ∙ ap (λ (m : HttpData). text_in host m (chars "plaincert")) is_mem),
        ap (λ (x : Session). x.draws) at
            ∙ draws
            ∙ ap (λ (x : Session). x.draws) at3
            ∙ (draw_uuid-done s e1).1,
      )

  -- One request of a pairing: what was asked, and that it was answered.
  pub record IsAsked (name value : Text) (m : HttpData) (s t : Session) : Type 0 where
    pub heard : IsHeard host m t
    pub prefix : Text
    pub requests : t.requests ≡ snprintf 16384 (prefix ++ pair_query name value) ∷ s.requests
    pub draws : t.draws ≡ suc s.draws

  pub pair_request-done :
      (name value : Text) (mem : HttpData) (s : Session) {m : HttpData} {t : Session}
      → IsSized mem
      → pair_request host name value mem s ≡ (done m, t)
      → IsAsked name value m s t
  unfolding pair_request
  pair_request-done name value mem s h e =
      let (uuid, s1, e1, f1) = >>=-eq-done _ _ s e in
      let (url, s2, e2, f2) = >>=-eq-done _ _ s1 (server_of-eq _ s1 f1) in
      let ((prefix, is_url), at2) = command_url-done _ _ _ _ _ _ s1 e2 in
      let (arrived, is_answer, at) = request_ok-done host url mem s2 h f2 in
      let (kept, drawn) = draw_uuid-done s e1 in
      let asked : _ ≡ url ∷ s2.requests = ap (λ (x : Session). x.requests) at in
      record {
        heard = record {
          arrived = ap (is_answered host) asked ∙ arrived;
          is_answer = is_answer ∙ ap (answer host) (sym asked);
        };
        prefix = prefix;
        requests =
            asked
            ∙ ap (λ rs. url ∷ rs) (ap (λ (x : Session). x.requests) at2 ∙ kept)
            ∙ ap (λ u. u ∷ s.requests) is_url;
        draws = ap (λ (x : Session). x.draws) at ∙ ap (λ (x : Session). x.draws) at2 ∙ drawn;
      }

  pub confirm_paired-keeps :
      (mem : HttpData) (s : Session) {u : Unit {0}} {t : Session}
      → confirm_paired host mem s ≡ (done u, t)
      → (t.requests ≡ s.requests) × (t.draws ≡ s.draws)
  unfolding confirm_paired
  confirm_paired-keeps mem s e =
      let (ret, s1, e1, f1) = >>=-eq-done _ _ s e in
      let (s2, e2, f2) = >>-eq-done _ _ s1 f1 in
      let (paired, s3, e3, f3) = >>=-eq-done _ _ s2 f2 in
      let (requests, draws) = status_of-keeps host mem s e1 in
      let at : _ ≡ s1 =
        (require_saying-eq-done _ _ gs_failed f3).1
        ∙ (search_ok-done host mem _ s2 e3).2
        ∙ (require-eq-done _ (pos 1) e2).1 in
      (ap (λ (x : Session). x.requests) at ∙ requests, ap (λ (x : Session). x.draws) at ∙ draws)
