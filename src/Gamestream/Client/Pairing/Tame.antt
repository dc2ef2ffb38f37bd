-- ===== src/Gamestream/Client/Pairing/Tame.antt =====
-- No exchange of `gs_pair` touches the server's record, and each exits in error only.
use moonlight_embedded_for_d.Base.{ℕ, ℤ, refl, List, Text, none, some, Option}
use moonlight_embedded_for_d.Gamestream.Errors.{gs_invalid}
use moonlight_embedded_for_d.Gamestream.Http.{HttpData}
use moonlight_embedded_for_d.Gamestream.Client.{Host}
use moonlight_embedded_for_d.Gamestream.Client.Steps.{
  IsTame, >>=-IsTame, >>-IsTame, pure-IsTame, server_of-IsTame, session_of-IsTame,
  leave_saying-IsTame, require-IsTame, require_saying-IsTame,
}
use moonlight_embedded_for_d.Gamestream.Client.Pairing.{exchanges}
use moonlight_embedded_for_d.Gamestream.Client.Pairing.Exchange.{
  pair_request, confirm_paired, server_cert, client_challenge, server_challenge_response,
  check_pairing_secret, client_pairing_secret, check_answer, send_secret,
}
use moonlight_embedded_for_d.Gamestream.Client.Requests.Tame.{
  draw_uuid-IsTame, draw_bytes-IsTame, command_url-IsTame, status_of-IsTame, request_ok-IsTame,
  search_ok-IsTame, search_or-IsTame, pair_request_wait_paired-IsTame,
}

module _ (host : Host) where
  pair_request-IsTame :
      (name value : Text) (mem : HttpData) → IsTame (pair_request host name value mem)
  unfolding pair_request
  pair_request-IsTame name value mem =
      search (
        >>=-IsTame,
        draw_uuid-IsTame,
        server_of-IsTame,
        command_url-IsTame,
        (request_ok-IsTame host),
      )

  confirm_paired-IsTame : (mem : HttpData) → IsTame (confirm_paired host mem)
  unfolding confirm_paired
  confirm_paired-IsTame mem = >>=-IsTame _ _ (status_of-IsTame host mem) (λ r.
      >>-IsTame _ _ (require-IsTame _ _ (λ _. refl))
        (>>=-IsTame _ _ (search_ok-IsTame host mem _) (λ paired. require_saying-IsTame _ _ _ refl)))

  pub server_cert-IsTame : (salt : List ℕ) → IsTame (server_cert host salt)
  unfolding server_cert
  server_cert-IsTame salt =
      search
        (
          >>=-IsTame, draw_uuid-IsTame, session_of-IsTame, command_url-IsTame,
          pair_request_wait_paired-IsTame, search_ok-IsTame, pure-IsTame,
        )
        depth 12

  pub client_challenge-IsTame :
      (key challenge : List ℕ) (mem : HttpData) → IsTame (client_challenge host key challenge mem)
  unfolding client_challenge
  client_challenge-IsTame key challenge mem = >>=-IsTame _ _ (pair_request-IsTame _ _ mem) (λ m.
      >>-IsTame _ _ (confirm_paired-IsTame m) (
        >>=-IsTame _ _ (search_or-IsTame host gs_invalid m _ refl)
          (λ r. >>-IsTame _ _ (require_saying-IsTame _ _ _ refl) (pure-IsTame _))))

  pub server_challenge_response-IsTame :
      (key response secret : List ℕ) (mem : HttpData)
      → IsTame (server_challenge_response host key response secret mem)
  unfolding server_challenge_response
  server_challenge_response-IsTame key response secret mem = >>=-IsTame _ _ server_of-IsTame (λ v.
      >>=-IsTame _ _ (pair_request-IsTame _ _ mem) (λ m. >>-IsTame _ _ (confirm_paired-IsTame m) (
        >>=-IsTame _ _ (search_or-IsTame host gs_invalid m _ refl)
          (λ r. >>-IsTame _ _ (require-IsTame _ _ (λ _. refl)) (pure-IsTame _)))))

  check_answer-IsTame :
      (version : ℤ) (challenge response secret : List ℕ) (o : Option (List ℕ))
      → IsTame (check_answer host version challenge response secret o)
  unfolding check_answer
  check_answer-IsTame version challenge response secret none = leave_saying-IsTame _ _ _ refl
  check_answer-IsTame version challenge response secret (some signature) =
      require_saying-IsTame _ _ _ refl

  check_pairing_secret-IsTame :
      (challenge response secret cert : List ℕ)
      → IsTame (check_pairing_secret host challenge response secret cert)
  unfolding check_pairing_secret
  check_pairing_secret-IsTame challenge response secret cert = >>=-IsTame _ _ server_of-IsTame (λ v.
      >>-IsTame _ _ (require_saying-IsTame _ _ _ refl)
        (check_answer-IsTame _ challenge response secret _))

  send_secret-IsTame :
      (secret : List ℕ) (mem : HttpData) (o : Option (List ℕ))
      → IsTame (send_secret host secret mem o)
  unfolding send_secret
  send_secret-IsTame secret mem none = leave_saying-IsTame _ _ _ refl
  send_secret-IsTame secret mem (some signature) =
      >>=-IsTame _ _ (pair_request-IsTame _ _ mem) (λ m. confirm_paired-IsTame m)

  client_pairing_secret-IsTame :
      (secret : List ℕ) (mem : HttpData) → IsTame (client_pairing_secret host secret mem)
  unfolding client_pairing_secret
  client_pairing_secret-IsTame secret mem = send_secret-IsTame secret mem _

  -- The five exchanges, which is all of `gs_pair` between its first test and its success.
  pub exchanges-IsTame : (pin : Text) → IsTame (exchanges host pin)
  unfolding exchanges
  exchanges-IsTame pin = >>=-IsTame _ _ server_of-IsTame (λ v.
      >>-IsTame _ _ (require_saying-IsTame _ _ _ refl) (
        >>=-IsTame _ _ (draw_bytes-IsTame host 16) (λ salt.
          >>=-IsTame _ _ (server_cert-IsTame salt) (λ a.
            >>=-IsTame _ _ (draw_bytes-IsTame host 16) (λ challenge.
              >>=-IsTame _ _ (client_challenge-IsTame _ challenge a.0) (λ b.
                >>=-IsTame _ _ (draw_bytes-IsTame host 16) (λ secret.
                  >>=-IsTame _ _ (server_challenge_response-IsTame _ b.1 secret b.0) (λ c.
                    >>-IsTame _ _ (check_pairing_secret-IsTame challenge b.1 c.1 a.1)
                      (client_pairing_secret-IsTame secret c.0)))))))))
