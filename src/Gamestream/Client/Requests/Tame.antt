-- ===== src/Gamestream/Client/Requests/Tame.antt =====
-- The requests of libgamestream/client.c leave the server's record alone and exit in error only.
use moonlight_embedded_for_d.Base.{
  ℕ, zero, suc, ◌+◌, ℤ, ◌≡◌, refl, Bool, false, Text, chars, str_eq, Bool-cases, inl, inr,
}
use moonlight_embedded_for_d.Gamestream.Errors.{is_ok}
use moonlight_embedded_for_d.Gamestream.Http.{HttpData}
use moonlight_embedded_for_d.Gamestream.Client.{Host, M}
use moonlight_embedded_for_d.Gamestream.Client.Steps.{
  IsTame, >>=-IsTame, >>-IsTame, pure-IsTame, leave-IsTame, leave_saying-IsTame, require-IsTame,
}
use moonlight_embedded_for_d.Gamestream.Client.Requests.{
  draw_uuid, draw_bytes, request, request_ok, status_of, search_for, search_ok, search_or,
  wait_round, wait_paired, pair_request_wait_paired, command_url,
}

module _ (host : Host) where
  pub draw_uuid-IsTame : IsTame (draw_uuid host)
  unfolding draw_uuid
  draw_uuid-IsTame = record { apply = λ s. (refl, tt) }

  pub draw_bytes-IsTame : (n : ℕ) → IsTame (draw_bytes host n)
  unfolding draw_bytes
  draw_bytes-IsTame n = record { apply = λ s. (refl, tt) }

  pub command_url-IsTame :
      (limit : ℕ) (scheme command : Text) (port : ℕ) (uuid rest : Text)
      → IsTame (command_url host limit scheme command port uuid rest)
  unfolding command_url
  command_url-IsTame limit scheme command port uuid rest = record { apply = λ s. (refl, tt) }

  pub request-IsTame : (url : Text) (mem : HttpData) → IsTame (request host url mem)
  unfolding request
  request-IsTame url mem = record { apply = λ s. (refl, tt) }

  pub status_of-IsTame : (mem : HttpData) → IsTame (status_of host mem)
  unfolding status_of
  status_of-IsTame mem = record { apply = λ s. (refl, tt) }

  pub search_for-IsTame : (mem : HttpData) (node : Text) → IsTame (search_for host mem node)
  unfolding search_for
  search_for-IsTame mem node = record { apply = λ s. (refl, tt) }

  pub request_ok-IsTame : (url : Text) (mem : HttpData) → IsTame (request_ok host url mem)
  unfolding request_ok
  request_ok-IsTame url mem =
      >>=-IsTame _ _ (request-IsTame url mem)
        (λ r. >>-IsTame _ _ (require-IsTame _ _ (λ h. h)) (pure-IsTame _))

  pub search_ok-IsTame : (mem : HttpData) (node : Text) → IsTame (search_ok host mem node)
  unfolding search_ok
  search_ok-IsTame mem node =
      >>=-IsTame _ _ (search_for-IsTame mem node)
        (λ r. >>-IsTame _ _ (require-IsTame _ _ (λ h. h)) (pure-IsTame _))

  pub search_or-IsTame :
      (code : ℤ) (mem : HttpData) (node : Text)
      → is_ok code ≡ false
      → IsTame (search_or host code mem node)
  unfolding search_or
  search_or-IsTame code mem node h =
      >>=-IsTame _ _ (search_for-IsTame mem node)
        (λ r. >>-IsTame _ _ (require-IsTame _ _ (λ _. h)) (pure-IsTame _))

  pub wait_round-IsTame :
      (again : HttpData → M HttpData) (late : Bool) (url : Text) (mem : HttpData)
      → ((m : HttpData) → IsTame (again m))
      → IsTame (wait_round host again late url mem)
  unfolding wait_round
  wait_round-IsTame again late url mem h = >>=-IsTame _ _ (request_ok-IsTame url mem) (λ m.
      >>=-IsTame _ _ (status_of-IsTame m) (λ r. >>-IsTame _ _ (require-IsTame _ _ (λ h. h)) (
        >>=-IsTame _ _ (search_ok-IsTame m _) (λ paired.
          elim (Bool-cases (str_eq paired (chars "1"))) [
            | inl e ↦ rw e (pure-IsTame _)
            | inr e ↦ rw e (elim (Bool-cases late) [
              | inl t ↦ rw t (leave_saying-IsTame _ _ _ refl)
              | inr t ↦ rw t (h m)
            ])
          ]))))

  pub wait_paired-IsTame :
      (fuel : ℕ) (url : Text) (mem : HttpData) (elapsed timeout : ℕ)
      → IsTame (wait_paired host fuel url mem elapsed timeout)
  unfolding wait_paired
  wait_paired-IsTame zero url mem elapsed timeout = leave-IsTame _ _ refl
  wait_paired-IsTame (suc fuel) url mem elapsed timeout =
      wait_round-IsTame _ _ url mem (λ m. wait_paired-IsTame fuel url m (elapsed + 1000) timeout)

  pub pair_request_wait_paired-IsTame :
      (url : Text) (mem : HttpData) → IsTame (pair_request_wait_paired host url mem)
  unfolding pair_request_wait_paired
  pair_request_wait_paired-IsTame url mem = wait_paired-IsTame 61 url mem 0 60000
