-- ===== src/Gamestream/Client/Pairing.antt =====
-- `gs_unpair` and `gs_pair` of libgamestream/client.c, the latter as its five exchanges with the
-- host and what it does at `cleanup`. Allocation does not fail.
pub mod Exchange
pub mod Tame
pub mod Heard
pub mod Asked
pub mod Answered
pub mod Evidence
pub mod Gathered
pub mod Safety
pub mod Cleanup
pub mod Waiting
use moonlight_embedded_for_d.Base.{
  ℕ, suc, ◌+◌, ◌*◌, ◌/◌, ℤ, pos, leb_ℤ, ◌==ℤ◌, Bool, true, false, not, ◌&&◌, List, [], ◌∷◌, ◌++◌,
  Text, chars, length, if◌then◌else◌,
}
use moonlight_embedded_for_d.Gamestream.Errors.{gs_ok, gs_wrong_state, is_ok}
use moonlight_embedded_for_d.Gamestream.Http.{HttpData, http_create_data}
use moonlight_embedded_for_d.Gamestream.Hex.{bytes_to_hex}
use moonlight_embedded_for_d.Gamestream.Client.{
  Server, Session, Host, Outcome, done, exit, M, ◌>>=◌, ◌>>◌, pure, modify_server, server_of,
  require_saying, code_of,
}
use moonlight_embedded_for_d.Gamestream.Client.Requests.{
  draw_uuid, draw_bytes, request, command_url, pair_request_wait_paired,
}
use Exchange.{
  server_cert, client_challenge, server_challenge_response, check_pairing_secret,
  client_pairing_secret, derive_key,
}

module _ (host : Host) where
  unfoldable pub gs_unpair : Session → ℤ × Session
  unfolding draw_uuid command_url request
  gs_unpair s =
      let (o, s') =
        (do
          uuid ← draw_uuid host
          server ← server_of
          url ← command_url host 4096 (chars "http") (chars "unpair") server.http_port uuid []
          request host url http_create_data)
          s in
      (elim o [ done r ↦ r.0 | exit r ↦ r ], s')

  -- `gs_pair` from its first test to the host's last answer.
  unfoldable pub exchanges : Text → M (Unit {0})
  exchanges pin = do
    server ← server_of
    require_saying (not server.paired) (chars "Already paired") gs_wrong_state
    salt ← draw_bytes host 16
    (mem, plaincert) ← server_cert host salt
    let key = derive_key host server.server_major_version salt pin
    challenge ← draw_bytes host 16
    (mem, response) ← client_challenge host key challenge mem
    secret ← draw_bytes host 16
    (mem, pairing_secret) ← server_challenge_response host key response secret mem
    check_pairing_secret host challenge response pairing_secret plaincert
    client_pairing_secret host secret mem

  -- `gs_pair` before `cleanup`.
  unfoldable pub pair_body : Text → M (Unit {0})
  pair_body pin = do exchanges pin; modify_server (λ v. record v { paired = true })

  -- The end of `gs_pair` on an error: a host in a game is named as the reason.
  unfoldable pub blame_game : ℤ → Session → ℤ × Session
  blame_game ret s =
      if not (s.server.current_game ==ℤ pos 0)
      then (
        gs_wrong_state,
        record s {
          error =
              chars "The computer is currently in a game. You must close the game before pairing.";
        },
      )
      else (ret, s)

  -- From the label `cleanup` of `gs_pair` on.
  unfoldable pub pair_cleanup : ℤ → Session → ℤ × Session
  unfolding blame_game
  pair_cleanup ret s = if is_ok ret then (gs_ok, s) else blame_game ret (gs_unpair s).1

  unfoldable pub gs_pair : Text → Session → ℤ × Session
  gs_pair pin s = let (o, s') = pair_body pin s in pair_cleanup (code_of o) s'
