-- ===== src/Gamestream/Client/Requests.antt =====
-- The requests that the functions of libgamestream/client.c have in common.
pub mod Tame
pub mod Answers
use moonlight_embedded_for_d.Base.{
  ℕ, suc, ◌+◌, ◌<◌, ℤ, pos, ◌+ℤ◌, Bool, true, false, List, [], ◌∷◌, ◌++◌, Text, chars, str_eq, leb,
  show_nat, snprintf, ltb, zero, if◌then◌else◌,
}
use moonlight_embedded_for_d.Gamestream.Errors.{gs_ok, gs_failed, gs_invalid, is_ok}
use moonlight_embedded_for_d.Gamestream.Http.{HttpData, http_create_data, http_request}
use moonlight_embedded_for_d.Gamestream.Xml.{xml_search, xml_status}
use moonlight_embedded_for_d.Gamestream.Client.{
  Session, Host, Outcome, done, exit, M, ◌>>=◌, ◌>>◌, pure, leave, leave_saying, require,
  session_of,
}

module _ (host : Host) where
  -- `uuid_generate_random` and `uuid_unparse`
  unfoldable pub draw_uuid : M Text
  draw_uuid s = (done (host.uuid s.draws), record s { draws = suc s.draws })

  -- `RAND_bytes`
  unfoldable pub draw_bytes : ℕ → M (List ℕ)
  draw_bytes n s = (done (host.random s.draws n), record s { draws = suc s.draws })

  -- `http_request(url, data)`: its return code, and what it leaves in `data`.
  unfoldable pub request : Text → HttpData → M (ℤ × HttpData)
  unfolding http_request
  request url mem s =
      let reply = host.curl (url ∷ s.requests) in
      let (ret, mem') = http_request reply mem in
      (
        done (ret, mem'),
        record s {
          requests = url ∷ s.requests;
          error = if is_ok ret then s.error else reply.message;
        },
      )

  -- `if ((ret = http_request(url, data)) != GS_OK) goto cleanup;`
  unfoldable pub request_ok : Text → HttpData → M HttpData
  request_ok url mem = do (ret, mem') ← request url mem; require (is_ok ret) ret; pure mem'

  -- `xml_status(data->memory, data->size)`
  unfoldable pub status_of : HttpData → M ℤ
  unfolding xml_status
  status_of mem s =
      let (ret, error) = xml_status (host.expat mem.memory) s.error in
      (done ret, record s { error = error })

  -- `xml_search(data->memory, data->size, node, &result)`
  unfoldable pub search_for : HttpData → Text → M (ℤ × Text)
  unfolding xml_search
  search_for mem node s =
      let parse = host.expat mem.memory in
      let (ret, found) = xml_search parse node in
      (done (ret, found), record s { error = if is_ok ret then s.error else parse.message })

  -- `if ((ret = xml_search(...)) != GS_OK) goto cleanup;`
  unfoldable pub search_ok : HttpData → Text → M Text
  search_ok mem node = do (ret, found) ← search_for mem node; require (is_ok ret) ret; pure found

  -- `if (xml_search(...) != GS_OK) { ret = code; goto cleanup; }`
  unfoldable pub search_or : ℤ → HttpData → Text → M Text
  search_or code mem node = do
    (ret, found) ← search_for mem node
    require (is_ok ret) code
    pure found

  -- `<scheme>://<address>:<port>/`
  unfoldable pub base_url : Text → Text → ℕ → Text
  base_url scheme address port =
      scheme ++ (chars "://" ++ (address ++ (chars ":" ++ (show_nat port ++ chars "/"))))

  -- A command of the host with the client's id and a fresh uuid, and what comes after those.
  unfoldable pub command_url : ℕ → Text → Text → ℕ → Text → Text → M Text
  unfolding draw_uuid base_url
  command_url limit scheme command port uuid rest s = (
    done (
        snprintf limit (
          base_url scheme s.server.address port
          ++ (command
              ++ (chars "?uniqueid=" ++ (s.unique_id ++ (chars "&uuid=" ++ (uuid ++ rest))))))),
    s,
  )

  -- One round of the loop of `pair_request_wait_paired`: `late` is its test of the time, and
  -- `again` the rounds that follow.
  unfoldable pub wait_round : (HttpData → M HttpData) → Bool → Text → HttpData → M HttpData
  wait_round again late url mem = do
    mem' ← request_ok url mem
    ret ← status_of mem'
    require (is_ok ret) ret
    paired ← search_ok mem' (chars "paired")
    if str_eq paired (chars "1")
        then pure mem'
        else if late
        then leave_saying (chars "Timed out waiting for host PIN confirmation") gs_failed
        else again mem'

  -- The rounds of `pair_request_wait_paired`, each a second long; `fuel` bounds their number.
  unfoldable pub wait_paired : ℕ → Text → HttpData → ℕ → ℕ → M HttpData
  wait_paired zero url mem elapsed timeout = leave gs_failed
  wait_paired (suc fuel) url mem elapsed timeout =
      wait_round (λ m. wait_paired fuel url m (elapsed + 1000) timeout) (leb timeout elapsed) url
        mem

  -- `pair_request_wait_paired(url, data, PAIR_CONFIRM_TIMEOUT_MS)`
  unfoldable pub pair_request_wait_paired : Text → HttpData → M HttpData
  pair_request_wait_paired url mem = wait_paired 61 url mem 0 60000
