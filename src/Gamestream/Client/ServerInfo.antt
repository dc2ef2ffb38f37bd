-- ===== src/Gamestream/Client/ServerInfo.antt =====
-- `load_serverinfo` and `load_server_status` of libgamestream/client.c.
pub mod Loaded
pub mod Facts
use moonlight_embedded_for_d.Base.{
  ℕ, suc, zero, ◌+◌, ℤ, pos, ltb_ℤ, ◌==ℤ◌, Bool, true, false, not, ◌&&◌, ◌||◌, List, [], ◌∷◌, ◌++◌,
  Option, none, some, Text, chars, str_eq, contains, atoi, to_u16, show_nat, length, ◌==◌,
  if◌then◌else◌,
}
use moonlight_embedded_for_d.Gamestream.Errors.{
  gs_ok, gs_invalid, gs_io_error, gs_error_code, gs_unsupported_version, is_ok,
}
use moonlight_embedded_for_d.Gamestream.Http.{HttpData, http_create_data}
use moonlight_embedded_for_d.Gamestream.Xml.{xml_modelist}
use moonlight_embedded_for_d.Gamestream.Client.{
  Server, Session, Host, Outcome, done, exit, M, ◌>>=◌, ◌>>◌, pure, leave, leave_saying,
  modify_server, server_of, require, code_of,
}
use moonlight_embedded_for_d.Gamestream.Client.Requests.{
  draw_uuid, request, status_of, search_or, command_url,
}

-- `!strlen(s)`
abbrev pub is_empty : Text → Bool
is_empty [] = true
is_empty (c ∷ s) = false

-- The fields that `load_serverinfo` sets from the texts that it found.
unfoldable pub set_serverinfo : Text → Text → Text → Text → Text → Text → Server → Server
set_serverinfo game paired version state codecs port v = record v {
  paired = str_eq paired (chars "1");
  current_game = if contains state (chars "_SERVER_BUSY") then atoi game else pos 0;
  codec_mode_support = atoi codecs;
  server_major_version = atoi version;
  is_nvidia_software = contains state (chars "MJOLNIR");
  https_port = (let p : ℕ = to_u16 (atoi port) in if p == 0 then 47984 else p);
}

module _ (host : Host) where
  -- `xml_modelist(data->memory, data->size, &server->modes)`
  unfoldable pub load_modes : HttpData → M (Unit {0})
  unfolding xml_modelist
  load_modes mem s =
      let parse = host.expat mem.memory in
      let (ret, modes) = xml_modelist host.stale parse in
      if is_ok ret
      then (done tt, record s { server = record (s.server) { modes = modes } })
      else (exit gs_invalid, record s { error = parse.message })

  -- `load_serverinfo` as far as the answer.
  unfoldable pub fetch_serverinfo : Bool → M HttpData
  fetch_serverinfo https = do
    uuid ← draw_uuid host
    server ← server_of
    url ←
        command_url host 4096 (if https then chars "https" else chars "http") (chars "serverinfo")
          (if https then server.https_port else server.http_port) uuid []
    (ret, mem) ← request host url http_create_data
    require (is_ok ret) gs_io_error
    status ← status_of host mem
    require (not (status ==ℤ gs_error_code)) gs_error_code
    pure mem

  -- `load_serverinfo` from the answer on. A field of the server whose text has been found keeps
  -- it, also where a later one is missing.
  unfoldable pub read_serverinfo : HttpData → M (Unit {0})
  read_serverinfo mem = do
    game ← search_or host gs_invalid mem (chars "currentgame")
    paired ← search_or host gs_invalid mem (chars "PairStatus")
    version ← search_or host gs_invalid mem (chars "appversion")
    modify_server (λ v. record v { app_version = some version })
    state ← search_or host gs_invalid mem (chars "state")
    codecs ← search_or host gs_invalid mem (chars "ServerCodecModeSupport")
    gpu ← search_or host gs_invalid mem (chars "gputype")
    modify_server (λ v. record v { gpu_type = some gpu })
    gs ← search_or host gs_invalid mem (chars "GsVersion")
    modify_server (λ v. record v { gs_version = some gs })
    gfe ← search_or host gs_invalid mem (chars "GfeVersion")
    modify_server (λ v. record v { gfe_version = some gfe })
    port ← search_or host gs_invalid mem (chars "HttpsPort")
    load_modes mem
    require (not (is_empty game || is_empty paired || is_empty version || is_empty state))
        gs_invalid
    modify_server (set_serverinfo game paired version state codecs port)

  unfoldable pub load_serverinfo : Bool → Session → ℤ × Session
  unfolding fetch_serverinfo read_serverinfo
  load_serverinfo https s =
      let (o, s') = (do mem ← fetch_serverinfo https; read_serverinfo mem) s in (code_of o, s')

  -- The loop of `load_server_status`: over HTTPS, and over HTTP if that did not succeed.
  unfoldable pub load_either : Session → ℤ × Session
  load_either s =
      let (ret, s') = load_serverinfo true s in
      if is_ok ret then (ret, s') else load_serverinfo false s'

  -- The last part of `load_server_status`: is the host's version one that the client supports?
  unfoldable pub check_version : ℤ → Session → ℤ × Session
  check_version ret s =
      if is_ok ret && not s.server.unsupported
      then if ltb_ℤ (pos 7) s.server.server_major_version
        then (
          gs_unsupported_version,
          record s {
            error =
                chars
                  "Ensure you're running the latest version of Moonlight Embedded or downgrade GeForce Experience and try again";
          },
        )
        else if ltb_ℤ s.server.server_major_version (pos 3)
        then (
          gs_unsupported_version,
          record s {
            error =
                chars
                  "Moonlight Embedded requires a newer version of GeForce Experience. Please upgrade GFE on your PC and try again.";
          },
        )
        else (ret, s)
      else (ret, s)

  unfoldable pub load_server_status : Session → ℤ × Session
  load_server_status s =
      let (first, s1) =
        (if s.server.https_port == 0 then load_serverinfo false s else (gs_ok, s)) in
      if is_ok first then (let (ret, s2) = load_either s1 in check_version ret s2) else (first, s1)
