-- ===== src/Gamestream/Client/Apps.antt =====
-- `gs_applist`, `gs_start_app` and `gs_quit_app` of libgamestream/client.c.
pub mod Launch
use moonlight_embedded_for_d.Base.{
  ℕ, suc, ◌+◌, ◌-◌, ◌*◌, ◌^◌, ltb, ℤ, pos, negsuc, ltb_ℤ, ◌==ℤ◌, Bool, true, false, not, ◌&&◌, ◌||◌,
  List, [], ◌∷◌, ◌++◌, Option, none, some, Text, chars, str_eq, snprintf, show_nat, show_int, take,
  if◌then◌else◌,
}
use moonlight_embedded_for_d.Gamestream.Errors.{
  gs_ok, gs_failed, gs_invalid, gs_io_error, gs_error_code, gs_not_supported_mode, is_ok,
}
use moonlight_embedded_for_d.Gamestream.Http.{HttpData, http_create_data}
use moonlight_embedded_for_d.Gamestream.Hex.{bytes_to_hex}
use moonlight_embedded_for_d.Gamestream.Xml.{App, DisplayMode, xml_applist}
use moonlight_embedded_for_d.Gamestream.Client.{
  Server, Session, Host, Outcome, done, exit, M, ◌>>=◌, ◌>>◌, pure, leave, modify_server, server_of,
  require, code_of,
}
use moonlight_embedded_for_d.Gamestream.Client.Requests.{
  draw_uuid, draw_bytes, request, request_ok, status_of, search_for, search_ok, command_url,
}

-- The fields of `STREAM_CONFIGURATION` that a launch reads, and those that it fills.
pub record StreamRequest : Type 0 where
  pub width : ℤ
  pub height : ℤ
  pub fps : ℤ
  -- SURROUNDAUDIOINFO_FROM_AUDIO_CONFIGURATION of the audio configuration
  pub surround_info : ℤ
  -- a 10 bit format is among the supported ones
  pub wants_hdr : Bool
  pub input_aes_key : List ℕ
  pub input_aes_iv : List ℕ

-- The loop of `gs_start_app` over the modes of the host.
unfoldable pub has_mode : List DisplayMode → StreamRequest → Bool
has_mode [] config = false
has_mode (mode ∷ modes) config =
    (mode.width ==ℤ config.width && mode.height ==ℤ config.height && mode.refresh ==ℤ config.fps)
    || has_mode modes config

-- The frame rate that is asked for: 0 where GeForce Experience would fall back to 720p.
unfoldable pub launch_fps : Server → StreamRequest → ℤ
launch_fps v config =
    if v.is_nvidia_software && ltb_ℤ (pos 60) config.fps then pos 0 else config.fps

unfoldable pub launch_command : Server → Text
launch_command v = if not (v.current_game ==ℤ pos 0) then chars "resume" else chars "launch"

abbrev pub show_bool : Bool → Text
show_bool true = chars "1"
show_bool false = chars "0"

abbrev pub hdr_query : Text
hdr_query =
    chars
      "&hdrMode=1&clientHdrCapVersion=0&clientHdrCapSupportedFlagsInUint32=0&clientHdrCapMetaDataId=NV_STATIC_METADATA_TYPE_1&clientHdrCapDisplayData=0x0x0x0x0x0x0x0x0x0x0"

-- The `int` that a 32 bit pattern stands for.
abbrev pub signed32 : ℕ → ℤ
signed32 w = if ltb w (2 ^ 31) then pos w else negsuc (2 ^ 32 - w - 1)

-- `htonl` of the first four bytes as a little-endian machine reads them, printed by `%d`.
unfoldable pub rikeyid_of : List ℕ → ℤ
rikeyid_of (a ∷ b ∷ c ∷ d ∷ _) = signed32 (a * 2 ^ 24 + b * 2 ^ 16 + c * 2 ^ 8 + d)
rikeyid_of _ = pos 0

unfoldable pub launch_query : Text → Server → StreamRequest → ℤ → Bool → Bool → ℤ → Text
unfolding launch_fps rikeyid_of
launch_query parameters v config app_id sops localaudio gamepad_mask =
    chars "&appid="
    ++ (show_int app_id
        ++ (chars "&mode="
            ++ (show_int config.width
                ++ (chars "x"
                    ++ (show_int config.height
                        ++ (chars "x"
                            ++ (show_int (launch_fps v config)
                                ++ (chars "&additionalStates=1&sops="
                                    ++ (show_bool sops
                                        ++ (chars "&rikey="
                                            ++ (bytes_to_hex config.input_aes_key
                                                ++ (chars "&rikeyid="
                                                    ++ (show_int (rikeyid_of config.input_aes_iv)
                                                        ++ (chars "&localAudioPlayMode="
                                                            ++ (show_bool localaudio
                                                            ++ (chars "&surroundAudioInfo="
                                                            ++ (show_int config.surround_info
                                                            ++ (chars "&remoteControllersBitmap="
                                                            ++ (show_int gamepad_mask
                                                            ++ (chars "&gcmap="
                                                            ++ (show_int gamepad_mask
                                                            ++ ((if config.wants_hdr
                                                            then hdr_query
                                                            else [])
                                                            ++ parameters))))))))))))))))))))))

module _ (host : Host) where
  -- `RAND_bytes` into the key and the first four bytes of the initialisation vector, which is zero
  -- behind them.
  unfoldable pub draw_keys : StreamRequest → M StreamRequest
  draw_keys config = do
    key ← draw_bytes host 16
    iv ← draw_bytes host 4
    pure (record config {
      input_aes_key = key;
      input_aes_iv = iv ++ (0 ∷ 0 ∷ 0 ∷ 0 ∷ 0 ∷ 0 ∷ 0 ∷ 0 ∷ 0 ∷ 0 ∷ 0 ∷ 0 ∷ []);
    })

  -- `(ret = xml_search("gamesession")) != GS_OK && (ret = xml_search("resume")) != GS_OK`
  unfoldable pub session_result : HttpData → M Text
  session_result mem = do
    (ret, found) ← search_for host mem (chars "gamesession")
    if is_ok ret then pure found else search_ok host mem (chars "resume")

  -- `gs_start_app` from the answer on.
  unfoldable pub read_launch : HttpData → M (Unit {0})
  read_launch mem = do
    ret ← status_of host mem
    require (is_ok ret) ret
    result ← session_result mem
    require (not (str_eq result (chars "0"))) gs_failed
    (found, url) ← search_for host mem (chars "sessionUrl0")
    if is_ok found then modify_server (λ v. record v { rtsp_session_url = some url }) else pure tt

  -- `gs_start_app` from the request on.
  unfoldable pub launch : StreamRequest → ℤ → Bool → Bool → ℤ → M (Unit {0})
  launch config app_id sops localaudio gamepad_mask = do
    uuid ← draw_uuid host
    server ← server_of
    url ←
        command_url host 4096 (chars "https") (launch_command server) server.https_port uuid
          (launch_query host.launch_parameters server config app_id sops localaudio gamepad_mask)
    mem ← request_ok host url http_create_data
    modify_server (λ v. record v { current_game = app_id })
    read_launch mem

  -- The return code, the configuration with its keys and the session.
  unfoldable pub gs_start_app :
      StreamRequest → ℤ → Bool → Bool → ℤ → Session → ℤ × StreamRequest × Session
  gs_start_app config app_id sops localaudio gamepad_mask s =
      if not (has_mode s.server.modes config) && not s.server.unsupported
      then (gs_not_supported_mode, config, s)
      else let (drawn, s1) = draw_keys config s in
        elim drawn [
          | exit r ↦ (r, config, s1)
          | done config' ↦
              let (o, s2) = launch config' app_id sops localaudio gamepad_mask s1 in
              (code_of o, config', s2)
        ]

  -- `xml_applist(data->memory, data->size, list)`
  unfoldable pub load_apps : HttpData → M (List App)
  load_apps mem s =
      let parse = host.expat mem.memory in
      let (ret, apps) = xml_applist host.stale parse in
      if is_ok ret then (done apps, s) else (exit gs_invalid, record s { error = parse.message })

  -- `gs_applist`: the return code, the list where it is set, and the session.
  unfoldable pub applist_body : M (List App)
  applist_body = do
    uuid ← draw_uuid host
    server ← server_of
    url ← command_url host 4096 (chars "https") (chars "applist") server.https_port uuid []
    (ret, mem) ← request host url http_create_data
    require (is_ok ret) gs_io_error
    status ← status_of host mem
    require (not (status ==ℤ gs_error_code)) gs_error_code
    load_apps mem

  -- `gs_quit_app`
  unfoldable pub quit_body : M (Unit {0})
  quit_body = do
    uuid ← draw_uuid host
    server ← server_of
    url ← command_url host 4096 (chars "https") (chars "cancel") server.https_port uuid []
    mem ← request_ok host url http_create_data
    ret ← status_of host mem
    require (is_ok ret) ret
    result ← search_ok host mem (chars "cancel")
    require (not (str_eq result (chars "0"))) gs_failed

  unfoldable pub gs_quit_app : Session → ℤ × Session
  gs_quit_app s = let (o, s') = quit_body s in (code_of o, s')
