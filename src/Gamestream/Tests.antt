-- ===== src/Gamestream/Tests.antt =====
-- libgamestream on concrete inputs: a host that answers every request with one document.
use moonlight_embedded_for_d.Base.{
  drop, ℕ, pos, ◌≡◌, ◌≢◌, ◌∙◌, sym, refl, true, false, List, [], ◌∷◌, ◌++◌, none, some, Text, chars,
  str_eq, is_prefix, contains, atoi, to_u16, ◌+ℤ◌, ◌-ℤ◌, arith, if◌then◌else◌,
}
use mathlib.Core.List.{reverse, map}
use moonlight_embedded_for_d.Gamestream.Client.KeyFiles.{
  KeyStore, tree, default_id, load_unique_id, load_cert, read_cert, read_private_key, load_keys,
  fresh_server, gs_init,
}
use moonlight_embedded_for_d.Gamestream.Client.KeyFiles.Outcomes.{
  load_unique_id-default, gs_init_lem,
}
use moonlight_embedded_for_d.Gamestream.Errors.{gs_ok, gs_failed, is_ok}
use moonlight_embedded_for_d.Gamestream.Http.{http_create_data, http_request}
use moonlight_embedded_for_d.Gamestream.Hex.{bytes_to_hex, hex_to_bytes}
use moonlight_embedded_for_d.Gamestream.Hex.RoundTrip.{hex_to_bytes-bytes_to_hex}
use moonlight_embedded_for_d.Gamestream.Xml.{
  XmlParse, xml_search, xml_applist, xml_status, xml_modelist,
}
use moonlight_embedded_for_d.Gamestream.Xml.Search.{
  Content, empty, text_then, element, events_of, xml_search_lem,
}
use moonlight_embedded_for_d.Gamestream.Xml.{character_data, start_element, end_element}
use moonlight_embedded_for_d.Gamestream.Xml.Lists.{
  all_other, is_other_name, Others, answer_events, AppEntry, app_of, xml_applist_lem,
}
use moonlight_embedded_for_d.Gamestream.Client.{
  Server, Session, Host, code_of, ◌>>=◌, ◌>>◌, pure, leave, leave_saying, modify_server, server_of,
  session_of, require, require_saying,
}
use moonlight_embedded_for_d.Gamestream.Client.Requests.{
  draw_uuid, draw_bytes, request, request_ok, status_of, search_for, search_ok, search_or,
  command_url, wait_paired, wait_round, pair_request_wait_paired,
}
use moonlight_embedded_for_d.Gamestream.Client.ServerInfo.{
  set_serverinfo, load_modes, fetch_serverinfo, read_serverinfo, load_serverinfo, load_either,
  check_version, load_server_status,
}
use moonlight_embedded_for_d.Gamestream.Client.ServerInfo.Facts.{load_server_status_lem}
use moonlight_embedded_for_d.Gamestream.Client.Pairing.{
  gs_unpair, exchanges, pair_body, pair_cleanup, gs_pair,
}
use moonlight_embedded_for_d.Gamestream.Client.Pairing.Exchange.{
  hash_for, hash_length, derive_key, pair_request, confirm_paired, server_cert, client_challenge,
  server_challenge_response, verify_signature, expected_response, check_answer,
  check_pairing_secret, send_secret, client_pairing_secret,
}
use moonlight_embedded_for_d.Gamestream.Client.Pairing.Evidence.{Evidence}
use moonlight_embedded_for_d.Gamestream.Client.Pairing.Safety.{gs_pair_authenticates}
use moonlight_embedded_for_d.Gamestream.Client.Pairing.Cleanup.{IsUndone, gs_pair-IsUndone}
use moonlight_embedded_for_d.Gamestream.Client.Pairing.Waiting.{wait_paired_fuel}
use moonlight_embedded_for_d.Gamestream.Client.Apps.{read_launch}
use moonlight_embedded_for_d.Gamestream.Client.Apps.Launch.{read_launch_code}

abbrev leaf : Text → Text → Content → Content
leaf name value rest = element name [] (text_then value empty) rest

-- An answer with all that any of the requests looks for.
abbrev answer : Content
answer =
    element (chars "root") ((chars "status_code", chars "200") ∷ [])
      (leaf (chars "paired") (chars "1") (
        leaf (chars "plaincert") (chars "41") (
          leaf (chars "challengeresponse") (chars "00") (
            leaf (chars "pairingsecret") (chars "00112233445566778899aabbccddeeff0011") (
              leaf (chars "currentgame") (chars "7") (
                leaf (chars "PairStatus") (chars "0") (
                  leaf (chars "appversion") (chars "7.1.431.-1") (
                    leaf (chars "state") (chars "SUNSHINE_SERVER_FREE") (
                      leaf (chars "HttpsPort") (chars "47984")
                        (leaf (chars "gamesession") (chars "1") empty))))))))))
      empty

abbrev answer_parse : XmlParse
answer_parse = record { success = true; events = events_of answer; message = [] }

abbrev zeros : List ℕ
zeros = 0 ∷ 0 ∷ 0 ∷ 0 ∷ 0 ∷ 0 ∷ 0 ∷ 0 ∷ 0 ∷ 0 ∷ 0 ∷ 0 ∷ 0 ∷ 0 ∷ 0 ∷ 0 ∷ 0 ∷ 0 ∷ 0 ∷ 0 ∷ []

-- A host of version 3 that signs with anything and answers with zeros, which `sha1` gives too.
abbrev toy_host : Host
toy_host = record {
  curl = λ asked. record { success = true; chunks = []; message = [] };
  expat = λ text. answer_parse;
  uuid = λ n. [];
  random = λ n count. 5 ∷ [];
  sha256 = λ bytes. zeros ++ zeros;
  sha1 = λ bytes. zeros;
  aes_encrypt = λ key bytes. 1 ∷ [];
  aes_decrypt = λ key bytes. zeros ++ zeros;
  pem_signature = λ cert. some (9 ∷ []);
  digest_verify = λ bytes signature cert. true;
  digest_sign = λ bytes. some (8 ∷ []);
  own_signature = 7 ∷ [];
  stale = zeros;
  launch_parameters = [];
}

-- The same host, where no certificate verifies.
abbrev forged_host : Host
forged_host = record toy_host { digest_verify = λ bytes signature cert. false }

abbrev toy_server : Server
toy_server = record {
  address = chars "10.0.0.1";
  gpu_type = none;
  paired = false;
  unsupported = false;
  is_nvidia_software = false;
  current_game = pos 0;
  server_major_version = pos 3;
  gs_version = none;
  modes = [];
  app_version = none;
  gfe_version = none;
  codec_mode_support = pos 0;
  rtsp_session_url = none;
  http_port = 47989;
  https_port = 0;
}

abbrev toy_session : Session
toy_session = record {
  server = toy_server;
  error = [];
  unique_id = chars "0123456789ABCDEF";
  private_key = none;
  cert_hex = [];
  requests = [];
  draws = 0;
}

xml_search_example : xml_search answer_parse (chars "paired") ≡ (gs_ok, chars "1")
unfolding str_eq
xml_search_example = xml_search_lem answer_parse (chars "paired") answer refl refl

-- The line break behind each element of a host's answer.
abbrev line_break : Others
unfolding all_other
line_break = record { events = character_data (10 ∷ []) ∷ []; all_others = refl }

-- An element that the program does not read.
abbrev hdr_element : Others
unfolding all_other is_other_name str_eq
hdr_element = record {
  events =
      character_data (10 ∷ [])
      ∷ start_element (chars "IsHdrSupported") []
      ∷ character_data (chars "1")
      ∷ end_element (chars "IsHdrSupported")
      ∷ [];
  all_others = refl;
}

abbrev two_apps : List AppEntry
two_apps =
    record {
      before = hdr_element;
      title = chars "Ste";
      title_rest = chars "am" ∷ [];
      between = line_break;
      number = chars "1";
      number_rest = [];
      behind = hdr_element;
      after = line_break;
    }
    ∷ record {
      before = hdr_element;
      title = chars "Desktop";
      title_rest = [];
      between = line_break;
      number = chars "88";
      number_rest = [];
      behind = line_break;
      after = line_break;
    }
    ∷ []

abbrev two_apps_parse : XmlParse
unfolding line_break hdr_element
two_apps_parse = record {
  success = true;
  events = answer_events ((chars "status_code", chars "200") ∷ []) line_break two_apps;
  message = [];
}

-- The document passes the test of the status that `gs_applist` makes first.
two_apps-accepted : xml_status two_apps_parse [] ≡ (gs_ok, [])
unfolding xml_status two_apps_parse line_break hdr_element str_eq atoi ◌+ℤ◌ ◌-ℤ◌
two_apps-accepted = refl

xml_applist_example : xml_applist (255 ∷ []) two_apps_parse ≡ (gs_ok, reverse (map app_of two_apps))
unfolding two_apps_parse
xml_applist_example =
    xml_applist_lem (255 ∷ []) two_apps_parse ((chars "status_code", chars "200") ∷ []) line_break
      two_apps refl refl

hex_to_bytes-bytes_to_hex_example :
    hex_to_bytes (bytes_to_hex (0 ∷ 171 ∷ 255 ∷ [])) (9 ∷ 9 ∷ 9 ∷ []) ≡ 0 ∷ 171 ∷ 255 ∷ []
hex_to_bytes-bytes_to_hex_example =
    hex_to_bytes-bytes_to_hex (0 ∷ 171 ∷ 255 ∷ []) (9 ∷ 9 ∷ 9 ∷ []) (omega arith) refl

pair_runs : (gs_pair toy_host (chars "1234") toy_session).0 ≡ gs_ok
unfolding gs_pair pair_body exchanges pair_cleanup server_cert client_challenge
    server_challenge_response check_pairing_secret check_answer client_pairing_secret send_secret
    pair_request confirm_paired wait_paired wait_round pair_request_wait_paired request request_ok
    status_of search_for search_ok search_or command_url draw_uuid draw_bytes xml_search xml_status
    ◌>>=◌ ◌>>◌ pure leave leave_saying modify_server server_of session_of require require_saying
    str_eq atoi verify_signature expected_response hash_for hash_length derive_key http_request
    http_create_data ◌+ℤ◌ ◌-ℤ◌
pair_runs = refl

abbrev toy_asked : List Text
toy_asked = (gs_pair toy_host (chars "1234") toy_session).1.requests

gs_pair_authenticates_example :
    (toy_session.server.paired ≡ false)
    × ((gs_pair toy_host (chars "1234") toy_session).1.server.paired ≡ true)
    × Evidence toy_host
        (chars "1234")
        toy_session
        (drop 1 toy_asked)
        (drop 2 toy_asked)
        (drop 3 toy_asked)
gs_pair_authenticates_example = gs_pair_authenticates toy_host (chars "1234") toy_session pair_runs

forged_code : (gs_pair forged_host (chars "1234") toy_session).0 ≡ gs_failed
unfolding gs_pair pair_body exchanges pair_cleanup server_cert client_challenge
    server_challenge_response check_pairing_secret check_answer client_pairing_secret send_secret
    pair_request confirm_paired wait_paired wait_round pair_request_wait_paired request request_ok
    status_of search_for search_ok search_or command_url draw_uuid draw_bytes xml_search xml_status
    ◌>>=◌ ◌>>◌ pure leave leave_saying modify_server server_of session_of require require_saying
    str_eq atoi verify_signature expected_response hash_for hash_length derive_key http_request
    http_create_data ◌+ℤ◌ ◌-ℤ◌ gs_unpair
forged_code = refl

failed_ne_ok : gs_failed ≢ gs_ok
failed_ne_ok e = cc

forged_fails : (gs_pair forged_host (chars "1234") toy_session).0 ≢ gs_ok
forged_fails e = failed_ne_ok (sym forged_code ∙ e)

gs_pair-IsUndone_example :
    IsUndone forged_host toy_server (gs_pair forged_host (chars "1234") toy_session)
gs_pair-IsUndone_example = gs_pair-IsUndone forged_host (chars "1234") toy_session forged_fails

wait_paired_fuel_example :
    wait_paired toy_host 61 (chars "http://h/") http_create_data 0 60000
    ≡ wait_paired toy_host 1000 (chars "http://h/") http_create_data 0 60000
wait_paired_fuel_example =
    wait_paired_fuel toy_host 60 999 (chars "http://h/") http_create_data 0 60000 (omega arith)
      (omega arith)

status_runs : (load_server_status toy_host toy_session).0 ≡ gs_ok
unfolding load_server_status load_either check_version load_serverinfo fetch_serverinfo
    read_serverinfo set_serverinfo load_modes xml_modelist to_u16 contains is_prefix request
    status_of search_for search_or command_url draw_uuid xml_search xml_status ◌>>=◌ ◌>>◌ pure
    modify_server server_of require str_eq atoi http_request http_create_data ◌+ℤ◌ ◌-ℤ◌
status_runs = refl

load_server_status_lem_example : (load_server_status toy_host toy_session).1.server.https_port ≢ 0
load_server_status_lem_example = (load_server_status_lem toy_host toy_session status_runs).1

-- The document of `answer` with a `resume` that reports failure would be judged alike.
read_launch_code_example : code_of (read_launch toy_host http_create_data toy_session).0 ≡ (
    if is_ok (xml_status answer_parse []).0
    then (if str_eq (xml_search answer_parse (chars "gamesession")).1 (chars "0")
        then gs_failed
        else gs_ok)
    else (xml_status answer_parse []).0)
read_launch_code_example = read_launch_code toy_host http_create_data toy_session refl

-- A key directory with a certificate of two bytes, whose id is not the default one.
abbrev usable_store : KeyStore
usable_store = record {
  made = λ d. true;
  unique_file = some (chars "FEDCBA9876543210");
  unique_writable = true;
  certificate_file = none;
  generated_file = some (0x2d ∷ 0x0a ∷ []);
  is_certificate = λ content. true;
  -- a file that holds no key
  key_file = some (0 ∷ []);
  parse_key = λ content. none;
}

makes_tree : tree (chars "/home/x") ≡ chars "/home" ∷ chars "/home/x" ∷ []
unfolding tree
makes_tree = refl

load_unique_id-default_example :
    load_unique_id usable_store toy_session
    ≡ (gs_ok, record toy_session { unique_id = default_id }, some default_id)
load_unique_id-default_example = load_unique_id-default usable_store toy_session

init_runs : (gs_init toy_host usable_store (chars "h") 0 false toy_session).0 ≡ gs_ok
unfolding gs_init load_keys load_unique_id load_cert read_cert read_private_key fresh_server
    load_server_status load_either check_version load_serverinfo fetch_serverinfo read_serverinfo
    set_serverinfo load_modes xml_modelist to_u16 contains is_prefix request status_of search_for
    search_or command_url draw_uuid xml_search xml_status ◌>>=◌ ◌>>◌ pure modify_server server_of
    require str_eq atoi http_request http_create_data ◌+ℤ◌ ◌-ℤ◌
init_runs = refl

gs_init_lem_example :
    (gs_init toy_host usable_store (chars "h") 0 false toy_session).1.server.https_port ≢ 0
gs_init_lem_example =
    (gs_init_lem toy_host usable_store (chars "h") 0 false toy_session init_runs).1
