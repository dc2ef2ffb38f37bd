-- ===== src/Gamestream/Client/ServerInfo/Loaded.antt =====
-- What an answer that `load_serverinfo` of libgamestream/client.c has read leaves in the server.
use mathlib.Core.Path.{subst}
use moonlight_embedded_for_d.Base.{
  ℤ, ◌≡◌, ◌≢◌, refl, sym, ap, ◌∙◌, Bool, true, some, List, ◌∷◌, Text, chars, arith,
}
use moonlight_embedded_for_d.Gamestream.Errors.{
  is_ok, gs_ok, gs_invalid, gs_io_error, gs_error_code,
}
use moonlight_embedded_for_d.Gamestream.Http.{HttpData, CurlReply, http_create_data, http_request}
use moonlight_embedded_for_d.Gamestream.Xml.{DisplayMode, xml_modelist}
use moonlight_embedded_for_d.Gamestream.Client.{
  Server, Session, Host, Outcome, done, M, ◌>>=◌, ◌>>◌, pure, require, modify_server,
}
use moonlight_embedded_for_d.Gamestream.Client.Steps.{
  >>=-eq-done, >>-eq-done, >>-done, require-eq-done, done-injective, server_of-eq,
}
use moonlight_embedded_for_d.Gamestream.Client.Requests.{request}
use moonlight_embedded_for_d.Gamestream.Client.Requests.Answers.{
  answer, text_in, is_answered, is_document, search_or-eq-done, status_of-keeps,
}
use moonlight_embedded_for_d.Gamestream.Client.ServerInfo.{
  load_modes, set_serverinfo, fetch_serverinfo, read_serverinfo,
}

module _ (host : Host) where
  -- The modes that a body lists.
  unfoldable pub modes_in : HttpData → List DisplayMode
  modes_in mem = (xml_modelist host.stale (host.expat mem.memory)).1

  -- The fields that a document sets by its texts.
  unfoldable pub set_from : HttpData → Server → Server
  set_from mem =
      set_serverinfo (text_in host mem (chars "currentgame"))
        (text_in host mem (chars "PairStatus")) (text_in host mem (chars "appversion"))
        (text_in host mem (chars "state")) (text_in host mem (chars "ServerCodecModeSupport"))
        (text_in host mem (chars "HttpsPort"))

  -- The host's answer to the last address asked arrived, is a document, and the server's fields are
  -- what it says.
  pub record IsLoaded (t : Session) : Type 0 where
    pub arrived : is_answered host t.requests ≡ true
    pub document : is_document host (answer host t.requests) ≡ true
    pub fields : t.server ≡ set_from (answer host t.requests) t.server
    pub app_version :
        t.server.app_version ≡ some (text_in host (answer host t.requests) (chars "appversion"))
    pub gpu_type :
        t.server.gpu_type ≡ some (text_in host (answer host t.requests) (chars "gputype"))
    pub gs_version :
        t.server.gs_version ≡ some (text_in host (answer host t.requests) (chars "GsVersion"))
    pub gfe_version :
        t.server.gfe_version ≡ some (text_in host (answer host t.requests) (chars "GfeVersion"))
    pub modes : t.server.modes ≡ modes_in (answer host t.requests)

  set_serverinfo-port :
      (game paired version state codecs port : Text) (w : Server)
      → (set_serverinfo game paired version state codecs port w).https_port ≢ 0
  unfolding set_serverinfo
  set_serverinfo-port game paired version state codecs port w = ground arith

  pub IsLoaded-port : (t : Session) → IsLoaded t → t.server.https_port ≢ 0
  unfolding set_from
  IsLoaded-port t h e =
      set_serverinfo-port _ _ _ _ _ _ t.server
        (sym (ap (λ (x : Server). x.https_port) h.fields) ∙ e)

  modes_in-found :
      (mem : HttpData)
      → is_document host mem ≡ true
      → (xml_modelist host.stale (host.expat mem.memory) ≡ (gs_ok, modes_in mem))
  unfolding is_document modes_in xml_modelist
  modes_in-found mem h = rw (h, modes_in) refl

  load_modes-run :
      (mem : HttpData) (s : Session)
      → is_document host mem ≡ true
      → load_modes host mem s
        ≡ (done tt, record s { server = record (s.server) { modes = modes_in mem } })
  unfolding load_modes
  load_modes-run mem s h = rw (modes_in-found mem h) refl

  modify_server-eq :
      {B : Type 0} (f : Server → Server) (k : M B) (s : Session) {r : Outcome B × Session}
      → (modify_server f >> k) s ≡ r
      → k (record s { server = f s.server }) ≡ r
  unfolding ◌>>◌ ◌>>=◌ modify_server
  modify_server-eq f k s e = e

  -- The end of `load_serverinfo`, from the modes on.
  read-IsLoaded :
      (s : Session) (b : Bool) {u : Unit {0}} {t : Session}
      → let mem = answer host s.requests in
        is_answered host s.requests ≡ true
        → is_document host mem ≡ true
        → s.server.app_version ≡ some (text_in host mem (chars "appversion"))
        → s.server.gpu_type ≡ some (text_in host mem (chars "gputype"))
        → s.server.gs_version ≡ some (text_in host mem (chars "GsVersion"))
        → s.server.gfe_version ≡ some (text_in host mem (chars "GfeVersion"))
        → (load_modes host mem >> (require b gs_invalid >> modify_server (set_from mem))) s
          ≡ (done u, t)
        → IsLoaded t
  unfolding set_from set_serverinfo modify_server
  read-IsLoaded s b arrived document app gpu gs gfe e =
      let mem : HttpData = answer host s.requests in
      let (s', r, e') =
        >>-eq-done _ _ _ (sym (>>-done _ _ s (load_modes-run mem s document)) ∙ e) in
      subst IsLoaded
        (ap (λ (x : Session). record x { server = set_from mem x.server })
            (sym (require-eq-done b gs_invalid r).1)
          ∙ (done-injective e').1)
        (record {
          arrived = arrived;
          document = document;
          fields = refl;
          app_version = app;
          gpu_type = gpu;
          gs_version = gs;
          gfe_version = gfe;
          modes = refl;
        })

  read_serverinfo-IsLoaded :
      (s : Session) {u : Unit {0}} {t : Session}
      → is_answered host s.requests ≡ true
      → read_serverinfo host (answer host s.requests) s ≡ (done u, t)
      → IsLoaded t
  unfolding read_serverinfo set_from
  read_serverinfo-IsLoaded s {u} {t} arrived e =
      let mem : HttpData = answer host s.requests in
      let (document, e1) = search_or-eq-done host gs_invalid mem _ _ s e in
      let (_, e2) = search_or-eq-done host gs_invalid mem _ _ s e1 in
      let (_, e3) = search_or-eq-done host gs_invalid mem _ _ s e2 in
      let (_, e4) = search_or-eq-done host gs_invalid mem _ _ _ (modify_server-eq _ _ s e3) in
      let (_, e5) = search_or-eq-done host gs_invalid mem _ _ _ e4 in
      let (_, e6) = search_or-eq-done host gs_invalid mem _ _ _ e5 in
      let (_, e7) = search_or-eq-done host gs_invalid mem _ _ _ (modify_server-eq _ _ _ e6) in
      let (_, e8) = search_or-eq-done host gs_invalid mem _ _ _ (modify_server-eq _ _ _ e7) in
      let (_, e9) = search_or-eq-done host gs_invalid mem _ _ _ (modify_server-eq _ _ _ e8) in
      read-IsLoaded _ _ arrived document refl refl refl refl e9

  http_request-success :
      (reply : CurlReply) (mem : HttpData)
      → is_ok (http_request reply mem).0 ≡ true
      → reply.success ≡ true
  unfolding http_request
  http_request-success reply mem h = ground (arith, h)

  request-eq-done :
      (url : Text) (mem : HttpData) (s : Session) {r : ℤ × HttpData} {t : Session}
      → request host url mem s ≡ (done r, t)
      → (r ≡ http_request (host.curl (url ∷ s.requests)) mem) × (t.requests ≡ url ∷ s.requests)
  unfolding request
  request-eq-done url mem s e =
      let (same, asked) = done-injective e in
      (sym same, sym (ap (λ (x : Session). x.requests) asked))

  fetch_serverinfo-answer :
      (https : Bool) (s : Session) {mem : HttpData} {t : Session}
      → fetch_serverinfo host https s ≡ (done mem, t)
      → (is_answered host t.requests ≡ true) × (mem ≡ answer host t.requests)
  unfolding fetch_serverinfo pure answer is_answered
  fetch_serverinfo-answer https s e =
      let (uuid, s1, _, e1) = >>=-eq-done _ _ s e in
      let (url, s2, _, e2) = >>=-eq-done _ _ s1 (server_of-eq _ s1 e1) in
      let (r, s3, e3, f3) = >>=-eq-done _ _ s2 e2 in
      let (reply, asked) = request-eq-done url http_create_data s2 e3 in
      let (s4, e4, f4) = >>-eq-done _ _ s3 f3 in
      let (ok, same) = require-eq-done _ gs_io_error e4 in
      let (status, s5, e5, f5) = >>=-eq-done _ _ s4 f4 in
      let (s6, e6, f6) = >>-eq-done _ _ s5 f5 in
      let (is_mem, is_t) = done-injective f6 in
      let requests : _ ≡ url ∷ s2.requests =
        ap (λ (x : Session). x.requests) (sym is_t ∙ (require-eq-done _ gs_error_code e6).1)
        ∙ (status_of-keeps host r.1 s4 e5).0
        ∙ ap (λ (x : Session). x.requests) same
        ∙ asked in
      (
        ap (is_answered host) requests
            ∙ http_request-success (host.curl (url ∷ s2.requests)) http_create_data
                (ap (λ (x : ℤ × HttpData). is_ok x.0) (sym reply) ∙ ok),
        sym is_mem ∙ ap (λ (x : ℤ × HttpData). x.1) reply ∙ ap (answer host) (sym requests),
      )

  pub fetch_serverinfo-IsLoaded :
      (https : Bool) (s : Session) {u : Unit {0}} {t : Session}
      → (fetch_serverinfo host https >>= λ mem. read_serverinfo host mem) s ≡ (done u, t)
      → IsLoaded t
  fetch_serverinfo-IsLoaded https s {u} {t} e =
      let (mem, s', e1, e2) = >>=-eq-done _ _ s e in
      let (arrived, same) = fetch_serverinfo-answer https s e1 in
      read_serverinfo-IsLoaded s' arrived (ap (λ m. read_serverinfo host m s') (sym same) ∙ e2)
