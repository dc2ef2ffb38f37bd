-- ===== src/Gamestream/Client/ServerInfo/Facts.antt =====
-- What is known of the server's record after `load_server_status` of libgamestream/client.c.
use moonlight_embedded_for_d.Base.{
  ℤ, pos, ◌≤ℤ◌, ◌≡◌, ◌≢◌, refl, sym, ap, ◌∙◌, Bool, true, false, [], ◌==◌, Text, arith, Bool-cases,
  inl, inr, if◌then◌else◌,
}
use moonlight_embedded_for_d.Gamestream.Errors.{is_ok, gs_ok, gs_invalid}
use moonlight_embedded_for_d.Gamestream.Http.{HttpData}
use moonlight_embedded_for_d.Gamestream.Client.{
  Session, Host, Outcome, done, exit, M, ◌>>=◌, code_of,
}
use moonlight_embedded_for_d.Gamestream.Client.Steps.{
  FailsInError, >>=-FailsInError, >>-FailsInError, IsTame-FailsInError, modify_server-FailsInError,
  ExitsInError, >>=-IsTame, >>-IsTame, require-IsTame, server_of-IsTame, pure-IsTame,
}
use moonlight_embedded_for_d.Gamestream.Client.Requests.{search_or}
use moonlight_embedded_for_d.Gamestream.Client.Requests.Tame.{
  draw_uuid-IsTame, command_url-IsTame, request-IsTame, status_of-IsTame, search_or-IsTame,
}
use moonlight_embedded_for_d.Gamestream.Client.ServerInfo.Loaded.{
  IsLoaded, IsLoaded-port, fetch_serverinfo-IsLoaded,
}
use moonlight_embedded_for_d.Gamestream.Client.ServerInfo.{
  load_modes, fetch_serverinfo, read_serverinfo, load_serverinfo, load_either, check_version,
  load_server_status,
}

eq_of_is_ok : (r : ℤ) → is_ok r ≡ true → r ≡ gs_ok
eq_of_is_ok r h = ground arith

-- What two results ensure, the first of them that is GS_OK ensures.
first_or :
    (P : Session → Type 0) (r q : ℤ × Session)
    → (r.0 ≡ gs_ok → P r.1)
    → (q.0 ≡ gs_ok → P q.1)
    → (let (ret, s') = r in if is_ok ret then (ret, s') else q).0 ≡ gs_ok
    → P (let (ret, s') = r in if is_ok ret then (ret, s') else q).1
first_or P (ret, s') q hr hq = elim (Bool-cases (is_ok ret)) [ inl e ↦ rw e hr | inr e ↦ rw e hq ]

-- What `check_version` lets through.
check_version_lem :
    (host : Host) (ret : ℤ) (s : Session)
    → (check_version host ret s).0 ≡ gs_ok
    → (ret ≡ gs_ok)
      × ((check_version host ret s).1 ≡ s)
      × (s.server.unsupported ≡ false
          → (pos 3 ≤ℤ s.server.server_major_version) × (s.server.server_major_version ≤ℤ pos 7))
unfolding check_version
check_version_lem host ret s = ground arith

checked :
    (host : Host) (r : ℤ × Session)
    → (r.0 ≡ gs_ok → IsLoaded host r.1)
    → let q = (let (ret, s2) = r in check_version host ret s2) in
      q.0 ≡ gs_ok
      → IsLoaded host q.1
        × (q.1.server.unsupported ≡ false
            → (pos 3 ≤ℤ q.1.server.server_major_version)
              × (q.1.server.server_major_version ≤ℤ pos 7))
checked host (ret, s) h ok =
    let (ret_ok, same, range) = check_version_lem host ret s ok in rw same (h ret_ok, range)

module _ (host : Host) where
  load_modes-FailsInError : (mem : HttpData) → FailsInError (load_modes host mem)
  unfolding load_modes
  load_modes-FailsInError mem = record { apply = λ s. ground arith }

  read_serverinfo-FailsInError : (mem : HttpData) → FailsInError (read_serverinfo host mem)
  unfolding read_serverinfo
  read_serverinfo-FailsInError mem = >>=-FailsInError _ _ (found _) λ game.
      >>=-FailsInError _ _ (found _) λ paired. >>=-FailsInError _ _ (found _) λ version.
        >>-FailsInError _ _ (modify_server-FailsInError _) (
          >>=-FailsInError _ _ (found _) λ state. >>=-FailsInError _ _ (found _) λ codecs.
            >>=-FailsInError _ _ (found _) λ gpu.
              >>-FailsInError _ _ (modify_server-FailsInError _) (
                >>=-FailsInError _ _ (found _) λ gs.
                  >>-FailsInError _ _ (modify_server-FailsInError _) (
                    >>=-FailsInError _ _ (found _) λ gfe.
                      >>-FailsInError _ _ (modify_server-FailsInError _) (
                        >>=-FailsInError _ _ (found _) λ port.
                          >>-FailsInError _ _ (load_modes-FailsInError mem) (
                            >>-FailsInError _ _
                              (IsTame-FailsInError _ (require-IsTame _ gs_invalid (λ _. refl)))
                              (modify_server-FailsInError _))))))
    where
      found : (node : Text) → FailsInError (search_or host gs_invalid mem node)
      found node = IsTame-FailsInError _ (search_or-IsTame host gs_invalid mem node refl)

  fetch_serverinfo-FailsInError : (https : Bool) → FailsInError (fetch_serverinfo host https)
  unfolding fetch_serverinfo
  fetch_serverinfo-FailsInError https = IsTame-FailsInError _ (
      >>=-IsTame _ _ (draw_uuid-IsTame host) λ uuid. >>=-IsTame _ _ server_of-IsTame λ v.
        >>=-IsTame _ _ (command_url-IsTame host 4096 _ _ _ uuid []) λ url.
          >>=-IsTame _ _ (request-IsTame host url _) λ r.
            >>-IsTame _ _ (require-IsTame _ _ (λ _. refl)) (
              >>=-IsTame _ _ (status_of-IsTame host r.1)
                λ status. >>-IsTame _ _ (require-IsTame _ _ (λ _. refl)) (pure-IsTame r.1)))

  load_serverinfo-IsLoaded :
      (https : Bool) (s : Session)
      → (load_serverinfo host https s).0 ≡ gs_ok
      → IsLoaded host (load_serverinfo host https s).1
  unfolding load_serverinfo
  load_serverinfo-IsLoaded https s ok = go _ refl (fails.apply s) ok
    where
      body : M (Unit {0})
      body = fetch_serverinfo host https >>= λ mem. read_serverinfo host mem

      fails : FailsInError body
      fails =
          >>=-FailsInError _ _ (fetch_serverinfo-FailsInError https)
            λ mem. read_serverinfo-FailsInError mem

      go :
          (r : Outcome (Unit {0}) × Session)
          → body s ≡ r
          → ExitsInError r.0
          → code_of r.0 ≡ gs_ok
          → IsLoaded host r.1
      go (done u, t) e h k = fetch_serverinfo-IsLoaded host https s e
      go (exit c, t) e h k = cc (sym h ∙ ap is_ok k)

  load_either-IsLoaded :
      (s : Session) → (load_either host s).0 ≡ gs_ok → IsLoaded host (load_either host s).1
  unfolding load_either
  load_either-IsLoaded s =
      first_or (IsLoaded host) (load_serverinfo host true s)
        (load_serverinfo host false (load_serverinfo host true s).1)
        (load_serverinfo-IsLoaded true s)
        (load_serverinfo-IsLoaded false (load_serverinfo host true s).1)

  status_after :
      (first : ℤ × Session)
      → let q =
          (let (ret, s1) = first in
            if is_ok ret
            then (let (r, s2) = load_either host s1 in check_version host r s2)
            else (ret, s1)) in
        q.0 ≡ gs_ok
        → IsLoaded host q.1
          × (q.1.server.unsupported ≡ false
              → (pos 3 ≤ℤ q.1.server.server_major_version)
                × (q.1.server.server_major_version ≤ℤ pos 7))
  status_after (ret, s1) = elim (Bool-cases (is_ok ret)) [
    | inl e ↦ rw e (checked host (load_either host s1) (load_either-IsLoaded s1))
    | inr e ↦ rw e (λ ok. cc (sym e ∙ ap is_ok ok))
  ]

  -- When `load_server_status` returns GS_OK: the host's answer to the last address asked arrived and
  -- is a document, and the fields of the server are what that document says, its version texts and
  -- display modes included; the HTTPS port is known; and unless unsupported versions are let through
  -- the host's major version lies between 3 and 7.
  pub load_server_status_lem :
      (s : Session)
      → (load_server_status host s).0 ≡ gs_ok
      → let v = (load_server_status host s).1.server in
        IsLoaded host (load_server_status host s).1
        × (v.https_port ≢ 0)
        × (v.unsupported ≡ false
            → (pos 3 ≤ℤ v.server_major_version) × (v.server_major_version ≤ℤ pos 7))
  unfolding load_server_status
  load_server_status_lem s ok =
      let (loaded, range) =
        status_after (if s.server.https_port == 0 then load_serverinfo host false s else (gs_ok, s))
          ok in
      (loaded, IsLoaded-port host _ loaded, range)
