-- ===== src/Gamestream/Client/Apps/Launch.antt =====
-- `gs_start_app` of libgamestream/client.c: what it asks for, and which answers it takes.
use moonlight_embedded_for_d.Base.{
  some, ℤ, ◌≡◌, refl, ap, ◌∙◌, inl, inr, Bool, true, false, not, Text, chars, str_eq, Bool-cases,
  if◌then◌else◌, arith,
}
use moonlight_embedded_for_d.Gamestream.Errors.{is_ok, gs_ok, gs_failed}
use moonlight_embedded_for_d.Gamestream.Http.{HttpData}
use moonlight_embedded_for_d.Gamestream.Xml.{xml_search, xml_status}
use moonlight_embedded_for_d.Gamestream.Client.{
  Session, Host, Outcome, done, M, ◌>>=◌, ◌>>◌, pure, require, modify_server, code_of,
}
use moonlight_embedded_for_d.Gamestream.Client.Steps.{
  >>=-done, >>-done, >>-exit, require-true, require-false,
}
use moonlight_embedded_for_d.Gamestream.Client.Requests.{status_of, search_for}
use moonlight_embedded_for_d.Gamestream.Client.Apps.{session_result, read_launch}

-- `xml_search` succeeds on every document that parses: an element that is not there has the empty
-- text.
search_parsed :
    (host : Host) (mem : HttpData) (node : Text) (s : Session)
    → (host.expat mem.memory).success ≡ true
    → search_for host mem node s ≡ (done (gs_ok, (xml_search (host.expat mem.memory) node).1), s)
unfolding search_for xml_search
search_parsed host mem node s ok = rw (ok, xml_search)

-- On a document that parses, the answer of `gs_start_app` is the text of `gamesession`, be it
-- empty, and `resume` is not looked for.
session_result_parsed :
    (host : Host) (mem : HttpData) (s : Session)
    → (host.expat mem.memory).success ≡ true
    → session_result host mem s
      ≡ (done (xml_search (host.expat mem.memory) (chars "gamesession")).1, s)
unfolding session_result pure
session_result_parsed host mem s ok =
    >>=-done _ _ s (search_parsed host mem (chars "gamesession") s ok)

-- The last step of an accepted answer does not fail.
keep_url :
    (host : Host) (mem : HttpData) (s : Session)
    → code_of
        ((do
          (found, url) ← search_for host mem (chars "sessionUrl0")
          if is_ok found
              then modify_server (λ v. record v { rtsp_session_url = some url })
              else pure tt)
          s).0
      ≡ gs_ok
unfolding search_for pure modify_server ◌>>=◌
keep_url host mem s = ground arith

status_done :
    (host : Host) (mem : HttpData) (s : Session)
    → status_of host mem s ≡ (
      done (xml_status (host.expat mem.memory) s.error).0,
      record s { error = (xml_status (host.expat mem.memory) s.error).1 },
    )
unfolding status_of
status_done host mem s = refl

abbrev code_after : Outcome (Unit {0}) × Session → ℤ
code_after p = code_of p.0

-- `gs_start_app` behind the test of the status.
abbrev after_status : Host → HttpData → M (Unit {0})
after_status host mem = do
  result ← session_result host mem
  require (not (str_eq result (chars "0"))) gs_failed
  (found, url) ← search_for host mem (chars "sessionUrl0")
  if is_ok found then modify_server (λ v. record v { rtsp_session_url = some url }) else pure tt

after_status_code :
    (host : Host) (mem : HttpData) (zero_game : Bool) (t : Session)
    → (host.expat mem.memory).success ≡ true
    → str_eq (xml_search (host.expat mem.memory) (chars "gamesession")).1 (chars "0") ≡ zero_game
    → code_of (after_status host mem t).0 ≡ (if zero_game then gs_failed else gs_ok)
after_status_code host mem true t ok game =
    ap code_after (>>=-done _ _ t (session_result_parsed host mem t ok))
    ∙ ap code_after (>>-exit _ _ t (require-false _ gs_failed t (ap not game)))
after_status_code host mem false t ok game =
    ap code_after (>>=-done _ _ t (session_result_parsed host mem t ok))
    ∙ ap code_after (>>-done _ _ t (require-true _ gs_failed t (ap not game)))
    ∙ keep_url host mem t

status_code :
    (host : Host) (mem : HttpData) (status : ℤ) (t : Session)
    → (host.expat mem.memory).success ≡ true
    → let game = (xml_search (host.expat mem.memory) (chars "gamesession")).1 in
      code_of ((require (is_ok status) status >> after_status host mem) t).0
      ≡ (if is_ok status then (if str_eq game (chars "0") then gs_failed else gs_ok) else status)
status_code host mem status t ok = elim (Bool-cases (is_ok status)) [
  | inl e ↦
      ap code_after (>>-done _ _ t (require-true _ status t e))
      ∙ after_status_code host mem _ t ok refl
      ∙ rw e refl
  | inr e ↦ ap code_after (>>-exit _ _ t (require-false _ status t e)) ∙ rw e refl
]

-- The whole of what `gs_start_app` makes of an answer that parses: the status decides, then whether
-- the text of `gamesession` is `0`. What the answer says under `resume` has no influence.
pub read_launch_code :
    (host : Host) (mem : HttpData) (s : Session)
    → (host.expat mem.memory).success ≡ true
    → let status = (xml_status (host.expat mem.memory) s.error).0 in
      let game = (xml_search (host.expat mem.memory) (chars "gamesession")).1 in
      code_of (read_launch host mem s).0
      ≡ (if is_ok status then (if str_eq game (chars "0") then gs_failed else gs_ok) else status)
unfolding read_launch
read_launch_code host mem s ok =
    ap code_after (>>=-done _ _ s (status_done host mem s))
    ∙ status_code host mem (xml_status (host.expat mem.memory) s.error).0
        (record s { error = (xml_status (host.expat mem.memory) s.error).1 }) ok
