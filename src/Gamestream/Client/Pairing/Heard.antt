-- ===== src/Gamestream/Client/Pairing/Heard.antt =====
-- What the wait for the PIN in libgamestream/client.c has heard from the host, where it came to its
-- end.
use moonlight_embedded_for_d.Base.{
  ℕ, suc, zero, ◌+◌, ◌≡◌, refl, sym, ap, ◌∙◌, Bool, true, false, ◌∷◌, Text, chars, length,
  if◌then◌else◌,
}
use moonlight_embedded_for_d.Gamestream.Errors.{gs_failed}
use moonlight_embedded_for_d.Gamestream.Http.{HttpData, http_create_data}
use moonlight_embedded_for_d.Gamestream.Client.{Session, Host, done, M, pure, leave, leave_saying}
use moonlight_embedded_for_d.Gamestream.Client.Steps.{
  >>=-eq-done, >>-eq-done, require-eq-done, done-injective,
}
use moonlight_embedded_for_d.Gamestream.Client.Requests.{wait_round, wait_paired}
use moonlight_embedded_for_d.Gamestream.Client.Requests.Answers.{
  IsSized, answer-IsSized, answer, is_answered, request_ok-done, search_ok-done, status_of-keeps,
}

module _ (host : Host) where
  -- A body is the host's answer to the last address asked.
  pub record IsHeard (mem : HttpData) (t : Session) : Type 0 where
    pub arrived : is_answered host t.requests ≡ true
    pub is_answer : mem ≡ answer host t.requests

  pub created-IsSized : IsSized http_create_data
  unfolding http_create_data
  created-IsSized = record { sized = refl }

  pub IsHeard-IsSized : (mem : HttpData) (t : Session) → IsHeard mem t → IsSized mem
  IsHeard-IsSized mem t h = record {
    sized =
        ap (λ (m : HttpData). m.size) h.is_answer
        ∙ (answer-IsSized host t.requests).sized
        ∙ ap (λ (m : HttpData). length m.memory) (sym h.is_answer);
  }

  abbrev Waited : HttpData → Session → Session → Type 0
  Waited m s t = IsHeard m t × (t.draws ≡ s.draws)

  decided :
      (again : HttpData → M HttpData) (paired late : Bool) (mem m : HttpData) (s t : Session)
      → IsHeard mem s
      → (again mem s ≡ (done m, t) → Waited m s t)
      → (if paired
            then pure mem
            else if late
            then leave_saying (chars "Timed out waiting for host PIN confirmation") gs_failed
            else again mem)
          s
        ≡ (done m, t)
      → Waited m s t
  unfolding pure leave_saying
  decided again true late mem m s t h k e =
      let (a, b) = done-injective e in
      (
        record {
          arrived = ap (λ (x : Session). is_answered host x.requests) (sym b) ∙ h.arrived;
          is_answer = sym a ∙ h.is_answer ∙ ap (λ (x : Session). answer host x.requests) b;
        },
        sym (ap (λ (x : Session). x.draws) b),
      )
  decided again false true mem m s t h k e = cc
  decided again false false mem m s t h k e = k e

  wait_round-done :
      (again : HttpData → M HttpData) (late : Bool) (url : Text) (mem : HttpData) (s : Session)
      {m : HttpData} {t : Session}
      → IsSized mem
      → ((mem : HttpData) (s : Session) → IsSized mem → again mem s ≡ (done m, t) → Waited m s t)
      → wait_round host again late url mem s ≡ (done m, t)
      → Waited m s t
  unfolding wait_round
  wait_round-done again late url mem s {m} {t} h k e =
      let (m1, s1, e1, f1) = >>=-eq-done _ _ s e in
      let (arrived, is_answer, at1) = request_ok-done host url mem s h e1 in
      let (ret, s2, e2, f2) = >>=-eq-done _ _ s1 f1 in
      let (requests, draws) = status_of-keeps host m1 s1 e2 in
      let (s3, e3, f3) = >>-eq-done _ _ s2 f2 in
      let (paired, s4, e4, f4) = >>=-eq-done _ _ s3 f3 in
      let at4 : s4 ≡ s2 = (search_ok-done host m1 _ s3 e4).2 ∙ (require-eq-done _ ret e3).1 in
      let asked : s4.requests ≡ url ∷ s.requests =
        ap (λ (x : Session). x.requests) at4 ∙ requests ∙ ap (λ (x : Session). x.requests) at1 in
      let heard : IsHeard m1 s4 = record {
        arrived = ap (is_answered host) asked ∙ arrived;
        is_answer = is_answer ∙ ap (answer host) (sym asked);
      } in
      let (heard', same) =
        decided again _ late m1 m s4 t heard (k m1 s4 (IsHeard-IsSized m1 s4 heard)) f4 in
      (heard', same ∙ ap (λ (x : Session). x.draws) at4 ∙ draws ∙ ap (λ (x : Session). x.draws) at1)

  pub wait_paired-done :
      (fuel : ℕ) (url : Text) (mem : HttpData) (elapsed timeout : ℕ) (s : Session) {m : HttpData}
      {t : Session}
      → IsSized mem
      → wait_paired host fuel url mem elapsed timeout s ≡ (done m, t)
      → Waited m s t
  unfolding wait_paired leave
  wait_paired-done zero url mem elapsed timeout s h e = cc
  wait_paired-done (suc fuel) url mem elapsed timeout s h e =
      wait_round-done _ _ url mem s h
        (λ mem' s' h'. wait_paired-done fuel url mem' (elapsed + 1000) timeout s' h') e
