-- ===== src/Gamestream/Client/Requests/Answers.antt =====
-- What the host answered, where a function of libgamestream/client.c went on behind a request.
use moonlight_embedded_for_d.Base.{
  ltb, by_test, ℤ, ◌≡◌, refl, sym, ap, ◌∙◌, Bool, true, false, List, [], ◌∷◌, Text, length,
  length-append, arith, Bool-cases, inl, inr,
}
use moonlight_embedded_for_d.Gamestream.Errors.{gs_ok, gs_failed, gs_invalid}
use moonlight_embedded_for_d.Gamestream.Http.{
  HttpData, CurlReply, http_create_data, http_request, write_chunks, write_curl, reset_data,
}
use moonlight_embedded_for_d.Gamestream.Xml.{xml_search}
use moonlight_embedded_for_d.Gamestream.Client.{
  Session, Host, done, exit, M, ◌>>=◌, ◌>>◌, pure, require,
}
use moonlight_embedded_for_d.Gamestream.Client.Steps.{>>=-eq-done, >>=-done, done-injective}
use moonlight_embedded_for_d.Gamestream.Client.Requests.{
  request, request_ok, status_of, search_for, search_ok, search_or,
}

-- A body whose size is that of its text.
pub record IsSized (mem : HttpData) : Type 0 where
  pub sized : mem.size ≡ length mem.memory

write_chunks-IsSized :
    (mem : HttpData) (cs : List Text) → IsSized mem → IsSized (write_chunks mem cs)
unfolding write_chunks write_curl
write_chunks-IsSized mem [] h = h
write_chunks-IsSized mem (c ∷ cs) h =
    write_chunks-IsSized (write_curl mem c) cs
      (record { sized = ground (arith, h.sized, length-append mem.memory c) })

reset_data-created : (mem : HttpData) → IsSized mem → reset_data mem ≡ http_create_data
unfolding reset_data http_create_data
reset_data-created mem h =
    by_test (λ m. m ≡ http_create_data) (ltb 0 mem.size) (λ e. refl)
      (λ e. ground (arith, e, h.sized))

http_request-eq :
    (reply : CurlReply) (mem : HttpData)
    → IsSized mem
    → http_request reply mem ≡ http_request reply http_create_data
unfolding http_request http_create_data
http_request-eq reply mem h = rw (reset_data-created mem h) refl

module _ (host : Host) where
  -- The body of the host's answer to the last of the addresses asked so far.
  unfoldable pub answer : List Text → HttpData
  answer urls = (http_request (host.curl urls) http_create_data).1

  -- The text that a body holds in the elements of a name.
  unfoldable pub text_in : HttpData → Text → Text
  text_in mem node = (xml_search (host.expat mem.memory) node).1

  -- Was the transfer complete, and is the body a document?
  unfoldable pub is_answered : List Text → Bool
  is_answered urls = (host.curl urls).success

  unfoldable pub is_document : HttpData → Bool
  is_document mem = (host.expat mem.memory).success

  answered :
      (urls : List Text)
      → is_answered urls ≡ true
      → http_request (host.curl urls) http_create_data ≡ (gs_ok, answer urls)
  unfolding answer is_answered http_request
  answered urls h = rw (h, answer) refl

  pub answer-IsSized : (urls : List Text) → IsSized (answer urls)
  unfolding answer http_request http_create_data
  answer-IsSized urls =
      by_test (λ (r : ℤ × HttpData). IsSized r.1) (host.curl urls).success
        {x = (gs_ok, write_chunks http_create_data (host.curl urls).chunks)}
        {y = (gs_failed, write_chunks http_create_data (host.curl urls).chunks)} (λ e. written)
        (λ e. written)
    where
      written : IsSized (write_chunks http_create_data (host.curl urls).chunks)
      written =
          write_chunks-IsSized http_create_data (host.curl urls).chunks (record { sized = refl })

  text_in-found :
      (mem : HttpData) (node : Text)
      → is_document mem ≡ true
      → (xml_search (host.expat mem.memory) node ≡ (gs_ok, text_in mem node))
  unfolding is_document text_in xml_search
  text_in-found mem node h = rw (h, text_in) refl

  search_or-run :
      (code : ℤ) (mem : HttpData) (node : Text) (s : Session)
      → is_document mem ≡ true
      → search_or host code mem node s ≡ (done (text_in mem node), s)
  unfolding search_or search_for ◌>>=◌ ◌>>◌ require pure
  search_or-run code mem node s h = rw (text_in-found mem node h) refl

  search_or-fails :
      (code : ℤ) (mem : HttpData) (node : Text) (s : Session)
      → is_document mem ≡ false
      → search_or host code mem node s
        ≡ (exit code, record s { error = (host.expat mem.memory).message })
  unfolding search_or search_for is_document ◌>>=◌ ◌>>◌ require xml_search
  search_or-fails code mem node s h = rw h refl

  -- Behind a search that was to succeed, the rest goes on with the text.
  pub search_or-eq-done :
      {B : Type 0} (code : ℤ) (mem : HttpData) (node : Text) (f : Text → M B) (s : Session) {b : B}
      {t : Session}
      → (search_or host code mem node >>= f) s ≡ (done b, t)
      → (is_document mem ≡ true) × (f (text_in mem node) s ≡ (done b, t))
  search_or-eq-done code mem node f s e = elim (Bool-cases (is_document mem)) [
    | inl h ↦ (h, sym (>>=-done _ f s (search_or-run code mem node s h)) ∙ e)
    | inr h ↦
        let (a, s', p, _) = >>=-eq-done _ f s e in cc (sym (search_or-fails code mem node s h) ∙ p)
  ]

  search_ok-run :
      (mem : HttpData) (node : Text) (s : Session)
      → is_document mem ≡ true
      → search_ok host mem node s ≡ (done (text_in mem node), s)
  unfolding search_ok search_for ◌>>=◌ ◌>>◌ require pure
  search_ok-run mem node s h = rw (text_in-found mem node h) refl

  search_ok-fails :
      (mem : HttpData) (node : Text) (s : Session)
      → is_document mem ≡ false
      → search_ok host mem node s
        ≡ (exit gs_invalid, record s { error = (host.expat mem.memory).message })
  unfolding search_ok search_for is_document ◌>>=◌ ◌>>◌ require xml_search
  search_ok-fails mem node s h = rw h refl

  request_ok-run :
      (url : Text) (mem : HttpData) (s : Session)
      → IsSized mem
      → is_answered (url ∷ s.requests) ≡ true
      → request_ok host url mem s
        ≡ (done (answer (url ∷ s.requests)), record s { requests = url ∷ s.requests })
  unfolding request_ok request answer ◌>>=◌ ◌>>◌ require pure
  request_ok-run url mem s h k =
      rw (http_request-eq (host.curl (url ∷ s.requests)) mem h, answered (url ∷ s.requests) k) refl

  request_ok-fails :
      (url : Text) (mem : HttpData) (s : Session)
      → IsSized mem
      → is_answered (url ∷ s.requests) ≡ false
      → request_ok host url mem s ≡ (
        exit gs_failed,
        record s { requests = url ∷ s.requests; error = (host.curl (url ∷ s.requests)).message },
      )
  unfolding request_ok request ◌>>=◌ ◌>>◌ require is_answered http_request
  request_ok-fails url mem s h k = rw k refl

  pub request_ok-done :
      (url : Text) (mem : HttpData) (s : Session) {m : HttpData} {t : Session}
      → IsSized mem
      → request_ok host url mem s ≡ (done m, t)
      → (is_answered (url ∷ s.requests) ≡ true)
        × (m ≡ answer (url ∷ s.requests))
        × (t ≡ record s { requests = url ∷ s.requests })
  request_ok-done url mem s h e = elim (Bool-cases (is_answered (url ∷ s.requests))) [
    | inl k ↦ let (a, b) = done-injective (sym e ∙ request_ok-run url mem s h k) in (k, a, b)
    | inr k ↦ cc (sym (request_ok-fails url mem s h k) ∙ e)
  ]

  pub search_ok-done :
      (mem : HttpData) (node : Text) (s : Session) {text : Text} {t : Session}
      → search_ok host mem node s ≡ (done text, t)
      → (is_document mem ≡ true) × (text ≡ text_in mem node) × (t ≡ s)
  search_ok-done mem node s e = elim (Bool-cases (is_document mem)) [
    | inl k ↦ let (a, b) = done-injective (sym e ∙ search_ok-run mem node s k) in (k, a, b)
    | inr k ↦ cc (sym (search_ok-fails mem node s k) ∙ e)
  ]

  pub search_or-done :
      (code : ℤ) (mem : HttpData) (node : Text) (s : Session) {text : Text} {t : Session}
      → search_or host code mem node s ≡ (done text, t)
      → (is_document mem ≡ true) × (text ≡ text_in mem node) × (t ≡ s)
  search_or-done code mem node s e = elim (Bool-cases (is_document mem)) [
    | inl k ↦ let (a, b) = done-injective (sym e ∙ search_or-run code mem node s k) in (k, a, b)
    | inr k ↦ cc (sym (search_or-fails code mem node s k) ∙ e)
  ]

  -- A status that is read leaves the addresses and the draws as they were.
  pub status_of-keeps :
      (mem : HttpData) (s : Session) {status : ℤ} {t : Session}
      → status_of host mem s ≡ (done status, t)
      → (t.requests ≡ s.requests) × (t.draws ≡ s.draws)
  unfolding status_of
  status_of-keeps mem s e =
      let same = (done-injective e).1 in
      (sym (ap (λ (x : Session). x.requests) same), sym (ap (λ (x : Session). x.draws) same))
