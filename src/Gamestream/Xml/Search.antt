-- ===== src/Gamestream/Xml/Search.antt =====
-- What `xml_search` finds in a document that is well nested.
use moonlight_embedded_for_d.Base.{
  ℕ, suc, zero, ◌≡◌, refl, ap, ◌∙◌, pos, ◌+ℤ◌, ◌-ℤ◌, ltb_ℤ, true, List, [], ◌∷◌, ◌++◌, arith, inl,
  inr, Text, str_eq, length, take, length-append, Bool-cases, if◌then◌else◌,
}
use mathlib.Core.List.{append-nil, append_assoc}
use moonlight_embedded_for_d.Gamestream.Errors.{gs_ok}
use moonlight_embedded_for_d.Gamestream.Xml.{
  XmlEvent, start_element, end_element, character_data, XmlParse, XmlQuery, write_data,
  search_event, search_events, xml_search,
}

-- The content of an element: text and elements, each element followed by the content after it.
pub data Content : Type 0 where
  empty : Content
  text_then : Text → Content → Content
  element : Text → List (Text × Text) → Content → Content → Content

-- The events that a parser makes of a content.
abbrev pub events_of : Content → List XmlEvent
events_of empty = []
events_of (text_then s rest) = character_data s ∷ events_of rest
events_of (element name atts inner rest) =
    start_element name atts ∷ (events_of inner ++ (end_element name ∷ events_of rest))

-- The text that stands inside elements named `node`, at any depth, where `depth` of them are open.
abbrev pub text_inside : Text → ℕ → Content → Text
text_inside node depth empty = []
text_inside node depth (text_then s rest) =
    elim depth [ zero ↦ [] | suc k ↦ s ] ++ text_inside node depth rest
text_inside node depth (element name atts inner rest) =
    text_inside node (if str_eq node name then suc depth else depth) inner
    ++ text_inside node depth rest

search_events-append :
    (q : XmlQuery Text) (es fs : List XmlEvent)
    → search_events q (es ++ fs) ≡ search_events (search_events q es) fs
unfolding search_events
search_events-append q [] fs = refl
search_events-append q (e ∷ es) fs = search_events-append (search_event q e) es fs

-- The state of a search at `depth` open elements, with `m` found so far.
abbrev state_at : Text → ℕ → Text → XmlQuery Text
state_at node depth m = record { memory = m; size = length m; start = pos depth; target = node }

take-length : (m s : Text) → take (length m) m ++ s ≡ m ++ s
take-length [] s = refl
take-length (c ∷ m) s = ap (λ t. c ∷ t) (take-length m s)

is_open : (k : ℕ) → ltb_ℤ (pos 0) (pos (suc k)) ≡ true
is_open k = ground arith

write_data-state_at :
    (node : Text) (depth : ℕ) (m s : Text)
    → write_data (state_at node depth m) s
      ≡ state_at node depth (m ++ elim depth [ zero ↦ [] | suc k ↦ s ])
unfolding write_data
write_data-state_at node zero m s = rw append-nil
write_data-state_at node (suc k) m s = rw (is_open k, take-length, length-append {0})

one_more : (d : ℕ) → pos d +ℤ pos 1 ≡ pos (suc d)
unfolding ◌+ℤ◌
one_more d = ground arith

one_less : (d : ℕ) → pos (suc d) -ℤ pos 1 ≡ pos d
unfolding ◌-ℤ◌
one_less d = ground arith

search_start-state_at :
    (node name : Text) (atts : List (Text × Text)) (d : ℕ) (m : Text)
    → search_event (state_at node d m) (start_element name atts)
      ≡ state_at node (if str_eq node name then suc d else d) m
unfolding search_event
search_start-state_at node name atts d m = elim (Bool-cases (str_eq node name)) [
  | inl e ↦ rw (e, one_more)
  | inr e ↦ rw e
]

search_end-state_at :
    (node name : Text) (d : ℕ) (m : Text)
    → search_event (state_at node (if str_eq node name then suc d else d) m) (end_element name)
      ≡ state_at node d m
unfolding search_event
search_end-state_at node name d m = elim (Bool-cases (str_eq node name)) [
  | inl e ↦ rw (e, one_less)
  | inr e ↦ rw e
]

search_content :
    (node : Text) (depth : ℕ) (m : Text) (c : Content)
    → search_events (state_at node depth m) (events_of c)
      ≡ state_at node depth (m ++ text_inside node depth c)
unfolding search_events
search_content node depth m empty = rw append-nil
search_content node depth m (text_then s rest) =
    ap (λ q. search_events q (events_of rest)) (write_data-state_at node depth m s)
    ∙ search_content node depth _ rest
    ∙ ap (state_at node depth) (append_assoc m _ _)
search_content node depth m (element name atts inner rest) =
    let d : ℕ = if str_eq node name then suc depth else depth in
    ap (λ q. search_events q (events_of inner ++ (end_element name ∷ events_of rest)))
      (search_start-state_at node name atts depth m)
    ∙ search_events-append (state_at node d m) (events_of inner) _
    ∙ ap (λ q. search_events q (end_element name ∷ events_of rest)) (search_content node d m inner)
    ∙ ap (λ q. search_events q (events_of rest)) (search_end-state_at node name depth _)
    ∙ search_content node depth _ rest
    ∙ ap (state_at node depth) (append_assoc m _ _)

-- On a well nested document that parses, `xml_search` returns GS_OK and exactly the text that
-- stands inside the elements of the wanted name, in order of appearance.
pub xml_search_lem :
    (parse : XmlParse) (node : Text) (c : Content)
    → parse.success ≡ true
    → parse.events ≡ events_of c
    → xml_search parse node ≡ (gs_ok, text_inside node 0 c)
unfolding xml_search
xml_search_lem parse node c ok e =
    rw (ok, e) (ap (λ (q : XmlQuery Text). (gs_ok, q.memory)) (search_content node 0 [] c))
