-- ===== src/Gamestream/Xml/Lists.antt =====
-- What `xml_applist` makes of the application list that a host sends.
use mathlib.Core.List.{reverse, reverse-cons, append_assoc, append-nil}
use moonlight_embedded_for_d.Base.{
  ◌==ℤ◌, Bool, not, ◌&&◌, ◌||◌, by_test, ◌+◌, ◌≡◌, refl, sym, ap, ◌∙◌, pos, true, List, [], ◌∷◌,
  ◌++◌, map, Text, chars, str_eq, atoi, length, take, length-append, arith,
}
use moonlight_embedded_for_d.Gamestream.Errors.{gs_ok}
use moonlight_embedded_for_d.Gamestream.Xml.{
  XmlEvent, start_element, end_element, character_data, XmlParse, XmlQuery, App, applist_start,
  applist_end, applist_end_in, write_data, applist_event, applist_events, xml_applist,
}

-- Text arrives in one piece or more.
abbrev pub joined : List Text → Text
joined [] = []
joined (s ∷ ss) = s ++ joined ss

abbrev pub pieces : List Text → List XmlEvent
pieces [] = []
pieces (s ∷ ss) = character_data s ∷ pieces ss

-- An event that is no part of an App, an AppTitle or an ID.
unfoldable pub is_other_name : Text → Bool
is_other_name name =
    not (str_eq (chars "App") name)
    && (not (str_eq (chars "ID") name) && not (str_eq (chars "AppTitle") name))

unfoldable pub is_other : XmlEvent → Bool
unfolding is_other_name
is_other (start_element name atts) = is_other_name name
is_other (end_element name) = is_other_name name
is_other (character_data s) = true

unfoldable pub all_other : List XmlEvent → Bool
unfolding is_other
all_other [] = true
all_other (e ∷ es) = let rest = all_other es in is_other e && rest

-- The other elements between those, with the text in them, and the white space.
pub record Others : Type 0 where
  pub events : List XmlEvent
  pub all_others : all_other events ≡ true

-- One `<App>` as a host writes it: the title, then the number, with other elements before, between
-- and behind them. The title and the number are the pieces of their text, a first and the rest.
pub record AppEntry : Type 0 where
  pub before : Others
  pub title : Text
  pub title_rest : List Text
  pub between : Others
  pub number : Text
  pub number_rest : List Text
  pub behind : Others
  pub after : Others

abbrev pub entry_events : AppEntry → List XmlEvent
entry_events a =
    start_element (chars "App") []
    ∷ (a.before.events
        ++ (start_element (chars "AppTitle") []
            ∷ (pieces (a.title ∷ a.title_rest)
                ++ (end_element (chars "AppTitle")
                    ∷ (a.between.events
                        ++ (start_element (chars "ID") []
                            ∷ (pieces (a.number ∷ a.number_rest)
                                ++ (end_element (chars "ID")
                                    ∷ (a.behind.events
                                        ++ (end_element (chars "App") ∷ a.after.events))))))))))

abbrev pub list_events : List AppEntry → List XmlEvent
list_events [] = []
list_events (a ∷ entries) = entry_events a ++ list_events entries

-- The document: an element `root` with its attributes, the status among them, around the entries.
abbrev pub answer_events : List (Text × Text) → Others → List AppEntry → List XmlEvent
answer_events atts space entries =
    start_element (chars "root") atts
    ∷ (space.events ++ (list_events entries ++ (end_element (chars "root") ∷ [])))

abbrev pub app_of : AppEntry → App
app_of a = record {
  name = joined (a.title ∷ a.title_rest);
  id = atoi (joined (a.number ∷ a.number_rest));
}

module _ (garbage : Text) where
  applist_events-append :
      (q : XmlQuery (List App)) (es fs : List XmlEvent)
      → applist_events garbage q (es ++ fs)
        ≡ applist_events garbage (applist_events garbage q es) fs
  unfolding applist_events
  applist_events-append q [] fs = refl
  applist_events-append q (e ∷ es) fs = applist_events-append (applist_event garbage q e) es fs

  abbrev reading : List App → Text → XmlQuery (List App)
  reading apps m = record { memory = m; size = length m; start = pos 1; target = apps }

  take-length : (m s : Text) → take (length m) m ++ s ≡ m ++ s
  take-length [] s = refl
  take-length (c ∷ m) s = ap (λ t. c ∷ t) (take-length m s)

  read_piece :
      (apps : List App) (m s : Text)
      → applist_event garbage (reading apps m) (character_data s) ≡ reading apps (m ++ s)
  unfolding applist_event
  read_piece apps m s = rw (take-length, length-append {0})

  read_pieces :
      (apps : List App) (m : Text) (ss : List Text)
      → applist_events garbage (reading apps m) (pieces ss) ≡ reading apps (m ++ joined ss)
  unfolding applist_events
  read_pieces apps m [] = rw append-nil
  read_pieces apps m (s ∷ ss) =
      ap (λ q. applist_events garbage q (pieces ss)) (read_piece apps m s)
      ∙ read_pieces apps (m ++ s) ss
      ∙ ap (reading apps) (append_assoc m s (joined ss))

  abbrev closed : List App → Text → XmlQuery (List App)
  closed apps m = record { memory = m; size = length m; start = pos 0; target = apps }

  -- From the first piece of a text on: the rest of the pieces, then what follows the text.
  read_text :
      (apps : List App) (s : Text) (ss : List Text) (rest : List XmlEvent)
      → applist_events garbage
          (record { memory = s; size = 0 + length s; start = pos 1; target = apps })
          (pieces ss ++ rest)
        ≡ applist_events garbage (reading apps (s ++ joined ss)) rest
  read_text apps s ss rest =
      ap
        (λ n.
          applist_events garbage (record { memory = s; size = n; start = pos 1; target = apps })
            (pieces ss ++ rest))
        (omega arith)
      ∙ applist_events-append (reading apps s) (pieces ss) rest
      ∙ ap (λ q. applist_events garbage q rest) (read_pieces apps s ss)

  -- Outside of a title and of a number, an event of another element changes nothing.
  skip_event :
      (q : XmlQuery (List App)) (e : XmlEvent)
      → q.start ≡ pos 0
      → is_other e ≡ true
      → applist_event garbage q e ≡ q
  unfolding applist_event is_other is_other_name applist_start applist_end write_data
  skip_event q (start_element name atts) h o =
      by_test (λ r. r ≡ q) (str_eq (chars "App") name) (λ e. ground (arith, o, e))
        (λ e.
          by_test (λ r. r ≡ q) (str_eq (chars "ID") name || str_eq (chars "AppTitle") name)
            (λ f. ground (arith, o, f)) (λ f. refl))
  skip_event q (end_element name) h o = rw h refl
  skip_event q (character_data s) h o = rw h refl

  skip_others :
      (q : XmlQuery (List App)) (es rest : List XmlEvent)
      → q.start ≡ pos 0
      → all_other es ≡ true
      → applist_events garbage q (es ++ rest) ≡ applist_events garbage q rest
  unfolding applist_events all_other
  skip_others q [] rest h o = refl
  skip_others q (e ∷ es) rest h o =
      ap (λ r. applist_events garbage r (es ++ rest)) (skip_event q e h (ground (arith, o)))
      ∙ skip_others q es rest h (ground (arith, o))

  skip :
      (q : XmlQuery (List App)) (o : Others) (rest : List XmlEvent)
      → q.start ≡ pos 0
      → applist_events garbage q (o.events ++ rest) ≡ applist_events garbage q rest
  skip q o rest h = skip_others q o.events rest h o.all_others

  read_entry :
      (q : XmlQuery (List App)) (a : AppEntry)
      → q.start ≡ pos 0
      → applist_events garbage q (entry_events a)
        ≡ closed (app_of a ∷ q.target) (joined (a.number ∷ a.number_rest))
  unfolding applist_events str_eq
  read_entry q a e =
      skip (record q { target = record { name = []; id = pos 0 } ∷ q.target }) a.before _ e
      ∙ read_text (record { name = []; id = pos 0 } ∷ q.target) a.title a.title_rest _
      ∙ skip
          (closed (record { name = joined (a.title ∷ a.title_rest); id = pos 0 } ∷ q.target)
            (joined (a.title ∷ a.title_rest)))
          a.between _ refl
      ∙ read_text (record { name = joined (a.title ∷ a.title_rest); id = pos 0 } ∷ q.target)
          a.number a.number_rest _
      ∙ skip (closed (app_of a ∷ q.target) (joined (a.number ∷ a.number_rest))) a.behind _ refl
      ∙ sym
          (ap (applist_events garbage (closed (app_of a ∷ q.target) _)) (append-nil a.after.events))
      ∙ skip (closed (app_of a ∷ q.target) (joined (a.number ∷ a.number_rest))) a.after [] refl

  read_list :
      (q : XmlQuery (List App)) (entries : List AppEntry)
      → q.start ≡ pos 0
      → (applist_events garbage q (list_events entries)).target
        ≡ reverse (map app_of entries) ++ q.target
  unfolding applist_events
  read_list q [] e = refl
  read_list q (a ∷ entries) e =
      ap (λ (r : XmlQuery (List App)). r.target)
        (applist_events-append q (entry_events a) (list_events entries))
      ∙ ap (λ r. (applist_events garbage r (list_events entries)).target) (read_entry q a e)
      ∙ read_list (closed (app_of a ∷ q.target) _) entries refl
      ∙ rw (reverse-cons (app_of a) (map app_of entries))
          (sym (append_assoc (reverse (map app_of entries)) (app_of a ∷ []) q.target))

  closes_root :
      (q : XmlQuery (List App)) (apps : List App)
      → q.target ≡ apps
      → (applist_end_in q apps (chars "root")).target ≡ apps
  unfolding applist_end_in str_eq
  closes_root q [] e = e
  closes_root q (a ∷ apps) e = e

  root_ends :
      (q : XmlQuery (List App))
      → (applist_events garbage q (end_element (chars "root") ∷ [])).target ≡ q.target
  unfolding applist_events applist_event applist_end
  root_ends q =
      by_test (λ (r : XmlQuery (List App)). r.target ≡ q.target) (not (q.start ==ℤ pos 0))
        (λ e. closes_root q q.target refl) (λ e. refl)

  read_answer :
      (q : XmlQuery (List App)) (atts : List (Text × Text)) (space : Others)
      (entries : List AppEntry)
      → q.start ≡ pos 0
      → (applist_events garbage q (answer_events atts space entries)).target
        ≡ reverse (map app_of entries) ++ q.target
  unfolding applist_events str_eq
  read_answer q atts space entries e =
      ap (λ (r : XmlQuery (List App)). r.target)
        (skip q space _ e
          ∙ applist_events-append q (list_events entries) (end_element (chars "root") ∷ []))
      ∙ root_ends (applist_events garbage q (list_events entries))
      ∙ read_list q entries e

-- From the document of a list of applications, in which each has a title and then a number that are
-- not empty, whatever other elements stand around them and whatever pieces the text arrives in:
-- `xml_applist` returns GS_OK and every application with its title and number, the last one first.
pub xml_applist_lem :
    (garbage : Text) (parse : XmlParse) (atts : List (Text × Text)) (space : Others)
    (entries : List AppEntry)
    → parse.success ≡ true
    → parse.events ≡ answer_events atts space entries
    → xml_applist garbage parse ≡ (gs_ok, reverse (map app_of entries))
unfolding xml_applist
xml_applist_lem garbage parse atts space entries ok e =
    rw (ok, e)
      (ap (λ apps. (gs_ok, apps))
        (read_answer garbage (record { memory = []; size = 0; start = pos 0; target = [] }) atts
            space entries refl
          ∙ append-nil _))
