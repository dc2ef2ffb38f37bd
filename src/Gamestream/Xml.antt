-- ===== src/Gamestream/Xml.antt =====
-- libgamestream/xml.c: the callbacks that expat drives. Expat is a parameter: what it makes of a
-- document is a list of events, with whether the parse succeeded. Allocation does not fail.
pub mod Search
pub mod Lists
use moonlight_embedded_for_d.Base.{
  ℕ, suc, ◌+◌, ℤ, pos, ◌+ℤ◌, ◌-ℤ◌, ◌==ℤ◌, ltb_ℤ, Bool, true, false, not, ◌&&◌, ◌||◌, List, [], ◌∷◌,
  ◌++◌, Text, chars, str_eq, atoi, length, take, if◌then◌else◌,
}
use moonlight_embedded_for_d.Gamestream.Errors.{gs_ok, gs_invalid, gs_error_code}

-- One callback of expat.
pub data XmlEvent : Type 0 where
  start_element : Text → List (Text × Text) → XmlEvent
  end_element : Text → XmlEvent
  character_data : Text → XmlEvent

-- `XML_Parse` on a whole document, and the text of the error if it fails.
pub record XmlParse : Type 0 where
  pub success : Bool
  pub events : List XmlEvent
  pub message : Text

-- `struct xml_query`, where `target` is what its field `data` points to.
pub record XmlQuery (D : Type 0) : Type 0 where
  pub memory : Text
  pub size : ℕ
  pub start : ℤ
  pub target : D

-- `_xml_write_data`
unfoldable pub write_data : {D : Type 0} → XmlQuery D → Text → XmlQuery D
write_data q s =
    if ltb_ℤ (pos 0) q.start
    then record q { memory = take q.size q.memory ++ s; size = q.size + length s }
    else q

-- `_xml_start_element`
unfoldable pub search_start : XmlQuery Text → Text → XmlQuery Text
search_start q name = if str_eq q.target name then record q { start = q.start +ℤ pos 1 } else q

-- `_xml_end_element`
unfoldable pub search_end : XmlQuery Text → Text → XmlQuery Text
search_end q name = if str_eq q.target name then record q { start = q.start -ℤ pos 1 } else q

unfoldable pub search_event : XmlQuery Text → XmlEvent → XmlQuery Text
unfolding search_start search_end write_data
search_event q (start_element name atts) = search_start q name
search_event q (end_element name) = search_end q name
search_event q (character_data s) = write_data q s

unfoldable pub search_events : XmlQuery Text → List XmlEvent → XmlQuery Text
unfolding search_event
search_events q [] = q
search_events q (e ∷ es) = search_events (search_event q e) es

-- `xml_search`: the return code, and the text that it stores through `result` if that is GS_OK.
unfoldable pub xml_search : XmlParse → Text → ℤ × Text
unfolding search_events
xml_search parse node =
    let query =
      search_events (record { memory = []; size = 0; start = pos 0; target = node }) parse.events in
    if not parse.success then (gs_invalid, []) else (gs_ok, query.memory)

-- `APP_LIST`; the list is the chain of `next` pointers, newest first.
pub record App : Type 0 where
  pub name : Text
  pub id : ℤ

-- `DISPLAY_MODE`
pub record DisplayMode : Type 0 where
  pub height : ℤ
  pub width : ℤ
  pub refresh : ℤ

-- `free(search->memory)` and `malloc(1)`: the new block's byte is not initialised, so until text is
-- written the string in it is some `garbage`.
unfoldable pub begin_text : {D : Type 0} → Text → XmlQuery D → XmlQuery D
begin_text garbage q = record q { memory = garbage; size = 0; start = pos 1 }

-- `_xml_start_applist_element`
unfoldable pub applist_start : Text → XmlQuery (List App) → Text → XmlQuery (List App)
unfolding begin_text
applist_start garbage q name =
    if str_eq (chars "App") name
    then record q { target = record { name = []; id = pos 0 } ∷ q.target }
    else if str_eq (chars "ID") name || str_eq (chars "AppTitle") name
    then begin_text garbage q
    else q

-- The body of `_xml_end_applist_element` where an element is open. A null list returns early.
unfoldable pub applist_end_in : XmlQuery (List App) → List App → Text → XmlQuery (List App)
applist_end_in q [] name = q
applist_end_in q (app ∷ apps) name =
    if str_eq (chars "ID") name
    then record q { target = record app { id = atoi q.memory } ∷ apps; start = pos 0 }
    else if str_eq (chars "AppTitle") name
    then record q { target = record app { name = q.memory } ∷ apps; start = pos 0 }
    else record q { start = pos 0 }

-- `_xml_end_applist_element`
unfoldable pub applist_end : XmlQuery (List App) → Text → XmlQuery (List App)
unfolding applist_end_in
applist_end q name = if not (q.start ==ℤ pos 0) then applist_end_in q q.target name else q

unfoldable pub applist_event : Text → XmlQuery (List App) → XmlEvent → XmlQuery (List App)
unfolding applist_start applist_end write_data
applist_event garbage q (start_element name atts) = applist_start garbage q name
applist_event garbage q (end_element name) = applist_end q name
applist_event garbage q (character_data s) = write_data q s

unfoldable pub applist_events : Text → XmlQuery (List App) → List XmlEvent → XmlQuery (List App)
unfolding applist_event
applist_events garbage q [] = q
applist_events garbage q (e ∷ es) = applist_events garbage (applist_event garbage q e) es

-- `xml_applist`
unfoldable pub xml_applist : Text → XmlParse → ℤ × List App
unfolding applist_events
xml_applist garbage parse =
    let query =
      applist_events garbage (record { memory = []; size = 0; start = pos 0; target = [] })
        parse.events in
    if not parse.success then (gs_invalid, []) else (gs_ok, query.target)

-- `_xml_start_mode_element`; its guard `search->data != NULL` is that a mode is on the list.
unfoldable pub mode_start : Text → XmlQuery (List DisplayMode) → Text → XmlQuery (List DisplayMode)
unfolding begin_text
mode_start garbage q name =
    if str_eq (chars "DisplayMode") name
    then record q { target = record { height = pos 0; width = pos 0; refresh = pos 0 } ∷ q.target }
    else elim q.target [
      | [] ↦ q
      | m ∷ ms ↦
          if str_eq (chars "Height") name
            || str_eq (chars "Width") name
            || str_eq (chars "RefreshRate") name
          then begin_text garbage q
          else q
    ]

-- `_xml_end_mode_element`. The fields are `unsigned`; `atoi` of a size that is not negative fits.
unfoldable pub mode_end :
    XmlQuery (List DisplayMode) → List DisplayMode → Text → XmlQuery (List DisplayMode)
mode_end q [] name = q
mode_end q (mode ∷ modes) name =
    if q.start ==ℤ pos 0
    then q
    else if str_eq (chars "Width") name
    then record q { target = record mode { width = atoi q.memory } ∷ modes; start = pos 0 }
    else if str_eq (chars "Height") name
    then record q { target = record mode { height = atoi q.memory } ∷ modes; start = pos 0 }
    else if str_eq (chars "RefreshRate") name
    then record q { target = record mode { refresh = atoi q.memory } ∷ modes; start = pos 0 }
    else record q { start = pos 0 }

unfoldable pub mode_event :
    Text → XmlQuery (List DisplayMode) → XmlEvent → XmlQuery (List DisplayMode)
unfolding mode_start mode_end write_data
mode_event garbage q (start_element name atts) = mode_start garbage q name
mode_event garbage q (end_element name) = mode_end q q.target name
mode_event garbage q (character_data s) = write_data q s

unfoldable pub mode_events :
    Text → XmlQuery (List DisplayMode) → List XmlEvent → XmlQuery (List DisplayMode)
unfolding mode_event
mode_events garbage q [] = q
mode_events garbage q (e ∷ es) = mode_events garbage (mode_event garbage q e) es

-- `xml_modelist`
unfoldable pub xml_modelist : Text → XmlParse → ℤ × List DisplayMode
unfolding mode_events
xml_modelist garbage parse =
    let query =
      mode_events garbage (record { memory = []; size = 0; start = pos 0; target = [] })
        parse.events in
    if not parse.success then (gs_invalid, []) else (gs_ok, query.target)

-- The status and the error text that `_xml_start_status_element` has read so far.
pub record XmlStatus : Type 0 where
  pub status : ℤ
  pub error : Text

unfoldable pub status_atts : XmlStatus → List (Text × Text) → XmlStatus
status_atts q [] = q
status_atts q ((key, value) ∷ atts) =
    status_atts
      (if str_eq (chars "status_code") key
        then record q { status = atoi value }
        else if not (q.status ==ℤ pos 200) && str_eq (chars "status_message") key
        then record q { error = value }
        else q)
      atts

-- `_xml_start_status_element`
unfoldable pub status_event : XmlStatus → XmlEvent → XmlStatus
unfolding status_atts
status_event q (start_element name atts) =
    if str_eq (chars "root") name then status_atts q atts else q
status_event q (end_element name) = q
status_event q (character_data s) = q

unfoldable pub status_events : XmlStatus → List XmlEvent → XmlStatus
unfolding status_event
status_events q [] = q
status_events q (e ∷ es) = status_events (status_event q e) es

-- `xml_status`, from the value of `gs_error` before: the return code and the value after.
unfoldable pub xml_status : XmlParse → Text → ℤ × Text
unfolding status_events
xml_status parse error =
    let q = status_events (record { status = pos 0; error = error }) parse.events in
    if not parse.success
    then (gs_invalid, parse.message)
    else (if q.status ==ℤ pos 200 then gs_ok else gs_error_code, q.error)
