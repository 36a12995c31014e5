-- ===== src/Events/Caps.antt =====
-- Capabilities that come and go while connected: `extract_cap_string`, `handle_cap_new`,
-- `handle_cap_del`, `handle_cap_ack` and `handle_cap_nak` of src/irc/events.rs.
use repartee_desktop.Base.{
  not, ◌&&◌, is_empty, eq_ignore_ascii_case, ◌++◌, any, [], ascii_lower, text_eq, none,
  if◌then◌else◌, ◌∷◌, codes, some, join, retain, Bool, map, List, Text, Option,
}
use repartee_desktop.Base.Chars.{split_whitespace, split_once}
use repartee_desktop.Irc.Caps.{desired_caps}
use repartee_desktop.Events.{
  get, World, post, event_message, status_buffer, update_connection, or_empty, set_contains,
  set_insert, set_remove,
}
use repartee_desktop.State.App.{AppState}
use repartee_desktop.Base.Maps.{Text_eq}

unfoldable pub extract_cap_string : Option Text → Option Text → Text
extract_cap_string field3 field4 =
    if text_eq (or_empty field3) (codes "*")
    then or_empty field4
    else (if is_empty (or_empty field4) then or_empty field3 else or_empty field4)

-- The name of a capability that may have a value.
abbrev pub cap_name : Text → Text
cap_name s = elim (split_once b'=' s) [
  | none ↦ map ascii_lower s
  | some (name, v) ↦ map ascii_lower name
]

abbrev pub named_caps : Option Text → Option Text → List Text
named_caps field3 field4 = map cap_name (split_whitespace (extract_cap_string field3 field4))

abbrev pub listed_caps : Option Text → Option Text → List Text
listed_caps field3 field4 =
    map (map ascii_lower) (split_whitespace (extract_cap_string field3 field4))

abbrev pub enabled_in : AppState → Text → List Text
enabled_in s conn_id = elim (get conn_id s.connections) [ none ↦ [] | some c ↦ c.enabled_caps ]

abbrev pub is_requested : List Text → Text → Bool
is_requested enabled cap =
    any (λ d. eq_ignore_ascii_case d cap) desired_caps && not (set_contains cap enabled)

abbrev pub to_request : AppState → Text → List Text → List Text
to_request s conn_id new_caps = retain (is_requested (enabled_in s conn_id)) new_caps

abbrev pub commas : List Text → Text
commas caps = join (codes ", ") caps

-- The line in the status buffer.
unfoldable pub report : World → AppState → Text → Text → Text → AppState
unfolding status_buffer
report w s conn_id event_key text =
    post w s (status_buffer w s conn_id)
      (λ id. event_message id w.now text (some event_key) none none)

unfoldable pub handle_cap_new :
    World → AppState → Text → Option Text → Option Text → AppState × List Text
unfolding extract_cap_string report
handle_cap_new w s conn_id field3 field4 =
    let new_caps = named_caps field3 field4 in
    let requested = to_request s conn_id new_caps in
    let text =
      codes "New capabilities available: "
      ++ (commas new_caps
          ++ (if is_empty requested
              then codes " (none requested)"
              else codes " — requesting: " ++ commas requested)) in
    (report w s conn_id (codes "cap_new") text, requested)

-- What is left of the enabled capabilities, and which of the named ones were removed.
abbrev pub remove_caps : List Text → List Text → List Text × List Text
remove_caps enabled [] = (enabled, [])
remove_caps enabled (cap ∷ caps) =
    let (left, removed) = remove_caps (set_remove cap enabled) caps in
    if set_contains cap enabled then (left, cap ∷ removed) else (left, removed)

unfoldable pub drop_caps : AppState → Text → List Text → AppState
drop_caps s conn_id caps =
    update_connection s conn_id (λ c.
      let (left, removed) = remove_caps c.enabled_caps caps in record c { enabled_caps = left })

unfoldable pub handle_cap_del : World → AppState → Text → Option Text → Option Text → AppState
unfolding extract_cap_string drop_caps report
handle_cap_del w s conn_id field3 field4 =
    let removed_caps = named_caps field3 field4 in
    let (left, removed) = remove_caps (enabled_in s conn_id) removed_caps in
    let text =
      codes "Capabilities removed: "
      ++ (if is_empty removed
          then commas removed_caps ++ codes " (none were enabled)"
          else commas removed) in
    report w (drop_caps s conn_id removed_caps) conn_id (codes "cap_del") text

abbrev pub insert_caps : List Text → List Text → List Text
insert_caps enabled [] = enabled
insert_caps enabled (cap ∷ caps) = insert_caps (set_insert cap enabled) caps

unfoldable pub enable_caps : AppState → Text → List Text → AppState
enable_caps s conn_id caps =
    update_connection s conn_id (λ c. record c { enabled_caps = insert_caps c.enabled_caps caps })

unfoldable pub handle_cap_ack : World → AppState → Text → Option Text → Option Text → AppState
unfolding extract_cap_string enable_caps report
handle_cap_ack w s conn_id field3 field4 =
    let acked_caps = listed_caps field3 field4 in
    report w (enable_caps s conn_id acked_caps) conn_id (codes "cap_ack")
      (codes "Capabilities acknowledged: " ++ commas acked_caps)

unfoldable pub handle_cap_nak : World → AppState → Text → Option Text → Option Text → AppState
unfolding extract_cap_string report
handle_cap_nak w s conn_id field3 field4 =
    report w s conn_id (codes "cap_nak")
      (codes "Capabilities rejected: " ++ commas (listed_caps field3 field4))
