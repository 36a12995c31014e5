-- ===== src/Events/Negotiated.antt =====
-- What the capabilities of a connection are after the messages of src/irc/events.rs about them.
use repartee_desktop.Base.Chars.{
  split_once-lacks, is_word, lacks, split_once-append, split_whitespace, split_whitespace-word,
  split_whitespace-append,
}
use repartee_desktop.Events.Caps.{cap_name, extract_cap_string}
use repartee_desktop.Base.{
  false, codes, ascii_lower, none, All, map, ◌++◌, text_eq→eq, ap, any, ◌∙◌, true, Bool, some, [],
  text_eq_iff, arith, ◌&&◌, ◌||◌, Option, not, text_eq, List, Text, ◌∷◌, ◌≡◌, refl,
}
use repartee_desktop.Events.Posting.{post-connections}
use repartee_desktop.Events.Caps.{
  named_caps, listed_caps, enabled_in, remove_caps, insert_caps, handle_cap_ack, handle_cap_del,
  enable_caps, drop_caps, report,
}
use repartee_desktop.Events.{
  update_connection, get, Connection, status_buffer, AppState, World, set_contains, set_insert,
  set_remove,
}
use repartee_desktop.Base.Maps.{get-adjust_self, Text_eq}

any-last : (p : Text → Bool) (xs : List Text) (y : Text) → any p (xs ++ y ∷ []) ≡ (any p xs || p y)
any-last p [] y = ground arith
any-last p (x ∷ xs) y = ground (arith, any-last p xs y)

set_contains-insert :
    (a b : Text) (set : List Text)
    → set_contains a (set_insert b set) ≡ (text_eq a b || set_contains a set)
set_contains-insert a b set = ground (
  arith,
  any-last (text_eq a) set b,
  λ (h : text_eq a b ≡ true). ap (λ x. set_contains x set) (text_eq→eq a b h),
)

set_contains-remove :
    (a b : Text) (set : List Text)
    → set_contains a (set_remove b set) ≡ (not (text_eq b a) && set_contains a set)
set_contains-remove a b [] = ground arith
set_contains-remove a b (x ∷ set) =
    ground (arith, set_contains-remove a b set, text_eq_iff a x, text_eq_iff b x, text_eq_iff b a)

set_contains-insert_caps :
    (a : Text) (caps enabled : List Text)
    → set_contains a (insert_caps enabled caps) ≡ (set_contains a caps || set_contains a enabled)
set_contains-insert_caps a [] enabled = refl
set_contains-insert_caps a (cap ∷ caps) enabled = ground (
  arith,
  set_contains-insert_caps a caps (set_insert cap enabled),
  set_contains-insert a cap enabled,
)

set_contains-remove_caps :
    (a : Text) (caps enabled : List Text)
    → set_contains a (remove_caps enabled caps).0
      ≡ (not (set_contains a caps) && set_contains a enabled)
set_contains-remove_caps a [] enabled = refl
set_contains-remove_caps a (cap ∷ caps) enabled = ground (
  arith,
  set_contains-remove_caps a caps (set_remove cap enabled),
  set_contains-remove a cap enabled,
  text_eq_iff cap a,
  text_eq_iff a cap,
)

report-connections :
    (w : World) (s : AppState) (id key text : Text)
    → (report w s id key text).connections ≡ s.connections
unfolding report
report-connections w s id key text = post-connections w s (status_buffer w s id) _

-- What is enabled after a change of the connection that is reported.
reported-enabled :
    (w : World) (s : AppState) (conn_id : Text) (c : Connection) (f : Connection → Connection)
    (key text cap : Text)
    → get conn_id s.connections ≡ some c
    → set_contains cap
        (enabled_in (report w (update_connection s conn_id f) conn_id key text) conn_id)
      ≡ set_contains cap (f c).enabled_caps
reported-enabled w s conn_id c f key text cap h =
    let same = report-connections w (update_connection s conn_id f) conn_id key text in
    let changed = get-adjust_self conn_id f s.connections c h in rw (enabled_in, same, changed) refl

-- After an acknowledgement exactly the capabilities that were enabled and those that it lists are
-- enabled.
pub handle_cap_ack_lem :
    (w : World) (s : AppState) (conn_id : Text) (field3 field4 : Option Text) (c : Connection)
    (cap : Text)
    → get conn_id s.connections ≡ some c
    → set_contains cap (enabled_in (handle_cap_ack w s conn_id field3 field4) conn_id)
      ≡ (set_contains cap (listed_caps field3 field4) || set_contains cap (enabled_in s conn_id))
unfolding handle_cap_ack enable_caps
handle_cap_ack_lem w s conn_id field3 field4 c cap h =
    let caps = listed_caps field3 field4 in
    let f = λ (c' : Connection). record c' { enabled_caps = insert_caps c'.enabled_caps caps } in
    reported-enabled w s conn_id c f _ _ cap h
    ∙ (set_contains-insert_caps cap caps c.enabled_caps ∙ rw (enabled_in, h) refl)

handle_cap_del-enabled :
    (w : World) (s : AppState) (conn_id : Text) (field3 field4 : Option Text) (c : Connection)
    (cap : Text)
    → get conn_id s.connections ≡ some c
    → set_contains cap (enabled_in (handle_cap_del w s conn_id field3 field4) conn_id) ≡ (
        not (set_contains cap (named_caps field3 field4))
        && set_contains cap (enabled_in s conn_id))
unfolding handle_cap_del drop_caps
handle_cap_del-enabled w s conn_id field3 field4 c cap h =
    let caps = named_caps field3 field4 in
    let f =
      λ (c' : Connection). record c' { enabled_caps = (remove_caps c'.enabled_caps caps).0 } in
    reported-enabled w s conn_id c f _ _ cap h
    ∙ (set_contains-remove_caps cap caps c.enabled_caps ∙ rw (enabled_in, h) refl)

-- A capability as it is sent, with a value or without one.
abbrev pub written : Text × Option Text → Text
written (name, none) = name
written (name, some value) = name ++ (b'=' ∷ value)

abbrev pub written_all : List (Text × Option Text) → Text
written_all [] = []
written_all (c ∷ []) = written c
written_all (c ∷ d ∷ cs) = written c ++ (b' ' ∷ written_all (d ∷ cs))

-- The capability is one word, and its name has no equals sign.
abbrev pub IsCap : Text × Option Text → Type 0
IsCap c = (is_word (written c) ≡ true) × (lacks b'=' c.0 ≡ true)

abbrev pub is_named : Text → List (Text × Option Text) → Bool
is_named cap caps = any (λ c. text_eq cap (map ascii_lower c.0)) caps

cap_name-written : (c : Text × Option Text) → IsCap c → cap_name (written c) ≡ map ascii_lower c.0
cap_name-written (name, none) h = rw (cap_name, split_once-lacks b'=' name h.1) refl
cap_name-written (name, some value) h = rw (cap_name, split_once-append b'=' name value h.1) refl

words_written :
    (caps : List (Text × Option Text))
    → All IsCap caps
    → map cap_name (split_whitespace (written_all caps)) ≡ map (λ c. map ascii_lower c.0) caps
words_written [] h = refl
words_written (c ∷ []) h =
    rw (split_whitespace-word (written c) h.0.0) (ap (λ x. x ∷ []) (cap_name-written c h.0))
words_written (c ∷ d ∷ cs) h =
    rw (split_whitespace-append (written c) (written_all (d ∷ cs)) h.0.0) (
      ap (λ x. x ∷ map cap_name (split_whitespace (written_all (d ∷ cs)))) (cap_name-written c h.0)
      ∙ ap (◌∷◌ (map ascii_lower c.0)) (words_written (d ∷ cs) h.1))

any-map :
    (cap : Text) (caps : List (Text × Option Text))
    → set_contains cap (map (λ c. map ascii_lower c.0) caps) ≡ is_named cap caps
any-map cap [] = refl
any-map cap (c ∷ caps) = ap (λ x. text_eq cap (map ascii_lower c.0) || x) (any-map cap caps)

named_caps-written :
    (cap : Text) (caps : List (Text × Option Text)) (field3 field4 : Option Text)
    → All IsCap caps
    → extract_cap_string field3 field4 ≡ written_all caps
    → set_contains cap (named_caps field3 field4) ≡ is_named cap caps
named_caps-written cap caps field3 field4 h e = rw (e, words_written caps h) (any-map cap caps)

-- After a CAP DEL that lists one capability or more, whether in the field after DEL or in the one
-- after an asterisk, exactly those capabilities are enabled that were and that it does not list,
-- with a value or without, in upper or lower case. A line that is one asterisk is excluded.
pub handle_cap_del_lem :
    (w : World) (s : AppState) (conn_id : Text) (c : Connection) (cap : Text)
    (first : Text × Option Text) (others : List (Text × Option Text))
    → get conn_id s.connections ≡ some c
    → All IsCap (first ∷ others)
    → text_eq (written_all (first ∷ others)) (codes "*") ≡ false
    → let line = written_all (first ∷ others) in
      let left = not (is_named cap (first ∷ others)) && set_contains cap c.enabled_caps in
      (set_contains cap (enabled_in (handle_cap_del w s conn_id (some line) none) conn_id) ≡ left)
      × (set_contains cap
            (enabled_in (handle_cap_del w s conn_id (some (codes "*")) (some line)) conn_id)
          ≡ left)
unfolding extract_cap_string
handle_cap_del_lem w s conn_id c cap first others h all' plain =
    let caps = first ∷ others in
    let line = written_all caps in
    let before : enabled_in s conn_id ≡ c.enabled_caps = rw (enabled_in, h) refl in
    (
      handle_cap_del-enabled w s conn_id (some line) none c cap h
          ∙ rw
              (
                named_caps-written cap caps (some line) none all'
                    (rw (extract_cap_string, plain) refl),
                before,
              )
              refl,
      handle_cap_del-enabled w s conn_id (some (codes "*")) (some line) c cap h
          ∙ rw (named_caps-written cap caps (some (codes "*")) (some line) all' refl, before) refl,
    )
