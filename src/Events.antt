-- ===== src/Events.antt =====
-- The handlers of IRC messages (src/irc/events.rs): what they share. `World` is what they use of code
-- outside this module: the clocks (`now` in seconds since 1970, `instant` in milliseconds), the
-- answer of a wildcard pattern, RFC 3339 times, a fresh identifier, the hash of a text, and the line
-- that src/ui renders for the mentions window (the time, the label, the target, the nick, the text).
-- `e2e_manager` is the end-to-end encryption of src/e2e as these handlers see it, `none` if it is
-- off. A pattern of the ignore list is taken to compile. The prefix of a message is the irc crate's, whose cases src/irc/formatting.rs lists.
pub mod Lifecycle
pub mod Caps
pub mod Members
pub mod Kicks
pub mod Bans
pub mod Modes
pub mod Renames
pub mod Status
pub mod Denied
pub mod Retry
pub mod Retried
pub mod Encryption
pub mod Talk
pub mod Notices
pub mod Names
pub mod Dispatch
pub mod Sound
pub mod Kept
pub mod Posting
pub mod Ignored
pub mod Reconnect
pub mod Spoken
pub mod Quits
pub mod Left
pub mod Renamed
mod Tests
pub mod BanLists
pub mod Negotiated
pub mod Entries
pub mod Letters
use repartee_desktop.Base.{
  false, text_eq, is_empty, eq_ignore_ascii_case, ◌∷◌, ◌||◌, not, ◌++◌, any, true, none, codes, map,
  retain, if◌then◌else◌, [], some, Bool, List, Option, Text, ℕ, ◌≡◌, refl,
}
use repartee_desktop.State.App.{
  next_message_id, AppState, Env, NickEvent, NickEventKind, update_buffer,
}
use repartee_desktop.State.Gate.{add_message}
use repartee_desktop.State.Buffers.{make_buffer_id}
use repartee_desktop.Irc.Ignore.{IgnoreLevel, Question, build_mask}
use repartee_desktop.Irc.Cache.{says}
use repartee_desktop.Base.Maps.{insert, Text_eq, adjust, get, Map}
use repartee_desktop.State.{event, Connection, Message}

-- What the manager of src/e2e says of an encrypted line (`decrypt_incoming`).
pub data Decrypted : Type 0 where
  plaintext : Text → Decrypted
  missing_key : Text → Text → Decrypted
  rejected : Text → Decrypted
  failed : Decrypted

-- What a message of the handshake leads to: a NOTICE to its sender, or a line in the buffer of a
-- channel with its event key, highlight, parameters and text.
pub data Reaction : Type 0 where
  send : Text → Reaction
  tell : Option Text → Text → Bool → Option (List Text) → Text → Reaction

-- The answers of the manager at one event. `build_keyreq` has the encoding in it, and `handshake`
-- is the parsed message with what the manager makes of it, `none` for no such message.
pub record E2eManager : Type 0 where
  pub decrypt_incoming : Text → Text → Text → Decrypted
  pub allow_keyreq : Text → Bool
  pub build_keyreq : Text → Text → Option Text
  pub handshake : Text → Text → Text → Option (List Reaction)

pub record World : Type 0 where
  pub e2e_manager : Option E2eManager
  pub env : Env
  pub now : ℕ
  pub instant : ℕ
  pub matches : Text → Text → Bool
  pub parse_rfc3339 : Text → Option ℕ
  pub fresh_id : Text
  pub hash_text : Text → ℕ
  pub format_mention_line : ℕ → Text → Text → Text → Text → Text

pub data Prefix : Type 0 where
  nickname : Text → Text → Text → Prefix
  server_name : Text → Prefix

unfoldable pub extract_nick : Option Prefix → Option Text
extract_nick none = none
extract_nick (some (nickname nick user host)) = some nick
extract_nick (some (server_name name)) = some name

unfoldable pub extract_nick_userhost : Option Prefix → Text × Text × Text
extract_nick_userhost none = ([], [], [])
extract_nick_userhost (some (nickname nick user host)) = (nick, user, host)
extract_nick_userhost (some (server_name name)) = (name, [], [])

unfoldable pub is_server_prefix : Option Prefix → Bool
is_server_prefix none = true
is_server_prefix (some (server_name name)) = true
is_server_prefix (some (nickname nick user host)) = is_empty user

abbrev pub or_empty : Option Text → Text
or_empty none = []
or_empty (some t) = t

abbrev pub or_text : Text → Option Text → Text
or_text d none = d
or_text d (some t) = t

-- `set.contains(value)` for a set of texts.
abbrev pub set_contains : Text → List Text → Bool
set_contains value set = any (text_eq value) set

abbrev pub set_insert : Text → List Text → List Text
set_insert value set = if set_contains value set then set else set ++ value ∷ []

abbrev pub set_remove : Text → List Text → List Text
set_remove value set = retain (λ e. not (text_eq value e)) set

unfoldable pub contains_case_insensitive : List Text → Text → Bool
contains_case_insensitive set value =
    set_contains value set || any (λ e. eq_ignore_ascii_case e value) set

abbrev pub find_text : (Text → Bool) → List Text → Option Text
find_text p [] = none
find_text p (x ∷ xs) = let rest = find_text p xs in if p x then some x else rest

-- The set, less one entry that is equal but for case.
unfoldable pub remove_case_insensitive : List Text → Text → List Text
remove_case_insensitive set value =
    if set_contains value set
    then set_remove value set
    else elim (find_text (λ e. eq_ignore_ascii_case e value) set) [
      | none ↦ set
      | some existing ↦ set_remove existing set
    ]

-- The tags of a message that have a value, after those read so far; a later one replaces an
-- earlier one.
abbrev pub valued : List (Text × Option Text) → Map Text Text → Map Text Text
valued [] read = read
valued ((key, none) ∷ tags) read = valued tags read
valued ((key, some value) ∷ tags) read = valued tags (insert key value read)

abbrev pub Tags : Type 0
Tags = Option (Map Text Text)

unfoldable pub extract_tags : Option (List (Text × Option Text)) → Tags
extract_tags none = none
extract_tags (some tags) = elim (valued tags []) [ [] ↦ none | t ∷ ts ↦ some (t ∷ ts) ]

unfoldable pub message_timestamp : World → Tags → ℕ
message_timestamp w tags = elim tags [
  | none ↦ w.now
  | some t ↦ elim (get (codes "time") t) [
    | none ↦ w.now
    | some time ↦ elim (w.parse_rfc3339 time) [ none ↦ w.now | some dt ↦ dt ]
  ]
]

-- `should_ignore`, whose cache changes no answer, asked for a whole user.
unfoldable pub is_ignored : World → AppState → Text → Text → Text → IgnoreLevel → Option Text → Bool
is_ignored w s nick ident host level channel =
    any
      (says w.matches (λ mask. mask) w.env.to_lowercase
        (record {
          nick = nick;
          full_mask = build_mask nick (some ident) (some host);
          level = level;
          channel = channel;
        }))
      s.ignores

-- What the handlers set of the message of an event; the rest is empty.
abbrev pub event_message : ℕ → ℕ → Text → Option Text → Option (List Text) → Tags → Message
event_message id timestamp text event_key event_params tags = record {
  id = id;
  timestamp = timestamp;
  message_type = event;
  nick = none;
  nick_mode = none;
  text = text;
  highlight = false;
  event_key = event_key;
  event_params = event_params;
  log_msg_id = none;
  log_ref_id = none;
  tags = tags;
}

-- A message gets the next identifier, then goes to its buffer.
unfoldable pub post : World → AppState → Text → (ℕ → Message) → AppState
post w s buffer_id m = let (s', id) = next_message_id s in add_message w.env s' buffer_id (m id)

unfoldable pub label : AppState → Text → Text → Text
label s conn_id d = elim (get conn_id s.connections) [ none ↦ d | some c ↦ c.label ]

-- The status buffer of a connection, whose identifier stands in for a label that is not known.
unfoldable pub status_buffer : World → AppState → Text → Text
unfolding label
status_buffer w s conn_id = make_buffer_id w.env.to_lowercase conn_id (label s conn_id conn_id)

unfoldable pub server_buffer : World → AppState → Text → Text
unfolding label
server_buffer w s conn_id =
    make_buffer_id w.env.to_lowercase conn_id (label s conn_id (codes "Status"))

unfoldable pub active_or_server_buffer : World → AppState → Text → Text
unfolding server_buffer
active_or_server_buffer w s conn_id = or_text (server_buffer w s conn_id) s.active_buffer_id

unfoldable pub emit_text : World → AppState → Text → Text → AppState
emit_text w s buffer_id text = post w s buffer_id (λ id. event_message id w.now text none none none)

unfoldable pub emit_event : World → AppState → Text → Text → Text → List Text → AppState
emit_event w s buffer_id event_key text event_params =
    post w s buffer_id (λ id. event_message id w.now text (some event_key) (some event_params) none)

abbrev pub update_connection : AppState → Text → (Connection → Connection) → AppState
update_connection s conn_id f = record s { connections = adjust conn_id f s.connections }

abbrev pub blank_nick_event : Text → NickEventKind → Text → NickEvent
blank_nick_event buffer_id kind nick = record {
  buffer_id = buffer_id;
  kind = kind;
  nick = nick;
  new_nick = none;
  prefix = none;
  modes = none;
  away = none;
  message = none;
}
