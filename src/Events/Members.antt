-- ===== src/Events/Members.antt =====
-- Who is in a channel: `handle_join`, `handle_part` and `handle_quit` of src/irc/events.rs.
use repartee_desktop.Base.{
  true, ◌&&◌, is_empty, ◌∷◌, false, some, text_eq, none, if◌then◌else◌, ◌++◌, List, Bool, [], codes,
  ℕ, Option, Text,
}
use repartee_desktop.Events.{
  Map, Message, Connection, make_buffer_id, get, World, Prefix, extract_nick_userhost, is_ignored,
  post, event_message, message_timestamp, Tags, or_empty, update_connection,
  remove_case_insensitive, blank_nick_event,
}
use repartee_desktop.State.App.{
  kind_quit, kind_part, nick_event, kind_join, AppState, remove_buffer, add_buffer,
  set_active_buffer, update_buffer, emit,
}
use repartee_desktop.Netsplit.Handlers
use repartee_desktop.State.{quiet, channel, NickEntry, Buffer}
use repartee_desktop.State.Nicks.{add_nick, remove_nick}
use repartee_desktop.Irc.Ignore.{parts, joins, quits}
use repartee_desktop.Base.Maps.{Text_eq, contains_key}

-- `nick (ident@host)`.
abbrev pub full_name : Text → Text → Text → Text
full_name nick ident host = nick ++ (codes " (" ++ (ident ++ (b'@' ∷ (host ++ codes ")"))))

abbrev pub in_parentheses : Text → Text
in_parentheses t = codes "(" ++ (t ++ codes ")")

abbrev pub logged_in : Text → Option Text
logged_in a = if text_eq a (codes "*") then none else some a

-- The account from the JOIN, or else from the tags.
abbrev pub joined_account : Option Text → Tags → Option Text
joined_account extended_account tags =
    let from_tags : Option Text = elim tags [
      | none ↦ none
      | some t ↦ elim (get (codes "account") t) [ none ↦ none | some a ↦ logged_in a ]
    ] in
    elim extended_account [
      | none ↦ from_tags
      | some a ↦ elim (logged_in a) [ none ↦ from_tags | some x ↦ some x ]
    ]

abbrev pub new_entry : Text → Option Text → NickEntry
new_entry nick account = record {
  nick = nick;
  prefix = [];
  modes = [];
  away = false;
  account = account;
  ident = none;
  host = none;
}

abbrev pub new_channel : Text → Text → Text → ℕ → Buffer
new_channel id connection_id name now = record {
  id = id;
  connection_id = connection_id;
  buffer_type = channel;
  name = name;
  messages = [];
  activity = quiet;
  unread_count = 0;
  last_read = now;
  topic = none;
  topic_set_by = none;
  users = [];
  modes = none;
  mode_params = none;
  list_modes = [];
  last_speakers = [];
  peer_handle = none;
  log_total_lines = none;
  log_oldest_ts = none;
  log_newest_ts = none;
  history_exhausted = false;
  log_initial_loaded = false;
}

abbrev pub forget_channel_state : Buffer → Buffer
forget_channel_state b = record b {
  users = [];
  last_speakers = [];
  topic = none;
  topic_set_by = none;
  modes = none;
  mode_params = none;
  list_modes = [];
}

-- Our own JOIN opens the channel's buffer, or clears it, and shows it; the JOIN of a channel that
-- already has users is a repetition, `none`.
unfoldable pub self_join : World → AppState → Text → Text → Text → Option AppState
self_join w s conn_id buffer_id name = elim (get buffer_id s.buffers) [
  | none ↦
      some (set_active_buffer (add_buffer s (new_channel buffer_id conn_id name w.now)) buffer_id)
  | some b ↦
      if is_empty b.users
      then some (set_active_buffer (update_buffer s buffer_id forget_channel_state) buffer_id)
      else none
]

-- The JOIN of somebody else, and whether it belongs to a netsplit.
unfoldable pub other_join : World → AppState → Text → Text → Option Text → AppState × Bool
other_join w s buffer_id nick account =
    let joined = record (blank_nick_event buffer_id kind_join nick) {
      prefix = some [];
      modes = some [];
      away = some false;
    } in
    let s' = emit (add_nick w.env s buffer_id (new_entry nick account)) (nick_event joined) in
    let (split, netjoin) =
      Handlers.handle_join w.env.to_lowercase s'.netsplit_state nick buffer_id w.instant in
    (record s' { netsplit_state = split }, netjoin)

abbrev pub account_display : Option Text → Text
account_display none = []
account_display (some a) = codes "[" ++ (a ++ codes "]")

unfoldable pub show_join :
    World → AppState → Text → Text × Text × Text → Text → Text → Text → Tags → AppState
unfolding message_timestamp
show_join w s buffer_id who name account realname tags =
    let (nick, ident, host) = who in
    post w s buffer_id (λ id.
      event_message id (message_timestamp w tags)
        (full_name nick ident host
          ++ (codes " has joined " ++ (name ++ (b' ' ∷ (account ++ (b' ' ∷ realname))))))
        (some (codes "join")) (some (nick ∷ ident ∷ host ∷ name ∷ account ∷ realname ∷ [])) tags)

unfoldable pub handle_join :
    World
    → AppState
    → Text
    → Text
    → Option Prefix
    → Text
    → Option Text
    → Option Text
    → Tags
    → AppState
unfolding extract_nick_userhost is_ignored self_join other_join show_join
handle_join w s conn_id our_nick prefix name extended_account extended_realname tags =
    let (nick, ident, host) = extract_nick_userhost prefix in
    let buffer_id = make_buffer_id w.env.to_lowercase conn_id name in
    let account = joined_account extended_account tags in
    let shown = λ (s' : AppState).
      show_join w s' buffer_id (nick, ident, host) name (account_display account)
        (or_empty extended_realname) tags in
    let (met, netjoin) = other_join w s buffer_id nick account in
    if text_eq nick our_nick
    then elim (self_join w s conn_id buffer_id name) [ none ↦ s | some s' ↦ shown s' ]
    else (if is_ignored w s nick ident host joins (some name)
        then add_nick w.env s buffer_id (new_entry nick account)
        else (if netjoin then met else shown met))

-- A channel that is left waits for no silent replies.
abbrev pub forget_silent : Text → Connection → Connection
forget_silent name c = record c {
  silent_who_channels = remove_case_insensitive c.silent_who_channels name;
  silent_banlist_channels = remove_case_insensitive c.silent_banlist_channels name;
}

unfoldable pub other_part : World → AppState → Text → Text → Option Text → AppState
other_part w s buffer_id nick reason =
    emit (remove_nick w.env s buffer_id nick)
      (nick_event (record (blank_nick_event buffer_id kind_part nick) { message = reason }))

unfoldable pub handle_part :
    World → AppState → Text → Text → Option Prefix → Text → Option Text → Tags → AppState
unfolding extract_nick_userhost is_ignored other_part message_timestamp
handle_part w s conn_id our_nick prefix name reason tags =
    let (nick, ident, host) = extract_nick_userhost prefix in
    let buffer_id = make_buffer_id w.env.to_lowercase conn_id name in
    let left = other_part w s buffer_id nick reason in
    if text_eq nick our_nick
    then update_connection (remove_buffer w.env s buffer_id) conn_id (forget_silent name)
    else (if is_ignored w left nick ident host parts (some name)
        then left
        else post w left buffer_id (λ id.
          event_message id (message_timestamp w tags)
            (full_name nick ident host
              ++ (codes " has left " ++ (name ++ (b' ' ∷ in_parentheses (or_empty reason)))))
            (some (codes "part")) (some (nick ∷ ident ∷ host ∷ name ∷ or_empty reason ∷ [])) tags))

-- The identifiers of the buffers for which a test holds.
abbrev pub buffers_where : (Buffer → Bool) → Map Text Buffer → List Text
buffers_where p [] = []
buffers_where p ((id, b) ∷ m) = let rest = buffers_where p m in if p b then id ∷ rest else rest

-- The buffers of the connection that list the nick.
abbrev pub has_user : (Text → Text) → Text → Text → Buffer → Bool
has_user to_lowercase conn_id nick b =
    text_eq b.connection_id conn_id && contains_key (to_lowercase nick) b.users

unfoldable pub leave_all : World → AppState → Text → Option Text → List Text → AppState
leave_all w s nick reason [] = s
leave_all w s nick reason (buf_id ∷ ids) =
    leave_all w
      (emit (remove_nick w.env s buf_id nick)
        (nick_event (record (blank_nick_event buf_id kind_quit nick) { message = reason })))
      nick reason ids

-- A message for several buffers is logged whole in the first, by reference in the others.
abbrev pub logged_as : Text → Bool → Message → Message
logged_as primary_msg_id is_primary m = record m {
  log_msg_id = if is_primary then some primary_msg_id else none;
  log_ref_id = if is_primary then none else some primary_msg_id;
}

unfoldable pub fan_out : World → AppState → (ℕ → Message) → Bool → List Text → AppState
fan_out w s m is_primary [] = s
fan_out w s m is_primary (buf_id ∷ ids) =
    fan_out w (post w s buf_id (λ id. logged_as w.fresh_id is_primary (m id))) m false ids

abbrev pub quit_message : World → Text × Text × Text → Text → Tags → ℕ → Message
quit_message w who reason tags id =
    let (nick, ident, host) = who in
    event_message id (message_timestamp w tags)
      (full_name nick ident host ++ (codes " has quit " ++ in_parentheses reason))
      (some (codes "quit")) (some (nick ∷ ident ∷ host ∷ reason ∷ [])) tags

unfoldable pub handle_quit : World → AppState → Text → Option Prefix → Option Text → Tags → AppState
unfolding extract_nick_userhost leave_all is_ignored fan_out message_timestamp
handle_quit w s conn_id prefix reason tags =
    let (nick, ident, host) = extract_nick_userhost prefix in
    let affected = buffers_where (has_user w.env.to_lowercase conn_id nick) s.buffers in
    let left = leave_all w s nick reason affected in
    let (split, netsplit) =
      Handlers.handle_quit w.env.to_lowercase left.netsplit_state nick (or_empty reason) affected
        w.instant in
    let left' = record left { netsplit_state = split } in
    if is_ignored w left nick ident host quits none
    then left
    else (if netsplit
        then left'
        else fan_out w left' (quit_message w (nick, ident, host) (or_empty reason) tags) true
            affected)
