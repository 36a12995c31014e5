-- ===== src/Events/Renames.antt =====
-- A change of nick: `handle_nick_change` and `rename_query_buffers` of src/irc/events.rs, and
-- `update_label_from_network`, which gives a status buffer its new name in the same way.
use repartee_desktop.Base.{
  ◌||◌, has_byte, codes, ◌++◌, [], not, some, none, ◌&&◌, text_eq, ◌∷◌, false, if◌then◌else◌,
  Option, ℕ, List, true, Bool, Text,
}
use repartee_desktop.State.{
  log, shell, special, dcc_chat, channel, connected, connecting, disconnected, error,
}
use repartee_desktop.Irc.Ignore.{nicks}
use repartee_desktop.Events.{
  make_buffer_id, Message, get, Map, World, Prefix, extract_nick, extract_nick_userhost, is_ignored,
  post, event_message, message_timestamp, Tags, or_empty, update_connection, blank_nick_event,
}
use repartee_desktop.State.App.{
  same_id, kind_nick_change, nick_event, connection_status, AppState, emit,
}
use repartee_desktop.State.Nicks.{update_nick}
use repartee_desktop.Events.Members.{buffers_where, logged_as}
use repartee_desktop.Flood.Checks
use repartee_desktop.State.{server, mentions, query, Buffer, ConnectionStatus, BufferType}
use repartee_desktop.Base.Maps.{remove, Text_eq, insert, contains_key}

abbrev pub is_query : BufferType → Bool
is_query query = true
is_query mentions = false
is_query server = false
is_query channel = false
is_query dcc_chat = false
is_query special = false
is_query shell = false
is_query log = false

abbrev pub is_query_at : Text → Map Text Buffer → Bool
is_query_at id m = elim (get id m) [ none ↦ false | some b ↦ is_query b.buffer_type ]

-- The buffer moves to a new identifier and name, and stays the shown one if it was.
unfoldable pub rename_buffer : AppState → Text → Text → Text → AppState
rename_buffer s old_id new_id name = elim (get old_id s.buffers) [
  | none ↦ s
  | some b ↦ record s {
    buffers = insert new_id (record b { id = new_id; name = name }) (remove old_id s.buffers);
    active_buffer_id =
        if same_id s.active_buffer_id old_id then some new_id else s.active_buffer_id;
  }
]

unfoldable pub rename_query_buffers : World → AppState → Text → Text → List Text → AppState
unfolding rename_buffer
rename_query_buffers w s conn_id new_nick [] = s
rename_query_buffers w s conn_id new_nick (buf_id ∷ ids) =
    let new_id = make_buffer_id w.env.to_lowercase conn_id new_nick in
    let renamed =
      rename_query_buffers w (rename_buffer s buf_id new_id new_nick) conn_id new_nick ids in
    let kept = rename_query_buffers w s conn_id new_nick ids in
    if is_query_at buf_id s.buffers then renamed else kept

-- A buffer that lists the nick, or is the conversation with it.
abbrev pub knows : (Text → Text) → Text → Text → Buffer → Bool
knows to_lowercase conn_id nick b =
    text_eq b.connection_id conn_id
    && (contains_key (to_lowercase nick) b.users
        || is_query b.buffer_type && text_eq (to_lowercase b.name) (to_lowercase nick))

abbrev pub is_connected : ConnectionStatus → Bool
is_connected connected = true
is_connected connecting = false
is_connected disconnected = false
is_connected error = false

-- Our own nick is kept by the connection.
unfoldable pub set_our_nick : AppState → Text → Text → AppState
set_our_nick s conn_id new_nick = elim (get conn_id s.connections) [
  | none ↦ s
  | some c ↦
      emit (update_connection s conn_id (λ d. record d { nick = new_nick }))
        (connection_status conn_id c.label (is_connected c.status) new_nick)
]

unfoldable pub rename_silently : World → AppState → Text → Text → List Text → AppState
rename_silently w s old_nick new_nick [] = s
rename_silently w s old_nick new_nick (buf_id ∷ ids) =
    rename_silently w (update_nick w.env s buf_id old_nick new_nick) old_nick new_nick ids

-- The nick list of a buffer, and the event for the web clients.
unfoldable pub renamed_in : World → AppState → Text → Text → Text → AppState
renamed_in w s buf_id old_nick new_nick = emit (update_nick w.env s buf_id old_nick new_nick) (
    nick_event
      (record (blank_nick_event buf_id kind_nick_change old_nick) { new_nick = some new_nick }))

-- Whether the flood detector hides the change in a buffer; our own is never asked for.
unfoldable pub nick_flood : World → AppState → Bool → Text → AppState × Bool
nick_flood w s is_ours buf_id =
    let (flood, hidden) = Checks.should_suppress_nick_flood s.flood_state buf_id w.instant in
    if s.flood_protection && not is_ours
    then (record s { flood_state = flood }, hidden)
    else (s, false)

unfoldable pub rename_loudly :
    World → AppState → Bool → Text → Text → (ℕ → Message) → Bool → List Text → AppState
unfolding renamed_in nick_flood
rename_loudly w s is_ours old_nick new_nick m primary_assigned [] = s
rename_loudly w s is_ours old_nick new_nick m primary_assigned (buf_id ∷ ids) =
    let (s', hidden) = nick_flood w (renamed_in w s buf_id old_nick new_nick) is_ours buf_id in
    let quiet_rest = rename_loudly w s' is_ours old_nick new_nick m primary_assigned ids in
    let told = post w s' buf_id (λ id. logged_as w.fresh_id (not primary_assigned) (m id)) in
    let told_rest = rename_loudly w told is_ours old_nick new_nick m true ids in
    if hidden then quiet_rest else told_rest

abbrev pub nick_message : World → Text → Text → Tags → ℕ → Message
nick_message w old_nick new_nick tags id =
    event_message id (message_timestamp w tags)
      (old_nick ++ (codes " is now known as " ++ new_nick)) (some (codes "nick_change"))
      (some (old_nick ∷ new_nick ∷ [])) tags

unfoldable pub handle_nick_change :
    World → AppState → Text → Text → Option Prefix → Text → Tags → AppState
unfolding extract_nick extract_nick_userhost is_ignored set_our_nick rename_silently rename_loudly
    rename_query_buffers message_timestamp
handle_nick_change w s conn_id our_nick prefix new_nick tags =
    let old_nick = or_empty (extract_nick prefix) in
    let (nick, ident, host) = extract_nick_userhost prefix in
    let is_ours = text_eq old_nick our_nick in
    let s' = if is_ours then set_our_nick s conn_id new_nick else s in
    let affected = buffers_where (knows w.env.to_lowercase conn_id old_nick) s'.buffers in
    let renamed =
      if not is_ours && is_ignored w s' old_nick ident host nicks none
      then rename_silently w s' old_nick new_nick affected
      else rename_loudly w s' is_ours old_nick new_nick (nick_message w old_nick new_nick tags)
          false affected in
    rename_query_buffers w renamed conn_id new_nick affected

-- The name that the server gives its network replaces a label that looks like an address.
unfoldable pub update_label_from_network : World → AppState → Text → Text → AppState
unfolding rename_buffer
update_label_from_network w s conn_id network_name = elim (get conn_id s.connections) [
  | none ↦ s
  | some c ↦
      if has_byte b'.' c.label
      then rename_buffer (update_connection s conn_id (λ d. record d { label = network_name }))
          (make_buffer_id w.env.to_lowercase conn_id c.label)
          (make_buffer_id w.env.to_lowercase conn_id network_name) network_name
      else s
]
