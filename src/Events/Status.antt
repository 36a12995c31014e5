-- ===== src/Events/Status.antt =====
-- What users and channels say of themselves: `handle_account`, `handle_away`, `handle_chghost`,
-- `handle_topic`, `handle_invite` and `handle_wallops` of src/irc/events.rs.
use repartee_desktop.Base.{
  text_eq, eq_ignore_ascii_case, true, [], ◌++◌, if◌then◌else◌, false, some, ◌∷◌, ◌&&◌, none, Bool,
  codes, List, Option, ℕ, Text,
}
use repartee_desktop.Events.{
  make_buffer_id, Message, active_or_server_buffer, World, Prefix, extract_nick, post,
  event_message, message_timestamp, Tags, or_empty, or_text, blank_nick_event, server_buffer,
  emit_text,
}
use repartee_desktop.State.App.{kind_away_change, topic_changed, nick_event, AppState, emit}
use repartee_desktop.State.Messages.{set_topic}
use repartee_desktop.Events.Members.{buffers_where, has_user, logged_in}
use repartee_desktop.Events.Lifecycle.{is_channel_type}
use repartee_desktop.State.{Buffer, NickEntry}
use repartee_desktop.Base.Maps.{Text_eq, adjust, contains_key, map_values}

-- A change of the user in every buffer of the connection that lists it.
unfoldable pub update_user :
    (Text → Text) → Text → Text → (NickEntry → NickEntry) → AppState → AppState
update_user to_lowercase conn_id nick f s = record s {
  buffers =
      map_values
        (λ (b : Buffer).
          if text_eq b.connection_id conn_id
          then record b { users = adjust (to_lowercase nick) f b.users }
          else b)
        s.buffers;
}

unfoldable pub update_nick_account_in_buffers :
    World → AppState → Text → Text → Option Text → AppState
unfolding update_user
update_nick_account_in_buffers w s conn_id nick account =
    update_user w.env.to_lowercase conn_id nick (λ e. record e { account = account }) s

-- The channels of the connection that list the nick.
abbrev pub shared_buffers : World → Text → Text → AppState → List Text
shared_buffers w conn_id nick s =
    buffers_where (λ b. is_channel_type b.buffer_type && has_user w.env.to_lowercase conn_id nick b)
      s.buffers

-- The same line in several buffers.
unfoldable pub post_all : World → AppState → (ℕ → Message) → List Text → AppState
post_all w s m [] = s
post_all w s m (buf_id ∷ ids) = post_all w (post w s buf_id m) m ids

abbrev pub account_description : Option Text → Text
account_description none = codes "has logged out"
account_description (some acct) = codes "is now logged in as " ++ acct

unfoldable pub handle_account : World → AppState → Text → Option Prefix → Text → Tags → AppState
unfolding extract_nick update_nick_account_in_buffers message_timestamp
handle_account w s conn_id prefix account tags = elim (extract_nick prefix) [
  | none ↦ s
  | some nick ↦
      let resolved = logged_in account in
      let s' = update_nick_account_in_buffers w s conn_id nick resolved in
      let description = account_description resolved in
      post_all w s'
        (λ id.
          event_message id (message_timestamp w tags) (nick ++ (b' ' ∷ description))
            (some (codes "account")) (some (nick ∷ description ∷ [])) tags)
        (shared_buffers w conn_id nick s')
]

abbrev pub is_some : Option Text → Bool
is_some none = false
is_some (some t) = true

unfoldable pub emit_away : AppState → Text → Option Text → List Text → AppState
emit_away s nick reason [] = s
emit_away s nick reason (buf_id ∷ ids) =
    emit_away
      (emit s (
        nick_event (record (blank_nick_event buf_id kind_away_change nick) {
          away = some (is_some reason);
          message = reason;
        })))
      nick reason ids

unfoldable pub handle_away : World → AppState → Text → Option Prefix → Option Text → AppState
unfolding extract_nick update_user
handle_away w s conn_id prefix reason = elim (extract_nick prefix) [
  | none ↦ s
  | some nick ↦
      emit_away
        (update_user w.env.to_lowercase conn_id nick (λ e. record e { away = is_some reason }) s)
        nick reason (buffers_where (has_user w.env.to_lowercase conn_id nick) s.buffers)
]

unfoldable pub handle_chghost :
    World → AppState → Text → Option Prefix → Text → Text → Tags → AppState
unfolding extract_nick update_user message_timestamp
handle_chghost w s conn_id prefix new_user new_host tags = elim (extract_nick prefix) [
  | none ↦ s
  | some nick ↦
      let s' =
        update_user w.env.to_lowercase conn_id nick
          (λ e. record e { ident = some new_user; host = some new_host }) s in
      post_all w s'
        (λ id.
          event_message id (message_timestamp w tags)
            (nick ++ (codes " changed host to " ++ (new_user ++ (b'@' ∷ new_host))))
            (some (codes "chghost")) (some (nick ∷ new_user ∷ new_host ∷ [])) tags)
        (shared_buffers w conn_id nick s')
]

unfoldable pub handle_topic :
    World → AppState → Text → Option Prefix → Text → Option Text → Tags → AppState
unfolding extract_nick message_timestamp
handle_topic w s conn_id prefix name topic tags =
    let nick = extract_nick prefix in
    let setter = or_empty nick in
    let buffer_id = make_buffer_id w.env.to_lowercase conn_id name in
    elim topic [
      | none ↦ s
      | some topic_text ↦
          post w
            (emit (set_topic s buffer_id topic_text nick)
              (topic_changed buffer_id (some topic_text) nick))
            buffer_id
            (λ id.
              event_message id (message_timestamp w tags)
                (setter ++ (codes " changed the topic to: " ++ topic_text))
                (some (codes "topic_changed")) (some (setter ∷ topic_text ∷ [])) tags)
    ]

unfoldable pub handle_invite :
    World → AppState → Text → Text → Option Prefix → Text → Text → Tags → AppState
unfolding extract_nick active_or_server_buffer message_timestamp
handle_invite w s conn_id our_nick prefix nick name tags =
    let inviter = or_empty (extract_nick prefix) in
    let buffer_id = make_buffer_id w.env.to_lowercase conn_id name in
    if eq_ignore_ascii_case nick our_nick
    then post w s (active_or_server_buffer w s conn_id) (λ id.
      record (event_message id (message_timestamp w tags)
        (inviter ++ (codes " invites you to " ++ name)) none none tags) { highlight = true })
    else (if contains_key buffer_id s.buffers
        then post w s buffer_id (λ id.
          event_message id (message_timestamp w tags)
            (inviter ++ (codes " invited " ++ (nick ++ (codes " to " ++ name)))) none none tags)
        else s)

unfoldable pub handle_wallops : World → AppState → Text → Option Prefix → Text → AppState
unfolding extract_nick server_buffer emit_text
handle_wallops w s conn_id prefix text = emit_text w s (server_buffer w s conn_id) (
    codes "%Ze0af68[Wallops/"
    ++ (or_text (codes "server") (extract_nick prefix) ++ (codes "]%N " ++ text)))
