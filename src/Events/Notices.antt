-- ===== src/Events/Notices.antt =====
-- Notices: `handle_notice` of src/irc/events.rs.
use repartee_desktop.Events.Encryption.{try_dispatch_rpe2e_ctcp}
use repartee_desktop.Base.{
  ◌++◌, ◌||◌, [], text_eq, false, some, none, if◌then◌else◌, codes, ℕ, not, ◌&&◌, Option, ◌∷◌, Bool,
  Text,
}
use repartee_desktop.State.{notice}
use repartee_desktop.Irc.Ignore.{notices}
use repartee_desktop.Irc.Formatting.{is_channel}
use repartee_desktop.Events.{
  make_buffer_id, label, Message, AppState, World, Prefix, Tags, extract_nick,
  extract_nick_userhost, is_server_prefix, is_ignored, post, message_timestamp, or_text,
  server_buffer,
}
use repartee_desktop.State.Nicks.{nick_prefix}
use repartee_desktop.Base.Maps.{Text_eq, get, contains_key}
use repartee_desktop.Events.Talk.{channel_of}

abbrev pub nick_on : AppState → Text → Text
nick_on s conn_id = elim (get conn_id s.connections) [ none ↦ [] | some c ↦ c.nick ]

abbrev pub is_nick : Text → Option Text → Bool
is_nick n none = false
is_nick n (some m) = text_eq m n

-- Where a notice is shown: a server's in the status buffer, our own and one to a channel in the
-- buffer that it goes to, any other in that of its sender.
unfoldable pub notice_buffer : World → AppState → Text → Option Prefix → Text → Text
unfolding label server_buffer
notice_buffer w s conn_id prefix target =
    let nick = extract_nick prefix in
    let own = is_nick (nick_on s conn_id) nick in
    let buffer_name =
      if is_server_prefix prefix
      then label s conn_id (codes "Status")
      else (if is_channel target || own then target else or_text (codes "Status") nick) in
    let buffer_id = make_buffer_id w.env.to_lowercase conn_id buffer_name in
    if contains_key buffer_id s.buffers then buffer_id else server_buffer w s conn_id

abbrev pub mode_of_nick : World → AppState → Text → Option Text → Option Text
mode_of_nick w s buffer_id none = none
mode_of_nick w s buffer_id (some nick) = elim (nick_prefix w.env s buffer_id nick) [
  | none ↦ none
  | some c ↦ some (c ∷ [])
]

abbrev pub noticed : World → AppState → Text → Option Text → Text → Tags → ℕ → Message
noticed w s buffer_id nick text tags id = record {
  id = id;
  timestamp = message_timestamp w tags;
  message_type = notice;
  nick = nick;
  nick_mode = mode_of_nick w s buffer_id nick;
  text = text;
  highlight = false;
  event_key = none;
  event_params = none;
  log_msg_id = none;
  log_ref_id = none;
  tags = tags;
}

-- A message of the handshake is not shown.
unfoldable pub show_notice : World → AppState → Text → Option Prefix → Text → Text → Tags → AppState
unfolding extract_nick extract_nick_userhost notice_buffer message_timestamp try_dispatch_rpe2e_ctcp
show_notice w s conn_id prefix target text tags =
    let (nick, ident, host) = extract_nick_userhost prefix in
    let (s1, handled) = try_dispatch_rpe2e_ctcp w s conn_id nick (ident ++ (b'@' ∷ host)) text in
    let buffer_id = notice_buffer w s1 conn_id prefix target in
    if handled
    then s1
    else post w s1 buffer_id (noticed w s1 buffer_id (extract_nick prefix) text tags)

unfoldable pub handle_notice :
    World → AppState → Text → Option Prefix → Text → Text → Tags → AppState
unfolding extract_nick_userhost is_server_prefix is_ignored show_notice
handle_notice w s conn_id prefix target text tags =
    let (nick, ident, host) = extract_nick_userhost prefix in
    if not (is_server_prefix prefix) && is_ignored w s nick ident host notices (channel_of target)
    then s
    else show_notice w s conn_id prefix target text tags
