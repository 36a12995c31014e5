-- ===== src/State/Messages.antt =====
-- Messages on their way into a buffer (src/state/events.rs): the log, the events for the web
-- clients, the scrollback and the activity.
use repartee_desktop.Base.{
  ◌&&◌, find_byte, eq_ignore_ascii_case, ltb, not, any, ◌++◌, ◌+◌, if◌then◌else◌, codes, ℕ, List,
  [], ◌∷◌, Text, Option, some, none, take, drop, length,
}
use repartee_desktop.Base.Maps.{Text_eq, get, contains_key}
use repartee_desktop.State.{mention, activity_rank, as_str, ActivityLevel, Buffer, LogRow, Message}
use repartee_desktop.State.App.{
  activity_changed, u32_succ, same_id, new_message, mention_alert, WireMessage, emit, update_buffer,
  LinkPreview, AppState, LogQueue, Env,
}
use repartee_desktop.State.Buffers.{track_speaker, push_message, enforce_scrollback}

-- `message_to_wire` of src/web/snapshot.rs.
unfoldable pub message_to_wire : Message → Option (Text → List LinkPreview) → WireMessage
message_to_wire m extractor = record {
  id = m.id;
  timestamp = m.timestamp;
  msg_type = as_str m.message_type;
  nick = m.nick;
  nick_mode = m.nick_mode;
  text = m.text;
  highlight = m.highlight;
  event_key = m.event_key;
  previews = elim extractor [ none ↦ [] | some e ↦ e m.text ];
}

abbrev pub or_else : Option Text → Text → Text
or_else none d = d
or_else (some t) d = t

-- The row that `maybe_log` makes, for a buffer id that is cut at its first slash.
unfoldable pub log_row : Env → AppState → LogQueue → Text → ℕ → Message → LogRow
log_row env s q buffer_id slash m =
    let conn_id = take slash buffer_id in
    record {
      msg_id = or_else m.log_msg_id (env.new_uuid (length q.rows));
      network = elim (get conn_id s.connections) [ none ↦ conn_id | some c ↦ c.label ];
      buffer = drop (slash + 1) buffer_id;
      timestamp = m.timestamp;
      msg_type = m.message_type;
      nick = m.nick;
      text = elim m.log_ref_id [ none ↦ m.text | some r ↦ [] ];
      highlight = m.highlight;
      ref_id = m.log_ref_id;
      tags = elim m.tags [ none ↦ none | some t ↦ env.tags_to_json t ];
      event_key = m.event_key;
    }

-- `try_send`: a full queue drops the row.
abbrev pub try_send : LogQueue → LogRow → LogQueue
try_send q row = if q.has_room q.rows then record q { rows = q.rows ++ row ∷ [] } else q

unfoldable pub maybe_log : Env → AppState → Text → Message → AppState
unfolding log_row
maybe_log env s buffer_id m = elim s.log_queue [
  | none ↦ s
  | some q ↦
      if any (λ t. eq_ignore_ascii_case t (as_str m.message_type)) s.log_exclude_types
      then s
      else elim (find_byte b'/' buffer_id) [
        | none ↦ s
        | some slash ↦ record s {
          log_queue = some (try_send q (log_row env s q buffer_id slash m));
        }
      ]
]

-- The events for the web clients: a mention alert for a highlight, then the message.
unfoldable pub announce : AppState → Text → Message → AppState
announce s buffer_id m =
    let wire = message_to_wire m s.web_preview_extractor in
    let alerted = if m.highlight then emit s (mention_alert buffer_id wire) else s in
    emit alerted (new_message buffer_id wire)

-- What a message does to the buffer that gets it.
unfoldable pub receive : Env → ℕ → Message → Buffer → Buffer
receive env limit m b =
    enforce_scrollback (push_message (track_speaker env.to_lowercase b m) m) limit

unfoldable pub add_message_unshrunk : Env → AppState → Text → Message → AppState
unfolding maybe_log announce receive
add_message_unshrunk env s buffer_id m =
    if not (contains_key buffer_id s.buffers)
    then s
    else update_buffer (announce (maybe_log env s buffer_id m) buffer_id m) buffer_id
        (receive env s.scrollback_limit m)

unfoldable pub add_local_message : AppState → Text → Message → AppState
add_local_message s buffer_id m =
    update_buffer (emit s (new_message buffer_id (message_to_wire m s.web_preview_extractor)))
      buffer_id (λ b. enforce_scrollback (push_message b m) s.scrollback_limit)

-- Activity only rises, and only in a buffer that is not shown.
unfoldable pub escalate : AppState → Text → ActivityLevel → AppState
escalate s buffer_id level = elim (get buffer_id s.buffers) [
  | none ↦ s
  | some b ↦
      if not (same_id s.active_buffer_id buffer_id)
        && ltb (activity_rank b.activity) (activity_rank level)
      then (emit
          (update_buffer s buffer_id
            (λ c. record c { activity = level; unread_count = u32_succ c.unread_count }))
          (activity_changed buffer_id (activity_rank level) (u32_succ b.unread_count)))
      else s
]

unfoldable pub add_message_with_activity_unshrunk :
    Env → AppState → Text → Message → ActivityLevel → AppState
add_message_with_activity_unshrunk env s buffer_id m level =
    if not (contains_key buffer_id s.buffers)
    then s
    else escalate (add_message_unshrunk env s buffer_id m) buffer_id level

abbrev pub mentions_id : Text
mentions_id = codes "_mentions"

-- The mentions buffer keeps a thousand messages, whatever the scrollback limit.
unfoldable pub add_mention_to_buffer : AppState → Message → AppState
add_mention_to_buffer s m =
    let told = emit s (new_message mentions_id (message_to_wire m s.web_preview_extractor)) in
    let pushed = update_buffer told mentions_id (λ b. enforce_scrollback (push_message b m) 1000) in
    elim (get mentions_id s.buffers) [
      | none ↦ s
      | some b ↦
          if same_id s.active_buffer_id mentions_id
          then pushed
          else emit
              (update_buffer pushed mentions_id
                (λ c. record c { activity = mention; unread_count = u32_succ c.unread_count }))
              (activity_changed mentions_id (activity_rank mention) (u32_succ b.unread_count))
    ]

unfoldable pub set_activity : AppState → Text → ActivityLevel → AppState
set_activity s buffer_id level = update_buffer s buffer_id (λ b.
    if ltb (activity_rank b.activity) (activity_rank level)
    then record b { activity = level }
    else b)

unfoldable pub set_topic : AppState → Text → Text → Option Text → AppState
set_topic s buffer_id topic set_by =
    update_buffer s buffer_id (λ b. record b { topic = some topic; topic_set_by = set_by })
