-- ===== src/State/App.antt =====
-- `AppState` (src/state/mod.rs, the fields that these methods touch) and its methods
-- (src/state/events.rs). What the methods use of other code is the record `Env`: Unicode lower
-- case, the JSON form of tags, fresh identifiers, and the matches of the regular expression `URL_RE`.
use repartee_desktop.Base.{
  text_eq, some, leb, ◌%◌, not, none, map, ◌++◌, false, if◌then◌else◌, ◌+◌, ℕ, List, [], ◌∷◌, Text,
  Bool, Option,
}
use repartee_desktop.Base.Maps.{Text_eq, Map, get, insert, remove, contains_key, adjust, size}
use repartee_desktop.Flood.{FloodState}
use repartee_desktop.Flood.Checks
use repartee_desktop.State.{
  ActivityLevel, Message, activity_rank, quiet, buffer_type_str, ConnectionStatus, Buffer,
  Connection, BufferMeta, LogRow,
}
use repartee_desktop.State.Sorting.{sort_buffers}
use repartee_desktop.Netsplit.{NetsplitState}
use repartee_desktop.Irc.Ignore.{IgnoreEntry}

pub record Env : Type 0 where
  pub to_lowercase : Text → Text
  pub tags_to_json : Map Text Text → Option Text
  pub new_uuid : ℕ → Text
  pub find_iter : Text → List Text

-- The queue of the storage writer: what it holds, and whether it has room.
pub record LogQueue : Type 0 where
  pub rows : List LogRow
  pub has_room : List LogRow → Bool

pub record PendingIncoming : Type 0 where
  pub buffer_id : Text
  pub message : Message
  pub activity_level : ActivityLevel
  pub urls : List Text
  pub push_to_mentions : Bool

-- The queue of the worker that shortens links: what it was given, and whether `try_send` succeeds.
pub record ShrinkQueue : Type 0 where
  pub sent : List PendingIncoming
  pub accepts : List PendingIncoming → Bool

pub record LinkPreview : Type 0 where
  pub link : Text
  pub server_proxy : Bool
  pub thumb_url : Option Text

pub record WireMessage : Type 0 where
  pub id : ℕ
  pub timestamp : ℕ
  pub msg_type : Text
  pub nick : Option Text
  pub nick_mode : Option Text
  pub text : Text
  pub highlight : Bool
  pub event_key : Option Text
  pub previews : List LinkPreview

pub data NickEventKind : Type 0 where
  kind_join kind_part kind_quit kind_nick_change kind_mode_change kind_away_change : NickEventKind

pub record NickEvent : Type 0 where
  pub buffer_id : Text
  pub kind : NickEventKind
  pub nick : Text
  pub new_nick : Option Text
  pub prefix : Option Text
  pub modes : Option Text
  pub away : Option Bool
  pub message : Option Text

-- The events that the methods and the handlers of IRC messages queue for the web clients.
pub data WebEvent : Type 0 where
  buffer_created : BufferMeta → WebEvent
  buffer_closed active_buffer_changed : Text → WebEvent
  new_message mention_alert : Text → WireMessage → WebEvent
  activity_changed : Text → ℕ → ℕ → WebEvent
  nick_event : NickEvent → WebEvent
  topic_changed : Text → Option Text → Option Text → WebEvent
  connection_status : Text → Text → Bool → Text → WebEvent

-- A NOTICE of the encryption handshake that is to be sent.
pub record PendingE2eSend : Type 0 where
  pub connection_id : Text
  pub target : Text
  pub notice_text : Text

-- `web_preview_extractor` is the function that the extractor computes.
pub record AppState : Type 0 where
  pub connections : Map Text Connection
  pub buffers : Map Text Buffer
  pub active_buffer_id : Option Text
  pub previous_buffer_id : Option Text
  pub message_counter : ℕ  -- u64
  pub flood_state : FloodState
  pub netsplit_state : NetsplitState
  pub flood_protection : Bool
  pub flood_exemptions : List Text
  pub pending_e2e_sends : List PendingE2eSend
  pub ignores : List IgnoreEntry
  pub shrink_incoming_queue : Option ShrinkQueue
  pub shrink_incoming_active : Bool
  pub shrink_min_url_length : ℕ
  pub suppress_event_display : Bool
  pub log_queue : Option LogQueue
  pub log_exclude_types : List Text
  pub scrollback_limit : ℕ
  pub pending_web_events : List WebEvent
  pub web_preview_extractor : Option (Text → List LinkPreview)

abbrev pub u32_succ : ℕ → ℕ
u32_succ n = (n + 1) % 4294967296

abbrev pub saturate_u32 : ℕ → ℕ
saturate_u32 n = if leb n 4294967295 then n else 4294967295

abbrev pub same_id : Option Text → Text → Bool
same_id none id = false
same_id (some a) id = text_eq a id

abbrev pub emit : AppState → WebEvent → AppState
emit s ev = record s { pending_web_events = s.pending_web_events ++ ev ∷ [] }

abbrev pub update_buffer : AppState → Text → (Buffer → Buffer) → AppState
update_buffer s id f = record s { buffers = adjust id f s.buffers }

unfoldable pub next_message_id : AppState → AppState × ℕ
next_message_id s =
    let n = (s.message_counter + 1) % 18446744073709551616 in (record s { message_counter = n }, n)

unfoldable pub add_connection : AppState → Connection → AppState
unfolding insert
add_connection s conn = record s { connections = insert conn.id conn s.connections }

unfoldable pub remove_connection : AppState → Text → AppState
unfolding remove
remove_connection s id = record s { connections = remove id s.connections }

unfoldable pub update_connection_status : AppState → Text → ConnectionStatus → AppState
unfolding adjust
update_connection_status s id status = record s {
  connections = adjust id (λ c. record c { status = status }) s.connections;
}

unfoldable pub buffer_meta : Buffer → BufferMeta
buffer_meta b = record {
  id = b.id;
  connection_id = b.connection_id;
  name = b.name;
  buffer_type = buffer_type_str b.buffer_type;
  topic = b.topic;
  unread_count = b.unread_count;
  activity = activity_rank b.activity;
  nick_count = saturate_u32 (size b.users);
  modes = b.modes;
}

unfoldable pub add_buffer : AppState → Buffer → AppState
add_buffer s b =
    emit (record s { buffers = insert b.id b s.buffers }) (buffer_created (buffer_meta b))

abbrev pub label_of : Map Text Connection → Text → Text
label_of conns conn_id = elim (get conn_id conns) [ none ↦ conn_id | some c ↦ c.label ]

abbrev pub values {ℓ κ} : {K : Type ℓ} {V : Type κ} → Map K V → List V
values m = map (λ e. e.1) m

unfoldable pub sorted_buffer_ids : Env → AppState → List Text
sorted_buffer_ids env s =
    map (λ (b : Buffer). b.id)
      (sort_buffers env.to_lowercase (label_of s.connections) (values s.buffers))

abbrev pub first_of_list : List Text → Option Text
first_of_list [] = none
first_of_list (x ∷ xs) = some x

-- Which buffer is shown once the active one is gone.
unfoldable pub fall_back : Env → AppState → AppState
fall_back env s =
    let sorted = record s {
      active_buffer_id = first_of_list (sorted_buffer_ids env s);
      previous_buffer_id = none;
    } in
    elim s.previous_buffer_id [
      | none ↦ sorted
      | some prev_id ↦
          if contains_key prev_id s.buffers
          then record s { active_buffer_id = some prev_id; previous_buffer_id = none }
          else sorted
    ]

unfoldable pub remove_buffer : Env → AppState → Text → AppState
unfolding fall_back
remove_buffer env s id =
    let closed = emit s (buffer_closed id) in
    let removed = record closed {
      buffers = remove id s.buffers;
      flood_state = Checks.remove_buffer s.flood_state id;
    } in
    if not (contains_key id s.buffers)
    then s
    else (if same_id s.active_buffer_id id then fall_back env removed else removed)

abbrev pub clear_activity : Buffer → Buffer
clear_activity b = record b { activity = quiet; unread_count = 0 }

unfoldable pub set_active_buffer : AppState → Text → AppState
set_active_buffer s id =
    let changed = not (same_id s.active_buffer_id id) in
    let shown =
      update_buffer
        (record s {
          previous_buffer_id = if changed then s.active_buffer_id else s.previous_buffer_id;
          active_buffer_id = some id;
        })
        id clear_activity in
    if not (contains_key id s.buffers)
    then s
    else (if changed then emit shown (active_buffer_changed id) else shown)
