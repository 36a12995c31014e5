-- ===== src/State.antt =====
-- The state of the client (src/state): connections, buffers and messages. The types of
-- src/state/buffer.rs, src/state/connection.rs (the fields that the state's methods and the handlers
-- of IRC messages read), src/storage/types.rs (`LogRow`) and the events of src/web/protocol.rs that
-- these methods queue. A text is the list of its characters, a time the number of seconds since 1970,
-- and a set a list.
pub mod Buffers
pub mod Sorting
pub mod App
pub mod Speakers
pub mod Active
pub mod Shown
pub mod Messages
pub mod Nicks
pub mod Steps
pub mod Gate
mod Tests
use repartee_desktop.Irc.Isupport.{Isupport}
use repartee_desktop.Base.{codes, ℕ, List, [], ◌∷◌, refl, Text, Bool, Option}
use repartee_desktop.Base.Maps.{Map}
use repartee_desktop.Flood.{FloodState}

pub data BufferType : Type 0 where
  mentions server channel query dcc_chat special shell log : BufferType

unfoldable pub sort_group : BufferType → ℕ
sort_group mentions = 0
sort_group server = 1
sort_group channel = 2
sort_group log = 2
sort_group query = 3
sort_group dcc_chat = 4
sort_group special = 5
sort_group shell = 6

unfoldable pub buffer_type_str : BufferType → Text
buffer_type_str mentions = codes "mentions"
buffer_type_str server = codes "server"
buffer_type_str channel = codes "channel"
buffer_type_str query = codes "query"
buffer_type_str dcc_chat = codes "dcc_chat"
buffer_type_str special = codes "special"
buffer_type_str shell = codes "shell"
buffer_type_str log = codes "log"

-- `none` is spelled `quiet` here.
pub data ActivityLevel : Type 0 where
  quiet events highlight activity mention : ActivityLevel

-- `level as u8`, by which levels are also ordered.
unfoldable pub activity_rank : ActivityLevel → ℕ
activity_rank quiet = 0
activity_rank events = 1
activity_rank highlight = 2
activity_rank activity = 3
activity_rank mention = 4

pub data MessageType : Type 0 where
  message action event notice mention_log : MessageType

unfoldable pub as_str : MessageType → Text
as_str message = codes "message"
as_str action = codes "action"
as_str event = codes "event"
as_str notice = codes "notice"
as_str mention_log = codes "mention_log"

pub record Message : Type 0 where
  pub id : ℕ
  pub timestamp : ℕ
  pub message_type : MessageType
  pub nick : Option Text
  pub nick_mode : Option Text
  pub text : Text
  pub highlight : Bool
  pub event_key : Option Text
  pub event_params : Option (List Text)
  pub log_msg_id : Option Text
  pub log_ref_id : Option Text
  pub tags : Option (Map Text Text)

pub record NickEntry : Type 0 where
  pub nick : Text
  pub prefix : Text
  pub modes : Text
  pub away : Bool
  pub account : Option Text
  pub ident : Option Text
  pub host : Option Text

pub record ListEntry : Type 0 where
  pub mask : Text
  pub set_by : Text
  pub set_at : ℕ

abbrev pub last_speakers_cap : ℕ
last_speakers_cap = 50

pub record Buffer : Type 0 where
  pub id : Text
  pub connection_id : Text
  pub buffer_type : BufferType
  pub name : Text
  pub messages : List Message
  pub activity : ActivityLevel
  pub unread_count : ℕ  -- u32
  pub last_read : ℕ
  pub topic : Option Text
  pub topic_set_by : Option Text
  pub users : Map Text NickEntry
  pub modes : Option Text
  pub mode_params : Option (Map Text Text)
  pub list_modes : Map Text (List ListEntry)
  pub last_speakers : List Text
  pub peer_handle : Option Text
  pub log_total_lines : Option ℕ
  pub log_oldest_ts : Option ℕ
  pub log_newest_ts : Option ℕ
  pub history_exhausted : Bool
  pub log_initial_loaded : Bool

pub data ConnectionStatus : Type 0 where
  connecting connected disconnected error : ConnectionStatus

pub record Connection : Type 0 where
  pub id : Text
  pub label : Text
  pub status : ConnectionStatus
  pub nick : Text
  pub user_modes : Text
  pub isupport_parsed : Isupport
  pub error_text : Option Text  -- `error`
  pub reconnect_attempts : ℕ  -- u32
  pub reconnect_delay_secs : ℕ  -- u64
  pub next_reconnect : Option ℕ
  pub should_reconnect : Bool
  pub joined_channels : List Text
  pub enabled_caps : List Text
  pub who_token_counter : ℕ  -- u32
  pub silent_who_channels : List Text
  pub silent_banlist_channels : List Text

pub record LogRow : Type 0 where
  pub msg_id : Text
  pub network : Text
  pub buffer : Text
  pub timestamp : ℕ
  pub msg_type : MessageType
  pub nick : Option Text
  pub text : Text
  pub highlight : Bool
  pub ref_id : Option Text
  pub tags : Option Text
  pub event_key : Option Text

pub record BufferMeta : Type 0 where
  pub id : Text
  pub connection_id : Text
  pub name : Text
  pub buffer_type : Text
  pub topic : Option Text
  pub unread_count : ℕ
  pub activity : ℕ
  pub nick_count : ℕ
  pub modes : Option Text
