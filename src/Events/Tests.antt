-- ===== src/Events/Tests.antt =====
-- The handlers of IRC messages at concrete inputs.
pub mod Talk
use repartee_desktop.Flood
use repartee_desktop.Netsplit
use repartee_desktop.State.App.{AppState}
use repartee_desktop.State.{
  ListEntry, Buffer, BufferType, channel, server, query, quiet, connected, Connection, NickEntry,
}
use repartee_desktop.State.Shown.{IsApp}
use repartee_desktop.Base.{
  length, ◌&&◌, arith, not, ◌≤◌, any, decimal_digits, some, true, false, text_eq, ascii_lower,
  show_number, [], map, List, ℕ, Option, codes, none, Text, ◌∷◌, ◌≡◌, refl,
}
use repartee_desktop.Base.Maps.{Text_eq, get, contains_key}
use repartee_desktop.State.Buffers.{make_buffer_id}
use repartee_desktop.Events.{
  extract_nick, extract_nick_userhost, Prefix, set_contains, World, nickname,
}
use repartee_desktop.Events.Lifecycle.{calculate_reconnect_delay}
use repartee_desktop.Events.Modes.{
  key, minus, voice, oper, plus, channel_mode_letter, mode_letters, build_channel_mode_string,
}
use repartee_desktop.Events.Names.{parse_names_entry, format_duration}
use repartee_desktop.Events.Dispatch.{
  connection_lost, received, quit_command, run_events, IrcMessage,
}
use repartee_desktop.Events.Quits.{handle_quit-gone, is_gone}
use repartee_desktop.Events.Left.{handle_kick-HasLeft, HasLeft}
use repartee_desktop.Events.Posting.{roster_of, roster}
use repartee_desktop.Events.BanLists.{upsert_entries-IsMaskList, remove-upsert, IsMaskList}
use repartee_desktop.Events.Bans.{
  same_mask, upsert_list_mode_entry, remove_list_mode_entry, upsert_entries, entries_of,
}
use repartee_desktop.Events.Members.{handle_quit}
use repartee_desktop.Events.Kicks.{handle_kick}
use repartee_desktop.Events.Renames.{handle_nick_change}
use repartee_desktop.Events.Caps.{named_caps, handle_cap_del, enabled_in}
use repartee_desktop.Events.Kept.{run_events-IsUp}
use repartee_desktop.Events.Renamed.{handle_nick_change-renamed, Changed}
use repartee_desktop.Events.Entries.{parse_names_entry_lem}
use repartee_desktop.Events.Negotiated.{written_all, is_named, handle_cap_del_lem}
use repartee_desktop.Base.Chars.{is_whitespace, lacks}

abbrev lower : Text → Text
lower = map ascii_lower

abbrev pub world : World
world = record {
  env = record {
    to_lowercase = lower;
    tags_to_json = λ t. none;
    new_uuid = λ n. n ∷ [];
    find_iter = λ t. [];
  };
  now = 1000;
  instant = 5000;
  matches = text_eq;
  parse_rfc3339 = λ t. none;
  fresh_id = codes "u";
  hash_text = length;
  e2e_manager = none;
  format_mention_line = λ ts label target nick text. text;
}

abbrev user : Text → NickEntry
user name = record {
  nick = name;
  prefix = [];
  modes = [];
  away = false;
  account = none;
  ident = none;
  host = none;
}

abbrev window : Text → BufferType → Text → List Text → Buffer
window id' kind name' nicks' = record {
  id = id';
  connection_id = codes "n";
  buffer_type = kind;
  name = name';
  messages = [];
  activity = quiet;
  unread_count = 0;
  last_read = 0;
  topic = none;
  topic_set_by = none;
  users = map (λ n. (lower n, user n)) nicks';
  modes = none;
  mode_params = none;
  list_modes = [];
  last_speakers = [];
  peer_handle = none;
  log_total_lines = none;
  log_oldest_ts = none;
  log_newest_ts = none;
  history_exhausted = false;
  log_initial_loaded = false;
}

abbrev net : Connection
net = record {
  id = codes "n";
  label = codes "net";
  status = connected;
  nick = codes "me";
  user_modes = [];
  isupport_parsed = [];
  error_text = none;
  reconnect_attempts = 2;
  reconnect_delay_secs = 30;
  next_reconnect = none;
  should_reconnect = true;
  joined_channels = [];
  enabled_caps = codes "batch" ∷ [];
  who_token_counter = 0;
  silent_who_channels = [];
  silent_banlist_channels = [];
}

abbrev pub room : Buffer
room = window (codes "n/#a") channel (codes "#a") (codes "me" ∷ codes "Bob" ∷ [])

abbrev talk : Buffer
talk = window (codes "n/bob") query (codes "Bob") []

abbrev pub start : AppState
start = record {
  connections = (codes "n", net) ∷ [];
  buffers =
      (codes "n/net", window (codes "n/net") server (codes "net") [])
      ∷ (codes "n/#a", room)
      ∷ (codes "n/bob", talk)
      ∷ [];
  active_buffer_id = some (codes "n/#a");
  previous_buffer_id = none;
  message_counter = 0;
  flood_state = Flood.new;
  netsplit_state = Netsplit.new;
  flood_protection = true;
  flood_exemptions = [];
  pending_e2e_sends = [];
  ignores = [];
  shrink_incoming_queue = none;
  shrink_incoming_active = false;
  shrink_min_url_length = 0;
  suppress_event_display = false;
  log_queue = none;
  log_exclude_types = [];
  scrollback_limit = 2;
  pending_web_events = [];
  web_preview_extractor = none;
}

abbrev pub bob : Option Prefix
bob = some (nickname (codes "Bob") (codes "b") (codes "h"))

pub start-IsApp : IsApp start
unfolding contains_key get
start-IsApp = record { shown = refl; own = (refl, (refl, (refl, tt))) }

third_attempt : calculate_reconnect_delay 30 2 ≡ 120
unfolding calculate_reconnect_delay
third_attempt = refl

later_attempt : calculate_reconnect_delay 30 10 ≡ 600
unfolding calculate_reconnect_delay
later_attempt = refl

signs_once :
    build_channel_mode_string
      (plus oper (some (codes "x")) ∷ plus voice (some (codes "y")) ∷ minus key none ∷ [])
    ≡ codes "+ov-k x y"
unfolding build_channel_mode_string mode_letters channel_mode_letter
signs_once = refl

one_day : format_duration 90000 ≡ codes "1d 1h"
unfolding format_duration show_number decimal_digits
one_day = refl

handle_quit-gone_example :
    is_gone lower
      (codes "n")
      (codes "Bob")
      (roster (handle_quit world start (codes "n") bob none none) (codes "n/#a"))
    ≡ true
unfolding extract_nick_userhost
handle_quit-gone_example = handle_quit-gone world start (codes "n") bob none none (codes "n/#a")

handle_kick-HasLeft_example : HasLeft world (codes "me") (codes "me") (
    roster
      (handle_kick world start (codes "n") (codes "me") bob (codes "#a") (codes "me") none none)
      (codes "n/#a"))
unfolding make_buffer_id
handle_kick-HasLeft_example =
    handle_kick-HasLeft world start (codes "n") (codes "me") bob (codes "#a") (codes "me") none none

handle_nick_change-renamed_example :
    Changed lower (codes "Bob") (codes "Rob") (codes "rob") (roster_of room) (
      roster
        (handle_nick_change world start (codes "n") (codes "me") bob (codes "Rob") none)
        (codes "n/#a"))
unfolding get contains_key extract_nick make_buffer_id
handle_nick_change-renamed_example =
    handle_nick_change-renamed world start (codes "n") (codes "me") bob (codes "Rob") none
      (codes "n/#a") room (codes "rob") (refl, (refl, (refl, tt))) refl refl refl refl

abbrev mask_entry : ListEntry
mask_entry = record { mask = codes "*!*@h"; set_by = codes "x"; set_at = 1 }

upsert_entries-IsMaskList_example :
    IsMaskList (upsert_entries (codes "*!*@H") (codes "y") 2 (mask_entry ∷ [])).0
    × (any
          (same_mask (codes "*!*@H"))
          (upsert_entries (codes "*!*@H") (codes "y") 2 (mask_entry ∷ [])).0
        ≡ true)
upsert_entries-IsMaskList_example =
    upsert_entries-IsMaskList (codes "*!*@H") (codes "y") 2 (mask_entry ∷ [])
      (omega arith, (refl, tt))

remove-upsert_example :
    entries_of
      (codes "b")
      (remove_list_mode_entry
        (upsert_list_mode_entry room (codes "b") (codes "*!*@h") (codes "y") 2).0
        (codes "b")
        (codes "*!*@h")).0.list_modes
    ≡ []
unfolding get
remove-upsert_example =
    remove-upsert room (codes "b") (codes "*!*@h") (codes "y") 2 refl (omega arith)

abbrev taken_away : List (Text × Option Text)
taken_away = (codes "sasl", some (codes "PLAIN")) ∷ []

handle_cap_del_lem_example :
    let line = written_all ((codes "Batch", none) ∷ taken_away) in
    let left =
      not (is_named (codes "batch") ((codes "Batch", none) ∷ taken_away))
      && set_contains (codes "batch") net.enabled_caps in
    (set_contains
        (codes "batch")
        (enabled_in (handle_cap_del world start (codes "n") (some line) none) (codes "n"))
      ≡ left)
    × (set_contains (codes "batch") (
          enabled_in
            (handle_cap_del world start (codes "n") (some (codes "*")) (some line))
            (codes "n"))
        ≡ left)
unfolding get is_whitespace
handle_cap_del_lem_example =
    handle_cap_del_lem world start (codes "n") net (codes "batch") (codes "Batch", none) taken_away
      refl ((refl, refl), ((refl, refl), tt)) refl

parse_names_entry_lem_example :
    parse_names_entry (codes "@+bob!b@h") ((b'o', b'@') ∷ (b'v', b'+') ∷ []) true ≡ record {
      nick = codes "bob";
      prefix = codes "@+";
      modes = codes "ov";
      away = false;
      account = none;
      ident = some (codes "b");
      host = some (codes "h");
    }
parse_names_entry_lem_example =
    parse_names_entry_lem ((b'o', b'@') ∷ (b'v', b'+') ∷ []) ((b'o', b'@') ∷ (b'v', b'+') ∷ [])
      (codes "bob") (codes "b") (codes "h") (refl, (refl, tt)) refl refl refl
