-- ===== src/State/Tests.antt =====
-- The client's state (src/state) at concrete inputs.
use repartee_desktop.Flood.{new}
use repartee_desktop.Netsplit
use repartee_desktop.State.App.{sorted_buffer_ids, AppState, Env, remove_buffer}
use repartee_desktop.Base.{
  true, arith, drop, ◌++◌, ◌≤◌, length, ◌≡◌, ascii_lower, codes, map, ℕ, List, [], ◌∷◌, refl, Text,
  some, none, false,
}
use repartee_desktop.Base.Maps.{Text_eq, remove, contains_key, get}
use repartee_desktop.State.{
  activity, sort_group, message, server, channel, quiet, NickEntry, Message, Buffer, BufferType,
}
use repartee_desktop.State.Messages.{receive}
use repartee_desktop.State.Sorting.{text_le, sort_buffers}
use repartee_desktop.State.Steps.{run-IsApp, close, next, deliver, show, run}
use repartee_desktop.State.Nicks.{get-rename_user, rename_user}
use repartee_desktop.State.Speakers.{receive_lem}
use repartee_desktop.State.Shown.{IsApp}

abbrev lower : Text → Text
lower = map ascii_lower

abbrev env : Env
env = record {
  to_lowercase = lower;
  tags_to_json = λ t. none;
  new_uuid = λ n. n ∷ [];
  find_iter = λ t. [];
}

abbrev blank : Text → BufferType → Text → Buffer
blank id' kind name' = record {
  id = id';
  connection_id = codes "net";
  buffer_type = kind;
  name = name';
  messages = [];
  activity = quiet;
  unread_count = 0;
  last_read = 0;
  topic = none;
  topic_set_by = none;
  users = [];
  modes = none;
  mode_params = none;
  list_modes = [];
  last_speakers = [];
  peer_handle = none;
  log_total_lines = none;
  log_oldest_ts = none;
  log_newest_ts = none;
  history_exhausted = false;
  log_initial_loaded = false;
}

abbrev room : Buffer
room = blank (codes "net/#a") channel (codes "#a")

abbrev home : Buffer
home = blank (codes "net/net") server (codes "net")

abbrev start : AppState
start = record {
  connections = [];
  buffers = (codes "net/#a", room) ∷ (codes "net/net", home) ∷ [];
  active_buffer_id = some (codes "net/#a");
  previous_buffer_id = none;
  message_counter = 0;
  flood_state = new;
  netsplit_state = Netsplit.new;
  flood_protection = true;
  flood_exemptions = [];
  pending_e2e_sends = [];
  ignores = [];
  shrink_incoming_queue = none;
  shrink_incoming_active = false;
  shrink_min_url_length = 0;
  suppress_event_display = false;
  log_queue = none;
  log_exclude_types = [];
  scrollback_limit = 2;
  pending_web_events = [];
  web_preview_extractor = none;
}

start-IsApp : IsApp start
unfolding contains_key get
start-IsApp = record { shown = refl; own = (refl, (refl, tt)) }

server_first : sorted_buffer_ids env start ≡ codes "net/net" ∷ codes "net/#a" ∷ []
unfolding sorted_buffer_ids sort_buffers text_le sort_group get
server_first = refl

closed_falls_back :
    (remove_buffer env start (codes "net/#a")).active_buffer_id ≡ some (codes "net/net")
unfolding remove_buffer contains_key get remove sorted_buffer_ids sort_buffers text_le sort_group
closed_falls_back = refl

abbrev said : Text → Message
said t = record {
  id = 1;
  timestamp = 0;
  message_type = message;
  nick = some (codes "Bob");
  nick_mode = none;
  text = t;
  highlight = false;
  event_key = none;
  event_params = none;
  log_msg_id = none;
  log_ref_id = none;
  tags = none;
}

run-IsApp_example : IsApp (
    run env start (
      show (codes "net/net")
      ∷ deliver (codes "net/#a") (said (codes "hi")) activity
      ∷ next
      ∷ close (codes "net/#a")
      ∷ []))
run-IsApp_example =
    run-IsApp env start
      (show (codes "net/net")
        ∷ deliver (codes "net/#a") (said (codes "hi")) activity
        ∷ next
        ∷ close (codes "net/#a")
        ∷ [])
      start-IsApp

receive_lem_example :
    let kept = (receive env 2 (said (codes "hi")) room).messages in
    (length kept ≤ 2)
    × ((older : List Message) × (kept ≡ older ++ said (codes "hi") ∷ []))
    × ((n : ℕ) × (kept ≡ drop n (room.messages ++ said (codes "hi") ∷ [])))
receive_lem_example = receive_lem env 2 (said (codes "hi")) room (omega arith)

abbrev bob : NickEntry
bob = record {
  nick = codes "Bob";
  prefix = codes "@";
  modes = codes "o";
  away = false;
  account = none;
  ident = none;
  host = none;
}

get-rename_user_example :
    get (codes "rob") (rename_user lower (codes "Bob") (codes "Rob") ((codes "bob", bob) ∷ []))
    ≡ some (record bob { nick = codes "Rob" })
unfolding get
get-rename_user_example =
    get-rename_user lower (codes "Bob") (codes "Rob") ((codes "bob", bob) ∷ []) bob (codes "rob")
      refl
