-- ===== src/Events/Lifecycle.antt =====
-- Connecting, disconnecting and rejoining: `handle_connected`, `handle_disconnected`,
-- `channels_to_rejoin`, `calculate_reconnect_delay` and `handle_error` of src/irc/events.rs.
use repartee_desktop.State.{log, shell, special, dcc_chat, query, server, mentions, channel}
use repartee_desktop.Events.{
  is_empty, any, text_eq, true, some, ◌++◌, [], codes, get, ◌∷◌, Map, Bool, none, if◌then◌else◌,
  Option, List, Text, Connection, ℕ, World, post, event_message, status_buffer, server_buffer,
  label, emit_text, update_connection,
}
use repartee_desktop.State.App.{AppState, update_connection_status}
use repartee_desktop.State.{disconnected, error, Buffer, connected, BufferType}
use repartee_desktop.Base.Maps.{Text_eq, map_values}
use repartee_desktop.Base.{◌^◌, ◌*◌, show_number, ◌+◌, ◌&&◌, false, min, leb}

-- `u64::saturating_mul` and `2u64::saturating_pow`.
abbrev pub saturate_u64 : ℕ → ℕ
saturate_u64 n = if leb n 18446744073709551615 then n else 18446744073709551615

unfoldable pub calculate_reconnect_delay : ℕ → ℕ → ℕ
calculate_reconnect_delay base_delay attempts =
    if leb 10 attempts
    then 600
    else min (saturate_u64 (base_delay * saturate_u64 (2 ^ attempts))) 300

abbrev pub reset_connection : Connection → Connection
reset_connection c = record c {
  reconnect_attempts = 0;
  next_reconnect = none;
  error_text = none;
  isupport_parsed = [];
  silent_who_channels = [];
  silent_banlist_channels = [];
}

unfoldable pub handle_connected : World → AppState → Text → AppState
unfolding update_connection_status status_buffer label
handle_connected w s conn_id =
    let s' =
      update_connection (update_connection_status s conn_id connected) conn_id reset_connection in
    post w s' (status_buffer w s' conn_id) (λ id.
      event_message id w.now (codes "Connected to " ++ label s' conn_id conn_id)
        (some (codes "connected")) none none)

abbrev pub is_channel_type : BufferType → Bool
is_channel_type channel = true
is_channel_type mentions = false
is_channel_type server = false
is_channel_type query = false
is_channel_type dcc_chat = false
is_channel_type special = false
is_channel_type shell = false
is_channel_type log = false

-- A channel of the connection.
abbrev pub is_channel_of : Text → Buffer → Bool
is_channel_of conn_id b = text_eq b.connection_id conn_id && is_channel_type b.buffer_type

abbrev pub channel_names : Text → Map Text Buffer → List Text
channel_names conn_id [] = []
channel_names conn_id ((k, b) ∷ m) =
    let rest = channel_names conn_id m in if is_channel_of conn_id b then b.name ∷ rest else rest

-- The channels that are not among those collected so far are pushed.
abbrev pub push_missing : List Text → List Text → List Text
push_missing channels [] = channels
push_missing channels (ch ∷ chs) =
    let kept = push_missing channels chs in
    let pushed = push_missing (channels ++ ch ∷ []) chs in
    if any (text_eq ch) channels then kept else pushed

unfoldable pub channels_to_rejoin : AppState → Text → List Text
channels_to_rejoin s conn_id =
    let channels = channel_names conn_id s.buffers in
    elim (get conn_id s.connections) [
      | none ↦ channels
      | some c ↦ push_missing channels c.joined_channels
    ]

abbrev pub wipe_channel : Text → Buffer → Buffer
wipe_channel conn_id b =
    if is_channel_of conn_id b then record b { users = []; last_speakers = [] } else b

unfoldable pub set_error : AppState → Text → Text → AppState
set_error s conn_id err =
    update_connection s conn_id (λ c. record c { status = error; error_text = some err })

-- The channels to join again, and when to try.
abbrev pub schedule : World → List Text → Connection → Connection
schedule w current_channels c =
    let joined = record c {
      joined_channels = if is_empty current_channels then c.joined_channels else current_channels;
    } in
    let delay = calculate_reconnect_delay c.reconnect_delay_secs c.reconnect_attempts in
    if c.should_reconnect
    then record joined { next_reconnect = some (w.instant + delay * 1000) }
    else joined

abbrev pub farewell : Text → Option Text → Text
farewell name none = codes "Disconnected from " ++ name
farewell name (some e) = codes "Disconnected from " ++ (name ++ (codes ": " ++ e))

abbrev pub reconnect_note : Option Connection → Text
reconnect_note none = []
reconnect_note (some c) =
    if c.should_reconnect
    then codes " — reconnecting in "
      ++ (show_number (calculate_reconnect_delay c.reconnect_delay_secs c.reconnect_attempts)
          ++ codes "s")
    else []

-- What a disconnect does before it is shown.
unfoldable pub disconnect : World → AppState → Text → Option Text → AppState
unfolding set_error update_connection_status calculate_reconnect_delay
disconnect w s conn_id err =
    let wiped = record s { buffers = map_values (wipe_channel conn_id) s.buffers } in
    let marked : AppState = elim err [
      | none ↦ update_connection_status wiped conn_id disconnected
      | some e ↦ set_error wiped conn_id e
    ] in
    update_connection marked conn_id (schedule w (channel_names conn_id s.buffers))

unfoldable pub handle_disconnected : World → AppState → Text → Option Text → AppState
unfolding disconnect status_buffer label
handle_disconnected w s conn_id err =
    let s' = disconnect w s conn_id err in
    post w s' (status_buffer w s' conn_id) (λ id.
      event_message id w.now
        (farewell (label s' conn_id conn_id) err ++ reconnect_note (get conn_id s'.connections))
        (some (codes "disconnected")) none none)

unfoldable pub handle_error : World → AppState → Text → Text → AppState
unfolding set_error server_buffer emit_text
handle_error w s conn_id message =
    let s' = set_error s conn_id message in
    emit_text w s' (server_buffer w s' conn_id) (codes "%Zff4444ERROR: " ++ (message ++ codes "%N"))
