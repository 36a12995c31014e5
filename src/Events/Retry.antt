-- ===== src/Events/Retry.antt =====
-- Trying lost connections again: `check_reconnects` of src/app/irc.rs, called at every one-second tick.
-- `spawn_reconnect` always finds a configuration there, since a connection has one; the task that it
-- starts is the identifier of the connection.
use repartee_desktop.State.Messages.{add_local_message}
use repartee_desktop.Events.{
  get, Map, List, ℕ, Option, Bool, Text, make_buffer_id, update_connection, next_message_id,
  event_message, World, AppState, Connection,
}
use repartee_desktop.State.{ConnectionStatus, connecting, connected, disconnected, error}
use repartee_desktop.Base.{
  any, [], show_number, text_eq, leb, ◌++◌, if◌then◌else◌, not, some, ◌∷◌, none, ◌%◌, ◌&&◌, false,
  true, codes, ◌+◌,
}
use repartee_desktop.Base.Maps.{Text_eq}

abbrev pub default_conn_id : Text
default_conn_id = codes "_default"

abbrev pub is_down : ConnectionStatus → Bool
is_down disconnected = true
is_down error = true
is_down connecting = false
is_down connected = false

abbrev pub is_past : Option ℕ → ℕ → Bool
is_past none now = false
is_past (some t) now = leb t now

-- The handles are those of the connections that are open.
abbrev pub is_due : ℕ → List Text → Text → Connection → Bool
is_due now irc_handles id c =
    is_down c.status
    && (c.should_reconnect
        && (is_past c.next_reconnect now
            && (not (text_eq id default_conn_id) && not (any (text_eq id) irc_handles))))

abbrev pub due_ids : ℕ → List Text → Map Text Connection → List Text
due_ids now irc_handles [] = []
due_ids now irc_handles ((id, c) ∷ m) =
    let rest = due_ids now irc_handles m in if is_due now irc_handles id c then id ∷ rest else rest

-- The counter of the attempts is a `u32`.
abbrev pub count_attempt : Connection → Connection
count_attempt c = record c {
  reconnect_attempts = (c.reconnect_attempts + 1) % 4294967296;
  next_reconnect = none;
}

abbrev pub retry_text : Connection → Text
retry_text c =
    codes "Reconnecting to "
    ++ (c.label
        ++ (codes " (attempt "
            ++ (show_number (count_attempt c).reconnect_attempts ++ codes ")...")))

unfoldable pub retry : World → AppState → Text → Connection → AppState
retry w s id c =
    let counted = update_connection s id count_attempt in
    let (numbered, n) = next_message_id counted in
    let told =
      add_local_message numbered (make_buffer_id w.env.to_lowercase id c.label)
        (event_message n w.now (retry_text c) none none none) in
    update_connection told id (λ d. record d { status = connecting })

-- The connections that are tried, and for which a task is started.
unfoldable pub retry_all : World → AppState → List Text → AppState × List Text
unfolding retry
retry_all w s [] = (s, [])
retry_all w s (id ∷ ids) = elim (get id s.connections) [
  | none ↦ retry_all w s ids
  | some c ↦ let (t, spawned) = retry_all w (retry w s id c) ids in (t, id ∷ spawned)
]

unfoldable pub check_reconnects : World → AppState → List Text → AppState × List Text
unfolding retry_all
check_reconnects w s irc_handles = retry_all w s (due_ids w.instant irc_handles s.connections)
