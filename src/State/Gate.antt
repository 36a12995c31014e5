-- ===== src/State/Gate.antt =====
-- The gate in front of the `_unshrunk` methods (src/state/events.rs): `add_message` and
-- `add_message_with_activity`, which hide the line of an event that a script suppressed and hand a
-- message with long links to the worker that shortens them; and `find_long_urls` of
-- src/shrink/mod.rs. Length is counted in bytes.
use repartee_desktop.Base.Chars.{len}
use repartee_desktop.Base.{
  inr, text_eq, ◌++◌, inl, not, eq_ignore_ascii_case, any, is_empty, Option-cases, arith, some, ltb,
  ◌&&◌, codes, none, ◌≤◌, false, if◌then◌else◌, has_byte, [], true, List, ◌∷◌, Bool, Option, Text,
  ℕ, ◌≡◌, refl,
}
use repartee_desktop.State.App.{PendingIncoming, ShrinkQueue, AppState, Env}
use repartee_desktop.State.Messages.{add_message_unshrunk, add_message_with_activity_unshrunk}
use repartee_desktop.State.{
  mention_log, action, message, event, notice, ActivityLevel, quiet, Message, MessageType,
}
use repartee_desktop.Base.Maps.{Text_eq, get}

abbrev pub is_trailing : ℕ → Bool
is_trailing c = has_byte c (codes ".,;:")

-- `trim_end_matches(TRAILING_TRIM)`.
abbrev pub trim_trailing : Text → Text
trim_trailing [] = []
trim_trailing (c ∷ s) =
    let rest = trim_trailing s in if is_trailing c && is_empty rest then [] else c ∷ rest

abbrev pub long_urls : ℕ → List Text → List Text → List Text
long_urls min_length [] seen = []
long_urls min_length (m ∷ ms) seen =
    let url = trim_trailing m in
    let without = long_urls min_length ms seen in
    let with_url = url ∷ long_urls min_length ms (url ∷ seen) in
    if ltb (len url) min_length
    then without
    else (if any (text_eq url) seen then without else with_url)

unfoldable pub find_long_urls : Env → Text → ℕ → List Text
find_long_urls env text min_length = long_urls min_length (env.find_iter text) []

-- What `try_send` leaves of the queue, if it takes the message.
abbrev pub shrink_send : ShrinkQueue → PendingIncoming → Option ShrinkQueue
shrink_send q p = if q.accepts q.sent then some (record q { sent = q.sent ++ p ∷ [] }) else none

-- The nick that the connection of the buffer has.
abbrev pub our_nick_in : AppState → Text → Option Text
our_nick_in s buffer_id = elim (get buffer_id s.buffers) [
  | none ↦ none
  | some b ↦ elim (get b.connection_id s.connections) [ none ↦ none | some c ↦ some c.nick ]
]

abbrev pub is_own : Option Text → Option Text → Bool
is_own (some a) (some b) = eq_ignore_ascii_case a b
is_own (some a) none = false
is_own none b = false

abbrev pub is_notice : MessageType → Bool
is_notice notice = true
is_notice message = false
is_notice action = false
is_notice event = false
is_notice mention_log = false

abbrev pub is_event : MessageType → Bool
is_event event = true
is_event message = false
is_event action = false
is_event notice = false
is_event mention_log = false

abbrev pub has_nick : Option Text → Bool
has_nick none = false
has_nick (some n) = not (is_empty n)

-- The queue that takes the notice, if it has long links and is not our own.
unfoldable pub notice_sent : Env → AppState → Text → Message → Option ShrinkQueue
notice_sent env s buffer_id m =
    let urls = find_long_urls env m.text s.shrink_min_url_length in
    let pending : PendingIncoming = record {
      buffer_id = buffer_id;
      message = m;
      activity_level = quiet;
      urls = urls;
      push_to_mentions = false;
    } in
    if s.shrink_incoming_active && (is_notice m.message_type && has_nick m.nick)
    then elim s.shrink_incoming_queue [
      | none ↦ none
      | some q ↦
          if not (is_empty urls) && not (is_own (our_nick_in s buffer_id) m.nick)
          then shrink_send q pending
          else none
    ]
    else none

unfoldable pub add_message : Env → AppState → Text → Message → AppState
unfolding notice_sent
add_message env s buffer_id m =
    if s.suppress_event_display && is_event m.message_type
    then s
    else (elim (notice_sent env s buffer_id m) [
      | none ↦ add_message_unshrunk env s buffer_id m
      | some q ↦ record s { shrink_incoming_queue = some q }
    ])

unfoldable pub message_sent : Env → AppState → Text → Message → ActivityLevel → Option ShrinkQueue
message_sent env s buffer_id m level =
    let urls = find_long_urls env m.text s.shrink_min_url_length in
    let pending : PendingIncoming = record {
      buffer_id = buffer_id;
      message = m;
      activity_level = level;
      urls = urls;
      push_to_mentions = false;
    } in
    if s.shrink_incoming_active
    then elim s.shrink_incoming_queue [
      | none ↦ none
      | some q ↦ if not (is_empty urls) then shrink_send q pending else none
    ]
    else none

unfoldable pub add_message_with_activity :
    Env → AppState → Text → Message → ActivityLevel → AppState
unfolding message_sent
add_message_with_activity env s buffer_id m level = elim (message_sent env s buffer_id m level) [
  | none ↦ add_message_with_activity_unshrunk env s buffer_id m level
  | some q ↦ record s { shrink_incoming_queue = some q }
]

event-no_notice : (k : MessageType) → is_event k ≡ true → is_notice k ≡ false
event-no_notice event h = refl
event-no_notice message h = cc
event-no_notice action h = cc
event-no_notice notice h = cc
event-no_notice mention_log h = cc

-- An event is never handed over: it is hidden, or goes to its buffer at once.
pub add_message-event :
    (env : Env) (s : AppState) (buffer_id : Text) (m : Message)
    → is_event m.message_type ≡ true
    → add_message env s buffer_id m
      ≡ (if s.suppress_event_display then s else add_message_unshrunk env s buffer_id m)
unfolding add_message notice_sent
add_message-event env s buffer_id m h = ground (arith, h, event-no_notice m.message_type h)

-- A message that is no event and that the worker's queue does not take goes to its buffer at once,
-- and so does any notice of our own: none is lost.
pub add_message-own :
    (env : Env) (s : AppState) (buffer_id : Text) (m : Message)
    → is_event m.message_type ≡ false
    → is_own (our_nick_in s buffer_id) m.nick ≡ true
    → add_message env s buffer_id m ≡ add_message_unshrunk env s buffer_id m
unfolding add_message notice_sent
add_message-own env s buffer_id m h own = elim (Option-cases s.shrink_incoming_queue) [
  | inl e ↦ ground (arith, h, own, e)
  | inr (q, e) ↦ ground (arith, h, own, e)
]

abbrev pub Links : ℕ → List Text → List Text → Type 0
Links min_length seen [] = Unit
Links min_length seen (url ∷ urls) =
    (min_length ≤ len url) × (any (text_eq url) seen ≡ false) × Links min_length (url ∷ seen) urls

long_urls_lem :
    (min_length : ℕ) (ms seen : List Text) → Links min_length seen (long_urls min_length ms seen)
long_urls_lem min_length [] seen = tt
long_urls_lem min_length (m ∷ ms) seen =
    let url = trim_trailing m in
    ground (arith, long_urls_lem min_length ms seen, long_urls_lem min_length ms (url ∷ seen))

-- The links that are handed over are of at least the given length, and no link is one of those
-- before it.
pub find_long_urls_lem :
    (env : Env) (text : Text) (min_length : ℕ)
    → Links min_length [] (find_long_urls env text min_length)
unfolding find_long_urls
find_long_urls_lem env text min_length = long_urls_lem min_length (env.find_iter text) []
