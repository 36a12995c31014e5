-- ===== src/Events/Posting.antt =====
-- What a message that is shown leaves alone: the connections, and who is in which buffer.
use repartee_desktop.State.Gate.{add_message}
use repartee_desktop.State.App.{next_message_id}
use repartee_desktop.State.Messages.{add_message_unshrunk, announce, maybe_log, receive}
use repartee_desktop.State.Buffers.{track_speaker, touch_speaker, enforce_scrollback}
use mathlib.Core.Option
use repartee_desktop.Base.{
  text_eq, if◌then◌else◌, inr, some, none, ◌%◌, inl, ◌+◌, Option-cases, arith, Option, ℕ, Text, ◌≡◌,
}
use repartee_desktop.Events.{get, Map, Message, update_buffer, Env, AppState, World, post}
use repartee_desktop.State.{NickEntry, BufferType, Buffer}
use repartee_desktop.Base.Maps.{Text_eq, get-adjust}

-- Posting a message leaves the connections alone.
pub post-connections :
    (w : World) (s : AppState) (id : Text) (m : ℕ → Message)
    → (post w s id m).connections ≡ s.connections
unfolding post next_message_id add_message add_message_unshrunk announce maybe_log
post-connections w s id m = ground arith

-- The connection, the kind, the name and the users of a buffer.
abbrev pub Roster : Type 0
Roster = Text × BufferType × Text × Map Text NickEntry

abbrev pub roster_of : Buffer → Roster
roster_of b = (b.connection_id, b.buffer_type, b.name, b.users)

unfoldable pub roster : AppState → Text → Option Roster
roster s id = elim (get id s.buffers) [ none ↦ none | some b ↦ some (roster_of b) ]

roster_of-receive :
    (env : Env) (limit : ℕ) (m : Message) (b : Buffer)
    → roster_of (receive env limit m b) ≡ roster_of b
unfolding receive track_speaker touch_speaker enforce_scrollback
roster_of-receive env limit m b = ground arith

adjusted-roster :
    (s : AppState) (id : Text) (f : Buffer → Buffer) (k : Text)
    → ((b : Buffer) → roster_of (f b) ≡ roster_of b)
    → roster (update_buffer s id f) k ≡ roster s k
unfolding roster
adjusted-roster s id f k same = elim (Option-cases (get k s.buffers)) [
  | inl e ↦ ground (arith, e, get-adjust id f k s.buffers)
  | inr (b, e) ↦ ground (arith, e, get-adjust id f k s.buffers, same b)
]

announced-buffers :
    (env : Env) (s : AppState) (id : Text) (m : Message)
    → (announce (maybe_log env s id m) id m).buffers ≡ s.buffers
unfolding announce maybe_log
announced-buffers env s id m = ground arith

stored-roster :
    (env : Env) (s : AppState) (id : Text) (m : Message) (k : Text)
    → roster (add_message_unshrunk env s id m) k ≡ roster s k
unfolding add_message_unshrunk roster
stored-roster env s id m k = ground (
  arith,
  announced-buffers env s id m,
  adjusted-roster (announce (maybe_log env s id m) id m) id (receive env s.scrollback_limit m) k
      (roster_of-receive env s.scrollback_limit m),
)

-- Posting a message leaves every roster alone.
pub roster-post :
    (w : World) (s : AppState) (id : Text) (m : ℕ → Message) (k : Text)
    → roster (post w s id m) k ≡ roster s k
unfolding post next_message_id add_message roster
roster-post w s id m k =
    let n = (s.message_counter + 1) % 18446744073709551616 in
    ground (arith, stored-roster w.env (record s { message_counter = n }) id (m n) k)

-- A change of one buffer, seen in the rosters.
pub roster-update :
    (s : AppState) (id : Text) (f : Buffer → Buffer) (g : Roster → Roster) (k : Text)
    → ((b : Buffer) → roster_of (f b) ≡ g (roster_of b))
    → roster (update_buffer s id f) k
      ≡ (if text_eq id k then Option.map g (roster s k) else roster s k)
unfolding roster
roster-update s id f g k same = elim (Option-cases (get k s.buffers)) [
  | inl e ↦ ground (arith, e, get-adjust id f k s.buffers)
  | inr (b, e) ↦ ground (arith, e, get-adjust id f k s.buffers, same b)
]
