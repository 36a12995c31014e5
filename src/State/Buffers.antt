-- ===== src/State/Buffers.antt =====
-- Changes to one buffer: the speakers (src/state/buffer.rs) and the scrollback
-- (src/state/events.rs, at its end).
use repartee_desktop.Base.{
  ◌-◌, drop, text_eq, length, not, ◌&&◌, some, retain, none, ltb, false, if◌then◌else◌, true, take,
  ◌++◌, ℕ, [], ◌∷◌, Text, Bool,
}
use repartee_desktop.State.{
  mention_log, event, notice, action, message, last_speakers_cap, Message, MessageType, Buffer,
}

unfoldable pub touch_speaker : (Text → Text) → Buffer → Text → Buffer
touch_speaker to_lowercase b nick = record b {
  last_speakers =
      take last_speakers_cap
        (nick ∷ retain (λ n. not (text_eq (to_lowercase n) (to_lowercase nick))) b.last_speakers);
}

abbrev pub is_spoken : MessageType → Bool
is_spoken message = true
is_spoken action = true
is_spoken notice = true
is_spoken event = false
is_spoken mention_log = false

unfoldable pub track_speaker : (Text → Text) → Buffer → Message → Buffer
unfolding touch_speaker
track_speaker to_lowercase b m = elim m.nick [
  | none ↦ b
  | some nick ↦ if is_spoken m.message_type then touch_speaker to_lowercase b nick else b
]

-- `drain(..excess)`: the oldest messages go.
unfoldable pub enforce_scrollback : Buffer → ℕ → Buffer
enforce_scrollback b limit =
    if ltb 0 limit && ltb limit (length b.messages)
    then record b { messages = drop (length b.messages - limit) b.messages }
    else b

abbrev pub push_message : Buffer → Message → Buffer
push_message b m = record b { messages = b.messages ++ m ∷ [] }

unfoldable pub make_buffer_id : (Text → Text) → Text → Text → Text
make_buffer_id to_lowercase connection_id name = connection_id ++ b'/' ∷ to_lowercase name
