-- ===== src/Events/Talk.antt =====
-- What users say: `handle_privmsg` of src/irc/events.rs. A panic is `none`.
use repartee_desktop.E2e.{context_key}
use repartee_desktop.Events.Encryption.{all_but_last, try_decrypt_e2e, try_dispatch_rpe2e_ctcp}
use repartee_desktop.Base.{
  ◌||◌, true, ◌++◌, [], text_eq, false, ends_with_byte, some, none, if◌then◌else◌, codes, ℕ, not,
  is_empty, ◌&&◌, Option, ◌∷◌, starts_with_byte, any, Bool, Text,
}
use repartee_desktop.Base.Chars.{strip_start}
use repartee_desktop.State.Gate.{add_message_with_activity}
use repartee_desktop.State.{
  activity, mention, mention_log, quiet, Buffer, ActivityLevel, MessageType, message, action, query,
}
use repartee_desktop.Irc.Ignore.{msgs, public, ctcps, actions, IgnoreLevel, subject, build_mask}
use repartee_desktop.Irc.Formatting.{is_channel, strip_irc_formatting}
use repartee_desktop.State.Messages.{add_mention_to_buffer, mentions_id}
use repartee_desktop.Flood.Checks
use repartee_desktop.Events.{
  update_buffer, make_buffer_id, label, next_message_id, Message, AppState, World, Prefix, Tags,
  extract_nick_userhost, is_ignored, message_timestamp, emit_text,
}
use repartee_desktop.Events.Members.{logged_in}
use repartee_desktop.State.Nicks.{nick_prefix}
use repartee_desktop.Flood.{blocked, triggered, allow, FloodResult, FloodState}
use repartee_desktop.Base.Maps.{adjust, Text_eq, get, contains_key}
use repartee_desktop.State.App.{add_buffer}

-- `matches_mask_patterns`, whose cache changes no answer.
unfoldable pub is_exempt : World → AppState → Text → Text → Text → Bool
is_exempt w s nick ident host =
    any (λ p. w.matches p (subject p nick (build_mask nick (some ident) (some host))))
      s.flood_exemptions

abbrev pub is_ctcp : Text → Bool
is_ctcp text = starts_with_byte 1 text && ends_with_byte 1 text

-- `&text[1..text.len() - 1]`, which panics on a text of one byte.
abbrev pub inner : Text → Option Text
inner [] = none
inner (c ∷ []) = none
inner (c ∷ d ∷ s) = some (all_but_last (d ∷ s))

abbrev pub action_in : Text → Option Text
action_in text = elim (inner text) [ none ↦ none | some i ↦ strip_start (codes "ACTION ") i ]

abbrev pub is_action : Text → Bool
is_action text = is_ctcp text && elim (action_in text) [ none ↦ false | some a ↦ true ]

abbrev pub ignore_level : Text → Text → IgnoreLevel
ignore_level target text =
    if is_action text
    then actions
    else (if is_ctcp text then ctcps else (if is_channel target then public else msgs))

abbrev pub channel_of : Text → Option Text
channel_of target = if is_channel target then some target else none

abbrev pub new_query : Text → Text → Text → Option Text → ℕ → Buffer
new_query id conn_id nick handle now = record {
  id = id;
  connection_id = conn_id;
  buffer_type = query;
  name = nick;
  messages = [];
  activity = quiet;
  unread_count = 0;
  last_read = now;
  topic = none;
  topic_set_by = none;
  users = [];
  modes = none;
  mode_params = none;
  list_modes = [];
  last_speakers = [];
  peer_handle = handle;
  log_total_lines = none;
  log_oldest_ts = none;
  log_newest_ts = none;
  history_exhausted = false;
  log_initial_loaded = false;
}

-- A conversation is opened if there is none, and keeps the latest user and host of the other.
unfoldable pub meet : World → AppState → Text → Text → Bool → Text → Text → AppState
meet w s conn_id buffer_id own nick handle =
    let opened =
      if contains_key buffer_id s.buffers
      then s
      else add_buffer s
          (new_query buffer_id conn_id nick (if own then none else some handle) w.now) in
    if own
    then opened
    else update_buffer opened buffer_id (λ b. record b { peer_handle = some handle })

unfoldable pub tag_account : World → AppState → Text → Text → Tags → AppState
tag_account w s buffer_id nick tags = elim tags [
  | none ↦ s
  | some t ↦ elim (get (codes "account") t) [
    | none ↦ s
    | some a ↦ update_buffer s buffer_id (λ b. record b {
      users = adjust (w.env.to_lowercase nick) (λ e. record e { account = logged_in a }) b.users;
    })
  ]
]

-- `str::contains` of a text.
abbrev pub contains_text : Text → Text → Bool
contains_text needle [] = is_empty needle
contains_text needle (c ∷ s) =
    let rest = contains_text needle s in
    elim (strip_start needle (c ∷ s)) [ none ↦ rest | some after ↦ true ]

-- What a message is to us: who we are, whether it is ours, and where it goes.
pub record Heard : Type 0 where
  pub conn_id : Text
  pub buffer_id : Text
  pub target : Text
  pub nick : Text
  pub sender_handle : Text
  pub our_nick : Text
  pub own : Bool
  pub tags : Tags

abbrev pub is_mention : World → Heard → Text → Bool
is_mention w h body =
    not h.own
    && contains_text (w.env.to_lowercase h.our_nick)
        (w.env.to_lowercase (strip_irc_formatting body))

abbrev pub activity_of : Heard → Bool → ActivityLevel
activity_of h mentioned =
    if h.own then quiet else (if not (is_channel h.target) || mentioned then mention else activity)

abbrev pub spoken : World → Heard → MessageType → Text → Option ℕ → Bool → ℕ → Message
spoken w h kind body mode mentioned id = record {
  id = id;
  timestamp = message_timestamp w h.tags;
  message_type = kind;
  nick = some h.nick;
  nick_mode = elim mode [ none ↦ none | some c ↦ some (c ∷ []) ];
  text = body;
  highlight = mentioned;
  event_key = none;
  event_params = none;
  log_msg_id = none;
  log_ref_id = none;
  tags = h.tags;
}

abbrev pub mention_line : World → Heard → Text → Text → ℕ → Message
mention_line w h conn_label line id = record {
  id = id;
  timestamp = message_timestamp w h.tags;
  message_type = mention_log;
  nick = none;
  nick_mode = none;
  text = w.format_mention_line (message_timestamp w h.tags) conn_label h.target h.nick line;
  highlight = true;
  event_key = none;
  event_params = none;
  log_msg_id = none;
  log_ref_id = none;
  tags = none;
}

-- The message goes to its buffer, and one that mentions us in a channel to the mentions window too.
unfoldable pub say : World → AppState → Heard → MessageType → Text → Text → AppState
say w s h kind body line =
    let mentioned = is_mention w h body in
    let mode = nick_prefix w.env s h.buffer_id h.nick in
    let (s1, id) = next_message_id s in
    let s2 =
      add_message_with_activity w.env s1 h.buffer_id (spoken w h kind body mode mentioned id)
        (activity_of h mentioned) in
    let (s3, id') = next_message_id s2 in
    if mentioned && (is_channel h.target && contains_key mentions_id s2.buffers)
    then add_mention_to_buffer s3 (mention_line w h (label s2 h.conn_id h.conn_id) line id')
    else s2

-- What a flood detector says: whether the message is hidden, with a warning when that begins.
unfoldable pub judged : World → AppState → Text → Text → FloodState × FloodResult → AppState × Bool
judged w s buffer_id warning (flood, allow) = (record s { flood_state = flood }, false)
judged w s buffer_id warning (flood, triggered) =
    (emit_text w (record s { flood_state = flood }) buffer_id warning, true)
judged w s buffer_id warning (flood, blocked) = (record s { flood_state = flood }, true)

unfoldable pub ctcp_flood : World → AppState → Text → Bool → AppState × Bool
unfolding judged
ctcp_flood w s buffer_id exempt =
    if s.flood_protection && not exempt
    then judged w s buffer_id (codes "CTCP flood detected — suppressing")
        (Checks.check_ctcp_flood s.flood_state w.instant)
    else (s, false)

-- The detectors for nicks without identification, the second for conversations only.
unfoldable pub tilde_flood : World → AppState → Heard → AppState × Bool
unfolding judged
tilde_flood w s h =
    let (s1, hidden) =
      judged w s h.buffer_id (codes "Flood from " ++ (h.nick ++ codes " detected — suppressing"))
        (Checks.check_tilde_nick_flood w.hash_text s.flood_state h.nick w.instant) in
    let storm =
      judged w s1 h.buffer_id (codes "PM flood storm detected — suppressing all ~ PMs")
        (Checks.check_pm_tilde_storm w.hash_text s1.flood_state h.nick w.instant) in
    if hidden || is_channel h.target then (s1, hidden) else storm

unfoldable pub talk_flood : World → AppState → Heard → Text → Text → AppState × Bool
unfolding tilde_flood judged
talk_flood w s h ident text =
    let (s1, hidden) = if starts_with_byte b'~' ident then tilde_flood w s h else (s, false) in
    let repeated = judged w s1 h.buffer_id (codes "Duplicate text flood detected — suppressing") (
      Checks.check_duplicate_flood w.hash_text s1.flood_state text (is_channel h.target)
        w.instant) in
    if hidden then (s1, true) else repeated

-- A message that is no CTCP.
unfoldable pub hear : World → AppState → Heard → Text → Bool → Text → AppState
unfolding talk_flood say
hear w s h ident exempt text =
    let (s', hidden) =
      if s.flood_protection && (not h.own && not exempt)
      then talk_flood w s h ident text
      else (s, false) in
    if hidden then s' else say w s' h message text text

-- A CTCP that is no action is counted, and may be one of the handshake.
unfoldable pub other_ctcp : World → AppState → Heard → Bool → Text → AppState
unfolding ctcp_flood try_dispatch_rpe2e_ctcp
other_ctcp w s h exempt text =
    let (s1, hidden) = ctcp_flood w s h.buffer_id exempt in
    if hidden then s1 else (try_dispatch_rpe2e_ctcp w s1 h.conn_id h.nick h.sender_handle text).0

-- A CTCP: an action is shown.
unfoldable pub hear_ctcp : World → AppState → Heard → Bool → Text → Option AppState
unfolding say other_ctcp
hear_ctcp w s h exempt text = elim (inner text) [
  | none ↦ none
  | some i ↦ elim (strip_start (codes "ACTION ") i) [
    | some a ↦ some (say w s h action a (codes "* " ++ (h.nick ++ (b' ' ∷ a))))
    | none ↦ some (other_ctcp w s h exempt text)
  ]
]

-- The handler from the ignore check on, when the text is decrypted.
unfoldable pub handle_decrypted :
    World → AppState → Text → Text → Option Prefix → Text → Text → Tags → Option AppState
unfolding extract_nick_userhost is_ignored is_exempt meet tag_account hear hear_ctcp
handle_decrypted w s conn_id our_nick prefix target text tags =
    let (nick, ident, host) = extract_nick_userhost prefix in
    let own = text_eq nick our_nick in
    let exempt = not own && is_exempt w s nick ident host in
    let buffer_id =
      make_buffer_id w.env.to_lowercase conn_id
        (if is_channel target || own then target else nick) in
    let h : Heard = record {
      conn_id = conn_id;
      buffer_id = buffer_id;
      target = target;
      nick = nick;
      sender_handle = ident ++ (b'@' ∷ host);
      our_nick = our_nick;
      own = own;
      tags = tags;
    } in
    let s' =
      if is_channel target
      then tag_account w s buffer_id nick tags
      else meet w s conn_id buffer_id own nick (ident ++ (b'@' ∷ host)) in
    if is_ignored w s nick ident host (ignore_level target text) (channel_of target)
    then some s
    else (if is_ctcp text
        then hear_ctcp w s' h exempt text
        else some (hear w s' h ident exempt text))

-- A line that decrypts to no text is dropped: our own, or an empty one.
unfoldable pub handle_privmsg :
    World → AppState → Text → Text → Option Prefix → Text → Text → Tags → Option AppState
unfolding extract_nick_userhost try_decrypt_e2e context_key handle_decrypted
handle_privmsg w s conn_id our_nick prefix target text tags =
    let (nick, ident, host) = extract_nick_userhost prefix in
    let sender_handle = ident ++ (b'@' ∷ host) in
    let (s', plain) =
      try_decrypt_e2e w s conn_id nick sender_handle (context_key target sender_handle) text
        (text_eq nick our_nick) in
    elim plain [
      | none ↦ handle_decrypted w s' conn_id our_nick prefix target text tags
      | some t ↦
          let rest = handle_decrypted w s' conn_id our_nick prefix target t tags in
          if is_empty t then some s' else rest
    ]
