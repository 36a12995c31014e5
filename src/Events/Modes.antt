-- ===== src/Events/Modes.antt =====
-- Modes: `handle_mode`, `apply_channel_mode`, the ban list and the texts of modes of
-- src/irc/events.rs. The modes are the irc crate's, whose cases the functions list.
use repartee_desktop.Base.{
  join, ◌||◌, is_empty, false, has_byte, not, ◌++◌, none, if◌then◌else◌, [], ◌∷◌, ◌==◌, true, some,
  codes, retain, List, Text, Bool, ℕ, Option,
}
use repartee_desktop.Events.{
  adjust, make_buffer_id, get, insert, Map, World, Prefix, extract_nick, post, event_message,
  message_timestamp, Tags, update_connection, or_text, blank_nick_event, server_buffer,
}
use repartee_desktop.State.App.{kind_mode_change, nick_event, AppState, update_buffer, emit}
use repartee_desktop.Irc.Formatting.{modes_to_prefix, is_channel}
use repartee_desktop.State.{NickEntry, Buffer}
use repartee_desktop.Base.Maps.{Text_eq, remove}
use repartee_desktop.Events.Bans.{ban_mode_key, remove_list_mode_entry, upsert_list_mode_entry}

pub data Mode {ℓ} (M : Type ℓ) : Type ℓ where
  plus minus : M → Option Text → Mode M
  no_prefix : M → Mode M

pub data ChannelMode : Type 0 where
  ban exception limit invite_only invite_exception key moderated registered_only reop secret
        protected_topic no_external_messages founder admin oper halfop voice :
      ChannelMode
  unknown : ℕ → ChannelMode

unfoldable pub channel_mode_letter : ChannelMode → ℕ
channel_mode_letter ban = b'b'
channel_mode_letter exception = b'e'
channel_mode_letter limit = b'l'
channel_mode_letter invite_only = b'i'
channel_mode_letter invite_exception = b'I'
channel_mode_letter key = b'k'
channel_mode_letter moderated = b'm'
channel_mode_letter registered_only = b'r'
channel_mode_letter reop = b'R'
channel_mode_letter secret = b's'
channel_mode_letter protected_topic = b't'
channel_mode_letter no_external_messages = b'n'
channel_mode_letter founder = b'q'
channel_mode_letter admin = b'a'
channel_mode_letter oper = b'o'
channel_mode_letter halfop = b'h'
channel_mode_letter voice = b'v'
channel_mode_letter (unknown c) = c

-- `UserMode`, whose `Oper` and `Unknown` would meet those of `ChannelMode`.
pub data UserMode : Type 0 where
  user_away user_invisible user_wallops user_restricted user_oper user_local_oper
        user_server_notices user_masked_host :
      UserMode
  user_unknown : ℕ → UserMode

unfoldable pub user_mode_letter : UserMode → ℕ
user_mode_letter user_away = b'a'
user_mode_letter user_invisible = b'i'
user_mode_letter user_wallops = b'w'
user_mode_letter user_restricted = b'r'
user_mode_letter user_oper = b'o'
user_mode_letter user_local_oper = b'O'
user_mode_letter user_server_notices = b's'
user_mode_letter user_masked_host = b'x'
user_mode_letter (user_unknown c) = c

-- `s.replace(c, "")`.
abbrev pub without : ℕ → Text → Text
without c s = retain (λ d. not (d == c)) s

-- A mode letter is pushed once, or taken out.
unfoldable pub set_letter : Bool → ℕ → Text → Text
set_letter adding c modes =
    if adding then (if has_byte c modes then modes else modes ++ c ∷ []) else without c modes

-- The letter of a mode that is shown as a prefix of a nick.
unfoldable pub nick_mode_char : ChannelMode → Option ℕ
nick_mode_char founder = some b'q'
nick_mode_char admin = some b'a'
nick_mode_char oper = some b'o'
nick_mode_char halfop = some b'h'
nick_mode_char voice = some b'v'
nick_mode_char _ = none

abbrev pub is_ban : ChannelMode → Bool
is_ban ban = true
is_ban _ = false

abbrev pub is_list_mode : ChannelMode → Bool
is_list_mode exception = true
is_list_mode invite_exception = true
is_list_mode reop = true
is_list_mode _ = false

unfoldable pub set_nick_mode : Bool → ℕ → NickEntry → NickEntry
unfolding set_letter
set_nick_mode adding mc entry =
    let modes = set_letter adding mc entry.modes in
    record entry { modes = modes; prefix = modes_to_prefix modes (codes "~&@%+") }

-- A user's modes change, and the web clients are told of them.
unfoldable pub change_user : World → AppState → Text → Bool → ℕ → Text → NickEntry → AppState
unfolding set_nick_mode
change_user w s buffer_id adding mc target_nick entry =
    let changed = set_nick_mode adding mc entry in
    emit
      (update_buffer s buffer_id (λ c. record c {
        users = adjust (w.env.to_lowercase target_nick) (set_nick_mode adding mc) c.users;
      }))
      (nick_event (record (blank_nick_event buffer_id kind_mode_change target_nick) {
        prefix = some changed.prefix;
        modes = some changed.modes;
      }))

-- The entry of a nick in a buffer.
abbrev pub user_in : (Text → Text) → AppState → Text → Text → Option NickEntry
user_in to_lowercase s buffer_id nick = elim (get buffer_id s.buffers) [
  | none ↦ none
  | some b ↦ get (to_lowercase nick) b.users
]

-- Where the mode is one of a user's and the user is in the buffer.
unfoldable pub apply_nick_mode :
    World → AppState → Text → Bool → ChannelMode → Option Text → Option AppState
unfolding nick_mode_char change_user
apply_nick_mode w s buffer_id adding m none = none
apply_nick_mode w s buffer_id adding m (some target_nick) = elim (nick_mode_char m) [
  | none ↦ none
  | some mc ↦ elim (user_in w.env.to_lowercase s buffer_id target_nick) [
    | none ↦ none
    | some entry ↦ some (change_user w s buffer_id adding mc target_nick entry)
  ]
]

unfoldable pub apply_ban : World → Bool → Option Text → Text → Buffer → Buffer
unfolding upsert_list_mode_entry remove_list_mode_entry
apply_ban w adding none set_by b = b
apply_ban w adding (some mask) set_by b =
    if adding
    then (upsert_list_mode_entry b ban_mode_key mask set_by w.now).0
    else (remove_list_mode_entry b ban_mode_key mask).0

abbrev pub has_value : ℕ → Bool
has_value c = c == b'k' || c == b'l'

abbrev pub strip_leading_plus : Text → Text
strip_leading_plus [] = []
strip_leading_plus (c ∷ s) = if c == b'+' then s else c ∷ s

abbrev pub set_mode_param : Bool → ℕ → Option Text → Option (Map Text Text) → Option (Map Text Text)
set_mode_param true c none params = params
set_mode_param true c (some value) params =
    let kept : Map Text Text = elim params [ none ↦ [] | some mp ↦ mp ] in
    if has_value c then some (insert (c ∷ []) value kept) else params
set_mode_param false c param none = none
set_mode_param false c param (some mp) = some (remove (c ∷ []) mp)

unfoldable pub apply_channel_flag : Bool → ℕ → Option Text → Buffer → Buffer
unfolding set_letter
apply_channel_flag adding c param b = record b {
  modes = some (strip_leading_plus (set_letter adding c (or_text [] b.modes)));
  mode_params = set_mode_param adding c param b.mode_params;
}

-- A mode that is set or unset.
unfoldable pub change_mode :
    World → AppState → Text → Bool → ChannelMode → Option Text → Text → AppState
unfolding apply_nick_mode apply_ban apply_channel_flag nick_mode_char channel_mode_letter
change_mode w s buffer_id adding m param set_by =
    let c = channel_mode_letter m in
    let rest =
      if is_ban m
      then update_buffer s buffer_id (apply_ban w adding param set_by)
      else (elim (nick_mode_char m) [
        | some mc ↦ s
        | none ↦
            if is_list_mode m
            then s
            else update_buffer s buffer_id (apply_channel_flag adding c param)
      ]) in
    elim (apply_nick_mode w s buffer_id adding m param) [ some s' ↦ s' | none ↦ rest ]

unfoldable pub apply_channel_mode : World → AppState → Text → Mode ChannelMode → Text → AppState
unfolding change_mode
apply_channel_mode w s buffer_id (plus m param) set_by =
    change_mode w s buffer_id true m param set_by
apply_channel_mode w s buffer_id (minus m param) set_by =
    change_mode w s buffer_id false m param set_by
apply_channel_mode w s buffer_id (no_prefix m) set_by = s

unfoldable pub apply_channel_modes :
    World → AppState → Text → List (Mode ChannelMode) → Text → AppState
unfolding apply_channel_mode
apply_channel_modes w s buffer_id [] set_by = s
apply_channel_modes w s buffer_id (m ∷ ms) set_by =
    apply_channel_modes w (apply_channel_mode w s buffer_id m set_by) buffer_id ms set_by

abbrev pub sign_of {ℓ} : {M : Type ℓ} → Mode M → ℕ
sign_of (plus m param) = b'+'
sign_of (minus m param) = b'-'
sign_of (no_prefix m) = b' '

abbrev pub mode_in {ℓ} : {M : Type ℓ} → Mode M → M
mode_in (plus m param) = m
mode_in (minus m param) = m
mode_in (no_prefix m) = m

abbrev pub param_in {ℓ} : {M : Type ℓ} → Mode M → List Text
param_in (plus m none) = []
param_in (plus m (some p)) = p ∷ []
param_in (minus m none) = []
param_in (minus m (some p)) = p ∷ []
param_in (no_prefix m) = []

-- The signs, each where it changes, and the letters.
unfoldable pub mode_letters {ℓ} : {M : Type ℓ} → (M → ℕ) → ℕ → List (Mode M) → Text
mode_letters letter last_sign [] = []
mode_letters letter last_sign (m ∷ ms) =
    let sign = sign_of m in
    let same = letter (mode_in m) ∷ mode_letters letter last_sign ms in
    let changed = sign ∷ letter (mode_in m) ∷ mode_letters letter sign ms in
    if sign == last_sign || sign == b' ' then same else changed

abbrev pub mode_params_of {ℓ} : {M : Type ℓ} → List (Mode M) → List Text
mode_params_of [] = []
mode_params_of (m ∷ ms) = param_in m ++ mode_params_of ms

unfoldable pub build_channel_mode_string : List (Mode ChannelMode) → Text
unfolding mode_letters channel_mode_letter
build_channel_mode_string modes =
    let params = mode_params_of modes in
    mode_letters channel_mode_letter b' ' modes
    ++ (if is_empty params then [] else b' ' ∷ join (codes " ") params)

unfoldable pub build_user_mode_string : List (Mode UserMode) → Text
unfolding mode_letters user_mode_letter
build_user_mode_string modes = mode_letters user_mode_letter b' ' modes

abbrev pub apply_user_mode : Mode UserMode → Text → Text
apply_user_mode (plus m param) modes = set_letter true (user_mode_letter m) modes
apply_user_mode (minus m param) modes = set_letter false (user_mode_letter m) modes
apply_user_mode (no_prefix m) modes = set_letter true (user_mode_letter m) modes

unfoldable pub apply_user_modes : List (Mode UserMode) → Text → Text
unfolding set_letter user_mode_letter
apply_user_modes [] modes = modes
apply_user_modes (m ∷ ms) modes = apply_user_modes ms (apply_user_mode m modes)

-- The two commands that the handler gets.
pub data ModeCommand : Type 0 where
  channel_mode : List (Mode ChannelMode) → ModeCommand
  user_mode : List (Mode UserMode) → ModeCommand

unfoldable pub apply_modes : World → AppState → Text → Text → ModeCommand → Text → AppState
unfolding apply_channel_modes apply_user_modes
apply_modes w s conn_id target (channel_mode modes) nick =
    apply_channel_modes w s (make_buffer_id w.env.to_lowercase conn_id target) modes nick
apply_modes w s conn_id target (user_mode modes) nick =
    update_connection s conn_id (λ c. record c { user_modes = apply_user_modes modes c.user_modes })

abbrev pub mode_display : ModeCommand → Text
mode_display (channel_mode modes) = build_channel_mode_string modes
mode_display (user_mode modes) = build_user_mode_string modes

unfoldable pub handle_mode :
    World → AppState → Text → Option Prefix → Text → ModeCommand → Tags → AppState
unfolding extract_nick apply_modes build_channel_mode_string build_user_mode_string server_buffer
    message_timestamp
handle_mode w s conn_id prefix target command tags =
    let nick = or_text (codes "server") (extract_nick prefix) in
    let s' = apply_modes w s conn_id target command nick in
    let display = mode_display command in
    let buffer_id =
      if is_channel target
      then make_buffer_id w.env.to_lowercase conn_id target
      else server_buffer w s' conn_id in
    post w s' buffer_id (λ id.
      event_message id (message_timestamp w tags)
        (nick ++ (codes " sets mode " ++ (display ++ (codes " on " ++ target))))
        (some (codes "mode")) (some (nick ∷ display ∷ target ∷ [])) tags)
