-- ===== src/Events/Names.antt =====
-- Replies of the server about channels and users: the entries of NAMES, WHOX, and the arms of
-- `handle_response` for ISUPPORT, NAMES, topics and channel modes, in src/irc/events.rs.
use repartee_desktop.Base.{
  ◌%◌, ◌/◌, ◌++◌, show_number, ◌==◌, [], ltb, text_eq, false, some, none, if◌then◌else◌, codes,
  Bool, ◌∷◌, Option, Text, List, ℕ,
}
use repartee_desktop.Base.Chars.{split_once, split_whitespace}
use repartee_desktop.Events.{
  or_empty, adjust, insert, make_buffer_id, get, Map, World, emit_text, active_or_server_buffer,
  update_connection, contains_case_insensitive, set_insert, set_contains,
}
use repartee_desktop.Events.Renames.{update_label_from_network}
use repartee_desktop.Irc.Isupport
use repartee_desktop.State.App.{u32_succ, AppState, update_buffer}
use repartee_desktop.State.Messages.{set_topic}
use repartee_desktop.State.{NickEntry}
use repartee_desktop.State.Nicks.{add_nick}
use repartee_desktop.Events.Modes.{has_value, strip_leading_plus}
use repartee_desktop.Base.Maps.{Text_eq}

abbrev pub mode_with_prefix : ℕ → List (ℕ × ℕ) → Option ℕ
mode_with_prefix c [] = none
mode_with_prefix c ((mode, p) ∷ ps) =
    let rest = mode_with_prefix c ps in if p == c then some mode else rest

-- The prefix characters at the start, their modes, and the rest.
unfoldable pub leading_prefixes : List (ℕ × ℕ) → Text → Text × Text × Text
leading_prefixes prefix_map [] = ([], [], [])
leading_prefixes prefix_map (c ∷ s) =
    let (prefix, modes, rest) = leading_prefixes prefix_map s in
    elim (mode_with_prefix c prefix_map) [
      | none ↦ ([], [], c ∷ s)
      | some mode ↦ (c ∷ prefix, mode ∷ modes, rest)
    ]

unfoldable pub parse_userhost : Text → Text × Option Text × Option Text
parse_userhost input = elim (split_once b'!' input) [
  | none ↦ (input, none, none)
  | some (nick, rest) ↦ elim (split_once b'@' rest) [
    | none ↦ (input, none, none)
    | some (ident, host) ↦ (nick, some ident, some host)
  ]
]

unfoldable pub parse_names_entry : Text → List (ℕ × ℕ) → Bool → NickEntry
unfolding leading_prefixes parse_userhost
parse_names_entry raw prefix_map has_userhost =
    let (prefix, modes, rest) = leading_prefixes prefix_map raw in
    let (nick, ident, host) = if has_userhost then parse_userhost rest else (rest, none, none) in
    record {
      nick = nick;
      prefix = prefix;
      modes = modes;
      away = false;
      account = none;
      ident = ident;
      host = host;
    }

unfoldable pub add_names : World → AppState → Text → List (ℕ × ℕ) → Bool → List Text → AppState
unfolding parse_names_entry
add_names w s buffer_id prefix_map has_userhost [] = s
add_names w s buffer_id prefix_map has_userhost (raw ∷ raws) =
    add_names w (add_nick w.env s buffer_id (parse_names_entry raw prefix_map has_userhost))
      buffer_id prefix_map has_userhost raws

abbrev pub names_settings : AppState → Text → List (ℕ × ℕ) × Bool
names_settings s conn_id = elim (get conn_id s.connections) [
  | none ↦ ((b'o', b'@') ∷ (b'v', b'+') ∷ [], false)
  | some c ↦ (
    Isupport.prefix_map c.isupport_parsed,
    set_contains (codes "userhost-in-names") c.enabled_caps,
  )
]

-- `RPL_NAMREPLY`.
unfoldable pub handle_names : World → AppState → Text → List Text → AppState
unfolding add_names
handle_names w s conn_id (a ∷ b ∷ name ∷ nicks_str ∷ rest) =
    let (prefix_map, has_userhost) = names_settings s conn_id in
    add_names w s (make_buffer_id w.env.to_lowercase conn_id name) prefix_map has_userhost
      (split_whitespace nicks_str)
handle_names w s conn_id _ = s

abbrev pub but_last : List Text → List Text
but_last [] = []
but_last (t ∷ []) = []
but_last (t ∷ u ∷ ts) = t ∷ but_last (u ∷ ts)

abbrev pub network_of : AppState → Text → Option Text
network_of s conn_id = elim (get conn_id s.connections) [
  | none ↦ none
  | some c ↦ Isupport.network c.isupport_parsed
]

-- `RPL_ISUPPORT`: the tokens stand between our nick and the last argument.
unfoldable pub handle_isupport : World → AppState → Text → List Text → AppState
unfolding update_label_from_network
handle_isupport w s conn_id (a ∷ b ∷ args) =
    let s' = update_connection s conn_id (λ c. record c {
      isupport_parsed = Isupport.parse_tokens (but_last (b ∷ args)) c.isupport_parsed;
    }) in
    elim (network_of s' conn_id) [
      | none ↦ s'
      | some network ↦ update_label_from_network w s' conn_id network
    ]
handle_isupport w s conn_id _ = s

-- `RPL_TOPIC` and `RPL_TOPICWHOTIME`.
unfoldable pub handle_topic_reply : World → AppState → Text → List Text → AppState
handle_topic_reply w s conn_id (a ∷ name ∷ topic ∷ rest) =
    set_topic s (make_buffer_id w.env.to_lowercase conn_id name) topic none
handle_topic_reply w s conn_id _ = s

unfoldable pub handle_topic_who : World → AppState → Text → List Text → AppState
handle_topic_who w s conn_id (a ∷ name ∷ set_by ∷ rest) =
    update_buffer s (make_buffer_id w.env.to_lowercase conn_id name)
      (λ b. record b { topic_set_by = some set_by })
handle_topic_who w s conn_id _ = s

-- The modes that have a value take the arguments in turn, as long as there are any.
unfoldable pub mode_values : Text → List Text → Map Text Text → Map Text Text
mode_values [] args params = params
mode_values (c ∷ cs) [] params = params
mode_values (c ∷ cs) (val ∷ args) params =
    let taken = mode_values cs args (insert (c ∷ []) val params) in
    let skipped = mode_values cs (val ∷ args) params in if has_value c then taken else skipped

abbrev pub some_params : Map Text Text → Option (Map Text Text)
some_params [] = none
some_params (p ∷ ps) = some (p ∷ ps)

-- `RPL_CHANNELMODEIS`.
unfoldable pub handle_channel_modes : World → AppState → Text → List Text → AppState
unfolding mode_values
handle_channel_modes w s conn_id (a ∷ name ∷ modes ∷ args) =
    let mode_str = strip_leading_plus modes in
    update_buffer s (make_buffer_id w.env.to_lowercase conn_id name) (λ b. record b {
      modes = some mode_str;
      mode_params = some_params (mode_values mode_str args []);
    })
handle_channel_modes w s conn_id _ = s

unfoldable pub next_who_token : AppState → Text → AppState × Text
next_who_token s conn_id = elim (get conn_id s.connections) [
  | none ↦ (s, codes "0")
  | some c ↦ (
    update_connection s conn_id
        (λ d. record d { who_token_counter = u32_succ d.who_token_counter }),
    show_number (u32_succ c.who_token_counter),
  )
]

abbrev pub supports_whox : AppState → Text → Bool
supports_whox s conn_id = elim (get conn_id s.connections) [
  | none ↦ false
  | some c ↦ Isupport.has_whox c.isupport_parsed
]

-- `whox_fields` is the constant of src/constants.rs.
abbrev pub whox_fields : Text
whox_fields = codes "%tcuihnfar"

unfoldable pub build_whox_who : AppState → Text → Text → Bool → AppState × Option (Text × Text)
unfolding next_who_token
build_whox_who s conn_id name silent =
    let (s', token) = next_who_token s conn_id in
    let waiting =
      if silent
      then update_connection s' conn_id
          (λ c. record c { silent_who_channels = set_insert name c.silent_who_channels })
      else s' in
    if supports_whox s conn_id
    then (waiting, some (name, whox_fields ++ (b',' ∷ token)))
    else (s, none)

abbrev pub starts_with : ℕ → Text → Bool
starts_with c [] = false
starts_with c (d ∷ s) = d == c

abbrev pub is_silent_who : AppState → Text → Text → Bool
is_silent_who s conn_id name = elim (get conn_id s.connections) [
  | none ↦ false
  | some c ↦ contains_case_insensitive c.silent_who_channels name
]

pub record WhoxReply : Type 0 where
  pub channel_name : Text
  pub user : Text
  pub host : Text
  pub nick : Text
  pub flags : Text
  pub account_raw : Text
  pub realname : Text

-- The arguments after our nick: the token, the channel, the user, the address and the rest.
abbrev pub whox_args : List Text → Option WhoxReply
whox_args (a ∷ token ∷ name ∷ user ∷ ip ∷ host ∷ nick ∷ flags ∷ account_raw ∷ realname ∷ rest) =
    some (record {
      channel_name = name;
      user = user;
      host = host;
      nick = nick;
      flags = flags;
      account_raw = account_raw;
      realname = realname;
    })
whox_args _ = none

abbrev pub whox_account : WhoxReply → Option Text
whox_account r = if text_eq r.account_raw (codes "0") then none else some r.account_raw

abbrev pub whox_entry : WhoxReply → NickEntry → NickEntry
whox_entry r e = record e {
  ident = some r.user;
  host = some r.host;
  account = whox_account r;
  away = starts_with b'G' r.flags;
}

abbrev pub whox_text : WhoxReply → Text
whox_text r =
    codes "%Zc0caf5"
    ++ (r.nick
        ++ (codes "%Z565f89 ("
            ++ (r.user
                ++ (b'@'
                    ∷ (r.host
                        ++ (codes ") ["
                            ++ (r.flags
                                ++ (codes "] "
                                    ++ (r.channel_name
                                        ++ (codes "%Za9b1d6 "
                                            ++ (r.realname
                                                ++ (codes "%Z565f89 ["
                                                    ++ (or_empty (whox_account r)
                                                        ++ codes "]%N")))))))))))))

unfoldable pub handle_whox_reply : World → AppState → Text → List Text → AppState
unfolding emit_text active_or_server_buffer contains_case_insensitive
handle_whox_reply w s conn_id args = elim (whox_args args) [
  | none ↦ s
  | some r ↦
      let s' =
        update_buffer s (make_buffer_id w.env.to_lowercase conn_id r.channel_name)
          (λ b. record b { users = adjust (w.env.to_lowercase r.nick) (whox_entry r) b.users }) in
      if is_silent_who s conn_id r.channel_name
      then s'
      else emit_text w s' (active_or_server_buffer w s' conn_id) (whox_text r)
]

unfoldable pub format_duration : ℕ → Text
format_duration secs =
    if ltb secs 60
    then show_number secs ++ codes "s"
    else (if ltb secs 3600
        then show_number (secs / 60) ++ (codes "m " ++ (show_number (secs % 60) ++ codes "s"))
        else (if ltb secs 86400
            then show_number (secs / 3600)
              ++ (codes "h " ++ (show_number ((secs % 3600) / 60) ++ codes "m"))
            else show_number (secs / 86400)
              ++ (codes "d " ++ (show_number ((secs % 86400) / 3600) ++ codes "h"))))
