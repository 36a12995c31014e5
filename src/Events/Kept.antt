-- ===== src/Events/Kept.antt =====
-- That the shown buffer exists is kept by each handler of src/irc/events.rs, and so by any sequence
-- of events that does not make the client panic.
pub mod Loops
pub mod Modes
pub mod Members
pub mod Others
pub mod Encryption
pub mod Talk
use repartee_desktop.Netsplit.Handlers
use repartee_desktop.Irc.Isupport
use repartee_desktop.State.App.{
  add_buffer, set_active_buffer, update_connection_status, emit, WebEvent, remove_buffer,
}
use repartee_desktop.Events.Sound.{post-IsApp, map_values-IsApp, rename_buffer-IsApp}
use repartee_desktop.State.Shown.{
  IsApp, remove_buffer-IsApp, add_buffer-IsApp, set_active_buffer-IsApp,
}
use repartee_desktop.State.Steps.{Keeps, Keeps-IsApp, update_buffer-IsApp}
use repartee_desktop.Events.{
  server_buffer, or_text, post, emit_text, extract_nick, status_buffer, is_ignored, or_empty,
  message_timestamp, event_message, update_buffer, extract_nick_userhost, Tags, Prefix, get,
  make_buffer_id, update_connection, Message, Connection, AppState, World,
}
use repartee_desktop.Events.Dispatch.{
  join_refused_reply, privmsg_command, connection_made, run_events, step,
}
use repartee_desktop.Base.{
  any, has_byte, ◌&&◌, if◌then◌else◌, eq_ignore_ascii_case, join, text_eq, codes, ◌++◌, is_empty,
  subst, not, none, true, inr, Option-cases, inl, [], some, Bool-cases, false, arith, List, Option,
  Bool, ℕ, Text, ◌∷◌, ◌≡◌, refl,
}
use repartee_desktop.State.Nicks.{update_nick, remove_nick, add_nick}
use repartee_desktop.Events.Members.{
  logged_in, has_user, buffers_where, handle_quit, in_parentheses, full_name, forget_channel_state,
  joined_account, new_channel, other_part, show_join, new_entry, handle_part, handle_join,
  other_join, self_join, logged_as, fan_out, leave_all,
}
use repartee_desktop.Events.Status.{
  shared_buffers, handle_wallops, is_some, update_nick_account_in_buffers, handle_invite,
  handle_chghost, handle_away, handle_account, handle_topic, update_user, emit_away, post_all,
}
use repartee_desktop.Events.Renames.{
  nick_message, knows, update_label_from_network, handle_nick_change, set_our_nick, is_query_at,
  rename_query_buffers, rename_loudly, nick_flood, renamed_in, rename_silently,
}
use repartee_desktop.Events.Modes.{
  handle_mode, user_mode, channel_mode, ModeCommand, apply_modes, user_in, nick_mode_char,
  change_user, no_prefix, minus, plus, Mode, channel_mode_letter, ChannelMode, apply_channel_mode,
  apply_channel_flag, apply_channel_modes, change_mode, apply_nick_mode, apply_ban,
}
use repartee_desktop.Events.Names.{
  is_silent_who, whox_entry, network_of, handle_channel_modes, handle_topic_who, handle_topic_reply,
  handle_names, whox_args, but_last, handle_whox_reply, handle_isupport, parse_names_entry,
  add_names,
}
use repartee_desktop.State.{NickEntry, Buffer}
use repartee_desktop.Events.Lifecycle.{
  handle_error, wipe_channel, set_error, handle_disconnected, disconnect, handle_connected,
}
use repartee_desktop.Events.Caps.{
  enable_caps, drop_caps, handle_cap_nak, handle_cap_ack, handle_cap_del, handle_cap_new, report,
}
use repartee_desktop.State.Messages.{set_topic}
use repartee_desktop.Base.Maps.{adjust, contains_key, Text_eq}
use repartee_desktop.Irc.Ignore.{quits, nicks, kicks, parts, joins}
use repartee_desktop.Events.Dispatch.{
  whox_reply, channel_modes_reply, topic_who_reply, topic_reply, names_reply, isupport_reply,
  chghost_command, invite_command, mode_command, received, topic_command, cap_nak, kick_command,
  cap_ack, error_command, notice_command, cap_del, wallops_command, cap_new, account_command,
  connection_lost, nick_command, away_command, quit_command, part_command, join_command, Command,
  IrcEvent, handle_irc_message, dispatch,
}
use repartee_desktop.Base.Chars.{split_whitespace}
use repartee_desktop.Events.Denied.{handle_join_refused, argument_or, is_deserted}
use repartee_desktop.Events.Kept.Talk.{read_text, IsUp, notice-IsApp, privmsg-IsUp}
use repartee_desktop.Events.Kept.Loops.{
  emit-IsApp, connection-IsApp, add_nick-IsApp, remove_nick-IsApp, update_nick-IsApp,
  leave_all-IsApp, fan_out-IsApp, post_all-IsApp, emit_away-IsApp, update_user-IsApp,
  rename_silently-IsApp, renamed_in-IsApp, nick_flood-IsApp, rename_loudly-IsApp,
  rename_query_buffers-IsApp, add_names-IsApp,
}
use repartee_desktop.Events.Kept.Modes.{
  upsert-id, remove_entry-id, apply_ban-id, change_user-IsApp, apply_nick_mode-IsApp,
  change_mode-IsApp, apply_channel_modes-IsApp, apply_modes-IsApp,
}
use repartee_desktop.Events.Kept.Members.{
  self_join-IsApp, other_join-IsApp, join-IsApp, part-IsApp, quit-IsApp, self_kick-IsApp,
  kick-IsApp, set_our_nick-IsApp, nick_change-IsApp,
}
use repartee_desktop.Events.Kept.Others.{
  connected-IsApp, disconnect-IsApp, disconnected-IsApp, report-IsApp, topic-IsApp, account-IsApp,
  away-IsApp, chghost-IsApp, invite-IsApp, error-IsApp, label-IsApp, isupport-IsApp, whox-IsApp,
  names-IsApp, topic_reply-IsApp, topic_who-IsApp, channel_modes-IsApp,
}

abbrev is_mark : World → Option Prefix → Command → Bool
is_mark w from (privmsg_command target text) = text_eq (read_text w from target text) (1 ∷ [])
is_mark w from (isupport_reply args) = false
is_mark w from (names_reply args) = false
is_mark w from (topic_reply args) = false
is_mark w from (topic_who_reply args) = false
is_mark w from (channel_modes_reply args) = false
is_mark w from (whox_reply args) = false
is_mark w from (join_command a b c) = false
is_mark w from (part_command a b) = false
is_mark w from (quit_command a) = false
is_mark w from (away_command a) = false
is_mark w from (nick_command a) = false
is_mark w from (account_command a) = false
is_mark w from (wallops_command a) = false
is_mark w from (error_command a) = false
is_mark w from (kick_command a b c) = false
is_mark w from (topic_command a b) = false
is_mark w from (mode_command a b) = false
is_mark w from (invite_command a b) = false
is_mark w from (chghost_command a b) = false
is_mark w from (notice_command a b) = false
is_mark w from (join_refused_reply a) = false

refused-IsApp :
    (w : World) (s : AppState) (id : Text) (args : List Text)
    → IsApp s
    → IsApp (handle_join_refused w s id args)
unfolding handle_join_refused emit_text
refused-IsApp w s id args v =
    let name = argument_or (codes "?") 1 args in
    let reason = argument_or (codes "Cannot join channel") 2 args in
    let buffer_id = make_buffer_id w.env.to_lowercase id name in
    let told =
      emit_text w s (server_buffer w s id)
        (codes "%Zff6b6bCannot join " ++ (name ++ (codes ": " ++ (reason ++ codes "%N")))) in
    let kept = post-IsApp w s _ _ v in
    elim (Bool-cases (is_deserted buffer_id told)) [
      | inl e ↦ rw (handle_join_refused, e) (remove_buffer-IsApp w.env told buffer_id kept)
      | inr e ↦ rw (handle_join_refused, e) kept
    ]

dispatch-IsUp :
    (w : World) (s : AppState) (id me : Text) (from : Option Prefix) (tags : Tags) (c : Command)
    → is_mark w from c ≡ false
    → IsApp s
    → IsUp (dispatch w s id me from tags c)
unfolding dispatch handle_mode handle_wallops emit_text
dispatch-IsUp w s id me from tags (privmsg_command target text) ok v =
    privmsg-IsUp w s id me from target text tags ok v
dispatch-IsUp w s id me from tags (join_command name account realname) ok v =
    join-IsApp w s id me from name account realname tags v
dispatch-IsUp w s id me from tags (part_command name reason) ok v =
    part-IsApp w s id me from name reason tags v
dispatch-IsUp w s id me from tags (quit_command reason) ok v = quit-IsApp w s id from reason tags v
dispatch-IsUp w s id me from tags (away_command reason) ok v = away-IsApp w s id from reason v
dispatch-IsUp w s id me from tags (nick_command new_nick) ok v =
    nick_change-IsApp w s id me from new_nick tags v
dispatch-IsUp w s id me from tags (account_command account) ok v =
    account-IsApp w s id from account tags v
dispatch-IsUp w s id me from tags (wallops_command text) ok v = post-IsApp w s _ _ v
dispatch-IsUp w s id me from tags (notice_command target text) ok v =
    notice-IsApp w s id from target text tags v
dispatch-IsUp w s id me from tags (error_command text) ok v = error-IsApp w s id text v
dispatch-IsUp w s id me from tags (kick_command name user reason) ok v =
    kick-IsApp w s id me from name user reason tags v
dispatch-IsUp w s id me from tags (topic_command name topic) ok v =
    topic-IsApp w s id from name topic tags v
dispatch-IsUp w s id me from tags (mode_command target modes) ok v =
    post-IsApp w _ _ _
      (apply_modes-IsApp w s id target modes (or_text (codes "server") (extract_nick from)) v)
dispatch-IsUp w s id me from tags (invite_command nick name) ok v =
    invite-IsApp w s id me from nick name tags v
dispatch-IsUp w s id me from tags (chghost_command user host) ok v =
    chghost-IsApp w s id from user host tags v
dispatch-IsUp w s id me from tags (isupport_reply args) ok v = isupport-IsApp w s id args v
dispatch-IsUp w s id me from tags (names_reply args) ok v = names-IsApp w s id args v
dispatch-IsUp w s id me from tags (topic_reply args) ok v = topic_reply-IsApp w s id args v
dispatch-IsUp w s id me from tags (topic_who_reply args) ok v = topic_who-IsApp w s id args v
dispatch-IsUp w s id me from tags (channel_modes_reply args) ok v =
    channel_modes-IsApp w s id args v
dispatch-IsUp w s id me from tags (whox_reply args) ok v = whox-IsApp w s id args v
dispatch-IsUp w s id me from tags (join_refused_reply args) ok v = refused-IsApp w s id args v

-- A PRIVMSG that says, decrypted if it is encrypted, the one byte that begins and ends a CTCP.
abbrev pub is_lone_mark : World → IrcEvent → Bool
is_lone_mark w (received msg) = is_mark w msg.prefix msg.command
is_lone_mark w connection_made = false
is_lone_mark w (connection_lost err) = false
is_lone_mark w (cap_new a b) = false
is_lone_mark w (cap_del a b) = false
is_lone_mark w (cap_ack a b) = false
is_lone_mark w (cap_nak a b) = false

step-IsUp :
    (w : World) (s : AppState) (id : Text) (ev : IrcEvent)
    → is_lone_mark w ev ≡ false
    → IsApp s
    → IsUp (step w s id ev)
unfolding step handle_irc_message handle_cap_new handle_cap_del handle_cap_ack handle_cap_nak
    drop_caps enable_caps
step-IsUp w s id connection_made ok v = connected-IsApp w s id v
step-IsUp w s id (connection_lost err) ok v = disconnected-IsApp w s id err v
step-IsUp w s id (cap_new a b) ok v = report-IsApp w s id _ _ v
step-IsUp w s id (cap_del a b) ok v =
    report-IsApp w _ id _ _ (record { shown = v.shown; own = v.own })
step-IsUp w s id (cap_ack a b) ok v =
    report-IsApp w _ id _ _ (record { shown = v.shown; own = v.own })
step-IsUp w s id (cap_nak a b) ok v = report-IsApp w s id _ _ v
step-IsUp w s id (received msg) ok v = dispatch-IsUp w s id _ msg.prefix _ msg.command ok v

-- Whatever sequence of the messages of `Command` (of the numeric replies those for ISUPPORT, NAMES,
-- topics, channel modes, WHOX and refused joins only) and of events of the connections comes, the
-- client does not panic and never shows a buffer that does not exist, and every buffer stands under
-- its own identifier, if that held at the start and no PRIVMSG says, decrypted if it is encrypted,
-- the one byte that begins and ends a CTCP.
pub run_events-IsUp :
    (s : AppState) (evs : List (World × Text × IrcEvent))
    → any (λ e. is_lone_mark e.0 e.2) evs ≡ false
    → IsApp s
    → IsUp (run_events s evs)
unfolding run_events
run_events-IsUp s [] ok v = v
run_events-IsUp s ((w, id, ev) ∷ evs) ok v = elim (Option-cases (step w s id ev)) [
  | inl e ↦ absurd (subst IsUp e (step-IsUp w s id ev (ground (arith, ok)) v))
  | inr (t, e) ↦
      rw (run_events, e)
        (run_events-IsUp t evs (ground (arith, ok))
          (subst IsUp e (step-IsUp w s id ev (ground (arith, ok)) v)))
]
