-- ===== src/Events/Dispatch.antt =====
-- What the server sends, one constructor for each handler: `handle_irc_message` of
-- src/irc/events.rs with the events of the connection that src/app/irc.rs hands to the other public
-- handlers. A panic is `none`. Of the numeric replies there are those for ISUPPORT, NAMES, topics,
-- channel modes, WHOX and a refused JOIN; 329, 330, 671, the other replies of `handle_response` and
-- the unknown numerics, which show lines in a buffer, are left out.
use repartee_desktop.Base.{◌∷◌, some, [], none, List, Option, Text}
use repartee_desktop.Events.{get, extract_tags, AppState, World, Prefix, Tags}
use repartee_desktop.Events.Lifecycle.{handle_connected, handle_disconnected, handle_error}
use repartee_desktop.Events.Caps.{handle_cap_new, handle_cap_del, handle_cap_ack, handle_cap_nak}
use repartee_desktop.Events.Members.{handle_join, handle_part, handle_quit}
use repartee_desktop.Events.Modes.{handle_mode, ModeCommand}
use repartee_desktop.Events.Renames.{handle_nick_change}
use repartee_desktop.Events.Status.{
  handle_account, handle_away, handle_chghost, handle_topic, handle_invite, handle_wallops,
}
use repartee_desktop.Events.Notices.{handle_notice}
use repartee_desktop.Events.Denied.{handle_join_refused}
use repartee_desktop.Events.Talk.{handle_privmsg}
use repartee_desktop.Events.Names.{
  handle_names, handle_isupport, handle_topic_reply, handle_topic_who, handle_channel_modes,
  handle_whox_reply,
}
use repartee_desktop.Base.Maps.{Text_eq}
use repartee_desktop.Events.Kicks.{handle_kick}

pub data Command : Type 0 where
  join_command : Text → Option Text → Option Text → Command
  part_command : Text → Option Text → Command
  quit_command away_command : Option Text → Command
  nick_command account_command wallops_command error_command : Text → Command
  kick_command : Text → Text → Option Text → Command
  topic_command : Text → Option Text → Command
  mode_command : Text → ModeCommand → Command
  invite_command chghost_command privmsg_command notice_command : Text → Text → Command
  isupport_reply names_reply topic_reply topic_who_reply channel_modes_reply whox_reply
        join_refused_reply :
      List Text → Command

pub record IrcMessage : Type 0 where
  pub tags : Option (List (Text × Option Text))
  pub prefix : Option Prefix
  pub command : Command

abbrev pub our_nick : AppState → Text → Text
our_nick s conn_id = elim (get conn_id s.connections) [ none ↦ [] | some c ↦ c.nick ]

unfoldable pub dispatch :
    World → AppState → Text → Text → Option Prefix → Tags → Command → Option AppState
dispatch w s id me from tags (privmsg_command target text) =
    handle_privmsg w s id me from target text tags
dispatch w s id me from tags (join_command name account realname) =
    some (handle_join w s id me from name account realname tags)
dispatch w s id me from tags (part_command name reason) =
    some (handle_part w s id me from name reason tags)
dispatch w s id me from tags (quit_command reason) = some (handle_quit w s id from reason tags)
dispatch w s id me from tags (away_command reason) = some (handle_away w s id from reason)
dispatch w s id me from tags (nick_command new_nick) =
    some (handle_nick_change w s id me from new_nick tags)
dispatch w s id me from tags (account_command account) =
    some (handle_account w s id from account tags)
dispatch w s id me from tags (wallops_command text) = some (handle_wallops w s id from text)
dispatch w s id me from tags (notice_command target text) =
    some (handle_notice w s id from target text tags)
dispatch w s id me from tags (error_command text) = some (handle_error w s id text)
dispatch w s id me from tags (kick_command name user reason) =
    some (handle_kick w s id me from name user reason tags)
dispatch w s id me from tags (topic_command name topic) =
    some (handle_topic w s id from name topic tags)
dispatch w s id me from tags (mode_command target modes) =
    some (handle_mode w s id from target modes tags)
dispatch w s id me from tags (invite_command nick name) =
    some (handle_invite w s id me from nick name tags)
dispatch w s id me from tags (chghost_command user host) =
    some (handle_chghost w s id from user host tags)
dispatch w s id me from tags (isupport_reply args) = some (handle_isupport w s id args)
dispatch w s id me from tags (names_reply args) = some (handle_names w s id args)
dispatch w s id me from tags (topic_reply args) = some (handle_topic_reply w s id args)
dispatch w s id me from tags (topic_who_reply args) = some (handle_topic_who w s id args)
dispatch w s id me from tags (channel_modes_reply args) = some (handle_channel_modes w s id args)
dispatch w s id me from tags (whox_reply args) = some (handle_whox_reply w s id args)
dispatch w s id me from tags (join_refused_reply args) = some (handle_join_refused w s id args)

unfoldable pub handle_irc_message : World → AppState → Text → IrcMessage → Option AppState
unfolding dispatch extract_tags
handle_irc_message w s conn_id msg =
    dispatch w s conn_id (our_nick s conn_id) msg.prefix (extract_tags msg.tags) msg.command

pub data IrcEvent : Type 0 where
  connection_made : IrcEvent
  connection_lost : Option Text → IrcEvent
  cap_new cap_del cap_ack cap_nak : Option Text → Option Text → IrcEvent
  received : IrcMessage → IrcEvent

unfoldable pub step : World → AppState → Text → IrcEvent → Option AppState
unfolding handle_irc_message
step w s id connection_made = some (handle_connected w s id)
step w s id (connection_lost err) = some (handle_disconnected w s id err)
step w s id (cap_new a b) = some ((handle_cap_new w s id a b).0)
step w s id (cap_del a b) = some (handle_cap_del w s id a b)
step w s id (cap_ack a b) = some (handle_cap_ack w s id a b)
step w s id (cap_nak a b) = some (handle_cap_nak w s id a b)
step w s id (received msg) = handle_irc_message w s id msg

-- Events of any connections, each in a world of its own.
unfoldable pub run_events : AppState → List (World × Text × IrcEvent) → Option AppState
unfolding step
run_events s [] = some s
run_events s ((w, id, ev) ∷ evs) = elim (step w s id ev) [ none ↦ none | some t ↦ run_events t evs ]
