-- ===== src/Events/Kicks.antt =====
-- `handle_kick` of src/irc/events.rs.
use repartee_desktop.Base.{
  true, ◌∷◌, some, text_eq, if◌then◌else◌, ◌++◌, List, [], codes, ℕ, Option, Text,
}
use repartee_desktop.Events.{
  or_text, status_buffer, Message, make_buffer_id, World, Prefix, extract_nick_userhost, is_ignored,
  post, event_message, message_timestamp, Tags, or_empty, update_connection,
}
use repartee_desktop.State.App.{AppState, remove_buffer}
use repartee_desktop.State.Nicks.{remove_nick}
use repartee_desktop.Irc.Ignore.{kicks}
use repartee_desktop.Base.Maps.{Text_eq}
use repartee_desktop.Events.Members.{in_parentheses, forget_silent}

-- `nick (ident@host)`.use repartee_desktop.Events.Members.{forget_silent, in_parentheses}

-- What is said of a kick of ours.
abbrev pub kick_message : World → Text → List Text → Tags → ℕ → Message
kick_message w text params tags id =
    record (event_message id (message_timestamp w tags) text (some (codes "kicked")) (some params)
      tags) { highlight = true }

-- We are told in the status buffer, in the channel, which is closed then, and where we land.
unfoldable pub self_kick : World → AppState → Text → Text → Text → (ℕ → Message) → AppState
self_kick w s conn_id name buffer_id m =
    let server_buffer_id = status_buffer w s conn_id in
    let closed = remove_buffer w.env (post w (post w s server_buffer_id m) buffer_id m) buffer_id in
    let landing_id = or_text server_buffer_id closed.active_buffer_id in
    let told = if text_eq landing_id server_buffer_id then closed else post w closed landing_id m in
    update_connection told conn_id (forget_silent name)

unfoldable pub handle_kick :
    World → AppState → Text → Text → Option Prefix → Text → Text → Option Text → Tags → AppState
unfolding extract_nick_userhost is_ignored self_kick message_timestamp
handle_kick w s conn_id our_nick prefix name kicked_user reason tags =
    let (kicker, ident, host) = extract_nick_userhost prefix in
    let buffer_id = make_buffer_id w.env.to_lowercase conn_id name in
    let left = remove_nick w.env s buffer_id kicked_user in
    let text =
      codes "You were kicked from "
      ++ (name ++ (codes " by " ++ (kicker ++ (b' ' ∷ in_parentheses (or_empty reason))))) in
    if text_eq kicked_user our_nick
    then self_kick w s conn_id name buffer_id
        (kick_message w text (our_nick ∷ kicker ∷ name ∷ or_empty reason ∷ []) tags)
    else (if is_ignored w s kicker ident host kicks (some name)
        then left
        else post w left buffer_id (λ id.
          event_message id (message_timestamp w tags)
            (kicked_user
              ++ (codes " was kicked by " ++ (kicker ++ (b' ' ∷ in_parentheses (or_empty reason)))))
            (some (codes "kick")) (some (kicked_user ∷ kicker ∷ name ∷ or_empty reason ∷ [])) tags))
