-- ===== src/Events/Kept/Others.antt =====
-- The connection itself and what the server replies (src/irc/events.rs) keep
-- the shown buffer.
use repartee_desktop.Irc.Isupport
use repartee_desktop.State.App.{update_connection_status}
use repartee_desktop.Events.Sound.{post-IsApp, map_values-IsApp, rename_buffer-IsApp}
use repartee_desktop.State.Shown.{IsApp}
use repartee_desktop.State.Steps.{update_buffer-IsApp}
use repartee_desktop.Events.{
  emit_text, extract_nick, Tags, Prefix, get, make_buffer_id, update_connection, AppState, World,
}
use repartee_desktop.Base.{
  has_byte, eq_ignore_ascii_case, none, inr, Option-cases, inl, [], some, Bool-cases, arith, List,
  Option, Text, ◌∷◌, refl,
}
use repartee_desktop.Events.Members.{logged_in}
use repartee_desktop.Events.Status.{
  shared_buffers, is_some, update_nick_account_in_buffers, handle_invite, handle_chghost,
  handle_away, handle_account, handle_topic,
}
use repartee_desktop.Events.Renames.{update_label_from_network}
use repartee_desktop.Events.Names.{
  is_silent_who, whox_entry, network_of, handle_channel_modes, handle_topic_who, handle_topic_reply,
  handle_names, whox_args, but_last, handle_whox_reply, handle_isupport,
}
use repartee_desktop.Events.Lifecycle.{
  handle_error, wipe_channel, set_error, handle_disconnected, disconnect, handle_connected,
}
use repartee_desktop.Events.Caps.{report}
use repartee_desktop.State.Messages.{set_topic}
use repartee_desktop.Base.Maps.{adjust, contains_key, Text_eq}
use repartee_desktop.Base.Chars.{split_whitespace}
use repartee_desktop.Events.Kept.Loops.{
  post_all-IsApp, emit_away-IsApp, update_user-IsApp, add_names-IsApp,
}

pub connected-IsApp :
    (w : World) (s : AppState) (id : Text) → IsApp s → IsApp (handle_connected w s id)
unfolding handle_connected update_connection_status
connected-IsApp w s id v = post-IsApp w _ _ _ (record { shown = v.shown; own = v.own })

pub disconnect-IsApp :
    (w : World) (s : AppState) (id : Text) (err : Option Text)
    → IsApp s
    → IsApp (disconnect w s id err)
unfolding disconnect set_error update_connection_status
disconnect-IsApp w s id err v =
    let wiped = map_values-IsApp s (wipe_channel id) (λ b. ground arith) v in
    ground (arith, wiped.shown, wiped.own)

pub disconnected-IsApp :
    (w : World) (s : AppState) (id : Text) (err : Option Text)
    → IsApp s
    → IsApp (handle_disconnected w s id err)
unfolding handle_disconnected
disconnected-IsApp w s id err v = post-IsApp w _ _ _ (disconnect-IsApp w s id err v)

pub report-IsApp :
    (w : World) (s : AppState) (id key text : Text) → IsApp s → IsApp (report w s id key text)
unfolding report
report-IsApp w s id key text v = post-IsApp w _ _ _ v

pub topic-IsApp :
    (w : World) (s : AppState) (conn_id : Text) (from : Option Prefix) (name : Text)
    (topic : Option Text) (tags : Tags)
    → IsApp s
    → IsApp (handle_topic w s conn_id from name topic tags)
unfolding handle_topic set_topic
topic-IsApp w s conn_id from name none tags v = v
topic-IsApp w s conn_id from name (some topic) tags v =
    let set =
      update_buffer-IsApp s (make_buffer_id w.env.to_lowercase conn_id name) _ (λ b. refl) v in
    post-IsApp w _ _ _ (record { shown = set.shown; own = set.own })

pub account-IsApp :
    (w : World) (s : AppState) (id : Text) (from : Option Prefix) (account : Text) (tags : Tags)
    → IsApp s
    → IsApp (handle_account w s id from account tags)
unfolding handle_account update_nick_account_in_buffers
account-IsApp w s id from account tags v = elim (Option-cases (extract_nick from)) [
  | inl e ↦ rw (handle_account, e) v
  | inr (nick, e) ↦
      let kept =
        update_user-IsApp w.env.to_lowercase id nick
          (λ e'. record e' { account = logged_in account }) s v in
      rw (handle_account, e)
        (post_all-IsApp w
          (shared_buffers w id nick
            (update_nick_account_in_buffers w s id nick (logged_in account)))
          _ _ kept)
]

pub away-IsApp :
    (w : World) (s : AppState) (id : Text) (from : Option Prefix) (reason : Option Text)
    → IsApp s
    → IsApp (handle_away w s id from reason)
unfolding handle_away
away-IsApp w s id from reason v = elim (Option-cases (extract_nick from)) [
  | inl e ↦ rw (handle_away, e) v
  | inr (nick, e) ↦
      let kept =
        update_user-IsApp w.env.to_lowercase id nick (λ e'. record e' { away = is_some reason }) s
          v in
      rw (handle_away, e) (emit_away-IsApp _ _ nick reason kept)
]

pub chghost-IsApp :
    (w : World) (s : AppState) (id : Text) (from : Option Prefix) (user host : Text) (tags : Tags)
    → IsApp s
    → IsApp (handle_chghost w s id from user host tags)
unfolding handle_chghost
chghost-IsApp w s id from user host tags v = elim (Option-cases (extract_nick from)) [
  | inl e ↦ rw (handle_chghost, e) v
  | inr (nick, e) ↦
      let kept =
        update_user-IsApp w.env.to_lowercase id nick
          (λ e'. record e' { ident = some user; host = some host }) s v in
      rw (handle_chghost, e) (post_all-IsApp w _ _ _ kept)
]

pub invite-IsApp :
    (w : World) (s : AppState) (conn_id me : Text) (from : Option Prefix) (nick name : Text)
    (tags : Tags)
    → IsApp s
    → IsApp (handle_invite w s conn_id me from nick name tags)
unfolding handle_invite
invite-IsApp w s conn_id me from nick name tags v =
    elim (Bool-cases (eq_ignore_ascii_case nick me)) [
      | inl ours ↦ rw (handle_invite, ours) (post-IsApp w s _ _ v)
      | inr theirs ↦
          elim (Bool-cases
            (contains_key (make_buffer_id w.env.to_lowercase conn_id name) s.buffers)) [
              | inl here ↦ rw (handle_invite, theirs, here) (post-IsApp w s _ _ v)
              | inr gone ↦ rw (handle_invite, theirs, gone) v
            ]
    ]

pub error-IsApp :
    (w : World) (s : AppState) (id text : Text) → IsApp s → IsApp (handle_error w s id text)
unfolding handle_error emit_text set_error
error-IsApp w s id text v = post-IsApp w _ _ _ (record { shown = v.shown; own = v.own })

pub label-IsApp :
    (w : World) (s : AppState) (id network : Text)
    → IsApp s
    → IsApp (update_label_from_network w s id network)
unfolding update_label_from_network
label-IsApp w s id network v = elim (Option-cases (get id s.connections)) [
  | inl e ↦ rw (update_label_from_network, e) v
  | inr (c, e) ↦ elim (Bool-cases (has_byte b'.' c.label)) [
    | inr named ↦ rw (update_label_from_network, e, named) v
    | inl address ↦
        rw (update_label_from_network, e, address)
          (rename_buffer-IsApp _ _ _ network (record { shown = v.shown; own = v.own }))
  ]
]

pub isupport-IsApp :
    (w : World) (s : AppState) (id : Text) (args : List Text)
    → IsApp s
    → IsApp (handle_isupport w s id args)
unfolding handle_isupport update_label_from_network
isupport-IsApp w s id [] v = v
isupport-IsApp w s id (a ∷ []) v = v
isupport-IsApp w s id (a ∷ b ∷ args) v =
    let told = update_connection s id (λ c. record c {
      isupport_parsed = Isupport.parse_tokens (but_last (b ∷ args)) c.isupport_parsed;
    }) in
    let kept : IsApp told = record { shown = v.shown; own = v.own } in
    elim (Option-cases (network_of told id)) [
      | inl e ↦ rw (handle_isupport, e) kept
      | inr (network, e) ↦ rw (handle_isupport, e) (label-IsApp w told id network kept)
    ]

pub whox-IsApp :
    (w : World) (s : AppState) (id : Text) (args : List Text)
    → IsApp s
    → IsApp (handle_whox_reply w s id args)
unfolding handle_whox_reply emit_text
whox-IsApp w s id args v = elim (Option-cases (whox_args args)) [
  | inl e ↦ rw (handle_whox_reply, e) v
  | inr (r, e) ↦
      let kept =
        update_buffer-IsApp s (make_buffer_id w.env.to_lowercase id r.channel_name)
          (λ b. record b { users = adjust (w.env.to_lowercase r.nick) (whox_entry r) b.users })
          (λ b. refl) v in
      elim (Bool-cases (is_silent_who s id r.channel_name)) [
        | inl silent ↦ rw (handle_whox_reply, e, silent) kept
        | inr asked ↦ rw (handle_whox_reply, e, asked) (post-IsApp w _ _ _ kept)
      ]
]

pub names-IsApp :
    (w : World) (s : AppState) (id : Text) (args : List Text)
    → IsApp s
    → IsApp (handle_names w s id args)
unfolding handle_names
names-IsApp w s id (a ∷ b ∷ name ∷ nicks_str ∷ rest) v =
    add_names-IsApp w (split_whitespace nicks_str) s _ _ _ v
names-IsApp w s id [] v = v
names-IsApp w s id (a ∷ []) v = v
names-IsApp w s id (a ∷ b ∷ []) v = v
names-IsApp w s id (a ∷ b ∷ c ∷ []) v = v

pub topic_reply-IsApp :
    (w : World) (s : AppState) (id : Text) (args : List Text)
    → IsApp s
    → IsApp (handle_topic_reply w s id args)
unfolding handle_topic_reply set_topic
topic_reply-IsApp w s id (a ∷ name ∷ topic ∷ rest) v = update_buffer-IsApp s _ _ (λ b. refl) v
topic_reply-IsApp w s id [] v = v
topic_reply-IsApp w s id (a ∷ []) v = v
topic_reply-IsApp w s id (a ∷ b ∷ []) v = v

pub topic_who-IsApp :
    (w : World) (s : AppState) (id : Text) (args : List Text)
    → IsApp s
    → IsApp (handle_topic_who w s id args)
unfolding handle_topic_who
topic_who-IsApp w s id (a ∷ name ∷ by ∷ rest) v = update_buffer-IsApp s _ _ (λ b. refl) v
topic_who-IsApp w s id [] v = v
topic_who-IsApp w s id (a ∷ []) v = v
topic_who-IsApp w s id (a ∷ b ∷ []) v = v

pub channel_modes-IsApp :
    (w : World) (s : AppState) (id : Text) (args : List Text)
    → IsApp s
    → IsApp (handle_channel_modes w s id args)
unfolding handle_channel_modes
channel_modes-IsApp w s id (a ∷ name ∷ modes ∷ args) v = update_buffer-IsApp s _ _ (λ b. refl) v
channel_modes-IsApp w s id [] v = v
channel_modes-IsApp w s id (a ∷ []) v = v
channel_modes-IsApp w s id (a ∷ b ∷ []) v = v
