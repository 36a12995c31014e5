-- ===== src/Events/Kept/Members.antt =====
-- Joining, leaving and changing nicks (src/irc/events.rs) keep
-- the shown buffer.
use repartee_desktop.Netsplit.Handlers
use repartee_desktop.State.App.{add_buffer, set_active_buffer, remove_buffer}
use repartee_desktop.Events.Sound.{post-IsApp}
use repartee_desktop.State.Shown.{
  IsApp, remove_buffer-IsApp, add_buffer-IsApp, set_active_buffer-IsApp,
}
use repartee_desktop.State.Steps.{update_buffer-IsApp}
use repartee_desktop.Events.{
  or_text, post, extract_nick, status_buffer, is_ignored, or_empty, update_buffer,
  extract_nick_userhost, Tags, Prefix, get, make_buffer_id, Message, AppState, World,
}
use repartee_desktop.Base.{
  ◌&&◌, if◌then◌else◌, text_eq, is_empty, subst, not, none, true, inr, Option-cases, inl, some,
  Bool-cases, false, arith, Option, ℕ, Text, ◌≡◌, refl,
}
use repartee_desktop.State.Nicks.{remove_nick}
use repartee_desktop.Events.Members.{
  has_user, buffers_where, handle_quit, forget_channel_state, joined_account, new_channel,
  other_part, show_join, new_entry, handle_part, handle_join, other_join, self_join, leave_all,
}
use repartee_desktop.Events.Renames.{nick_message, knows, handle_nick_change, set_our_nick}
use repartee_desktop.Base.Maps.{Text_eq}
use repartee_desktop.Irc.Ignore.{quits, nicks, kicks, parts, joins}
use repartee_desktop.Events.Kept.Loops.{
  add_nick-IsApp, remove_nick-IsApp, leave_all-IsApp, fan_out-IsApp, rename_silently-IsApp,
  rename_loudly-IsApp, rename_query_buffers-IsApp,
}
use repartee_desktop.Events.Kicks.{handle_kick, self_kick}

pub self_join-IsApp :
    (w : World) (s t : AppState) (conn_id id name : Text)
    → IsApp s
    → self_join w s conn_id id name ≡ some t
    → IsApp t
unfolding self_join
self_join-IsApp w s t conn_id id name v h = elim (Option-cases (get id s.buffers)) [
  | inl e ↦
      let opened = set_active_buffer (add_buffer s (new_channel id conn_id name w.now)) id in
      let same : opened ≡ t = ground (arith, e) in
      subst IsApp same (set_active_buffer-IsApp _ id (add_buffer-IsApp s _ v))
  | inr (b, e) ↦
      let cleared = set_active_buffer (update_buffer s id forget_channel_state) id in
      elim (Bool-cases (is_empty b.users)) [
        | inr full ↦ absurd (ground (arith, e, full))
        | inl empty ↦
            let same : cleared ≡ t = ground (arith, e, empty) in
            subst IsApp same
              (set_active_buffer-IsApp _ id (update_buffer-IsApp s id _ (λ c. refl) v))
      ]
]

pub other_join-IsApp :
    (w : World) (s : AppState) (id nick : Text) (account : Option Text)
    → IsApp s
    → IsApp (other_join w s id nick account).0
unfolding other_join
other_join-IsApp w s id nick account v =
    let added = add_nick-IsApp w s id (new_entry nick account) v in
    record { shown = added.shown; own = added.own }

pub join-IsApp :
    (w : World) (s : AppState) (conn_id me : Text) (from : Option Prefix) (name : Text)
    (account realname : Option Text) (tags : Tags)
    → IsApp s
    → IsApp (handle_join w s conn_id me from name account realname tags)
unfolding handle_join show_join
join-IsApp w s conn_id me from name account realname tags v =
    let (nick, ident, host) = extract_nick_userhost from in
    let id = make_buffer_id w.env.to_lowercase conn_id name in
    let (met, netjoin) = other_join w s id nick (joined_account account tags) in
    let met-kept = other_join-IsApp w s id nick (joined_account account tags) v in
    let added = add_nick-IsApp w s id (new_entry nick (joined_account account tags)) v in
    elim (Bool-cases (text_eq nick me)) [
      | inl ours ↦ elim (Option-cases (self_join w s conn_id id name)) [
        | inl again ↦ rw (handle_join, ours, again) v
        | inr (t, opened) ↦
            rw (handle_join, ours, opened)
              (post-IsApp w t id _ (self_join-IsApp w s t conn_id id name v opened))
      ]
      | inr theirs ↦ elim (Bool-cases (is_ignored w s nick ident host joins (some name))) [
        | inl hidden ↦ rw (handle_join, theirs, hidden) added
        | inr heard ↦ elim (Bool-cases netjoin) [
          | inl split ↦ rw (handle_join, theirs, heard, split) met-kept
          | inr alone ↦ rw (handle_join, theirs, heard, alone) (post-IsApp w met id _ met-kept)
        ]
      ]
    ]

pub part-IsApp :
    (w : World) (s : AppState) (conn_id me : Text) (from : Option Prefix) (name : Text)
    (reason : Option Text) (tags : Tags)
    → IsApp s
    → IsApp (handle_part w s conn_id me from name reason tags)
unfolding handle_part other_part
part-IsApp w s conn_id me from name reason tags v =
    let who = extract_nick_userhost from in
    let id = make_buffer_id w.env.to_lowercase conn_id name in
    let closed = remove_buffer-IsApp w.env s id v in
    let left = remove_nick-IsApp w s id who.0 v in
    let out = other_part w s id who.0 reason in
    let left' : IsApp out = record { shown = left.shown; own = left.own } in
    elim (Bool-cases (text_eq who.0 me)) [
      | inl ours ↦ rw (handle_part, ours) (record { shown = closed.shown; own = closed.own })
      | inr theirs ↦ elim (Bool-cases (is_ignored w out who.0 who.1 who.2 parts (some name))) [
        | inl hidden ↦ rw (handle_part, theirs, hidden) left'
        | inr heard ↦ rw (handle_part, theirs, heard) (post-IsApp w out id _ left')
      ]
    ]

pub quit-IsApp :
    (w : World) (s : AppState) (conn_id : Text) (from : Option Prefix) (reason : Option Text)
    (tags : Tags)
    → IsApp s
    → IsApp (handle_quit w s conn_id from reason tags)
unfolding handle_quit
quit-IsApp w s conn_id from reason tags v =
    let (nick, ident, host) = extract_nick_userhost from in
    let affected = buffers_where (has_user w.env.to_lowercase conn_id nick) s.buffers in
    let left = leave_all w s nick reason affected in
    let kept = leave_all-IsApp w affected s nick reason v in
    let (split, netsplit) =
      Handlers.handle_quit w.env.to_lowercase left.netsplit_state nick (or_empty reason) affected
        w.instant in
    let kept' : IsApp (record left { netsplit_state = split }) = record {
      shown = kept.shown;
      own = kept.own;
    } in
    elim (Bool-cases (is_ignored w left nick ident host quits none)) [
      | inl hidden ↦ rw (handle_quit, hidden) kept
      | inr heard ↦ elim (Bool-cases netsplit) [
        | inl gathered ↦ rw (handle_quit, heard, gathered) kept'
        | inr alone ↦
            rw (handle_quit, heard, alone)
              (fan_out-IsApp w affected (record left { netsplit_state = split }) _ true kept')
      ]
    ]

pub self_kick-IsApp :
    (w : World) (s : AppState) (conn_id name id : Text) (m : ℕ → Message)
    → IsApp s
    → IsApp (self_kick w s conn_id name id m)
unfolding self_kick
self_kick-IsApp w s conn_id name id m v =
    let server_id = status_buffer w s conn_id in
    let told = post w (post w s server_id m) id m in
    let closed = remove_buffer w.env told id in
    let kept : IsApp closed =
      remove_buffer-IsApp w.env told id
        (post-IsApp w (post w s server_id m) id m (post-IsApp w s server_id m v)) in
    let landing = or_text server_id closed.active_buffer_id in
    let kept' = post-IsApp w closed landing m kept in
    elim (Bool-cases (text_eq landing server_id)) [
      | inl same ↦ rw (same) (record { shown = kept.shown; own = kept.own })
      | inr differs ↦ rw (differs) (record { shown = kept'.shown; own = kept'.own })
    ]

pub kick-IsApp :
    (w : World) (s : AppState) (conn_id me : Text) (from : Option Prefix) (name user : Text)
    (reason : Option Text) (tags : Tags)
    → IsApp s
    → IsApp (handle_kick w s conn_id me from name user reason tags)
unfolding handle_kick
kick-IsApp w s conn_id me from name user reason tags v =
    let (kicker, ident, host) = extract_nick_userhost from in
    let id = make_buffer_id w.env.to_lowercase conn_id name in
    let left = remove_nick w.env s id user in
    let kept = remove_nick-IsApp w s id user v in
    elim (Bool-cases (text_eq user me)) [
      | inl ours ↦ rw (handle_kick, ours) (self_kick-IsApp w s conn_id name id _ v)
      | inr theirs ↦ elim (Bool-cases (is_ignored w s kicker ident host kicks (some name))) [
        | inl hidden ↦ rw (handle_kick, theirs, hidden) kept
        | inr heard ↦ rw (handle_kick, theirs, heard) (post-IsApp w left id _ kept)
      ]
    ]

pub set_our_nick-IsApp : (s : AppState) (id nick : Text) → IsApp s → IsApp (set_our_nick s id nick)
unfolding set_our_nick
set_our_nick-IsApp s id nick v = ground (arith, v.shown, v.own)

pub nick_change-IsApp :
    (w : World) (s : AppState) (conn_id me : Text) (from : Option Prefix) (new_nick : Text)
    (tags : Tags)
    → IsApp s
    → IsApp (handle_nick_change w s conn_id me from new_nick tags)
unfolding handle_nick_change
nick_change-IsApp w s conn_id me from new_nick tags v =
    let old = or_empty (extract_nick from) in
    let who = extract_nick_userhost from in
    let ours = text_eq old me in
    let s' = if ours then set_our_nick s conn_id new_nick else s in
    let mine = set_our_nick-IsApp s conn_id new_nick v in
    let kept : IsApp s' = ground (arith, mine.shown, mine.own, v.shown, v.own) in
    let affected = buffers_where (knows w.env.to_lowercase conn_id old) s'.buffers in
    elim (Bool-cases (not ours && is_ignored w s' old who.1 who.2 nicks none)) [
      | inl hidden ↦
          rw (handle_nick_change, hidden)
            (rename_query_buffers-IsApp w affected _ conn_id new_nick
              (rename_silently-IsApp w affected s' old new_nick kept))
      | inr heard ↦
          rw (handle_nick_change, heard)
            (rename_query_buffers-IsApp w affected _ conn_id new_nick (
              rename_loudly-IsApp w affected s' ours old new_nick (nick_message w old new_nick tags)
                false kept))
    ]
