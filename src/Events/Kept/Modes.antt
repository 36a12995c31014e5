-- ===== src/Events/Kept/Modes.antt =====
-- Changes of modes (src/irc/events.rs) keep
-- the shown buffer.
use repartee_desktop.State.Shown.{IsApp}
use repartee_desktop.State.Steps.{update_buffer-IsApp}
use repartee_desktop.Events.{make_buffer_id, AppState, World}
use repartee_desktop.Base.{
  subst, none, true, inr, Option-cases, inl, [], some, false, arith, List, Option, Bool, ℕ, Text,
  ◌∷◌, ◌≡◌, refl,
}
use repartee_desktop.Events.Modes.{
  user_mode, channel_mode, ModeCommand, apply_modes, user_in, nick_mode_char, change_user,
  no_prefix, minus, plus, Mode, channel_mode_letter, ChannelMode, apply_channel_mode,
  apply_channel_flag, apply_channel_modes, change_mode, apply_nick_mode, apply_ban,
}
use repartee_desktop.State.{NickEntry, Buffer}
use repartee_desktop.Base.Maps.{Text_eq}
use repartee_desktop.Events.Kept.Loops.{emit-IsApp}
use repartee_desktop.Events.Bans.{ban_mode_key, remove_list_mode_entry, upsert_list_mode_entry}

pub upsert-id :
    (b : Buffer) (key mask by : Text) (at_time : ℕ)
    → (upsert_list_mode_entry b key mask by at_time).0.id ≡ b.id
unfolding upsert_list_mode_entry
upsert-id b key mask by at_time = refl

pub remove_entry-id :
    (b : Buffer) (key mask : Text) → (remove_list_mode_entry b key mask).0.id ≡ b.id
unfolding remove_list_mode_entry
remove_entry-id b key mask = ground arith

pub apply_ban-id :
    (w : World) (adding : Bool) (param : Option Text) (by : Text) (b : Buffer)
    → (apply_ban w adding param by b).id ≡ b.id
unfolding apply_ban
apply_ban-id w adding none by b = refl
apply_ban-id w true (some mask) by b = upsert-id b ban_mode_key mask by w.now
apply_ban-id w false (some mask) by b = remove_entry-id b ban_mode_key mask

pub change_user-IsApp :
    (w : World) (s : AppState) (id : Text) (adding : Bool) (mc : ℕ) (nick : Text)
    (entry : NickEntry)
    → IsApp s
    → IsApp (change_user w s id adding mc nick entry)
unfolding change_user
change_user-IsApp w s id adding mc nick entry v =
    emit-IsApp _ _ (update_buffer-IsApp s id _ (λ b. refl) v)

pub apply_nick_mode-IsApp :
    (w : World) (s : AppState) (id : Text) (adding : Bool) (m : ChannelMode) (param : Option Text)
    (t : AppState)
    → IsApp s
    → apply_nick_mode w s id adding m param ≡ some t
    → IsApp t
unfolding apply_nick_mode
apply_nick_mode-IsApp w s id adding m none t v h = cc
apply_nick_mode-IsApp w s id adding m (some nick) t v h = elim (Option-cases (nick_mode_char m)) [
  | inl e ↦ ground (arith, e)
  | inr (mc, e) ↦ elim (Option-cases (user_in w.env.to_lowercase s id nick)) [
    | inl gone ↦ absurd (ground (arith, e, gone))
    | inr (entry, here) ↦
        let same : change_user w s id adding mc nick entry ≡ t = ground (arith, e, here) in
        subst IsApp same (change_user-IsApp w s id adding mc nick entry v)
  ]
]

pub change_mode-IsApp :
    (w : World) (s : AppState) (id : Text) (adding : Bool) (m : ChannelMode) (param : Option Text)
    (by : Text)
    → IsApp s
    → IsApp (change_mode w s id adding m param by)
unfolding change_mode apply_channel_flag
change_mode-IsApp w s id adding m param by v =
    let banned =
      update_buffer-IsApp s id (apply_ban w adding param by) (apply_ban-id w adding param by) v in
    let flagged =
      update_buffer-IsApp s id (apply_channel_flag adding (channel_mode_letter m) param) (λ b. refl)
        v in
    elim (Option-cases (apply_nick_mode w s id adding m param)) [
      | inr (t, h) ↦ rw (h, change_mode) (apply_nick_mode-IsApp w s id adding m param t v h)
      | inl h ↦
          rw (h, change_mode)
            (ground (arith, banned.shown, banned.own, flagged.shown, flagged.own, v.shown, v.own))
    ]

pub apply_channel_modes-IsApp :
    (w : World) (ms : List (Mode ChannelMode)) (s : AppState) (id : Text) (by : Text)
    → IsApp s
    → IsApp (apply_channel_modes w s id ms by)
unfolding apply_channel_modes apply_channel_mode
apply_channel_modes-IsApp w [] s id by v = v
apply_channel_modes-IsApp w (plus m param ∷ ms) s id by v =
    apply_channel_modes-IsApp w ms _ id by (change_mode-IsApp w s id true m param by v)
apply_channel_modes-IsApp w (minus m param ∷ ms) s id by v =
    apply_channel_modes-IsApp w ms _ id by (change_mode-IsApp w s id false m param by v)
apply_channel_modes-IsApp w (no_prefix m ∷ ms) s id by v = apply_channel_modes-IsApp w ms s id by v

pub apply_modes-IsApp :
    (w : World) (s : AppState) (conn_id target : Text) (command : ModeCommand) (nick : Text)
    → IsApp s
    → IsApp (apply_modes w s conn_id target command nick)
unfolding apply_modes
apply_modes-IsApp w s conn_id target (channel_mode ms) nick v =
    apply_channel_modes-IsApp w ms s (make_buffer_id w.env.to_lowercase conn_id target) nick v
apply_modes-IsApp w s conn_id target (user_mode ms) nick v = record { shown = v.shown; own = v.own }
