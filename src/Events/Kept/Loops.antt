-- ===== src/Events/Kept/Loops.antt =====
-- Small changes of the state and the loops over buffers (src/irc/events.rs) keep
-- the shown buffer.
use repartee_desktop.State.App.{emit, WebEvent}
use repartee_desktop.Events.Sound.{post-IsApp, map_values-IsApp, rename_buffer-IsApp}
use repartee_desktop.State.Shown.{IsApp}
use repartee_desktop.State.Steps.{update_buffer-IsApp}
use repartee_desktop.Events.{
  make_buffer_id, update_connection, Message, Connection, AppState, World,
}
use repartee_desktop.Base.{
  not, true, inr, inl, [], Bool-cases, false, arith, List, Option, Bool, ℕ, Text, ◌∷◌, refl,
}
use repartee_desktop.State.Nicks.{update_nick, remove_nick, add_nick}
use repartee_desktop.Events.Members.{logged_as, fan_out, leave_all}
use repartee_desktop.Events.Status.{update_user, emit_away, post_all}
use repartee_desktop.Events.Renames.{
  is_query_at, rename_query_buffers, rename_loudly, nick_flood, renamed_in, rename_silently,
}
use repartee_desktop.Events.Names.{parse_names_entry, add_names}
use repartee_desktop.State.{NickEntry}
use repartee_desktop.Base.Maps.{Text_eq}

pub emit-IsApp : (s : AppState) (ev : WebEvent) → IsApp s → IsApp (emit s ev)
emit-IsApp s ev v = record { shown = v.shown; own = v.own }

pub connection-IsApp :
    (s : AppState) (id : Text) (f : Connection → Connection)
    → IsApp s
    → IsApp (update_connection s id f)
connection-IsApp s id f v = record { shown = v.shown; own = v.own }

pub add_nick-IsApp :
    (w : World) (s : AppState) (id : Text) (e : NickEntry) → IsApp s → IsApp (add_nick w.env s id e)
unfolding add_nick
add_nick-IsApp w s id e v = update_buffer-IsApp s id _ (λ b. refl) v

pub remove_nick-IsApp :
    (w : World) (s : AppState) (id nick : Text) → IsApp s → IsApp (remove_nick w.env s id nick)
unfolding remove_nick
remove_nick-IsApp w s id nick v = update_buffer-IsApp s id _ (λ b. refl) v

pub update_nick-IsApp :
    (w : World) (s : AppState) (id old new : Text)
    → IsApp s
    → IsApp (update_nick w.env s id old new)
unfolding update_nick
update_nick-IsApp w s id old new v = update_buffer-IsApp s id _ (λ b. refl) v

pub leave_all-IsApp :
    (w : World) (ids : List Text) (s : AppState) (nick : Text) (reason : Option Text)
    → IsApp s
    → IsApp (leave_all w s nick reason ids)
unfolding leave_all
leave_all-IsApp w [] s nick reason v = v
leave_all-IsApp w (id ∷ ids) s nick reason v =
    let left = remove_nick-IsApp w s id nick v in
    leave_all-IsApp w ids _ nick reason (record { shown = left.shown; own = left.own })

pub fan_out-IsApp :
    (w : World) (ids : List Text) (s : AppState) (m : ℕ → Message) (first : Bool)
    → IsApp s
    → IsApp (fan_out w s m first ids)
unfolding fan_out
fan_out-IsApp w [] s m first v = v
fan_out-IsApp w (id ∷ ids) s m first v =
    fan_out-IsApp w ids _ m false (post-IsApp w s id (λ n. logged_as w.fresh_id first (m n)) v)

pub post_all-IsApp :
    (w : World) (ids : List Text) (s : AppState) (m : ℕ → Message)
    → IsApp s
    → IsApp (post_all w s m ids)
unfolding post_all
post_all-IsApp w [] s m v = v
post_all-IsApp w (id ∷ ids) s m v = post_all-IsApp w ids _ m (post-IsApp w s id m v)

pub emit_away-IsApp :
    (ids : List Text) (s : AppState) (nick : Text) (reason : Option Text)
    → IsApp s
    → IsApp (emit_away s nick reason ids)
unfolding emit_away
emit_away-IsApp [] s nick reason v = v
emit_away-IsApp (id ∷ ids) s nick reason v =
    emit_away-IsApp ids _ nick reason (record { shown = v.shown; own = v.own })

pub update_user-IsApp :
    (lower : Text → Text) (conn_id nick : Text) (f : NickEntry → NickEntry) (s : AppState)
    → IsApp s
    → IsApp (update_user lower conn_id nick f s)
unfolding update_user
update_user-IsApp lower conn_id nick f s v = map_values-IsApp s _ (λ b. ground arith) v

pub rename_silently-IsApp :
    (w : World) (ids : List Text) (s : AppState) (old new : Text)
    → IsApp s
    → IsApp (rename_silently w s old new ids)
unfolding rename_silently
rename_silently-IsApp w [] s old new v = v
rename_silently-IsApp w (id ∷ ids) s old new v =
    rename_silently-IsApp w ids _ old new (update_nick-IsApp w s id old new v)

pub renamed_in-IsApp :
    (w : World) (s : AppState) (id old new : Text) → IsApp s → IsApp (renamed_in w s id old new)
unfolding renamed_in
renamed_in-IsApp w s id old new v = emit-IsApp _ _ (update_nick-IsApp w s id old new v)

pub nick_flood-IsApp :
    (w : World) (s : AppState) (ours : Bool) (id : Text)
    → IsApp s
    → IsApp (nick_flood w s ours id).0
unfolding nick_flood
nick_flood-IsApp w s ours id v = ground (arith, v.shown, v.own)

pub rename_loudly-IsApp :
    (w : World) (ids : List Text) (s : AppState) (ours : Bool) (old new : Text) (m : ℕ → Message)
    (assigned : Bool)
    → IsApp s
    → IsApp (rename_loudly w s ours old new m assigned ids)
unfolding rename_loudly
rename_loudly-IsApp w [] s ours old new m assigned v = v
rename_loudly-IsApp w (id ∷ ids) s ours old new m assigned v =
    let flooded = nick_flood w (renamed_in w s id old new) ours id in
    let kept =
      nick_flood-IsApp w (renamed_in w s id old new) ours id (renamed_in-IsApp w s id old new v) in
    elim (Bool-cases flooded.1) [
      | inl h ↦ rw h (rename_loudly-IsApp w ids flooded.0 ours old new m assigned kept)
      | inr h ↦ rw h (
          rename_loudly-IsApp w ids _ ours old new m true
            (post-IsApp w flooded.0 id (λ n. logged_as w.fresh_id (not assigned) (m n)) kept))
    ]

pub rename_query_buffers-IsApp :
    (w : World) (ids : List Text) (s : AppState) (conn_id new : Text)
    → IsApp s
    → IsApp (rename_query_buffers w s conn_id new ids)
unfolding rename_query_buffers
rename_query_buffers-IsApp w [] s conn_id new v = v
rename_query_buffers-IsApp w (id ∷ ids) s conn_id new v =
    elim (Bool-cases (is_query_at id s.buffers)) [
      | inl h ↦ rw h (
          rename_query_buffers-IsApp w ids _ conn_id new
            (rename_buffer-IsApp s id (make_buffer_id w.env.to_lowercase conn_id new) new v))
      | inr h ↦ rw h (rename_query_buffers-IsApp w ids s conn_id new v)
    ]

pub add_names-IsApp :
    (w : World) (raws : List Text) (s : AppState) (id : Text) (prefixes : List (ℕ × ℕ))
    (userhost : Bool)
    → IsApp s
    → IsApp (add_names w s id prefixes userhost raws)
unfolding add_names
add_names-IsApp w [] s id prefixes userhost v = v
add_names-IsApp w (raw ∷ raws) s id prefixes userhost v =
    add_names-IsApp w raws _ id prefixes userhost
      (add_nick-IsApp w s id (parse_names_entry raw prefixes userhost) v)
