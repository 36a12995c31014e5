-- ===== src/Events/Sound.antt =====
-- The handlers of src/irc/events.rs keep the client's state sound: the shown buffer exists, and
-- every buffer stands under its own identifier.
use repartee_desktop.State.Gate.{add_message}
use repartee_desktop.State.App.{next_message_id}
use repartee_desktop.Base.{
  ◌%◌, ◌+◌, [], sym, ℕ, ◌∷◌, text_eq_refl, text_eq_iff, none, inr, inl, arith, some, Option-cases,
  ◌∙◌, Text, Option, ◌≡◌, refl,
}
use repartee_desktop.State.Steps.{stored-IsApp}
use repartee_desktop.State.Shown.{
  IsApp, OwnId, OwnId-insert, OwnId-remove, contains_key-insert, contains_key-remove, shows,
}
use repartee_desktop.Events.{Message, Env, AppState, World, post}
use repartee_desktop.Base.Maps.{Text_eq, remove, get-map_values, get, Map, contains_key, map_values}
use repartee_desktop.Events.Renames.{rename_buffer}
use repartee_desktop.State.{Buffer}

pub add_message-IsApp :
    (env : Env) (s : AppState) (id : Text) (m : Message) → IsApp s → IsApp (add_message env s id m)
unfolding add_message
add_message-IsApp env s id m v =
    let stored = stored-IsApp env s id m v in
    ground (arith, stored.shown, stored.own, v.shown, v.own)

pub post-IsApp :
    (w : World) (s : AppState) (id : Text) (m : ℕ → Message) → IsApp s → IsApp (post w s id m)
unfolding post next_message_id
post-IsApp w s id m v =
    let n = (s.message_counter + 1) % 18446744073709551616 in
    add_message-IsApp w.env (record s { message_counter = n }) id (m n)
      (record { shown = v.shown; own = v.own })

OwnId-map_values :
    (f : Buffer → Buffer) (m : Map Text Buffer)
    → ((b : Buffer) → (f b).id ≡ b.id)
    → OwnId m
    → OwnId (map_values f m)
unfolding map_values
OwnId-map_values f [] same h = tt
OwnId-map_values f ((k, b) ∷ m) same h = (h.0 ∙ sym (same b), OwnId-map_values f m same h.1)

shows-map_values :
    (o : Option Text) (f : Buffer → Buffer) (m : Map Text Buffer)
    → shows o (map_values f m) ≡ shows o m
unfolding contains_key
shows-map_values none f m = refl
shows-map_values (some a) f m = ground (arith, get-map_values f a m)

-- Every buffer changed, its identifier kept.
pub map_values-IsApp :
    (s : AppState) (f : Buffer → Buffer)
    → ((b : Buffer) → (f b).id ≡ b.id)
    → IsApp s
    → IsApp (record s { buffers = map_values f s.buffers })
map_values-IsApp s f same v = record {
  shown = shows-map_values s.active_buffer_id f s.buffers ∙ v.shown;
  own = OwnId-map_values f s.buffers same v.own;
}

pub rename_buffer-IsApp :
    (s : AppState) (old_id new_id name : Text)
    → IsApp s
    → IsApp (rename_buffer s old_id new_id name)
unfolding rename_buffer
rename_buffer-IsApp s old_id new_id name v = elim (Option-cases (get old_id s.buffers)) [
  | inl e ↦ rw (e, rename_buffer) v
  | inr (b, e) ↦
      let b' : Buffer = record b { id = new_id; name = name } in
      let own' = OwnId-insert b' (remove old_id s.buffers) (OwnId-remove old_id s.buffers v.own) in
      elim (Option-cases s.active_buffer_id) [
        | inl a ↦ ground (arith, e, a, own')
        | inr (a, h) ↦ ground (
          arith,
          e,
          h,
          own',
          v.shown,
          contains_key-insert a new_id b' (remove old_id s.buffers),
          contains_key-insert new_id new_id b' (remove old_id s.buffers),
          contains_key-remove a old_id s.buffers,
          text_eq_iff a old_id,
          text_eq_iff old_id a,
          text_eq_refl new_id,
        )
      ]
]
