-- ===== src/State/Nicks.antt =====
-- The nick list of a buffer (src/state/events.rs).
use repartee_desktop.Base.{
  text_eq, if◌then◌else◌, text_eq_iff, Option-cases, arith, ◌≡◌, ℕ, [], ◌∷◌, refl, Text, Option,
  some, none, inl, inr,
}
use repartee_desktop.Base.Maps.{
  get-remove, get-insert, remove-Distinct, insert-Distinct, Text_eq, Distinct, Map, get, insert,
  remove,
}
use repartee_desktop.State.App.{update_buffer, AppState, Env}
use repartee_desktop.State.{NickEntry}

unfoldable pub add_nick : Env → AppState → Text → NickEntry → AppState
add_nick env s buffer_id entry =
    update_buffer s buffer_id
      (λ b. record b { users = insert (env.to_lowercase entry.nick) entry b.users })

unfoldable pub remove_nick : Env → AppState → Text → Text → AppState
remove_nick env s buffer_id nick =
    update_buffer s buffer_id (λ b. record b { users = remove (env.to_lowercase nick) b.users })

-- What a nick change does to the users of a buffer.
unfoldable pub rename_user : (Text → Text) → Text → Text → Map Text NickEntry → Map Text NickEntry
rename_user to_lowercase old_nick new_nick users = elim (get (to_lowercase old_nick) users) [
  | none ↦ users
  | some entry ↦
      insert (to_lowercase new_nick) (record entry { nick = new_nick })
        (remove (to_lowercase old_nick) users)
]

unfoldable pub update_nick : Env → AppState → Text → Text → Text → AppState
unfolding rename_user
update_nick env s buffer_id old_nick new_nick =
    update_buffer s buffer_id
      (λ b. record b { users = rename_user env.to_lowercase old_nick new_nick b.users })

unfoldable pub nick_prefix : Env → AppState → Text → Text → Option ℕ
nick_prefix env s buffer_id nick = elim (get buffer_id s.buffers) [
  | none ↦ none
  | some b ↦ elim (get (env.to_lowercase nick) b.users) [
    | none ↦ none
    | some entry ↦ elim entry.prefix [ [] ↦ none | c ∷ rest ↦ some c ]
  ]
]

-- Every user stands under the lower case of its nick, once.
abbrev KeyedByNick : (Text → Text) → Map Text NickEntry → Type 0
KeyedByNick to_lowercase [] = Unit
KeyedByNick to_lowercase ((k, u) ∷ m) = (k ≡ to_lowercase u.nick) × KeyedByNick to_lowercase m

KeyedByNick-insert :
    (to_lowercase : Text → Text) (u : NickEntry) (m : Map Text NickEntry)
    → KeyedByNick to_lowercase m
    → KeyedByNick to_lowercase (insert (to_lowercase u.nick) u m)
unfolding insert
KeyedByNick-insert to_lowercase u [] h = (refl, tt)
KeyedByNick-insert to_lowercase u ((k, w) ∷ m) h =
    ground (arith, text_eq_iff k (to_lowercase u.nick), KeyedByNick-insert to_lowercase u m h.1)

KeyedByNick-remove :
    (to_lowercase : Text → Text) (j : Text) (m : Map Text NickEntry)
    → KeyedByNick to_lowercase m
    → KeyedByNick to_lowercase (remove j m)
unfolding remove
KeyedByNick-remove to_lowercase j [] h = tt
KeyedByNick-remove to_lowercase j ((k, w) ∷ m) h =
    ground (arith, KeyedByNick-remove to_lowercase j m h.1)

pub record IsNickList (to_lowercase : Text → Text) (users : Map Text NickEntry) : Type 0 where
  pub keyed : KeyedByNick to_lowercase users
  pub once : Distinct users

-- A nick change keeps the nick list sound: each user under the lower case of its own nick, once.
pub rename_user-IsNickList :
    (to_lowercase : Text → Text) (old_nick new_nick : Text) (users : Map Text NickEntry)
    → IsNickList to_lowercase users
    → IsNickList to_lowercase (rename_user to_lowercase old_nick new_nick users)
unfolding rename_user
rename_user-IsNickList to_lowercase old_nick new_nick users v =
    elim (Option-cases (get (to_lowercase old_nick) users)) [
      | inl e ↦ rw (e, rename_user) v
      | inr (u, e) ↦
          let u' : NickEntry = record u { nick = new_nick } in
          let less = remove (to_lowercase old_nick) users in
          rw (e, rename_user)
            (record {
              keyed =
                  KeyedByNick-insert to_lowercase u' less
                    (KeyedByNick-remove to_lowercase (to_lowercase old_nick) users v.keyed);
              once =
                  insert-Distinct (to_lowercase new_nick) u' less
                    (remove-Distinct (to_lowercase old_nick) users v.once);
            })
    ]

-- After a nick change the entry is found under the new nick with all else kept, the old nick is
-- gone unless the new one differs from it in case only, and every other user is as before.
pub get-rename_user :
    (to_lowercase : Text → Text) (old_nick new_nick : Text) (users : Map Text NickEntry)
    (u : NickEntry) (key : Text)
    → get (to_lowercase old_nick) users ≡ some u
    → get key (rename_user to_lowercase old_nick new_nick users) ≡ (
        if text_eq (to_lowercase new_nick) key
        then some (record u { nick = new_nick })
        else (if text_eq (to_lowercase old_nick) key then none else get key users))
unfolding rename_user
get-rename_user to_lowercase old_nick new_nick users u key e = rw (
  e,
  rename_user,
  get-insert (to_lowercase new_nick) key (record u { nick = new_nick })
      (remove (to_lowercase old_nick) users),
  get-remove (to_lowercase old_nick) key users,
)
