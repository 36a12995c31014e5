-- ===== src/Events/Renamed.antt =====
-- Who is listed after a change of nick.
use mathlib.Core.Option
use repartee_desktop.Irc.Ignore.{nicks}
use repartee_desktop.Base.{
  ◌&&◌, sym, subst, ◌∙◌, text_eq→eq, ap, not, inr, Bool-cases, inl, Option-cases, ℕ, Option, true,
  [], some, none, false, text_eq_iff, text_eq, if◌then◌else◌, arith, Bool, any, Text, List, ◌∷◌,
  ◌≡◌, refl,
}
use repartee_desktop.State.Nicks.{get-rename_user, update_nick, rename_user}
use repartee_desktop.Events.Posting.{Roster, roster, roster_of, roster-post, roster-update}
use repartee_desktop.Events.{
  is_ignored, extract_nick_userhost, extract_nick, or_empty, Tags, Message, Prefix, make_buffer_id,
  AppState, World, post,
}
use repartee_desktop.Base.Maps.{
  contains_key, get-remove, remove, get-insert, Text_eq, Distinct, Map, get,
}
use repartee_desktop.State.{NickEntry, Buffer}
use repartee_desktop.Events.Renames.{
  nick_message, knows, is_query, handle_nick_change, set_our_nick, rename_query_buffers,
  rename_buffer, is_query_at, rename_loudly, renamed_in, nick_flood, rename_silently,
}
use repartee_desktop.Events.Members.{has_user, logged_as, buffers_where}

-- No identifier stands twice.
abbrev Once : List Text → Type 0
Once [] = Unit
Once (id ∷ ids) = (any (text_eq id) ids ≡ false) × Once ids

buffers_where-absent :
    (p : Buffer → Bool) (id : Text) (m : Map Text Buffer)
    → get id m ≡ none
    → any (text_eq id) (buffers_where p m) ≡ false
unfolding get
buffers_where-absent p id [] h = refl
buffers_where-absent p id ((k, b) ∷ m) h =
    ground (arith, h, buffers_where-absent p id m, text_eq_iff id k, text_eq_iff k id)

buffers_where-Once :
    (p : Buffer → Bool) (m : Map Text Buffer) → Distinct m → Once (buffers_where p m)
buffers_where-Once p [] h = tt
buffers_where-Once p ((k, b) ∷ m) h =
    ground (arith, buffers_where-absent p k m h.0, buffers_where-Once p m h.1)

buffers_where-found :
    (p : Buffer → Bool) (k : Text) (b : Buffer) (m : Map Text Buffer)
    → get k m ≡ some b
    → p b ≡ true
    → any (text_eq k) (buffers_where p m) ≡ true
unfolding get
buffers_where-found p k b [] h e = cc
buffers_where-found p k b ((j, c) ∷ m) h e =
    ground (arith, h, e, buffers_where-found p k b m, text_eq_iff k j, text_eq_iff j k)

abbrev pub renamed_user : (Text → Text) → Text → Text → Roster → Roster
renamed_user to_lowercase old_nick new_nick r =
    (r.0, r.1, r.2, rename_user to_lowercase old_nick new_nick r.3)

update_nick-roster :
    (w : World) (s : AppState) (id old_nick new_nick k : Text)
    → roster (update_nick w.env s id old_nick new_nick) k ≡ (
        if text_eq id k
        then Option.map (renamed_user w.env.to_lowercase old_nick new_nick) (roster s k)
        else roster s k)
unfolding update_nick
update_nick-roster w s id old_nick new_nick k =
    roster-update s id _ (renamed_user w.env.to_lowercase old_nick new_nick) k (λ b. refl)

-- Each listed buffer is renamed in once.
abbrev RenamedIn : World → AppState → AppState → Text → Text → List Text → Text → Type 0
RenamedIn w s t old_nick new_nick ids k = roster t k ≡ (
    if any (text_eq k) ids
    then Option.map (renamed_user w.env.to_lowercase old_nick new_nick) (roster s k)
    else roster s k)

rename_silently-RenamedIn :
    (w : World) (ids : List Text) (s : AppState) (old_nick new_nick k : Text)
    → Once ids
    → RenamedIn w s (rename_silently w s old_nick new_nick ids) old_nick new_nick ids k
unfolding rename_silently
rename_silently-RenamedIn w [] s old_nick new_nick k once = refl
rename_silently-RenamedIn w (id ∷ ids) s old_nick new_nick k once =
    let next = update_nick w.env s id old_nick new_nick in
    ground (
      arith,
      once.0,
      rename_silently-RenamedIn w ids next old_nick new_nick k once.1,
      update_nick-roster w s id old_nick new_nick k,
      text_eq_iff id k,
      text_eq_iff k id,
    )

nick_flood-roster :
    (w : World) (s : AppState) (ours : Bool) (id k : Text)
    → roster (nick_flood w s ours id).0 k ≡ roster s k
unfolding nick_flood roster
nick_flood-roster w s ours id k = ground arith

renamed_in-roster :
    (w : World) (s : AppState) (id old_nick new_nick k : Text)
    → roster (renamed_in w s id old_nick new_nick) k
      ≡ roster (update_nick w.env s id old_nick new_nick) k
unfolding renamed_in roster
renamed_in-roster w s id old_nick new_nick k = refl

rename_loudly-RenamedIn :
    (w : World) (ids : List Text) (s : AppState) (ours : Bool) (old_nick new_nick : Text)
    (m : ℕ → Message) (assigned : Bool) (k : Text)
    → Once ids
    → RenamedIn w s
        (rename_loudly w s ours old_nick new_nick m assigned ids)
        old_nick
        new_nick
        ids
        k
unfolding rename_loudly
rename_loudly-RenamedIn w [] s ours old_nick new_nick m assigned k once = refl
rename_loudly-RenamedIn w (id ∷ ids) s ours old_nick new_nick m assigned k once =
    let next = renamed_in w s id old_nick new_nick in
    let (flooded, hidden) = nick_flood w next ours id in
    let told = post w flooded id (λ n. logged_as w.fresh_id (not assigned) (m n)) in
    ground (
      arith,
      once.0,
      rename_loudly-RenamedIn w ids flooded ours old_nick new_nick m assigned k once.1,
      rename_loudly-RenamedIn w ids told ours old_nick new_nick m true k once.1,
      roster-post w flooded id (λ n. logged_as w.fresh_id (not assigned) (m n)) k,
      nick_flood-roster w next ours id k,
      renamed_in-roster w s id old_nick new_nick k,
      update_nick-roster w s id old_nick new_nick k,
      text_eq_iff id k,
      text_eq_iff k id,
    )

-- A conversation.
abbrev pub is_query_roster : Option Roster → Bool
is_query_roster none = false
is_query_roster (some r) = is_query r.1

is_query_at-roster :
    (s : AppState) (k : Text) → is_query_at k s.buffers ≡ is_query_roster (roster s k)
unfolding roster
is_query_at-roster s k = ground arith

rename_buffer-other :
    (s : AppState) (old_id new_id name k : Text)
    → text_eq old_id k ≡ false
    → text_eq new_id k ≡ false
    → roster (rename_buffer s old_id new_id name) k ≡ roster s k
unfolding rename_buffer roster
rename_buffer-other s old_id new_id name k h n = elim (Option-cases (get old_id s.buffers)) [
  | inl e ↦ ground (arith, e)
  | inr (b, e) ↦
      let b' : Buffer = record b { id = new_id; name = name } in
      ground (
        arith,
        e,
        h,
        n,
        get-insert new_id k b' (remove old_id s.buffers),
        get-remove old_id k s.buffers,
      )
]

rename_query_buffers-other :
    (w : World) (ids : List Text) (s : AppState) (conn_id new_nick k : Text)
    → is_query_roster (roster s k) ≡ false
    → text_eq (make_buffer_id w.env.to_lowercase conn_id new_nick) k ≡ false
    → roster (rename_query_buffers w s conn_id new_nick ids) k ≡ roster s k
unfolding rename_query_buffers
rename_query_buffers-other w [] s conn_id new_nick k h n = refl
rename_query_buffers-other w (id ∷ ids) s conn_id new_nick k h n =
    let new_id = make_buffer_id w.env.to_lowercase conn_id new_nick in
    let next = rename_buffer s id new_id new_nick in
    elim (Bool-cases (is_query_at id s.buffers)) [
      | inr kept ↦ rw kept (rename_query_buffers-other w ids s conn_id new_nick k h n)
      | inl query' ↦
          let other : text_eq id k ≡ false = ground (
            arith,
            h,
            query',
            is_query_at-roster s id,
            λ (e : text_eq id k ≡ true). ap (roster s) (text_eq→eq id k e),
          ) in
          let same = rename_buffer-other s id new_id new_nick k other n in
          rw query' (
            rename_query_buffers-other w ids next conn_id new_nick k (ap is_query_roster same ∙ h) n
            ∙ same)
    ]

our_buffers :
    (s : AppState) (conn_id new_nick : Text) → (set_our_nick s conn_id new_nick).buffers ≡ s.buffers
unfolding set_our_nick
our_buffers s conn_id new_nick = ground arith

renamed-finish :
    (w : World) (s t : AppState) (conn_id old_nick new_nick k : Text) (b : Buffer)
    → get k s.buffers ≡ some b
    → is_query b.buffer_type ≡ false
    → has_user w.env.to_lowercase conn_id old_nick b ≡ true
    → text_eq (make_buffer_id w.env.to_lowercase conn_id new_nick) k ≡ false
    → RenamedIn w s t old_nick new_nick
        (buffers_where (knows w.env.to_lowercase conn_id old_nick) s.buffers)
        k
    → roster
        (rename_query_buffers w t conn_id new_nick
          (buffers_where (knows w.env.to_lowercase conn_id old_nick) s.buffers))
        k
      ≡ some (renamed_user w.env.to_lowercase old_nick new_nick (roster_of b))
unfolding roster
renamed-finish w s t conn_id old_nick new_nick k b there kind user other r =
    let ids = buffers_where (knows w.env.to_lowercase conn_id old_nick) s.buffers in
    let known : knows w.env.to_lowercase conn_id old_nick b ≡ true = ground (arith, user) in
    let listed =
      buffers_where-found (knows w.env.to_lowercase conn_id old_nick) k b s.buffers there known in
    let mid : roster t k ≡ some (renamed_user w.env.to_lowercase old_nick new_nick (roster_of b)) =
      r ∙ rw (listed, roster, there) refl in
    rename_query_buffers-other w ids t conn_id new_nick k (ap is_query_roster mid ∙ kind) other
    ∙ mid

nick_change-roster :
    (w : World) (s : AppState) (conn_id me : Text) (from : Option Prefix) (new_nick : Text)
    (tags : Tags) (k : Text) (b : Buffer)
    → Distinct s.buffers
    → get k s.buffers ≡ some b
    → is_query b.buffer_type ≡ false
    → has_user w.env.to_lowercase conn_id (or_empty (extract_nick from)) b ≡ true
    → text_eq (make_buffer_id w.env.to_lowercase conn_id new_nick) k ≡ false
    → roster (handle_nick_change w s conn_id me from new_nick tags) k
      ≡ some (renamed_user w.env.to_lowercase (or_empty (extract_nick from)) new_nick (roster_of b))
unfolding handle_nick_change
nick_change-roster w s conn_id me from new_nick tags k b distinct here kind user other =
    let old = or_empty (extract_nick from) in
    let who = extract_nick_userhost from in
    let ours = text_eq old me in
    let s' = if ours then set_our_nick s conn_id new_nick else s in
    let same : s'.buffers ≡ s.buffers = ground (arith, our_buffers s conn_id new_nick) in
    let affected = buffers_where (knows w.env.to_lowercase conn_id old) s'.buffers in
    let once : Once affected =
      buffers_where-Once (knows w.env.to_lowercase conn_id old) s'.buffers
        (subst Distinct (sym same) distinct) in
    let there : get k s'.buffers ≡ some b = ap (get k) same ∙ here in
    let finish = λ (t : AppState) (r : RenamedIn w s' t old new_nick affected k).
      renamed-finish w s' t conn_id old new_nick k b there kind user other r in
    elim (Bool-cases (not ours && is_ignored w s' old who.1 who.2 nicks none)) [
      | inl hidden ↦
          let t = rename_silently w s' old new_nick affected in
          rw (handle_nick_change, hidden)
            (finish t (rename_silently-RenamedIn w affected s' old new_nick k once))
      | inr heard ↦
          let m = nick_message w old new_nick tags in
          let t = rename_loudly w s' ours old new_nick m false affected in
          rw (handle_nick_change, heard)
            (finish t (rename_loudly-RenamedIn w affected s' ours old new_nick m false k once))
    ]

-- What the key finds in a list in which the old nick has been changed to the new one.
abbrev pub Changed : (Text → Text) → Text → Text → Text → Roster → Option Roster → Type 0
Changed to_lowercase old_nick new_nick key before after =
    (users : Map Text NickEntry) × (after ≡ some (before.0, before.1, before.2, users))
    × (get key users ≡ (
        if text_eq (to_lowercase new_nick) key
        then Option.map (λ (u : NickEntry). record u { nick = new_nick })
            (get (to_lowercase old_nick) before.3)
        else (if text_eq (to_lowercase old_nick) key then none else get key before.3)))

-- After a change of nick every buffer of the connection that lists the old nick, and is no
-- conversation, has under the new nick the entry of the old one with the new nick in it, nothing
-- under the old nick if it differs by more than case, and under any other key what it had, whether
-- or not the user is ignored or hidden by the flood detector. No buffer's identifier may stand
-- twice, and the buffer may not have the identifier that a conversation with the new nick has.
pub handle_nick_change-renamed :
    (w : World) (s : AppState) (conn_id me : Text) (from : Option Prefix) (new_nick : Text)
    (tags : Tags) (k : Text) (b : Buffer) (key : Text)
    → Distinct s.buffers
    → get k s.buffers ≡ some b
    → is_query b.buffer_type ≡ false
    → has_user w.env.to_lowercase conn_id (or_empty (extract_nick from)) b ≡ true
    → text_eq (make_buffer_id w.env.to_lowercase conn_id new_nick) k ≡ false
    → Changed w.env.to_lowercase
        (or_empty (extract_nick from))
        new_nick
        key
        (roster_of b)
        (roster (handle_nick_change w s conn_id me from new_nick tags) k)
unfolding contains_key
handle_nick_change-renamed w s conn_id me from new_nick tags k b key distinct here kind user other =
    let lower = w.env.to_lowercase in
    let old = or_empty (extract_nick from) in
    let renamed =
      nick_change-roster w s conn_id me from new_nick tags k b distinct here kind user other in
    elim (Option-cases (get (lower old) b.users)) [
      | inl e ↦ absurd (ground (arith, user, e))
      | inr (u, e) ↦ (
        rename_user lower old new_nick b.users,
        renamed,
        get-rename_user lower old new_nick b.users u key e ∙ rw e refl,
      )
    ]
