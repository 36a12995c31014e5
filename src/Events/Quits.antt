-- ===== src/Events/Quits.antt =====
-- Who is still listed after a QUIT or a PART.
use repartee_desktop.Events.Posting.{roster-update, Roster, roster, roster_of, roster-post}
use mathlib.Core.Option
use repartee_desktop.Netsplit.Handlers
use repartee_desktop.Base.{
  ◌∙◌, ℕ, false, text_eq_iff, inr, arith, inl, Option-cases, ◌&&◌, [], not, ◌||◌, none, some,
  text_eq, true, if◌then◌else◌, any, Bool, List, Option, Text, ◌∷◌, ◌≡◌, refl,
}
use repartee_desktop.Events.{
  or_empty, extract_nick_userhost, Tags, Message, Prefix, AppState, World,
}
use repartee_desktop.State.Nicks.{remove_nick}
use repartee_desktop.Events.Members.{
  quit_message, logged_as, has_user, handle_quit, fan_out, buffers_where, leave_all,
}
use repartee_desktop.Base.Maps.{get-remove_self, Map, Text_eq, get, contains_key, remove}
use repartee_desktop.State.{NickEntry, Buffer}

-- In the buffer the connection does not list the nick.
unfoldable pub is_gone : (Text → Text) → Text → Text → Option Roster → Bool
is_gone to_lowercase conn_id nick none = true
is_gone to_lowercase conn_id nick (some r) =
    not (text_eq r.0 conn_id && contains_key (to_lowercase nick) r.3)

abbrev without_user : (Text → Text) → Text → Roster → Roster
without_user to_lowercase nick r = (r.0, r.1, r.2, remove (to_lowercase nick) r.3)

pub remove_nick-roster :
    (w : World) (s : AppState) (id nick k : Text)
    → roster (remove_nick w.env s id nick) k ≡ (
        if text_eq id k
        then Option.map (without_user w.env.to_lowercase nick) (roster s k)
        else roster s k)
unfolding remove_nick
remove_nick-roster w s id nick k =
    roster-update s id _ (without_user w.env.to_lowercase nick) k (λ b. refl)

pub removed-user :
    (key : Text) (users : Map Text NickEntry) → contains_key key (remove key users) ≡ false
unfolding contains_key
removed-user key users = rw (contains_key, get-remove_self key users) refl

remove_nick-gone :
    (w : World) (s : AppState) (id conn_id nick k : Text)
    → (text_eq id k || is_gone w.env.to_lowercase conn_id nick (roster s k)) ≡ true
    → is_gone w.env.to_lowercase conn_id nick (roster (remove_nick w.env s id nick) k) ≡ true
unfolding is_gone
remove_nick-gone w s id conn_id nick k h = elim (Option-cases (roster s k)) [
  | inl e ↦ ground (arith, e, remove_nick-roster w s id nick k)
  | inr (r, e) ↦
      ground
        (arith, e, h, remove_nick-roster w s id nick k, removed-user (w.env.to_lowercase nick) r.3)
]

leave_all-gone :
    (w : World) (ids : List Text) (s : AppState) (conn_id nick : Text) (reason : Option Text)
    (k : Text)
    → (any (text_eq k) ids || is_gone w.env.to_lowercase conn_id nick (roster s k)) ≡ true
    → is_gone w.env.to_lowercase conn_id nick (roster (leave_all w s nick reason ids) k) ≡ true
unfolding leave_all roster
leave_all-gone w [] s conn_id nick reason k h = h
leave_all-gone w (id ∷ ids) s conn_id nick reason k h =
    let next = remove_nick w.env s id nick in
    let h' : (any (text_eq k) ids || is_gone w.env.to_lowercase conn_id nick (roster next k))
        ≡ true =
      ground
        (arith, h, remove_nick-gone w s id conn_id nick k, text_eq_iff id k, text_eq_iff k id) in
    leave_all-gone w ids _ conn_id nick reason k h'

unaffected-gone :
    (to_lowercase : Text → Text) (conn_id nick k : Text) (m : Map Text Buffer)
    → (any (text_eq k) (buffers_where (has_user to_lowercase conn_id nick) m)
        || is_gone to_lowercase conn_id nick
            (elim (get k m) [ none ↦ none | some b ↦ some (roster_of b) ]))
      ≡ true
unfolding is_gone get
unaffected-gone to_lowercase conn_id nick k [] = refl
unaffected-gone to_lowercase conn_id nick k ((id, b) ∷ m) =
    ground
      (arith, unaffected-gone to_lowercase conn_id nick k m, text_eq_iff id k, text_eq_iff k id)

fan_out-roster :
    (w : World) (ids : List Text) (s : AppState) (m : ℕ → Message) (first : Bool) (k : Text)
    → roster (fan_out w s m first ids) k ≡ roster s k
unfolding fan_out
fan_out-roster w [] s m first k = refl
fan_out-roster w (id ∷ ids) s m first k =
    fan_out-roster w ids _ m false k ∙ roster-post w s id (λ n. logged_as w.fresh_id first (m n)) k

-- After a QUIT no buffer of the connection lists the nick, whether or not the user is ignored, and
-- whether or not the QUIT belongs to a netsplit.
pub handle_quit-gone :
    (w : World) (s : AppState) (conn_id : Text) (from : Option Prefix) (reason : Option Text)
    (tags : Tags) (k : Text)
    → is_gone w.env.to_lowercase conn_id
        (extract_nick_userhost from).0
        (roster (handle_quit w s conn_id from reason tags) k)
      ≡ true
unfolding handle_quit roster
handle_quit-gone w s conn_id from reason tags k =
    let (nick, ident, host) = extract_nick_userhost from in
    let affected = buffers_where (has_user w.env.to_lowercase conn_id nick) s.buffers in
    let left = leave_all w s nick reason affected in
    let gone : is_gone w.env.to_lowercase conn_id nick (roster left k) ≡ true =
      leave_all-gone w affected s conn_id nick reason k
        (unaffected-gone w.env.to_lowercase conn_id nick k s.buffers) in
    let (split, netsplit) =
      Handlers.handle_quit w.env.to_lowercase left.netsplit_state nick (or_empty reason) affected
        w.instant in
    let told =
      fan_out-roster w affected (record left { netsplit_state = split })
        (quit_message w (nick, ident, host) (or_empty reason) tags) true k in
    ground (arith, gone, told)
