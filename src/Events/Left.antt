-- ===== src/Events/Left.antt =====
-- Who is still listed in a channel after a PART or a KICK of src/irc/events.rs.
use repartee_desktop.Events.Posting.{Roster, roster, roster-post}
use repartee_desktop.State.App.{remove_buffer}
use repartee_desktop.State.Shown.{remove_buffer-absent}
use repartee_desktop.Base.{
  text_eq_iff, ◌∙◌, ap, ℕ, Bool-cases, text_eq, inr, text_eq_refl, arith, inl, Option-cases, some,
  false, none, Bool, Option, Text, ◌≡◌, refl,
}
use repartee_desktop.Events.{
  or_text, status_buffer, Message, is_ignored, make_buffer_id, extract_nick_userhost, Tags, Prefix,
  AppState, World, post,
}
use repartee_desktop.Events.Members.{other_part, handle_part}
use repartee_desktop.Events.Kicks.{self_kick, handle_kick}
use repartee_desktop.State.Nicks.{remove_nick}
use repartee_desktop.Base.Maps.{Text_eq, contains_key}
use repartee_desktop.Events.Quits.{removed-user, remove_nick-roster}
use repartee_desktop.Irc.Ignore.{kicks, parts}

unfoldable pub is_listed : (Text → Text) → Text → Option Roster → Bool
is_listed to_lowercase nick none = false
is_listed to_lowercase nick (some r) = contains_key (to_lowercase nick) r.3

closed-roster : (w : World) (s : AppState) (id : Text) → roster (remove_buffer w.env s id) id ≡ none
unfolding roster contains_key
closed-roster w s id = ground (arith, remove_buffer-absent w.env s id)

removed-unlisted :
    (w : World) (s : AppState) (id nick : Text)
    → is_listed w.env.to_lowercase nick (roster (remove_nick w.env s id nick) id) ≡ false
unfolding is_listed
removed-unlisted w s id nick = elim (Option-cases (roster s id)) [
  | inl e ↦ ground (arith, e, remove_nick-roster w s id nick id, text_eq_refl id)
  | inr (r, e) ↦ ground (
    arith,
    e,
    remove_nick-roster w s id nick id,
    removed-user (w.env.to_lowercase nick) r.3,
    text_eq_refl id,
  )
]

-- A user who is not us is not listed; we have no buffer.
abbrev pub HasLeft : World → Text → Text → Option Roster → Type 0
HasLeft w me nick there =
    (is_listed w.env.to_lowercase nick there ≡ false) × (nick ≡ me → there ≡ none)

we-HasLeft :
    (w : World) (me nick : Text) (there : Option Roster) → there ≡ none → HasLeft w me nick there
unfolding is_listed
we-HasLeft w me nick there e = (rw e refl, λ same. e)

other-HasLeft :
    (w : World) (s : AppState) (me nick id : Text) (there : Option Roster)
    → text_eq nick me ≡ false
    → there ≡ roster (remove_nick w.env s id nick) id
    → HasLeft w me nick there
other-HasLeft w s me nick id there theirs e = (
  ap (is_listed w.env.to_lowercase nick) e ∙ removed-unlisted w s id nick,
  λ same. ground (arith, theirs, same, text_eq_iff nick me),
)

-- After a PART the nick is not listed in the channel, and our own PART closes the channel's buffer.
pub handle_part-HasLeft :
    (w : World) (s : AppState) (conn_id me : Text) (from : Option Prefix) (name : Text)
    (reason : Option Text) (tags : Tags)
    → HasLeft w me (extract_nick_userhost from).0 (
        roster
          (handle_part w s conn_id me from name reason tags)
          (make_buffer_id w.env.to_lowercase conn_id name))
unfolding handle_part other_part roster
handle_part-HasLeft w s conn_id me from name reason tags =
    let (nick, ident, host) = extract_nick_userhost from in
    let id = make_buffer_id w.env.to_lowercase conn_id name in
    let out = other_part w s id nick reason in
    let t = handle_part w s conn_id me from name reason tags in
    elim (Bool-cases (text_eq nick me)) [
      | inl ours ↦
          let gone : roster t id ≡ none = rw (handle_part, ours) (closed-roster w s id) in
          we-HasLeft w me nick (roster t id) gone
      | inr theirs ↦ elim (Bool-cases (is_ignored w out nick ident host parts (some name))) [
        | inl hidden ↦
            let same : roster t id ≡ roster (remove_nick w.env s id nick) id =
              rw (handle_part, theirs, hidden) refl in
            other-HasLeft w s me nick id (roster t id) theirs same
        | inr heard ↦
            let same : roster t id ≡ roster (remove_nick w.env s id nick) id =
              rw (handle_part, theirs, heard) (roster-post w out id _ id) in
            other-HasLeft w s me nick id (roster t id) theirs same
      ]
    ]

self_kick-closed :
    (w : World) (s : AppState) (conn_id name id : Text) (m : ℕ → Message)
    → roster (self_kick w s conn_id name id m) id ≡ none
unfolding self_kick roster
self_kick-closed w s conn_id name id m =
    let server_id = status_buffer w s conn_id in
    let told = post w (post w s server_id m) id m in
    let closed = remove_buffer w.env told id in
    let landing = or_text server_id closed.active_buffer_id in
    let gone = closed-roster w told id in
    elim (Bool-cases (text_eq landing server_id)) [
      | inl same ↦ rw (self_kick, same) gone
      | inr differs ↦ rw (self_kick, differs) (roster-post w closed landing m id ∙ gone)
    ]

-- After a KICK the user is not listed in the channel, whether or not the kicker is ignored; if it
-- was us, the channel's buffer is closed.
pub handle_kick-HasLeft :
    (w : World) (s : AppState) (conn_id me : Text) (from : Option Prefix) (name user : Text)
    (reason : Option Text) (tags : Tags)
    → HasLeft w me user (
        roster
          (handle_kick w s conn_id me from name user reason tags)
          (make_buffer_id w.env.to_lowercase conn_id name))
unfolding handle_kick
handle_kick-HasLeft w s conn_id me from name user reason tags =
    let (kicker, ident, host) = extract_nick_userhost from in
    let id = make_buffer_id w.env.to_lowercase conn_id name in
    let left = remove_nick w.env s id user in
    let t = handle_kick w s conn_id me from name user reason tags in
    elim (Bool-cases (text_eq user me)) [
      | inl ours ↦
          let gone : roster t id ≡ none =
            rw (handle_kick, ours) (self_kick-closed w s conn_id name id _) in
          we-HasLeft w me user (roster t id) gone
      | inr theirs ↦ elim (Bool-cases (is_ignored w s kicker ident host kicks (some name))) [
        | inl hidden ↦
            let same : roster t id ≡ roster left id = rw (handle_kick, theirs, hidden) refl in
            other-HasLeft w s me user id (roster t id) theirs same
        | inr heard ↦
            let same : roster t id ≡ roster left id =
              rw (handle_kick, theirs, heard) (roster-post w left id _ id) in
            other-HasLeft w s me user id (roster t id) theirs same
      ]
    ]
