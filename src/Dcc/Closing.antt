-- ===== src/Dcc/Closing.antt =====
-- What expiry, closing and passive answers of src/dcc do to the sessions.
use repartee_desktop.Base.{
  ◌<◌, ◌*◌, ap, ◌+◌, text_eq_refl, text_eq→eq, text_eq, Bool-cases, refl, false, ◌⊎◌, true, ◌∙◌,
  inr, [], sym, inl, text_eq_iff, Option, some, subst, Option-cases, List, none, ◌≢◌, Text, arith,
  ◌≡◌, ◌∷◌, ℕ,
}
use repartee_desktop.Base.Maps.{
  get-remove_self, get-remove, Text_eq, Distinct, Map, contains_key, remove, get,
}
use repartee_desktop.Dcc.{
  connected, connecting, listening, DccState, waiting_user, DccManager, DccRecord,
}
use repartee_desktop.Dcc.Manager.{
  is_pending, has_nick, find_key, is_expired, send_chat_line, close_by_nick, purge_expired,
  take_out, keys_where,
}
use repartee_desktop.Dcc.Renames.{NotIn, IsIn}
use repartee_desktop.Dcc.Sessions.{keys_where-IsIn, keys_where-NotIn}

get-remove_other {ℓ} :
    {V : Type ℓ} (k j : Text) (m : Map Text V) → k ≢ j → get j (remove k m) ≡ get j m
get-remove_other k j m h = ground (arith, get-remove k j m, text_eq_iff k j)

get-remove_absent {ℓ} :
    {V : Type ℓ} (k j : Text) (m : Map Text V) → get j m ≡ none → get j (remove k m) ≡ none
get-remove_absent k j m h = ground (arith, get-remove k j m)

module _ {S : Type 0} where
  abbrev taken_from : Text → DccManager S → DccManager S
  taken_from k m = record m { records = remove k m.records; chat_senders = remove k m.chat_senders }

  take_out-first :
      (lower : Text → Text) (k : Text) (ids : List Text) (m : DccManager S)
      → (take_out lower (k ∷ ids) m).0 ≡ (take_out lower ids (taken_from k m)).0
  take_out-first lower k ids m = elim (Option-cases (get k m.records)) [
    | inl absent ↦ rw (take_out, absent) refl
    | inr (r, there) ↦ rw (take_out, there) refl
  ]

  take_out-absent :
      (lower : Text → Text) (ids : List Text) (m : DccManager S) (j : Text)
      → get j m.records ≡ none
      → get j m.chat_senders ≡ none
      → (get j (take_out lower ids m).0.records ≡ none)
        × (get j (take_out lower ids m).0.chat_senders ≡ none)
  take_out-absent lower [] m j h k = (h, k)
  take_out-absent lower (i ∷ ids) m j h k =
      subst (λ (x : DccManager S). (get j x.records ≡ none) × (get j x.chat_senders ≡ none))
        (sym (take_out-first lower i ids m))
        (take_out-absent lower ids (taken_from i m) j (get-remove_absent i j m.records h)
          (get-remove_absent i j m.chat_senders k))

  take_out-other :
      (lower : Text → Text) (ids : List Text) (m : DccManager S) (j : Text)
      → NotIn j ids
      → (get j (take_out lower ids m).0.records ≡ get j m.records)
        × (get j (take_out lower ids m).0.chat_senders ≡ get j m.chat_senders)
  take_out-other lower [] m j h = (refl, refl)
  take_out-other lower (i ∷ ids) m j h =
      let rest = take_out-other lower ids (taken_from i m) j h.1 in
      subst
        (λ (x : DccManager S).
          (get j x.records ≡ get j m.records) × (get j x.chat_senders ≡ get j m.chat_senders))
        (sym (take_out-first lower i ids m))
        (
          rest.0 ∙ get-remove_other i j m.records h.0,
          rest.1 ∙ get-remove_other i j m.chat_senders h.0,
        )

  told-first :
      (lower : Text → Text) (i : Text) (ids : List Text) (m : DccManager S) (x : Text × Text)
      → IsIn x (take_out lower ids (taken_from i m)).1
      → IsIn x (take_out lower (i ∷ ids) m).1
  told-first lower i ids m x h = elim (Option-cases (get i m.records)) [
    | inl absent ↦ rw (take_out, absent) h
    | inr (r, there) ↦ rw (take_out, there) (inr h)
  ]

  told_self :
      (lower : Text → Text) (i : Text) (ids : List Text) (m : DccManager S) (w : DccRecord)
      → get i m.records ≡ some w
      → IsIn (i, w.nick) (take_out lower (i ∷ ids) m).1
  told_self lower i ids m w h = rw (take_out, h) (inl refl)

  take_out-reported :
      (lower : Text → Text) (ids : List Text) (m : DccManager S) (j : Text) (w : DccRecord)
      → get j m.records ≡ some w
      → IsIn j ids
      → (get j (take_out lower ids m).0.records ≡ none)
        × (get j (take_out lower ids m).0.chat_senders ≡ none)
        × IsIn (j, w.nick) (take_out lower ids m).1
  take_out-reported lower [] m j w h on = absurd on
  take_out-reported lower (i ∷ ids) m j w h on = elim (Bool-cases (text_eq i j)) [
    | inl same ↦
        let e : j ≡ i = sym (text_eq→eq i j same) in
        let gone =
          take_out-absent lower ids (taken_from i m) i (get-remove_self i m.records)
            (get-remove_self i m.chat_senders) in
        let whole : (get i (take_out lower (i ∷ ids) m).0.records ≡ none)
            × (get i (take_out lower (i ∷ ids) m).0.chat_senders ≡ none) =
          subst (λ (x : DccManager S). (get i x.records ≡ none) × (get i x.chat_senders ≡ none))
            (sym (take_out-first lower i ids m)) gone in
        subst
          (λ x.
            (get x (take_out lower (i ∷ ids) m).0.records ≡ none)
            × (get x (take_out lower (i ∷ ids) m).0.chat_senders ≡ none)
            × IsIn (x, w.nick) (take_out lower (i ∷ ids) m).1)
          (sym e)
          (whole.0, whole.1, told_self lower i ids m w (subst (λ x. get x m.records ≡ some w) e h))
    | inr differs ↦
        let apart : i ≢ j = λ e. ground (arith, e, differs, text_eq_refl j) in
        let rest : IsIn j ids = ground (arith, apart) in
        let (gone, quiet, told) =
          take_out-reported lower ids (taken_from i m) j w
            (get-remove_other i j m.records apart ∙ h) rest in
        let whole : (get j (take_out lower (i ∷ ids) m).0.records ≡ none)
            × (get j (take_out lower (i ∷ ids) m).0.chat_senders ≡ none) =
          subst (λ (x : DccManager S). (get j x.records ≡ none) × (get j x.chat_senders ≡ none))
            (sym (take_out-first lower i ids m)) (gone, quiet) in
        (whole.0, whole.1, told-first lower i ids m (j, w.nick) told)
  ]

-- A session that waits for the user or for the other side, and was made longer ago than so many
-- seconds.
abbrev pub IsOverdue : ℕ → ℕ → DccRecord → Type 0
IsOverdue timeout_secs now r =
    ((r.state ≡ waiting_user) ⊎ (r.state ≡ listening)) × (r.created + 1000 * timeout_secs < now)

pending_cases : (st : DccState) → is_pending st ≡ true → (st ≡ waiting_user) ⊎ (st ≡ listening)
pending_cases waiting_user h = inl refl
pending_cases listening h = inr refl
pending_cases connecting h = absurd (ground (arith, h))
pending_cases connected h = absurd (ground (arith, h))

pending-IsPending : (st : DccState) → (st ≡ waiting_user) ⊎ (st ≡ listening) → is_pending st ≡ true
pending-IsPending st (inl e) = ap is_pending e
pending-IsPending st (inr e) = ap is_pending e

is_expired-IsOverdue :
    (timeout_secs now : ℕ) (r : DccRecord)
    → is_expired timeout_secs now r ≡ true
    → IsOverdue timeout_secs now r
is_expired-IsOverdue timeout_secs now r h =
    (pending_cases r.state (ground (arith, h)), ground (arith, h))

IsOverdue-is_expired :
    (timeout_secs now : ℕ) (r : DccRecord)
    → IsOverdue timeout_secs now r
    → is_expired timeout_secs now r ≡ true
IsOverdue-is_expired timeout_secs now r h = ground (arith, pending-IsPending r.state h.0, h.1)

-- A purge takes out a session if it waits for the user or for the other side and was made longer ago
-- than the timeout, with its sender, and reports it; any other session stays as it is. This is stated
-- of any record of a manager whose identifiers are distinct.
pub purge_expired-sessions :
    (lower : Text → Text) {S : Type 0} (now : ℕ) (m : DccManager S) (j : Text) (w : DccRecord)
    → Distinct m.records
    → get j m.records ≡ some w
    → (IsOverdue m.timeout_secs now w
        × (get j (purge_expired lower now m).0.records ≡ none)
        × (get j (purge_expired lower now m).0.chat_senders ≡ none)
        × IsIn (j, w.nick) (purge_expired lower now m).1)
      ⊎ ((¬ IsOverdue m.timeout_secs now w)
          × (get j (purge_expired lower now m).0.records ≡ some w)
          × (get j (purge_expired lower now m).0.chat_senders ≡ get j m.chat_senders))
unfolding purge_expired
purge_expired-sessions lower now m j w d here =
    let p = is_expired m.timeout_secs now in
    let ids = keys_where p m.records in
    elim (Bool-cases (p w)) [
      | inl on ↦
          let (gone, quiet, told) =
            take_out-reported lower ids m j w here (keys_where-IsIn p j w m.records here on) in
          inl (is_expired-IsOverdue m.timeout_secs now w on, gone, quiet, told)
      | inr off ↦
          let (records, senders) =
            take_out-other lower ids m j (keys_where-NotIn p j w m.records d here off) in
          inr (
            λ late. ground (arith, off, IsOverdue-is_expired m.timeout_secs now w late),
            records ∙ here,
            senders,
          )
    ]

close_by_nick-removes :
    (lower : Text → Text) {S : Type 0} (m : DccManager S) (nick id : Text)
    → find_key (has_nick lower nick) m.records ≡ some id
    → (close_by_nick lower m nick).0 ≡ record m { records = remove id m.records }
unfolding close_by_nick
close_by_nick-removes lower m nick id h = rw (close_by_nick, h) refl

-- Closing a session by its nick does not close its channel: a line for the identifier of the
-- session that was closed is still handed to the session's task, as before.
pub close_by_nick-sends :
    (lower : Text → Text) {S : Type 0} (debug : Text → Text) (try_send : S → Text → Option Text)
    (m : DccManager S) (nick id text : Text)
    → find_key (has_nick lower nick) m.records ≡ some id
    → (contains_key id (close_by_nick lower m nick).0.records ≡ false)
      × (send_chat_line debug try_send (close_by_nick lower m nick).0 id text
          ≡ send_chat_line debug try_send m id text)
unfolding send_chat_line contains_key
close_by_nick-sends lower debug try_send m nick id text h =
    subst
      (λ (x : DccManager _).
        (contains_key id x.records ≡ false)
        × (send_chat_line debug try_send x id text ≡ send_chat_line debug try_send m id text))
      (sym (close_by_nick-removes lower m nick id h))
      (ground (arith, get-remove_self id m.records), refl)
