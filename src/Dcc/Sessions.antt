-- ===== src/Dcc/Sessions.antt =====
-- What `update_nick` of src/dcc/mod.rs does to any session.
use repartee_desktop.Base.{
  ◌⊎◌, text_eq_refl, subst, inr, inl, text_eq, [], Bool-cases, false, true, text_eq_iff, List, some,
  none, Text, Bool, arith, ◌≡◌, ◌∷◌,
}
use repartee_desktop.Base.Maps.{Text_eq, Distinct, Map, contains_key, get}
use repartee_desktop.Dcc.{DccManager, DccRecord}
use repartee_desktop.Dcc.Manager.{has_nick, update_nick, keys_where}
use repartee_desktop.Dcc.Renames.{rekey_all_lem, IsMoved, IsKept, IsIn, Present, NotIn}

keys_where-absent :
    (p : DccRecord → Bool) (j : Text) (m : Map Text DccRecord)
    → get j m ≡ none
    → NotIn j (keys_where p m)
unfolding get
keys_where-absent p j [] h = tt
keys_where-absent p j ((k, r) ∷ m) h = ground (arith, keys_where-absent p j m, text_eq_iff k j)

pub keys_where-IsIn :
    (p : DccRecord → Bool) (j : Text) (w : DccRecord) (m : Map Text DccRecord)
    → get j m ≡ some w
    → p w ≡ true
    → IsIn j (keys_where p m)
unfolding get
keys_where-IsIn p j w [] h t = cc
keys_where-IsIn p j w ((k, r) ∷ m) h t = elim (Bool-cases (text_eq k j)) [
  | inl same ↦ ground (arith, same, text_eq_iff k j)
  | inr differs ↦ ground (arith, differs, keys_where-IsIn p j w m)
]

pub keys_where-NotIn :
    (p : DccRecord → Bool) (j : Text) (w : DccRecord) (m : Map Text DccRecord)
    → Distinct m
    → get j m ≡ some w
    → p w ≡ false
    → NotIn j (keys_where p m)
unfolding get
keys_where-NotIn p j w [] d h t = tt
keys_where-NotIn p j w ((k, r) ∷ m) d h t = elim (Bool-cases (text_eq k j)) [
  | inl same ↦
      let e : k ≡ j = ground (arith, same, text_eq_iff k j) in
      ground (arith, same, keys_where-absent p j m (subst (λ x. get x m ≡ none) e d.0))
  | inr differs ↦ ground (arith, differs, text_eq_iff k j, keys_where-NotIn p j w m d.1)
]

Present-cons :
    (k : Text) (r : DccRecord) (ids : List Text) (m : Map Text DccRecord)
    → Present ids m
    → Present ids ((k, r) ∷ m)
unfolding get contains_key
Present-cons k r [] m p = tt
Present-cons k r (i ∷ ids) m p = (ground (arith, p.0), p.1, Present-cons k r ids m p.2)

keys_where-Present :
    (p : DccRecord → Bool) (m : Map Text DccRecord) → Distinct m → Present (keys_where p m) m
unfolding get contains_key
keys_where-Present p [] d = tt
keys_where-Present p ((k, r) ∷ m) d = elim (Bool-cases (p r)) [
  | inl on ↦ rw on (
    ground (arith, text_eq_refl k),
    keys_where-absent p k m d.0,
    Present-cons k r (keys_where p m) m (keys_where-Present p m d.1),
  )
  | inr off ↦ rw off (Present-cons k r (keys_where p m) m (keys_where-Present p m d.1))
]

-- Renaming a nick ends, and moves each session of the nick, in any case of letters, to a new
-- identifier that is reported, its sender with it; the sessions of other nicks stay as they are.
-- This is stated of any record of a manager whose identifiers are distinct.
pub update_nick_lem :
    (lower : Text → Text) {S : Type 0} (m : DccManager S) (old_nick new_nick j : Text)
    (w : DccRecord)
    → Distinct m.records
    → get j m.records ≡ some w
    → (m' : DccManager S) × (renamed : List (Text × Text × Text × Text)) × (update_nick lower m
          old_nick new_nick
        ≡ some (m', renamed))
      × (((has_nick lower old_nick w ≡ false) × IsKept lower new_nick j w m m')
          ⊎ ((has_nick lower old_nick w ≡ true) × IsMoved lower new_nick j w m m' renamed))
unfolding update_nick
update_nick_lem lower m old_nick new_nick j w d here =
    let p = has_nick lower old_nick in
    let (m', renamed, done, keeps, moves) =
      rekey_all_lem lower new_nick (keys_where p m.records) m (keys_where-Present p m.records d) in
    (
      m',
      renamed,
      done,
      elim (Bool-cases (p w)) [
        | inl on ↦ inr (on, moves j w here (keys_where-IsIn p j w m.records here on))
        | inr off ↦ inl (off, keeps j w here (keys_where-NotIn p j w m.records d here off))
      ],
    )
