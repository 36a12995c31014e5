-- ===== src/Dcc/Renames.antt =====
-- `update_nick` of src/dcc/mod.rs moves the sessions of the nick and no other.
use repartee_desktop.Base.{
  subst, ◌⊎◌, sym, inr, inl, ◌∙◌, Option-cases, text_eq_iff, refl, [], ◌≢◌, false, some, true, All,
  List, Text, arith, ◌≡◌, ◌∷◌,
}
use repartee_desktop.Base.Maps.{
  get-insert, get-remove, Text_eq, get-insert_self, Map, contains_key, remove, get, insert,
}
use repartee_desktop.Dcc.{DccManager, DccRecord}
use repartee_desktop.Dcc.Manager.{move_sender, rekey, rekey_all}
use repartee_desktop.Dcc.Ids.{generate_id_lem}

abbrev pub IsIn : {A : Type 0} → A → List A → Type 0
IsIn a [] = ⊥
IsIn a (x ∷ xs) = (x ≡ a) ⊎ IsIn a xs

abbrev pub NotIn : Text → List Text → Type 0
NotIn k ids = All (λ x. x ≢ k) ids

-- Different identifiers, each of a record.
abbrev pub Present : List Text → Map Text DccRecord → Type 0
Present [] m = Unit
Present (k ∷ ids) m = (contains_key k m ≡ true) × NotIn k ids × Present ids m

contains-get :
    (k : Text) (r : DccRecord) (m : Map Text DccRecord) → get k m ≡ some r → contains_key k m ≡ true
unfolding contains_key
contains-get k r m h = ground (arith, h)

get-insert_other {ℓ} :
    {V : Type ℓ} (k j : Text) (v : V) (m : Map Text V) → k ≢ j → get j (insert k v m) ≡ get j m
get-insert_other k j v m h = ground (arith, get-insert k j v m, text_eq_iff k j)

get-move_sender :
    {S : Type 0} (old_id new_id j : Text) (m : Map Text S)
    → old_id ≢ j
    → new_id ≢ j
    → get j (move_sender old_id new_id m) ≡ get j m
get-move_sender old_id new_id j m h k = elim (Option-cases (get old_id m)) [
  | inl none_there ↦ rw (move_sender, none_there) refl
  | inr (x, there) ↦
      rw (move_sender, there)
        (get-insert_other new_id j x (remove old_id m) k
          ∙ ground (arith, get-remove old_id j m, text_eq_iff old_id j))
]

get-move_sender_self :
    {S : Type 0} (old_id new_id : Text) (m : Map Text S) (x : S)
    → get old_id m ≡ some x
    → get new_id (move_sender old_id new_id m) ≡ some x
get-move_sender_self old_id new_id m x h =
    rw (move_sender, h) (get-insert_self new_id x (remove old_id m))

NotIn-differs : (k j : Text) (ids : List Text) → NotIn k ids → IsIn j ids → k ≢ j
NotIn-differs k j [] h on = absurd on
NotIn-differs k j (x ∷ ids) h (inl e) = λ same. h.0 (e ∙ sym same)
NotIn-differs k j (x ∷ ids) h (inr on) = NotIn-differs k j ids h.1 on

get-contains :
    (k : Text) (m : Map Text DccRecord)
    → contains_key k m ≡ true
    → (r : DccRecord) × (get k m ≡ some r)
unfolding contains_key
get-contains k m h = elim (Option-cases (get k m)) [
  | inl absent ↦ ground (arith, absent)
  | inr there ↦ there
]

module _ {S : Type 0} (lower : Text → Text) (new_nick : Text) where
  abbrev moved : Text → Text → DccRecord → DccManager S → DccManager S
  moved old_id new_id r m = record m {
    records = insert new_id (record r { nick = new_nick; id = new_id }) (remove old_id m.records);
    chat_senders = move_sender old_id new_id m.chat_senders;
  }

  rekey-moved :
      (old_id : Text) (r : DccRecord) (m : DccManager S)
      → (new_id : Text) × (rekey lower old_id new_nick r m ≡ some (moved old_id new_id r m, new_id))
        × (contains_key new_id (remove old_id m.records) ≡ false)
  rekey-moved old_id r m =
      let (id, gives, (free, _)) =
        generate_id_lem lower (record m { records = remove old_id m.records }) new_nick in
      (id, rw (rekey, gives) refl, free)

  -- Another session stays as it is, and the new identifier is not its.
  moved-other :
      (old_id new_id : Text) (r : DccRecord) (m : DccManager S) (j : Text) (w : DccRecord)
      → contains_key new_id (remove old_id m.records) ≡ false
      → old_id ≢ j
      → get j m.records ≡ some w
      → (new_id ≢ j)
        × (get j (moved old_id new_id r m).records ≡ some w)
        × (get j (moved old_id new_id r m).chat_senders ≡ get j m.chat_senders)
  moved-other old_id new_id r m j w free differs here =
      let there : get j (remove old_id m.records) ≡ some w =
        ground (arith, get-remove old_id j m.records, text_eq_iff old_id j) in
      let fresh : new_id ≢ j =
        λ e. ground (arith, contains-get j w (remove old_id m.records) there, e) in
      (
        fresh,
        get-insert_other new_id j (record r { nick = new_nick; id = new_id })
              (remove old_id m.records) fresh
            ∙ there,
        get-move_sender old_id new_id j m.chat_senders differs fresh,
      )

  moved_self :
      (old_id new_id : Text) (r : DccRecord) (m : DccManager S)
      → (get new_id (moved old_id new_id r m).records
          ≡ some (record r { nick = new_nick; id = new_id }))
        × ((x : S)
            → get old_id m.chat_senders ≡ some x
            → get new_id (moved old_id new_id r m).chat_senders ≡ some x)
  moved_self old_id new_id r m = (
    get-insert_self new_id (record r { nick = new_nick; id = new_id }) (remove old_id m.records),
    get-move_sender_self old_id new_id m.chat_senders,
  )

  -- Where the session of a record went: its new identifier is reported, and the record and the
  -- sender are there.
  abbrev pub IsMoved :
      Text → DccRecord → DccManager S → DccManager S → List (Text × Text × Text × Text) → Type 0
  IsMoved j w m m' renamed =
      (id : Text) × IsIn (j, id, b'=' ∷ j, b'=' ∷ id) renamed
      × (get id m'.records ≡ some (record w { nick = new_nick; id = id }))
      × ((x : S) → get j m.chat_senders ≡ some x → get id m'.chat_senders ≡ some x)

  abbrev pub IsKept : Text → DccRecord → DccManager S → DccManager S → Type 0
  IsKept j w m m' = (get j m'.records ≡ some w) × (get j m'.chat_senders ≡ get j m.chat_senders)

  -- The other identifiers stay, and differ from the new one.
  moved-Present :
      (old_id new_id : Text) (r : DccRecord) (m : DccManager S) (ids : List Text)
      → contains_key new_id (remove old_id m.records) ≡ false
      → NotIn old_id ids
      → Present ids m.records
      → NotIn new_id ids × Present ids (moved old_id new_id r m).records
  moved-Present old_id new_id r m [] free off p = (tt, tt)
  moved-Present old_id new_id r m (k ∷ ids) free off (there, apart, p) =
      let (w, here) = get-contains k m.records there in
      let (fresh, kept, _) = moved-other old_id new_id r m k w free (λ e. off.0 (sym e)) here in
      let (off', p') = moved-Present old_id new_id r m ids free off.1 p in
      (
        (λ e. fresh (sym e), off'),
        (contains-get k w (moved old_id new_id r m).records kept, apart, p'),
      )

  abbrev pub Outcome : List Text → DccManager S → Type 0
  Outcome ids m =
      (m' : DccManager S) × (renamed : List (Text × Text × Text × Text)) × (rekey_all lower new_nick
          ids m
        ≡ some (m', renamed))
      × ((j : Text) (w : DccRecord) → get j m.records ≡ some w → NotIn j ids → IsKept j w m m')
      × ((j : Text) (w : DccRecord)
          → get j m.records ≡ some w
          → IsIn j ids
          → IsMoved j w m m' renamed)

  rekey_all-step :
      (k : Text) (ids : List Text) (m : DccManager S) (r : DccRecord) (id : Text)
      → get k m.records ≡ some r
      → rekey lower k new_nick r m ≡ some (moved k id r m, id)
      → contains_key id (remove k m.records) ≡ false
      → NotIn k ids
      → NotIn id ids
      → Outcome ids (moved k id r m)
      → Outcome (k ∷ ids) m
  rekey_all-step k ids m r id here gives free apart fresh (m', renamed, done, keeps, moves) =
      let m1 = moved k id r m in
      let self = moved_self k id r m in
      (
        m',
        (k, id, b'=' ∷ k, b'=' ∷ id) ∷ renamed,
        rw (rekey_all, here, gives, done) refl,
        (λ j w there (differs, off).
            let (_, kept, sender) = moved-other k id r m j w free differs there in
            let (kept', sender') = keeps j w kept off in (kept', sender' ∙ sender)),
        (λ j w there on. elim on [
          | inl e ↦
              let same : r ≡ w = ground (arith, here, there, e) in
              let (kept, sender) = keeps id (record r { nick = new_nick; id = id }) self.0 fresh in
              subst (λ (x : DccRecord). IsMoved j x m m' ((k, id, b'=' ∷ k, b'=' ∷ id) ∷ renamed))
                same (id, inl (rw e refl), kept, λ x has. sender ∙ self.1 x (rw e has))
          | inr rest ↦
              let differs = NotIn-differs k j ids apart rest in
              let (_, kept, sender) = moved-other k id r m j w free differs there in
              let (id', reported, record_there, sender_there) = moves j w kept rest in
              (id', inr reported, record_there, λ x has. sender_there x (sender ∙ has))
        ]),
      )

  pub rekey_all_lem : (ids : List Text) (m : DccManager S) → Present ids m.records → Outcome ids m
  rekey_all_lem [] m p = (m, [], refl, (λ j w here off. (here, refl)), λ j w here on. absurd on)
  rekey_all_lem (k ∷ ids) m (there, apart, p) =
      let (r, here) = get-contains k m.records there in
      let (id, gives, free) = rekey-moved k r m in
      let (fresh, p') = moved-Present k id r m ids free apart p in
      rekey_all-step k ids m r id here gives free apart fresh
        (rekey_all_lem ids (moved k id r m) p')
