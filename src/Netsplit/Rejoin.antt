-- ===== src/Netsplit/Rejoin.antt =====
-- Who counts as rejoining after a split (src/irc/netsplit.rs).
use repartee_desktop.Base.{
  drop, take, ◌&&◌, ◌≢◌, ◌∙◌, text_eq, true, retain, any, ◌||◌, Bool, find_byte, length, get_elem?,
  inr, inl, false, none, Option-cases, ◌≡◌, Text, ℕ, suc, ◌+◌, ◌<◌, arith, refl, List, [], ◌∷◌,
}
use repartee_desktop.Base.Maps.{
  get-insert, insert, Map, Text_eq, contains_key, get, get-remove_self, AllValues-get,
  get-insert_self,
}
use repartee_desktop.Netsplit.Handlers.{
  split_group_for, split_lives, record_quit, handle_quit, tick, print_splits, index_groups,
  index_nicks, record_join, handle_join,
}
use repartee_desktop.Netsplit.{SplitGroup, SplitRecord, NetsplitState}
use repartee_desktop.Netsplit.Index.{handle_quit-IsIndexed, tick-IsIndexed, get_elem?-lt, IsIndexed}
use repartee_desktop.Netsplit.Detect.{is_netsplit_quit}

module _ (to_lowercase : Text → Text) where
  -- As long as the index is sound, a JOIN is taken for a rejoin exactly when the index has the nick.
  pub handle_join-known :
      (s : NetsplitState) (nick buffer_id : Text) (now : ℕ)
      → IsIndexed s
      → (handle_join to_lowercase s nick buffer_id now).1
        ≡ contains_key (to_lowercase nick) s.nick_index
  unfolding handle_join contains_key
  handle_join-known s nick buffer_id now v =
      elim (Option-cases (get (to_lowercase nick) s.nick_index)) [
        | inl e ↦ rw (e, handle_join, contains_key)
        | inr (i, e) ↦
            let (g, f) = get_elem?-lt s.groups i (
              AllValues-get (λ (j : ℕ). j < length s.groups) (to_lowercase nick) s.nick_index v
                e) in
            rw (e, f, handle_join, contains_key)
      ]

  -- A JOIN takes the nick out of the index.
  pub handle_join-removed :
      (s : NetsplitState) (nick buffer_id : Text) (now : ℕ)
      → get (to_lowercase nick) (handle_join to_lowercase s nick buffer_id now).0.nick_index ≡ none
  unfolding handle_join record_join
  handle_join-removed s nick buffer_id now =
      elim (Option-cases (get (to_lowercase nick) s.nick_index)) [
        | inl e ↦ rw (e, handle_join) e
        | inr (i, e) ↦ elim (Option-cases (get_elem? s.groups i)) [
          | inl f ↦ rw (e, f, handle_join) (get-remove_self (to_lowercase nick) s.nick_index)
          | inr (g, f) ↦ rw (e, f, handle_join) (get-remove_self (to_lowercase nick) s.nick_index)
        ]
      ]

  -- Whatever came before, the second of two JOINs of one nick in a row is shown as an ordinary one.
  pub second_join_shown :
      (s : NetsplitState) (nick first second : Text) (now later : ℕ)
      → (handle_join to_lowercase (handle_join to_lowercase s nick first now).0 nick second later).1
        ≡ false
  unfolding handle_join
  second_join_shown s nick first second now later =
      rw (handle_join-removed s nick first now, handle_join)

-- A split group lists the nick.
abbrev pub has_nick : (Text → Text) → Text → List SplitRecord → Bool
has_nick to_lowercase key recs = any (λ r. text_eq (to_lowercase r.nick) key) recs

-- A group that is not too old lists the nick.
abbrev pub in_live_split : (Text → Text) → Text → ℕ → List SplitGroup → Bool
in_live_split to_lowercase key now groups =
    any (λ g. split_lives now g && has_nick to_lowercase key g.nicks) groups

contains_key-insert :
    (k j : Text) (i : ℕ) (m : Map Text ℕ)
    → contains_key j (insert k i m) ≡ (text_eq k j || contains_key j m)
unfolding contains_key
contains_key-insert k j i m = ground (arith, get-insert k j i m)

module _ (to_lowercase : Text → Text) (key : Text) where
  index_nicks-keys :
      (idx : ℕ) (recs : List SplitRecord) (m : Map Text ℕ)
      → contains_key key (index_nicks to_lowercase idx recs m)
        ≡ (has_nick to_lowercase key recs || contains_key key m)
  unfolding index_nicks
  index_nicks-keys idx [] m = refl
  index_nicks-keys idx (rec ∷ recs) m = ground (
    arith,
    index_nicks-keys idx recs (insert (to_lowercase rec.nick) idx m),
    contains_key-insert (to_lowercase rec.nick) key idx m,
  )

  index_groups-keys :
      (idx : ℕ) (gs : List SplitGroup) (m : Map Text ℕ)
      → contains_key key (index_groups to_lowercase idx gs m)
        ≡ (any (λ g. has_nick to_lowercase key g.nicks) gs || contains_key key m)
  unfolding index_groups
  index_groups-keys idx [] m = refl
  index_groups-keys idx (g ∷ gs) m = ground (
    arith,
    index_groups-keys (suc idx) gs (index_nicks to_lowercase idx g.nicks m),
    index_nicks-keys idx g.nicks m,
  )

  live-printed :
      (now : ℕ) (gs : List SplitGroup)
      → any
          (λ g. has_nick to_lowercase key g.nicks)
          (retain (split_lives now) (print_splits now gs).0)
        ≡ in_live_split to_lowercase key now gs
  unfolding print_splits
  live-printed now [] = refl
  live-printed now (g ∷ gs) = ground (arith, live-printed now gs)

  -- After a tick the index has exactly the nicks of the split groups that have not expired.
  pub tick-index :
      (s : NetsplitState) (now : ℕ)
      → contains_key key (tick to_lowercase s now).0.nick_index
        ≡ in_live_split to_lowercase key now s.groups
  unfolding tick contains_key get
  tick-index s now = ground (
    arith,
    index_groups-keys 0 (retain (split_lives now) (print_splits now s.groups).0) [],
    live-printed now s.groups,
  )

-- After a tick a JOIN is taken for a rejoin exactly when a split of the last hour lists the nick,
-- also if the nick has rejoined before the tick.
pub tick_readmits :
    (to_lowercase : Text → Text) (s : NetsplitState) (nick buffer_id : Text) (now later : ℕ)
    → (handle_join to_lowercase (tick to_lowercase s now).0 nick buffer_id later).1
      ≡ in_live_split to_lowercase (to_lowercase nick) now s.groups
tick_readmits to_lowercase s nick buffer_id now later =
    handle_join-known to_lowercase (tick to_lowercase s now).0 nick buffer_id later
      (tick-IsIndexed to_lowercase s now)
    ∙ tick-index to_lowercase (to_lowercase nick) s now

quit-space : (message : Text) → is_netsplit_quit message ≡ true → find_byte b' ' message ≢ none
unfolding is_netsplit_quit
quit-space message h e = ground arith

handle_quit-indexed :
    (to_lowercase : Text → Text) (s : NetsplitState) (nick message : Text) (bufs : List Text)
    (now : ℕ)
    → is_netsplit_quit message ≡ true
    → contains_key
        (to_lowercase nick)
        (handle_quit to_lowercase s nick message bufs now).0.nick_index
      ≡ true
unfolding handle_quit record_quit contains_key
handle_quit-indexed to_lowercase s nick message bufs now h =
    elim (Option-cases (find_byte b' ' message)) [
      | inl e ↦ absurd (quit-space message h e)
      | inr (i, e) ↦
          let idx = (split_group_for (take i message) (drop (i + 1) message) now s.groups).1 in
          rw (h, e, handle_quit)
            (rw (get-insert_self (to_lowercase nick) idx s.nick_index, contains_key))
    ]

-- A nick that has just quit in a split is taken for rejoining when it comes back.
pub quit_then_join :
    (to_lowercase : Text → Text) (s : NetsplitState) (nick message buffer_id : Text)
    (bufs : List Text) (now later : ℕ)
    → IsIndexed s
    → is_netsplit_quit message ≡ true
    → (handle_join to_lowercase
        (handle_quit to_lowercase s nick message bufs now).0
        nick
        buffer_id
        later).1
      ≡ true
quit_then_join to_lowercase s nick message buffer_id bufs now later v h =
    handle_join-known to_lowercase (handle_quit to_lowercase s nick message bufs now).0 nick
      buffer_id later (handle_quit-IsIndexed to_lowercase s nick message bufs now v)
    ∙ handle_quit-indexed to_lowercase s nick message bufs now h
