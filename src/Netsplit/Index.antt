-- ===== src/Netsplit/Index.antt =====
-- The index from nicks to split groups (src/irc/netsplit.rs) never points past the groups.
use repartee_desktop.Base.{
  false, length-append, drop, take, zero, find_byte, inl, inr, some, ap, Option-cases, ◌≡◌, retain,
  Bool-cases, get_elem?, position, modify, Text, Bool, length, ℕ, suc, ◌+◌, ◌≤◌, ◌<◌, arith, refl,
  List, [], ◌∷◌,
}
use repartee_desktop.Base.Maps.{
  Text_eq, insert, AllValues, Map, get, AllValues-insert, AllValues-remove,
}
use repartee_desktop.Netsplit.{SplitRecord, SplitGroup, NetsplitState}
use repartee_desktop.Netsplit.Handlers.{
  is_open_split, print_splits, split_lives, record_join, add_quit, tick, index_groups, index_nicks,
  handle_join, handle_quit, record_quit, split_group_for,
}
use repartee_desktop.Netsplit.Detect.{is_netsplit_quit}

abbrev pub IsIndexed : NetsplitState → Type 0
IsIndexed s = AllValues (λ (i : ℕ). i < length s.groups) s.nick_index

module _ {ℓ} {A : Type ℓ} where
  pub length-modify : (i : ℕ) (f : A → A) (xs : List A) → length (modify i f xs) ≡ length xs
  length-modify i f [] = refl
  length-modify zero f (x ∷ xs) = refl
  length-modify (suc i) f (x ∷ xs) = ap suc (length-modify i f xs)

  pub position-lt : (p : A → Bool) (xs : List A) {i : ℕ} → position p xs ≡ some i → i < length xs
  position-lt p [] h = cc
  position-lt p (x ∷ xs) h = elim (Option-cases (position p xs)) [
    | inl e ↦ ground (arith, e)
    | inr (j, e) ↦ ground (arith, e, position-lt p xs e)
  ]

  pub get_elem?-lt : (xs : List A) (i : ℕ) → i < length xs → (x : A) × (get_elem? xs i ≡ some x)
  get_elem?-lt [] i h = elim h [ ]
  get_elem?-lt (x ∷ xs) zero h = (x, refl)
  get_elem?-lt (x ∷ xs) (suc i) h = get_elem?-lt xs i (omega arith)

AllValues-mono :
    (n k : ℕ) (m : Map Text ℕ)
    → n ≤ k
    → AllValues (λ (i : ℕ). i < n) m
    → AllValues (λ (i : ℕ). i < k) m
AllValues-mono n k [] h a = tt
AllValues-mono n k ((t, i) ∷ m) h a = (omega arith, AllValues-mono n k m h a.1)

-- The group for a pair of servers stands in the list, and no group is lost.
split_group_for-bounds :
    (server1 server2 : Text) (now : ℕ) (groups : List SplitGroup)
    → let (groups', idx) = split_group_for server1 server2 now groups in
      (idx < length groups') × (length groups ≤ length groups')
unfolding split_group_for
split_group_for-bounds server1 server2 now groups =
    elim (Option-cases (position (is_open_split server1 server2) groups)) [
      | inl e ↦
          rw (e, split_group_for)
            (omega (
              arith,
              length-append groups (
                  record {
                    server1 = server1;
                    server2 = server2;
                    nicks = [];
                    last_quit = now;
                    printed = false;
                  }
                  ∷ []),
            ))
      | inr (i, e) ↦
          rw (e, split_group_for)
            (omega (arith, position-lt (is_open_split server1 server2) groups e))
    ]

record_quit-IsIndexed :
    (to_lowercase : Text → Text) (s : NetsplitState) (nick server1 server2 : Text)
    (channels : List Text) (now : ℕ)
    → IsIndexed s
    → IsIndexed (record_quit to_lowercase s nick server1 server2 channels now)
unfolding record_quit
record_quit-IsIndexed to_lowercase s nick server1 server2 channels now v =
    let (here, more) = split_group_for-bounds server1 server2 now s.groups in
    let (groups, idx) = split_group_for server1 server2 now s.groups in
    rw (length-modify idx (add_quit nick channels now) groups) (
      AllValues-insert (λ (i : ℕ). i < length groups) (to_lowercase nick) idx s.nick_index here
        (AllValues-mono (length s.groups) (length groups) s.nick_index more v))

-- A QUIT keeps the index within the groups.
pub handle_quit-IsIndexed :
    (to_lowercase : Text → Text) (s : NetsplitState) (nick message : Text) (bufs : List Text)
    (now : ℕ)
    → IsIndexed s
    → IsIndexed (handle_quit to_lowercase s nick message bufs now).0
unfolding handle_quit
handle_quit-IsIndexed to_lowercase s nick message bufs now v =
    elim (Bool-cases (is_netsplit_quit message)) [
      | inr e ↦ rw e v
      | inl e ↦ elim (Option-cases (find_byte b' ' message)) [
        | inl f ↦ rw (e, f) v
        | inr (space, f) ↦
            rw (e, f)
              (record_quit-IsIndexed to_lowercase s nick (take space message)
                (drop (space + 1) message) bufs now v)
      ]
    ]

-- So does a JOIN.
pub handle_join-IsIndexed :
    (to_lowercase : Text → Text) (s : NetsplitState) (nick buffer_id : Text) (now : ℕ)
    → IsIndexed s
    → IsIndexed (handle_join to_lowercase s nick buffer_id now).0
unfolding handle_join record_join
handle_join-IsIndexed to_lowercase s nick buffer_id now v =
    let less =
      AllValues-remove (λ (i : ℕ). i < length s.groups) (to_lowercase nick) s.nick_index v in
    elim (Option-cases (get (to_lowercase nick) s.nick_index)) [
      | inl e ↦ rw (e, handle_join) v
      | inr (i, e) ↦ elim (Option-cases (get_elem? s.groups i)) [
        | inl f ↦ rw (e, f, handle_join) less
        | inr (g, f) ↦ rw (e, f, handle_join) less
      ]
    ]

index_nicks-lt :
    (to_lowercase : Text → Text) (n idx : ℕ) (recs : List SplitRecord) (m : Map Text ℕ)
    → idx < n
    → AllValues (λ (i : ℕ). i < n) m
    → AllValues (λ (i : ℕ). i < n) (index_nicks to_lowercase idx recs m)
unfolding index_nicks
index_nicks-lt to_lowercase n idx [] m h a = a
index_nicks-lt to_lowercase n idx (rec ∷ recs) m h a =
    index_nicks-lt to_lowercase n idx recs (insert (to_lowercase rec.nick) idx m) h
      (AllValues-insert (λ (i : ℕ). i < n) (to_lowercase rec.nick) idx m h a)

index_groups-lt :
    (to_lowercase : Text → Text) (n idx : ℕ) (gs : List SplitGroup) (m : Map Text ℕ)
    → idx + length gs ≤ n
    → AllValues (λ (i : ℕ). i < n) m
    → AllValues (λ (i : ℕ). i < n) (index_groups to_lowercase idx gs m)
unfolding index_groups
index_groups-lt to_lowercase n idx [] m h a = a
index_groups-lt to_lowercase n idx (g ∷ gs) m h a =
    index_groups-lt to_lowercase n (suc idx) gs (index_nicks to_lowercase idx g.nicks m)
      (omega arith) (index_nicks-lt to_lowercase n idx g.nicks m (omega arith) a)

-- The rebuild after expiry makes an index within the groups that are left.
pub tick-IsIndexed :
    (to_lowercase : Text → Text) (s : NetsplitState) (now : ℕ)
    → IsIndexed (tick to_lowercase s now).0
unfolding tick
tick-IsIndexed to_lowercase s now =
    let groups = retain (split_lives now) (print_splits now s.groups).0 in
    index_groups-lt to_lowercase (length groups) 0 groups [] (omega arith) tt

-- What happens to the tracker of a connection.
pub data NetsplitEvent : Type 0 where
  quit : Text → Text → List Text → NetsplitEvent
  join_channel : Text → Text → NetsplitEvent
  timer : NetsplitEvent

unfoldable pub step : (Text → Text) → NetsplitState → NetsplitEvent × ℕ → NetsplitState
step to_lowercase s (quit nick message bufs, now) =
    (handle_quit to_lowercase s nick message bufs now).0
step to_lowercase s (join_channel nick buffer_id, now) =
    (handle_join to_lowercase s nick buffer_id now).0
step to_lowercase s (timer, now) = (tick to_lowercase s now).0

unfoldable pub run : (Text → Text) → NetsplitState → List (NetsplitEvent × ℕ) → NetsplitState
unfolding step
run to_lowercase s [] = s
run to_lowercase s (ev ∷ evs) = run to_lowercase (step to_lowercase s ev) evs

step-IsIndexed :
    (to_lowercase : Text → Text) (s : NetsplitState) (ev : NetsplitEvent × ℕ)
    → IsIndexed s
    → IsIndexed (step to_lowercase s ev)
unfolding step
step-IsIndexed to_lowercase s (quit nick message bufs, now) v =
    handle_quit-IsIndexed to_lowercase s nick message bufs now v
step-IsIndexed to_lowercase s (join_channel nick buffer_id, now) v =
    handle_join-IsIndexed to_lowercase s nick buffer_id now v
step-IsIndexed to_lowercase s (timer, now) v = tick-IsIndexed to_lowercase s now

-- After any sequence of events every nick of the index leads to a group that is there.
pub run-IsIndexed :
    (to_lowercase : Text → Text) (s : NetsplitState) (evs : List (NetsplitEvent × ℕ))
    → IsIndexed s
    → IsIndexed (run to_lowercase s evs)
unfolding run
run-IsIndexed to_lowercase s [] v = v
run-IsIndexed to_lowercase s (ev ∷ evs) v =
    run-IsIndexed to_lowercase (step to_lowercase s ev) evs (step-IsIndexed to_lowercase s ev v)
