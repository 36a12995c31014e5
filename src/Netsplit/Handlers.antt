-- ===== src/Netsplit/Handlers.antt =====
-- The methods of `NetsplitState` (src/irc/netsplit.rs).
use repartee_desktop.Base.{
  ◌+◌, drop, get_elem?, take, none, find_byte, length, suc, true, leb, eq_ignore_ascii_case, false,
  [], retain, ◌-◌, any, ◌∷◌, some, ◌&&◌, ltb, not, if◌then◌else◌, modify, ◌++◌, position, text_eq,
  List, Bool, Text, ℕ,
}
use repartee_desktop.Netsplit.{
  netjoin_batch_wait, split_batch_wait, split_expire, Map, SplitRecord, NetsplitMessage,
  NetjoinRecord, NetsplitState, NetjoinGroup, SplitGroup,
}
use repartee_desktop.Netsplit.Format.{format_netjoin_messages, format_split_messages}
use repartee_desktop.Base.Maps.{Text_eq, remove, insert, get}
use repartee_desktop.Netsplit.Detect.{is_netsplit_quit}

-- The unprinted group of a pair of servers.
abbrev pub is_open_split : Text → Text → SplitGroup → Bool
is_open_split server1 server2 g =
    text_eq g.server1 server1 && (text_eq g.server2 server2 && not g.printed)

abbrev pub is_open_netjoin : Text → Text → NetjoinGroup → Bool
is_open_netjoin server1 server2 g =
    text_eq g.server1 server1 && (text_eq g.server2 server2 && not g.printed)

-- The groups with one for the pair of servers, and where it stands.
unfoldable pub split_group_for : Text → Text → ℕ → List SplitGroup → List SplitGroup × ℕ
split_group_for server1 server2 now groups =
    elim (position (is_open_split server1 server2) groups) [
      | some idx ↦ (groups, idx)
      | none ↦ (
        groups
            ++ record {
              server1 = server1;
              server2 = server2;
              nicks = [];
              last_quit = now;
              printed = false;
            }
              ∷ [],
        length groups,
      )
    ]

abbrev pub add_quit : Text → List Text → ℕ → SplitGroup → SplitGroup
add_quit nick channels now g = record g {
  nicks = g.nicks ++ record { nick = nick; channels = channels } ∷ [];
  last_quit = now;
}

unfoldable pub record_quit :
    (Text → Text) → NetsplitState → Text → Text → Text → List Text → ℕ → NetsplitState
unfolding split_group_for
record_quit to_lowercase s nick server1 server2 channels now =
    let (groups, idx) = split_group_for server1 server2 now s.groups in
    record s {
      groups = modify idx (add_quit nick channels now) groups;
      nick_index = insert (to_lowercase nick) idx s.nick_index;
    }

unfoldable pub handle_quit :
    (Text → Text) → NetsplitState → Text → Text → List Text → ℕ → NetsplitState × Bool
unfolding record_quit
handle_quit to_lowercase s nick message affected_buffer_ids now =
    if not (is_netsplit_quit message) then (s, false) else elim (find_byte b' ' message) [
      | none ↦ (s, false)
      | some space ↦ (
        record_quit to_lowercase s nick (take space message) (drop (space + 1) message)
            affected_buffer_ids now,
        true,
      )
    ]

unfoldable pub netjoin_group_for : Text → Text → ℕ → List NetjoinGroup → List NetjoinGroup × ℕ
netjoin_group_for server1 server2 now netjoins =
    elim (position (is_open_netjoin server1 server2) netjoins) [
      | some idx ↦ (netjoins, idx)
      | none ↦ (
        netjoins
            ++ record {
              server1 = server1;
              server2 = server2;
              records = [];
              last_join = now;
              printed = false;
            }
              ∷ [],
        length netjoins,
      )
    ]

-- `HashSet::insert`.
abbrev pub insert_channel : Text → List Text → List Text
insert_channel c cs = if any (text_eq c) cs then cs else cs ++ c ∷ []

-- The record of the nick gets the channel, or a new record is pushed.
abbrev pub add_join : Text → Text → List NetjoinRecord → List NetjoinRecord
add_join nick buffer_id [] = record { nick = nick; channels = buffer_id ∷ [] } ∷ []
add_join nick buffer_id (r ∷ rs) =
    let rest = add_join nick buffer_id rs in
    if eq_ignore_ascii_case r.nick nick
    then record r { channels = insert_channel buffer_id r.channels } ∷ rs
    else r ∷ rest

abbrev pub join_group : Text → Text → ℕ → NetjoinGroup → NetjoinGroup
join_group nick buffer_id now g = record g {
  records = add_join nick buffer_id g.records;
  last_join = now;
}

-- The join of a nick that the index sends to the group `g`.
unfoldable pub record_join :
    (Text → Text) → NetsplitState → Text → Text → SplitGroup → ℕ → NetsplitState
unfolding netjoin_group_for
record_join to_lowercase s nick buffer_id g now =
    let (netjoins, idx) = netjoin_group_for g.server1 g.server2 now s.netjoins in
    record s {
      netjoins = modify idx (join_group nick buffer_id now) netjoins;
      nick_index = remove (to_lowercase nick) s.nick_index;
    }

-- `group_idx >= self.groups.len()` is `get_elem?` giving `none`.
unfoldable pub handle_join : (Text → Text) → NetsplitState → Text → Text → ℕ → NetsplitState × Bool
unfolding record_join
handle_join to_lowercase s nick buffer_id now = elim (get (to_lowercase nick) s.nick_index) [
  | none ↦ (s, false)
  | some group_idx ↦ elim (get_elem? s.groups group_idx) [
    | none ↦ (record s { nick_index = remove (to_lowercase nick) s.nick_index }, false)
    | some g ↦ (record_join to_lowercase s nick buffer_id g now, true)
  ]
]

-- `now.duration_since(t)` is zero for a later `t`.
abbrev pub split_due : ℕ → SplitGroup → Bool
split_due now g = not g.printed && leb split_batch_wait (now - g.last_quit)

abbrev pub netjoin_due : ℕ → NetjoinGroup → Bool
netjoin_due now g = not g.printed && leb netjoin_batch_wait (now - g.last_join)

unfoldable pub print_splits : ℕ → List SplitGroup → List SplitGroup × List NetsplitMessage
unfolding format_split_messages
print_splits now [] = ([], [])
print_splits now (g ∷ gs) =
    let (rest, messages) = print_splits now gs in
    if split_due now g
    then (record g { printed = true } ∷ rest, format_split_messages g ++ messages)
    else (g ∷ rest, messages)

unfoldable pub print_netjoins : ℕ → List NetjoinGroup → List NetjoinGroup × List NetsplitMessage
unfolding format_netjoin_messages
print_netjoins now [] = ([], [])
print_netjoins now (g ∷ gs) =
    let (rest, messages) = print_netjoins now gs in
    if netjoin_due now g
    then (record g { printed = true } ∷ rest, format_netjoin_messages g ++ messages)
    else (g ∷ rest, messages)

abbrev pub split_lives : ℕ → SplitGroup → Bool
split_lives now g = ltb (now - g.last_quit) split_expire

abbrev pub netjoin_lives : ℕ → NetjoinGroup → Bool
netjoin_lives now g = ltb (now - g.last_join) split_expire

-- The inner loop of the rebuild: the nicks of the group at `idx`.
unfoldable pub index_nicks : (Text → Text) → ℕ → List SplitRecord → Map Text ℕ → Map Text ℕ
index_nicks to_lowercase idx [] m = m
index_nicks to_lowercase idx (rec ∷ recs) m =
    index_nicks to_lowercase idx recs (insert (to_lowercase rec.nick) idx m)

-- The outer loop, from the group at `idx`.
unfoldable pub index_groups : (Text → Text) → ℕ → List SplitGroup → Map Text ℕ → Map Text ℕ
unfolding index_nicks
index_groups to_lowercase idx [] m = m
index_groups to_lowercase idx (g ∷ gs) m =
    index_groups to_lowercase (suc idx) gs (index_nicks to_lowercase idx g.nicks m)

unfoldable pub tick : (Text → Text) → NetsplitState → ℕ → NetsplitState × List NetsplitMessage
tick to_lowercase s now =
    let (groups, splits) = print_splits now s.groups in
    let (netjoins, joins) = print_netjoins now s.netjoins in
    let groups' = retain (split_lives now) groups in
    (
      record {
        groups = groups';
        nick_index = index_groups to_lowercase 0 groups' [];
        netjoins = retain (netjoin_lives now) netjoins;
      },
      splits ++ joins,
    )

unfoldable pub is_expired_split_nick : (Text → Text) → NetsplitState → Text → ℕ → Bool
is_expired_split_nick to_lowercase s nick now = elim (get (to_lowercase nick) s.nick_index) [
  | none ↦ false
  | some idx ↦ elim (get_elem? s.groups idx) [
    | none ↦ false
    | some g ↦ leb split_expire (now - g.last_quit)
  ]
]
