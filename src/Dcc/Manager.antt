-- ===== src/Dcc/Manager.antt =====
-- The methods of `DccManager` of src/dcc/mod.rs. Unicode lower case, the sending into a session's
-- channel and the texts of its errors are parameters. A method that reads the clock takes the time.
use repartee_desktop.Base.{
  ◌==◌, ◌&&◌, ◌||◌, ◌++◌, ◌*◌, ◌+◌, ◌-◌, ltb, leb, not, ◌∷◌, [], ℕ, zero, suc, List, Bool, true,
  false, Option, none, some, Text, codes, show_number, text_eq, if◌then◌else◌,
}
use repartee_desktop.Base.Maps.{Map, get, contains_key, insert, remove, adjust, size, Text_eq}
use repartee_desktop.Dcc.{
  IpAddr, DccState, waiting_user, listening, connecting, connected, DccRecord, DccManager,
}

abbrev pub new : {S : Type 0} → DccManager S
new = record {
  records = [];
  chat_senders = [];
  timeout_secs = 300;
  port_range = (0, 0);
  own_ip = none;
  autoaccept_lowports = false;
  autochat_masks = [];
  max_connections = 10;
}

-- `WaitingUser | Listening`.
abbrev pub is_pending : DccState → Bool
is_pending waiting_user = true
is_pending listening = true
is_pending connecting = false
is_pending connected = false

abbrev pub is_connected : DccState → Bool
is_connected connected = true
is_connected _ = false

abbrev pub is_waiting : DccState → Bool
is_waiting waiting_user = true
is_waiting _ = false

-- The first value that passes a test, and the first key.
abbrev pub find_value : (DccRecord → Bool) → Map Text DccRecord → Option DccRecord
find_value p [] = none
find_value p ((k, r) ∷ m) = if p r then some r else find_value p m

abbrev pub find_key : (DccRecord → Bool) → Map Text DccRecord → Option Text
find_key p [] = none
find_key p ((k, r) ∷ m) = if p r then some k else find_key p m

-- The keys of the values that pass a test.
abbrev pub keys_where : (DccRecord → Bool) → Map Text DccRecord → List Text
keys_where p [] = []
keys_where p ((k, r) ∷ m) = let rest = keys_where p m in if p r then k ∷ rest else rest

-- `max_by_key`: of equal keys the last.
abbrev pub latest : Option DccRecord → Map Text DccRecord → Option DccRecord
latest best [] = best
latest none ((k, r) ∷ m) = if is_waiting r.state then latest (some r) m else latest none m
latest (some b) ((k, r) ∷ m) =
    if is_waiting r.state && leb b.created r.created then latest (some r) m else latest (some b) m

-- The first candidate from a number on that is free, within so many tries.
unfoldable pub next_free : Map Text DccRecord → Text → ℕ → ℕ → Option Text
next_free records base zero n = none
next_free records base (suc f) n =
    let rest = next_free records base f (n + 1) in
    if contains_key (base ++ show_number n) records then rest else some (base ++ show_number n)

abbrev pub is_expired : ℕ → ℕ → DccRecord → Bool
is_expired timeout_secs now r = is_pending r.state && ltb (timeout_secs * 1000) (now - r.created)

abbrev pub has_nick : (Text → Text) → Text → DccRecord → Bool
has_nick lower nick r = text_eq (lower r.nick) (lower nick)

-- A sender moves with its session.
abbrev pub move_sender : {S : Type 0} → Text → Text → Map Text S → Map Text S
move_sender old_id new_id senders = elim (get old_id senders) [
  | none ↦ senders
  | some sender ↦ insert new_id sender (remove old_id senders)
]

module _ {S : Type 0} (lower : Text → Text) where
  unfoldable pub generate_id : DccManager S → Text → Option Text
  generate_id m nick =
      if contains_key (lower nick) m.records
      then next_free m.records (lower nick) (suc (size m.records)) 2
      else some (lower nick)

  unfoldable pub find_pending : DccManager S → Text → Option DccRecord
  find_pending m nick = find_value (λ r. has_nick lower nick r && is_pending r.state) m.records

  unfoldable pub find_latest_pending : DccManager S → Option DccRecord
  find_latest_pending m = latest none m.records

  unfoldable pub find_connected : DccManager S → Text → Option DccRecord
  find_connected m nick = find_value (λ r. has_nick lower nick r && is_connected r.state) m.records

  -- The expired records are taken out one after the other.
  abbrev pub take_out : List Text → DccManager S → DccManager S × List (Text × Text)
  take_out [] m = (m, [])
  take_out (id ∷ ids) m =
      let (m', out) =
        take_out ids
          (record m { records = remove id m.records; chat_senders = remove id m.chat_senders }) in
      elim (get id m.records) [ none ↦ (m', out) | some r ↦ (m', (id, r.nick) ∷ out) ]

  unfoldable pub purge_expired : ℕ → DccManager S → DccManager S × List (Text × Text)
  purge_expired now m = take_out (keys_where (is_expired m.timeout_secs now) m.records) m

  abbrev pub rekey : Text → Text → DccRecord → DccManager S → Option (DccManager S × Text)
  rekey old_id new_nick r m =
      let without = record m { records = remove old_id m.records } in
      elim (generate_id without new_nick) [
        | none ↦ none
        | some new_id ↦ some (
          record without {
            records = insert new_id (record r { nick = new_nick; id = new_id }) without.records;
            chat_senders = move_sender old_id new_id m.chat_senders;
          },
          new_id,
        )
      ]

  abbrev pub rekey_all :
      Text → List Text → DccManager S → Option (DccManager S × List (Text × Text × Text × Text))
  rekey_all new_nick [] m = some (m, [])
  rekey_all new_nick (old_id ∷ ids) m = elim (get old_id m.records) [
    | none ↦ rekey_all new_nick ids m
    | some r ↦ elim (rekey old_id new_nick r m) [
      | none ↦ none
      | some (m', new_id) ↦ elim (rekey_all new_nick ids m') [
        | none ↦ none
        | some (m'', renamed) ↦ some (m'', (old_id, new_id, b'=' ∷ old_id, b'=' ∷ new_id) ∷ renamed)
      ]
    ]
  ]

  unfoldable pub update_nick :
      DccManager S → Text → Text → Option (DccManager S × List (Text × Text × Text × Text))
  update_nick m old_nick new_nick =
      rekey_all new_nick (keys_where (has_nick lower old_nick) m.records) m

  unfoldable pub close_by_nick : DccManager S → Text → DccManager S × Option DccRecord
  close_by_nick m nick = elim (find_key (has_nick lower nick) m.records) [
    | none ↦ (m, none)
    | some id ↦ (record m { records = remove id m.records }, get id m.records)
  ]

unfoldable pub close_by_id : {S : Type 0} → DccManager S → Text → DccManager S × Option DccRecord
close_by_id m id = (record m { records = remove id m.records }, get id m.records)

-- What sending a line says: nothing, or the text of the error. `try_send` gives the text of the
-- channel's error.
unfoldable pub send_chat_line :
    {S : Type 0}
    → (debug : Text → Text) (try_send : S → Text → Option Text) → DccManager S
    → Text
    → Text
    → Option Text
send_chat_line debug try_send m id text = elim (get id m.chat_senders) [
  | none ↦ some (codes "no active DCC CHAT session for id " ++ debug id)
  | some sender ↦ elim (try_send sender text) [
    | none ↦ none
    | some e ↦ some (codes "DCC CHAT session " ++ (debug id ++ (codes " send failed: " ++ e)))
  ]
]

abbrev pub any_match : (Text → Text → Bool) → List Text → Text → Bool
any_match is_match [] s = false
any_match is_match (p ∷ ps) s = is_match p s || any_match is_match ps s

-- `is_match pattern s` is what the regular expression of a wildcard pattern says of a text.
unfoldable pub should_auto_accept :
    {S : Type 0} → (is_match : Text → Text → Bool) → DccManager S → Text → Text → Text → ℕ → Bool
should_auto_accept is_match m nick ident host port =
    if not (port == 0) && (leb port 1023 && not m.autoaccept_lowports)
    then false
    else any_match is_match m.autochat_masks (nick ++ (b'!' ∷ (ident ++ (b'@' ∷ host))))

abbrev pub has_token : ℕ → DccRecord → Bool
has_token token r = elim r.passive_token [ none ↦ false | some t ↦ t == token ]

-- What `handle_irc_event` of src/app/irc.rs makes of an offer with a token and a port: the first
-- record with the token is connected to the offer's address.
unfoldable pub answer_passive :
    {S : Type 0} → DccManager S → IpAddr → ℕ → ℕ → S → Option (DccManager S × Text)
answer_passive m addr port token line_tx = elim (find_key (has_token token) m.records) [
  | none ↦ none
  | some id ↦ some (
    record m {
      records =
          adjust id (λ r. record r { addr = addr; port = port; state = connecting }) m.records;
      chat_senders = insert id line_tx m.chat_senders;
    },
    id,
  )
]
