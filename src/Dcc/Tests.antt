-- ===== src/Dcc/Tests.antt =====
-- Direct chats at concrete inputs.
use repartee_desktop.Base.{
  ap, ◌⊎◌, ltb, if◌then◌else◌, true, false, ascii_lower, decimal_digits, none, some, show_number,
  map, Option, List, codes, Text, arith, ◌≡◌, ◌++◌, ◌∷◌, ℕ, refl, [],
}
use repartee_desktop.Base.Maps.{Distinct, get, contains_key, size, Text_eq}
use repartee_desktop.E2e.Wire.{Decoded, decoded, refused}
use repartee_desktop.Dcc.{
  v6, waiting_user, chat, connected, DccState, IpAddr, v4, DccRecord, DccManager,
}
use repartee_desktop.Dcc.Protocol.{
  decode_ip, ctcp_body, encode_ip, parse_dcc_ctcp, build_dcc_chat_ctcp, Library,
}
use repartee_desktop.Dcc.Manager.{
  send_chat_line, purge_expired, close_by_nick, update_nick, has_nick, find_key, next_free,
  generate_id, new,
}
use repartee_desktop.Base.Chars.{is_ascii_whitespace, Str}
use repartee_desktop.E2e.Coders.{decode_pairs-encode, decode_pairs, encode_pairs-hex, encode_pairs}
use repartee_desktop.Dcc.Offers.{parse-build, IsDocumented}
use repartee_desktop.Dcc.Ports.{pick_bind_port-range, parse_port_range, pick_bind_port}
use repartee_desktop.E2e.Lines.{hex-graphic}
use repartee_desktop.Dcc.Ids.{generate_id_lem, IsFree}
use repartee_desktop.Base.Numbers.{digits_from, parse_unsigned}
use repartee_desktop.Dcc.Renames.{IsMoved, IsIn, IsKept}
use repartee_desktop.Dcc.Closing.{IsOverdue, purge_expired-sessions, close_by_nick-sends}
use repartee_desktop.Dcc.Sessions.{update_nick_lem}

-- Sixteen octets in hexadecimal after a colon.
abbrev colon_ip : Decoded → Option IpAddr
colon_ip (decoded o) = some (v6 o)
colon_ip (refused text) = none

abbrev colon_decode : Str → Option IpAddr
colon_decode [] = none
colon_decode (c ∷ s) = colon_ip (decode_pairs s)

abbrev library : Library
library = record {
  show_v6 = λ o. b':' ∷ encode_pairs o;
  parse_ip = colon_decode;
  address_error = λ s. [];
  number_error = λ s. [];
  debug = λ s. s;
}

library-IsDocumented : IsDocumented library
library-IsDocumented = record {
  v6_graphic = λ o. ground (arith, hex-graphic (encode_pairs o) (encode_pairs-hex o));
  v6_colon = λ o. refl;
  v6_round = λ o h. ap colon_ip (decode_pairs-encode o h.1);
}

home_offer :
    build_dcc_chat_ctcp library (v4 192 168 1 100) 12345 none
    ≡ 1 ∷ (codes "DCC CHAT CHAT 3232235876 12345" ++ (1 ∷ []))
unfolding build_dcc_chat_ctcp encode_ip show_number decimal_digits
home_offer = refl

lower_case_offer :
    parse_dcc_ctcp library (codes "DCC chat chat 2130706433 5000 7")
    ≡ some (record {
      dcc_type = codes "CHAT";
      addr = v4 127 0 0 1;
      port = 5000;
      passive_token = some 7;
    })
unfolding parse_dcc_ctcp is_ascii_whitespace decode_ip parse_unsigned digits_from
lower_case_offer = refl

send_refused : parse_dcc_ctcp library (codes "DCC SEND file.txt 2130706433 5000 1024") ≡ none
unfolding parse_dcc_ctcp is_ascii_whitespace decode_ip parse_unsigned digits_from
send_refused = refl

parse-build_example :
    (body : Str) × (ctcp_body (build_dcc_chat_ctcp library (v4 192 168 1 100) 12345 (some 42))
      ≡ some body)
    × (parse_dcc_ctcp library body
        ≡ some (record {
          dcc_type = codes "CHAT";
          addr = v4 192 168 1 100;
          port = 12345;
          passive_token = some 42;
        }))
parse-build_example =
    parse-build library (v4 192 168 1 100) 12345 (some 42) library-IsDocumented
      (omega arith, omega arith, omega arith, omega arith) (omega arith) (omega arith)

-- ASCII lower case stands for the one of Unicode, and a number for a channel.
abbrev ascii : Text → Text
ascii s = map ascii_lower s

abbrev session : Text → Text → DccState → DccRecord
session id nick state = record {
  id = id;
  dcc_type = chat;
  nick = nick;
  conn_id = codes "libera";
  addr = v4 127 0 0 1;
  port = 12345;
  state = state;
  passive_token = none;
  created = 0;
  started = none;
  bytes_transferred = 0;
  mirc_ctcp = true;
  ident = codes "user";
  host = codes "example.com";
}

abbrev manager : DccManager ℕ
manager = record new {
  records =
      (codes "alice", session (codes "alice") (codes "Alice") connected)
      ∷ (codes "bob", session (codes "bob") (codes "Bob") waiting_user)
      ∷ [];
  chat_senders = (codes "alice", 7) ∷ [];
}

alice_again : generate_id ascii manager (codes "Alice") ≡ some (codes "alice2")
unfolding generate_id contains_key get next_free size show_number decimal_digits
alice_again = refl

manager-Distinct : Distinct manager.records
unfolding get
manager-Distinct = (refl, (refl, tt))

alice_there :
    get (codes "alice") manager.records ≡ some (session (codes "alice") (codes "Alice") connected)
unfolding get
alice_there = refl

alice_found : find_key (has_nick ascii (codes "ALICE")) manager.records ≡ some (codes "alice")
alice_found = refl

generate_id_lem_example :
    (id : Text) × (generate_id ascii manager (codes "Alice") ≡ some id)
    × IsFree manager.records (codes "alice") id
generate_id_lem_example = generate_id_lem ascii manager (codes "Alice")

update_nick_lem_example :
    (m' : DccManager ℕ) × (renamed : List (Text × Text × Text × Text)) × (update_nick ascii manager
        (codes "alice")
        (codes "Carol")
      ≡ some (m', renamed))
    × (((has_nick ascii (codes "alice") (session (codes "alice") (codes "Alice") connected) ≡ false)
          × IsKept ascii
              (codes "Carol")
              (codes "alice")
              (session (codes "alice") (codes "Alice") connected)
              manager
              m')
        ⊎ ((has_nick ascii (codes "alice") (session (codes "alice") (codes "Alice") connected)
              ≡ true)
            × IsMoved ascii
                (codes "Carol")
                (codes "alice")
                (session (codes "alice") (codes "Alice") connected)
                manager
                m'
                renamed))
update_nick_lem_example =
    update_nick_lem ascii manager (codes "alice") (codes "Carol") (codes "alice")
      (session (codes "alice") (codes "Alice") connected) manager-Distinct alice_there

-- The session with bob has waited for the user too long.
purge_expired-sessions_example :
    (IsOverdue 300 400000 (session (codes "bob") (codes "Bob") waiting_user)
      × (get (codes "bob") (purge_expired ascii 400000 manager).0.records ≡ none)
      × (get (codes "bob") (purge_expired ascii 400000 manager).0.chat_senders ≡ none)
      × IsIn (codes "bob", codes "Bob") (purge_expired ascii 400000 manager).1)
    ⊎ ((¬ IsOverdue 300 400000 (session (codes "bob") (codes "Bob") waiting_user))
        × (get (codes "bob") (purge_expired ascii 400000 manager).0.records
            ≡ some (session (codes "bob") (codes "Bob") waiting_user))
        × (get (codes "bob") (purge_expired ascii 400000 manager).0.chat_senders
            ≡ get (codes "bob") manager.chat_senders))
unfolding get
purge_expired-sessions_example =
    purge_expired-sessions ascii 400000 manager (codes "bob")
      (session (codes "bob") (codes "Bob") waiting_user) manager-Distinct refl

close_by_nick-sends_example :
    (contains_key (codes "alice") (close_by_nick ascii manager (codes "ALICE")).0.records ≡ false)
    × (send_chat_line
          (λ s. s)
          (λ x s. none)
          (close_by_nick ascii manager (codes "ALICE")).0
          (codes "alice")
          (codes "hi")
        ≡ send_chat_line (λ s. s) (λ x s. none) manager (codes "alice") (codes "hi"))
close_by_nick-sends_example =
    close_by_nick-sends ascii (λ s. s) (λ x s. none) manager (codes "ALICE") (codes "alice")
      (codes "hi") alice_found

pick_bind_port-range_example :
    pick_bind_port (λ lo hi. lo) (parse_port_range (show_number 2000 ++ (b'-' ∷ show_number 1000)))
    ≡ (if ltb 1000 2000 then none else some 2000)
pick_bind_port-range_example =
    pick_bind_port-range (λ lo hi. lo) 2000 1000 (omega arith) (omega arith) (omega arith)
