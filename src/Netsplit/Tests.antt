-- ===== src/Netsplit/Tests.antt =====
-- The split tracker of src/irc/netsplit.rs at concrete inputs.
use repartee_desktop.Base.{
  ◌+◌, ◌≤◌, count_if, ◌++◌, arith, refl, true, false, ascii_lower, map, ◌≡◌, [], ◌∷◌, Text, codes,
}
use repartee_desktop.Netsplit.{new, NetsplitState}
use repartee_desktop.Netsplit.Detect.{is_valid_split_host, is_netsplit_quit}
use repartee_desktop.Netsplit.Handlers.{
  print_netjoins, print_splits, handle_join, tick, handle_quit,
}
use repartee_desktop.Netsplit.Format.{push_channels, format_split_messages, format_nick_list}
use repartee_desktop.Base.Maps.{insert, get, contains_key}
use repartee_desktop.Netsplit.Ticks.{split_count, netjoin_count, announced_once, announcements}
use repartee_desktop.Netsplit.Rejoin.{tick_readmits, handle_join-known}

abbrev lower : Text → Text
lower = map ascii_lower

abbrev split_message : Text
split_message = codes "hub.eu.net leaf.us.net"

abbrev alice : Text
alice = codes "Alice"

abbrev room : Text
room = codes "net/#a"

abbrev after_quit : NetsplitState
after_quit = record {
  groups =
      record {
        server1 = codes "hub.eu.net";
        server2 = codes "leaf.us.net";
        nicks = record { nick = alice; channels = room ∷ [] } ∷ [];
        last_quit = 1000;
        printed = false;
      }
      ∷ [];
  nick_index = (codes "alice", 0) ∷ [];
  netjoins = [];
}

message_accepted : is_netsplit_quit split_message ≡ true
unfolding is_netsplit_quit is_valid_split_host
message_accepted = refl

messages_refused :
    (is_netsplit_quit (codes "irc.server.net irc.server.net") ≡ false)
    × (is_netsplit_quit (codes "Quit: gone away") ≡ false)
    × (is_netsplit_quit (codes "a..bc d.ef") ≡ false)
unfolding is_netsplit_quit is_valid_split_host
messages_refused = (refl, refl, refl)

quit_recorded : handle_quit lower new alice split_message (room ∷ []) 1000 ≡ (after_quit, true)
unfolding handle_quit is_netsplit_quit is_valid_split_host insert
quit_recorded = refl

fifteen : format_nick_list (codes "a" ∷ codes "b" ∷ []) ≡ codes "a, b"
unfolding format_nick_list
fifteen = refl

announced :
    (tick lower after_quit 6000).1
    ≡ record {
      buffer_ids = room ∷ [];
      text =
          codes "Netsplit hub.eu.net " ++ (0xe2 ∷ 0x87 ∷ 0x84 ∷ codes " leaf.us.net quits: Alice");
    }
      ∷ []
unfolding tick print_splits print_netjoins format_split_messages format_nick_list push_channels get
    insert
announced = refl

handle_join-known_example : (handle_join lower after_quit alice room 2000).1 ≡ true
unfolding contains_key get
handle_join-known_example = handle_join-known lower after_quit alice room 2000 (omega arith)

-- Alice has rejoined before the tick, and her next JOIN is still taken for a rejoin.
tick_readmits_example :
    (handle_join lower
      (tick lower (handle_join lower after_quit alice room 2000).0 3000).0
      alice
      (codes "net/#b")
      900000).1
    ≡ true
unfolding handle_join get
tick_readmits_example =
    tick_readmits lower (handle_join lower after_quit alice room 2000).0 alice (codes "net/#b") 3000
      900000

announced_once_example :
    count_if (λ m. true) (announcements lower after_quit (6000 ∷ 7000 ∷ 8000 ∷ []))
    ≤ split_count (λ m. true) after_quit.groups + netjoin_count (λ m. true) after_quit.netjoins
announced_once_example = announced_once lower (λ m. true) after_quit (6000 ∷ 7000 ∷ 8000 ∷ [])
