-- ===== src/Netsplit/Format.antt =====
-- The summaries of src/irc/netsplit.rs: one message for each channel, with the nicks that were
-- in it. The program's table iterates in an order that it does not fix.
use repartee_desktop.Base.{
  ◌-◌, take, join, length, ltb, if◌then◌else◌, none, map, ◌++◌, some, codes, ◌∷◌, [], Text, List,
  Option, show_number,
}
use repartee_desktop.Base.Maps.{Text_eq, Map, insert, get}
use repartee_desktop.Netsplit.{
  max_nicks_display, NetsplitMessage, NetjoinRecord, SplitRecord, NetjoinGroup, SplitGroup,
}

unfoldable pub format_nick_list : List Text → Text
unfolding show_number
format_nick_list nicks =
    if ltb max_nicks_display (length nicks)
    then join (codes ", ") (take max_nicks_display nicks)
      ++ (codes " (+" ++ (show_number (length nicks - max_nicks_display) ++ codes " more)"))
    else join (codes ", ") nicks

abbrev pub or_empty : Option (List Text) → List Text
or_empty none = []
or_empty (some ts) = ts

-- `channel_nicks.entry(ch).or_default().push(nick)`, for each channel.
unfoldable pub push_channels : Text → List Text → Map Text (List Text) → Map Text (List Text)
unfolding get insert
push_channels nick [] m = m
push_channels nick (ch ∷ chs) m =
    push_channels nick chs (insert ch (or_empty (get ch m) ++ nick ∷ []) m)

unfoldable pub group_split : List SplitRecord → Map Text (List Text) → Map Text (List Text)
unfolding push_channels
group_split [] m = m
group_split (rec ∷ recs) m = group_split recs (push_channels rec.nick rec.channels m)

unfoldable pub group_netjoin : List NetjoinRecord → Map Text (List Text) → Map Text (List Text)
unfolding push_channels
group_netjoin [] m = m
group_netjoin (rec ∷ recs) m = group_netjoin recs (push_channels rec.nick rec.channels m)

-- The arrow between the servers, U+21C4, in UTF-8.
abbrev arrow : Text
arrow = 0xe2 ∷ 0x87 ∷ 0x84 ∷ []

split_text : Text → Text → List Text → Text
unfolding format_nick_list
split_text server1 server2 nicks =
    codes "Netsplit "
    ++ (server1
        ++ (codes " "
            ++ (arrow ++ (codes " " ++ (server2 ++ (codes " quits: " ++ format_nick_list nicks))))))

netjoin_text : Text → Text → List Text → Text
unfolding format_nick_list
netjoin_text server1 server2 nicks =
    codes "Netsplit over "
    ++ (server1
        ++ (codes " "
            ++ (arrow ++ (codes " " ++ (server2 ++ (codes " joins: " ++ format_nick_list nicks))))))

unfoldable pub format_split_messages : SplitGroup → List NetsplitMessage
unfolding group_split split_text
format_split_messages group =
    map
      (λ (e : Text × List Text). record {
        buffer_ids = e.0 ∷ [];
        text = split_text group.server1 group.server2 e.1;
      })
      (group_split group.nicks [])

unfoldable pub format_netjoin_messages : NetjoinGroup → List NetsplitMessage
unfolding group_netjoin netjoin_text
format_netjoin_messages group =
    map
      (λ (e : Text × List Text). record {
        buffer_ids = e.0 ∷ [];
        text = netjoin_text group.server1 group.server2 e.1;
      })
      (group_netjoin group.records [])
