-- ===== src/Commands/Tests.antt =====
-- Commands at concrete inputs.
use repartee_desktop.Base.{◌∷◌, [], ascii_lower, map, ◌≡◌, codes, some, none, refl}
use repartee_desktop.Base.Chars.{is_whitespace, split_once, Str}
use repartee_desktop.Commands.{parse_command}

abbrev ascii : Str → Str
ascii s = map ascii_lower s

kick_words :
    parse_command ascii (codes "/KICK  bob alice :out you go")
    ≡ some (record {
      name = codes "kick";
      args = codes "bob" ∷ codes "alice" ∷ codes ":out" ∷ codes "you" ∷ codes "go" ∷ [];
    })
unfolding parse_command split_once is_whitespace
kick_words = refl

quit_alone : parse_command ascii (codes "/quit") ≡ some (record { name = codes "quit"; args = [] })
unfolding parse_command split_once
quit_alone = refl

plain_text : parse_command ascii (codes "hello") ≡ none
unfolding parse_command
plain_text = refl
