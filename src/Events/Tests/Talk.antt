-- ===== src/Events/Tests/Talk.antt =====
-- What users say, and whole sequences of events, at concrete inputs.
use repartee_desktop.Events.Tests.{World, codes, List, world, start, bob, start-IsApp}
use repartee_desktop.Events.Talk.{handle_privmsg, channel_of}
use repartee_desktop.Events.Spoken.{seen_text, handle_privmsg-none}
use repartee_desktop.Events.Kept.{run_events-IsUp}
use repartee_desktop.Events.Kept.Talk.{IsUp}
use repartee_desktop.Events.Dispatch.{
  IrcEvent, Command, IrcMessage, run_events, received, connection_lost, quit_command,
  privmsg_command,
}
use repartee_desktop.Base.{false, refl, ◌↔◌, ◌≡◌, [], Text, ◌∷◌, none}
use repartee_desktop.Events.{extract_nick_userhost, is_ignored}
use repartee_desktop.Irc.Ignore.{ctcps}
use repartee_desktop.Events.Encryption.{decrypted}

abbrev from_bob : Command → IrcMessage
from_bob c = record { tags = none; prefix = bob; command = c }

abbrev evening : List (World × Text × IrcEvent)
evening =
    (world, codes "n", received (from_bob (privmsg_command (codes "#a") (codes "hi me"))))
    ∷ (world, codes "n", received (from_bob (privmsg_command (codes "me") (1 ∷ 2 ∷ 1 ∷ []))))
    ∷ (world, codes "n", received (from_bob (quit_command none)))
    ∷ (world, codes "n", connection_lost none)
    ∷ []

run_events-IsUp_example : IsUp (run_events start evening)
unfolding decrypted
run_events-IsUp_example = run_events-IsUp start evening refl start-IsApp

abbrev lone_byte : Text
lone_byte = 1 ∷ []

-- The one byte that begins and ends a CTCP makes the client panic.
handle_privmsg-none_example :
    (handle_privmsg world start (codes "n") (codes "me") bob (codes "#a") lone_byte none ≡ none) ↔ (
      (seen_text world (codes "me") bob (codes "#a") lone_byte ≡ 1 ∷ [])
      × (is_ignored world start
            (extract_nick_userhost bob).0
            (extract_nick_userhost bob).1
            (extract_nick_userhost bob).2
            ctcps
            (channel_of (codes "#a"))
          ≡ false))
handle_privmsg-none_example =
    handle_privmsg-none world start (codes "n") (codes "me") bob (codes "#a") lone_byte none
