-- ===== src/Events/Entries.antt =====
-- The entries of a NAMES reply that src/irc/events.rs reads.
use repartee_desktop.Base.{false, true, arith, ◌++◌, [], none, some, Text, ℕ, List, ◌∷◌, ◌≡◌, refl}
use repartee_desktop.Base.Chars.{lacks, split_once-append}
use repartee_desktop.Events.Names.{
  leading_prefixes, parse_userhost, parse_names_entry, mode_with_prefix,
}

-- The prefix characters of some modes and prefixes.
abbrev pub prefixes : List (ℕ × ℕ) → Text
prefixes [] = []
prefixes ((mode, p) ∷ ps) = p ∷ prefixes ps

abbrev pub modes_of : List (ℕ × ℕ) → Text
modes_of [] = []
modes_of ((mode, p) ∷ ps) = mode ∷ modes_of ps

-- Each is the mode that the map has for the prefix.
abbrev pub Known : List (ℕ × ℕ) → List (ℕ × ℕ) → Type 0
Known prefix_map [] = Unit
Known prefix_map ((mode, p) ∷ ps) =
    (mode_with_prefix p prefix_map ≡ some mode) × Known prefix_map ps

-- A text does not begin with a prefix.
abbrev pub Unprefixed : List (ℕ × ℕ) → Text → Type 0
Unprefixed prefix_map [] = Unit
Unprefixed prefix_map (c ∷ s) = mode_with_prefix c prefix_map ≡ none

leading_prefixes-rest :
    (prefix_map : List (ℕ × ℕ)) (s : Text)
    → Unprefixed prefix_map s
    → leading_prefixes prefix_map s ≡ ([], [], s)
unfolding leading_prefixes
leading_prefixes-rest prefix_map [] h = refl
leading_prefixes-rest prefix_map (c ∷ s) h = ground (arith, h)

leading_prefixes-append :
    (prefix_map ps : List (ℕ × ℕ)) (s : Text)
    → Known prefix_map ps
    → Unprefixed prefix_map s
    → leading_prefixes prefix_map (prefixes ps ++ s) ≡ (prefixes ps, modes_of ps, s)
unfolding leading_prefixes
leading_prefixes-append prefix_map [] s k h = leading_prefixes-rest prefix_map s h
leading_prefixes-append prefix_map ((mode, p) ∷ ps) s k h =
    ground (arith, k.0, leading_prefixes-append prefix_map ps s k.1 h)

parse_userhost_lem :
    (nick ident host : Text)
    → lacks b'!' nick ≡ true
    → lacks b'@' ident ≡ true
    → parse_userhost (nick ++ b'!' ∷ (ident ++ b'@' ∷ host)) ≡ (nick, some ident, some host)
unfolding parse_userhost
parse_userhost_lem nick ident host n i =
    let outer = split_once-append b'!' nick (ident ++ b'@' ∷ host) n in
    let inner = split_once-append b'@' ident host i in rw (parse_userhost, outer, inner) refl

-- An entry that is written as the prefixes of a user's modes, the nick, the user name and the host
-- is read as just those, if the nick does not begin with a prefix and has no `!`, and the user
-- name has no `@`.
pub parse_names_entry_lem :
    (prefix_map ps : List (ℕ × ℕ)) (nick ident host : Text)
    → Known prefix_map ps
    → Unprefixed prefix_map (nick ++ b'!' ∷ (ident ++ b'@' ∷ host))
    → lacks b'!' nick ≡ true
    → lacks b'@' ident ≡ true
    → parse_names_entry (prefixes ps ++ (nick ++ b'!' ∷ (ident ++ b'@' ∷ host))) prefix_map true
      ≡ record {
        nick = nick;
        prefix = prefixes ps;
        modes = modes_of ps;
        away = false;
        account = none;
        ident = some ident;
        host = some host;
      }
unfolding parse_names_entry
parse_names_entry_lem prefix_map ps nick ident host k u n i =
    let rest = nick ++ b'!' ∷ (ident ++ b'@' ∷ host) in
    rw
      (
        parse_names_entry,
        leading_prefixes-append prefix_map ps rest k u,
        parse_userhost_lem nick ident host n i,
      )
      refl
