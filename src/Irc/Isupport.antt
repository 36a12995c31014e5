-- ===== src/Irc/Isupport.antt =====
-- What a server says it supports: src/irc/isupport.rs.
use repartee_desktop.Base.{
  not, any, ◌&&◌, true, false, ◌==◌, some, none, text_eq, [], Bool, codes, List, if◌then◌else◌,
  Option, ◌∷◌, ℕ,
}
use repartee_desktop.Base.Chars.{Str, split_once}
use repartee_desktop.Base.Numbers.{parse_unsigned}
use repartee_desktop.Base.Maps.{Map, get, contains_key, insert, remove, Text_eq}

-- The tokens by their keys.
abbrev pub Isupport : Type 0
Isupport = Map Str Str

abbrev pub store : Str → Option (Str × Str) → Isupport → Isupport
store token (some (key, value)) s = insert key value s
store token none s = insert token [] s

abbrev pub parse_token : Str → Isupport → Isupport
parse_token [] s = store [] (split_once b'=' []) s
parse_token (c ∷ token) s =
    if c == b'-' then remove token s else store (c ∷ token) (split_once b'=' (c ∷ token)) s

unfoldable pub parse_tokens : List Str → Isupport → Isupport
parse_tokens [] s = s
parse_tokens (token ∷ tokens) s = parse_tokens tokens (parse_token token s)

abbrev pub zip : Str → Str → List (ℕ × ℕ)
zip [] ps = []
zip (m ∷ ms) [] = []
zip (m ∷ ms) (p ∷ ps) = (m, p) ∷ zip ms ps

abbrev pub default_prefixes : List (ℕ × ℕ)
default_prefixes = (b'o', b'@') ∷ (b'v', b'+') ∷ []

abbrev pub prefixes_of : Option (Str × Str) → List (ℕ × ℕ)
prefixes_of none = default_prefixes
prefixes_of (some (modes, prefixes)) = zip modes prefixes

abbrev pub prefixes_in : Option Str → List (ℕ × ℕ)
prefixes_in none = default_prefixes
prefixes_in (some []) = default_prefixes
prefixes_in (some (c ∷ rest)) =
    if c == b'(' then prefixes_of (split_once b')' rest) else default_prefixes

unfoldable pub prefix_map : Isupport → List (ℕ × ℕ)
prefix_map s = prefixes_in (get (codes "PREFIX") s)

-- The text up to the next comma, and what follows it; no comma leaves nothing.
abbrev pub next_part : Str → Str × Str
next_part s = elim (split_once b',' s) [ none ↦ (s, []) | some parts ↦ parts ]

abbrev pub four_parts : Str → Str × Str × Str × Str
four_parts value =
    let (a, rest) = next_part value in
    let (b, rest') = next_part rest in let (c, d) = next_part rest' in (a, b, c, d)

unfoldable pub chanmode_types : Isupport → Str × Str × Str × Str
chanmode_types s = elim (get (codes "CHANMODES") s) [
  | none ↦ ([], [], [], [])
  | some value ↦ four_parts value
]

abbrev pub or_text : Str → Option Str → Str
or_text default none = default
or_text default (some value) = value

-- `usize` has 64 bits.
abbrev pub or_number : ℕ → Option Str → ℕ
or_number default none = default
or_number default (some value) = elim (parse_unsigned 18446744073709551615 value) [
  | none ↦ default
  | some n ↦ n
]

unfoldable pub network : Isupport → Option Str
network s = get (codes "NETWORK") s

unfoldable pub has_whox : Isupport → Bool
has_whox s = contains_key (codes "WHOX") s

unfoldable pub max_modes : Isupport → ℕ
max_modes s = or_number 3 (get (codes "MODES") s)

unfoldable pub statusmsg : Isupport → Str
statusmsg s = or_text [] (get (codes "STATUSMSG") s)

unfoldable pub casemapping : Isupport → Str
casemapping s = or_text (codes "rfc1459") (get (codes "CASEMAPPING") s)

unfoldable pub channel_len : Isupport → ℕ
channel_len s = or_number 200 (get (codes "CHANNELLEN") s)

unfoldable pub nick_len : Isupport → ℕ
nick_len s = or_number 9 (get (codes "NICKLEN") s)

unfoldable pub topic_len : Isupport → ℕ
topic_len s = or_number 307 (get (codes "TOPICLEN") s)

unfoldable pub chan_types : Isupport → Str
chan_types s = or_text (codes "#&") (get (codes "CHANTYPES") s)

abbrev pub extban_prefix : Option (Str × Str) → Option (ℕ × Str)
extban_prefix none = none
extban_prefix (some ([], types)) = none
extban_prefix (some (c ∷ s, types)) = some (c, types)

unfoldable pub extban : Isupport → Option (ℕ × Str)
extban s = elim (get (codes "EXTBAN") s) [
  | none ↦ none
  | some value ↦ extban_prefix (split_once b',' value)
]

-- `split(',')`: at least one part.
abbrev pub cons_first : ℕ → List Str → List Str
cons_first c [] = (c ∷ []) ∷ []
cons_first c (p ∷ ps) = (c ∷ p) ∷ ps

abbrev pub split_comma : Str → List Str
split_comma [] = [] ∷ []
split_comma (c ∷ s) = let rest = split_comma s in if c == b',' then [] ∷ rest else cons_first c rest

abbrev pub is_multi_mode : Option (Str × Str) → Bool
is_multi_mode none = false
is_multi_mode (some (cmd, limit)) =
    text_eq cmd (codes "MODE")
    && (not (text_eq limit (codes "1")) && not (text_eq limit (codes "0")))

unfoldable pub supports_multi_target_mode : Isupport → Bool
supports_multi_target_mode s = elim (get (codes "TARGMAX") s) [
  | none ↦ true
  | some targmax ↦ any (λ entry. is_multi_mode (split_once b':' entry)) (split_comma targmax)
]
