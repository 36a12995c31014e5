-- ===== src/Irc/Extban.antt =====
-- Extended ban masks: src/irc/extban.rs. A mask is a list of code points.
use repartee_desktop.Base.{◌==◌, [], if◌then◌else◌, some, codes, none, Option, ◌++◌, ◌∷◌, ℕ}
use repartee_desktop.Base.Chars.{Str, split_once}

pub record Extban : Type 0 where
  pub ban_type : ℕ
  pub parameter : Option Str
  pub user : Str
  pub host : Str

-- The part after the type and its parameter: from the first `!`, or `*@*`.
abbrev pub type_and_userhost : Str → Str × Str
type_and_userhost remainder = elim (split_once b'!' remainder) [
  | none ↦ (remainder, codes "*@*")
  | some parts ↦ parts
]

-- What stands after a colon, if it is not empty; `none` when the mask is no extended ban.
abbrev pub parameter_of : Str → Option (Option Str)
parameter_of [] = some none
parameter_of (c ∷ []) = if c == b':' then some none else none
parameter_of (c ∷ d ∷ s) = if c == b':' then some (some (d ∷ s)) else none

abbrev pub user_and_host : Str → Str × Str
user_and_host userhost = elim (split_once b'@' userhost) [
  | none ↦ (userhost, codes "*")
  | some parts ↦ parts
]

abbrev pub extban_of : ℕ → Str × Str → Option Extban
extban_of ban_type (type_part, userhost) = elim (parameter_of type_part) [
  | none ↦ none
  | some parameter ↦ some (record {
    ban_type = ban_type;
    parameter = parameter;
    user = (user_and_host userhost).0;
    host = (user_and_host userhost).1;
  })
]

unfoldable pub parse_with_prefix : Str → ℕ → Option Extban
parse_with_prefix [] prefix = none
parse_with_prefix (c ∷ []) prefix = none
parse_with_prefix (c ∷ t ∷ remainder) prefix =
    if c == prefix then extban_of t (type_and_userhost remainder) else none

unfoldable pub parse : Str → Option Extban
unfolding parse_with_prefix
parse mask = parse_with_prefix mask b'$'

abbrev pub parameter_text : Option Str → Str
parameter_text none = []
parameter_text (some p) = b':' ∷ p

abbrev pub userhost : Extban → Str
userhost eb = eb.user ++ (b'@' ∷ eb.host)

-- `Display`.
abbrev pub fmt : Extban → Str
fmt eb = b'$' ∷ eb.ban_type ∷ (parameter_text eb.parameter ++ (b'!' ∷ userhost eb))

abbrev pub type_name : ℕ → Option Str
type_name t =
    if t == b'a'
    then some (codes "account")
    else (if t == b'c'
        then some (codes "channel")
        else (if t == b'j'
            then some (codes "realname")
            else (if t == b'n'
                then some (codes "nick-change")
                else (if t == b'o'
                    then some (codes "oper")
                    else (if t == b'r'
                        then some (codes "gecos")
                        else (if t == b's' then some (codes "server") else none))))))

abbrev pub friendly : Str → Extban → Str
friendly name eb = elim eb.parameter [
  | none ↦ name ++ (codes " (any) (" ++ (userhost eb ++ codes ")"))
  | some p ↦ name ++ (b':' ∷ (p ++ (codes " (" ++ (userhost eb ++ codes ")"))))
]

unfoldable pub display_friendly : Extban → Str
display_friendly eb = elim (type_name eb.ban_type) [
  | none ↦ friendly (eb.ban_type ∷ []) eb
  | some name ↦ friendly name eb
]

abbrev pub prefix_or_dollar : Option ℕ → ℕ
prefix_or_dollar none = b'$'
prefix_or_dollar (some c) = c

unfoldable pub format_ban_mask : Str → Option ℕ → Str
format_ban_mask mask extban_prefix =
    elim (parse_with_prefix mask (prefix_or_dollar extban_prefix)) [
      | none ↦ mask
      | some eb ↦ display_friendly eb ++ (codes " — " ++ mask)
    ]

unfoldable pub compose_account_ban : Str → Option ℕ → Str
compose_account_ban account extban_prefix =
    prefix_or_dollar extban_prefix ∷ (codes "a:" ++ (account ++ codes "!*@*"))
