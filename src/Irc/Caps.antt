-- ===== src/Irc/Caps.antt =====
-- Capability negotiation: src/irc/cap.rs. Unicode upper case is a parameter.
use repartee_desktop.Base.{
  refl, if◌then◌else◌, none, false, some, [], true, ◌||◌, Bool, Option, List, arith, ◌≡◌, ◌++◌, ◌∷◌,
  map, ascii_lower, eq_ignore_ascii_case, codes,
}
use repartee_desktop.Base.Chars.{Str, split_once, split_whitespace}
use repartee_desktop.Irc.Isupport.{split_comma}

abbrev pub desired_caps : List Str
desired_caps =
    codes "multi-prefix"
    ∷ codes "extended-join"
    ∷ codes "server-time"
    ∷ codes "account-tag"
    ∷ codes "cap-notify"
    ∷ codes "away-notify"
    ∷ codes "account-notify"
    ∷ codes "chghost"
    ∷ codes "echo-message"
    ∷ codes "invite-notify"
    ∷ codes "batch"
    ∷ codes "userhost-in-names"
    ∷ codes "message-tags"
    ∷ codes "sasl"
    ∷ []

-- Names in lower case, with their values.
abbrev pub ServerCaps : Type 0
ServerCaps = List (Str × Option Str)

-- `to_ascii_lowercase`.
abbrev pub lower_name : Str → Str
lower_name s = map ascii_lower s

abbrev pub cap_of : Str → Option (Str × Str) → Str × Option Str
cap_of token none = (lower_name token, none)
cap_of token (some (name, value)) = (lower_name name, some value)

abbrev pub caps_of : List Str → ServerCaps
caps_of [] = []
caps_of (token ∷ tokens) = cap_of token (split_once b'=' token) ∷ caps_of tokens

unfoldable pub parse : Str → ServerCaps
parse caps_str = caps_of (split_whitespace caps_str)

unfoldable pub merge : ServerCaps → Str → ServerCaps
unfolding parse
merge caps caps_str = caps ++ parse caps_str

unfoldable pub has : ServerCaps → Str → Bool
has [] cap = false
has ((name, v) ∷ caps) cap = eq_ignore_ascii_case name cap || has caps cap

unfoldable pub value : ServerCaps → Str → Option Str
value [] cap = none
value ((name, v) ∷ caps) cap = if eq_ignore_ascii_case name cap then v else value caps cap

unfoldable pub negotiate : ServerCaps → List Str → List Str
unfolding has
negotiate caps [] = []
negotiate caps (cap ∷ desired) =
    let rest = negotiate caps desired in if has caps cap then lower_name cap ∷ rest else rest

abbrev pub mechanisms_in : (Str → Str) → Option Str → List Str
mechanisms_in to_uppercase none = codes "PLAIN" ∷ []
mechanisms_in to_uppercase (some []) = codes "PLAIN" ∷ []
mechanisms_in to_uppercase (some (c ∷ s)) = map to_uppercase (split_comma (c ∷ s))

unfoldable pub sasl_mechanisms : (Str → Str) → ServerCaps → List Str
unfolding has value
sasl_mechanisms to_uppercase caps =
    if has caps (codes "sasl") then mechanisms_in to_uppercase (value caps (codes "sasl")) else []

-- A set, here the list of its elements.
abbrev pub all_names : ServerCaps → List Str
all_names [] = []
all_names ((name, v) ∷ caps) = name ∷ all_names caps

-- A capability of any line that the server sent is there, in any case of letters.
pub has-merge :
    (caps : ServerCaps) (line cap : Str)
    → has (merge caps line) cap ≡ has caps cap || has (parse line) cap
unfolding has merge
has-merge [] line cap = refl
has-merge ((name, v) ∷ caps) line cap = ground (arith, has-merge caps line cap)

-- A value that an earlier line gave is the one that is used.
pub value-merge :
    (caps : ServerCaps) (line cap : Str)
    → has caps cap ≡ true
    → value (merge caps line) cap ≡ value caps cap
unfolding has value merge
value-merge [] line cap h = cc
value-merge ((name, v) ∷ caps) line cap h = ground (arith, value-merge caps line cap)
