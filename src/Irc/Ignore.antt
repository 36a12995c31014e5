-- ===== src/Irc/Ignore.antt =====
-- The ignore list and its cache of regular expressions: src/irc/ignore.rs. The regex crate and
-- Unicode lower case are parameters; a panic is `none`.
use repartee_desktop.Base.{
  ◌==◌, ◌&&◌, ◌||◌, ◌++◌, leb, not, ◌∷◌, [], ℕ, List, Bool, true, false, Option, none, some, codes,
  text_eq, if◌then◌else◌, has_byte, any, is_empty,
}
use repartee_desktop.Base.Chars.{Str}
use repartee_desktop.Base.Maps.{Map, get, contains_key, insert, size, Text_eq}

pub data IgnoreLevel : Type 0 where
  msgs public notices actions joins parts quits nicks kicks ctcps all_levels : IgnoreLevel

abbrev pub level_index : IgnoreLevel → ℕ
level_index msgs = 0
level_index public = 1
level_index notices = 2
level_index actions = 3
level_index joins = 4
level_index parts = 5
level_index quits = 6
level_index nicks = 7
level_index kicks = 8
level_index ctcps = 9
level_index all_levels = 10

-- `==` on levels.
abbrev pub level_eq : IgnoreLevel → IgnoreLevel → Bool
level_eq a b = level_index a == level_index b

pub record IgnoreEntry : Type 0 where
  pub mask : Str
  pub levels : List IgnoreLevel
  pub channels : Option (List Str)

abbrev pub regex_cache_max : ℕ
regex_cache_max = 200

abbrev pub is_metacharacter : ℕ → Bool
is_metacharacter c = has_byte c (codes ".+^${}()|[]\\")

abbrev pub escape : ℕ → Str
escape c =
    if c == b'*'
    then codes ".*"
    else (if c == b'?' then codes "." else (if is_metacharacter c then b'\\' ∷ c ∷ [] else c ∷ []))

abbrev pub escape_all : Str → Str
escape_all [] = []
escape_all (c ∷ s) = escape c ++ escape_all s

-- The text of the regular expression of a pattern.
unfoldable pub wildcard_source : Str → Str
wildcard_source pattern = codes "(?i)^" ++ (escape_all pattern ++ codes "$")

abbrev pub or_star : Option Str → Str
or_star none = codes "*"
or_star (some s) = s

abbrev pub build_mask : Str → Option Str → Option Str → Str
build_mask nick ident hostname = nick ++ (b'!' ∷ (or_star ident ++ (b'@' ∷ or_star hostname)))

module _ {R : Type 0} (compile : Str → Option R) where
  -- A full cache is emptied before it takes a pattern that it does not have.
  abbrev pub evict : Str → Map Str R → Map Str R
  evict pattern cache =
      if leb regex_cache_max (size cache) && not (contains_key pattern cache) then [] else cache

  abbrev pub or_insert : Str → Map Str R → Option R → Option (Map Str R × R)
  or_insert pattern cache (some re) = some (cache, re)
  or_insert pattern cache none = elim (compile (wildcard_source pattern)) [
    | none ↦ none
    | some re ↦ some (insert pattern re cache, re)
  ]

  unfoldable pub cached_wildcard_regex : Map Str R → Str → Option (Map Str R × R)
  cached_wildcard_regex cache pattern =
      or_insert pattern (evict pattern cache) (get pattern (evict pattern cache))

-- What is asked: the nick, the full mask, the level and the channel.
pub record Question : Type 0 where
  pub nick : Str
  pub full_mask : Str
  pub level : IgnoreLevel
  pub channel : Option Str

abbrev pub is_level : IgnoreEntry → IgnoreLevel → Bool
is_level entry level = any (λ l. level_eq l all_levels || level_eq l level) entry.levels

abbrev pub subject : Str → Str → Str → Str
subject pattern nick full_mask = if has_byte b'!' pattern then full_mask else nick

module _ (lower : Str → Str) where
  abbrev pub among : List Str → Option Str → Bool
  among channels none = false
  among channels (some ch) = any (λ ec. text_eq (lower ec) (lower ch)) channels

  abbrev pub allows : Option (List Str) → Option Str → Bool
  allows none channel = true
  allows (some channels) channel = is_empty channels || among channels channel

module _ {R : Type 0} (compile : Str → Option R) (is_match : R → Str → Bool) where
  unfoldable pub ignore_loop :
      (Str → Str) → List IgnoreEntry → Question → Map Str R → Option (Map Str R × Bool)
  ignore_loop lower [] q cache = some (cache, false)
  ignore_loop lower (entry ∷ entries) q cache =
      if is_level entry q.level
      then elim (cached_wildcard_regex compile cache entry.mask) [
        | none ↦ none
        | some (cache', re) ↦
            let rest = ignore_loop lower entries q cache' in
            if is_match re (subject entry.mask q.nick q.full_mask)
              && allows lower entry.channels q.channel
            then some (cache', true)
            else rest
      ]
      else ignore_loop lower entries q cache

  unfoldable pub should_ignore :
      (Str → Str)
      → List IgnoreEntry
      → Str
      → Option Str
      → Option Str
      → IgnoreLevel
      → Option Str
      → Map Str R
      → Option (Map Str R × Bool)
  should_ignore lower ignores nick ident hostname level channel cache =
      ignore_loop lower ignores
        (record {
          nick = nick;
          full_mask = build_mask nick ident hostname;
          level = level;
          channel = channel;
        })
        cache

  unfoldable pub pattern_loop : List Str → Str → Str → Map Str R → Option (Map Str R × Bool)
  pattern_loop [] nick full_mask cache = some (cache, false)
  pattern_loop (pattern ∷ patterns) nick full_mask cache =
      elim (cached_wildcard_regex compile cache pattern) [
        | none ↦ none
        | some (cache', re) ↦
            let rest = pattern_loop patterns nick full_mask cache' in
            if is_match re (subject pattern nick full_mask) then some (cache', true) else rest
      ]

  unfoldable pub matches_mask_patterns :
      List Str → Str → Option Str → Option Str → Map Str R → Option (Map Str R × Bool)
  matches_mask_patterns patterns nick ident hostname cache =
      pattern_loop patterns nick (build_mask nick ident hostname) cache
