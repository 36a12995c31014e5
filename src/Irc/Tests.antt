-- ===== src/Irc/Tests.antt =====
-- Extended bans and the ignore list at concrete inputs.
use repartee_desktop.Base.{
  Text, all, ◌++◌, true, any, has_byte, ◌∷◌, [], false, Bool, arith, ◌≡◌, codes, some, none, refl,
}
use repartee_desktop.Irc.Extban.{
  display_friendly, compose_account_ban, format_ban_mask, Extban, parse, parse_with_prefix, fmt,
}
use repartee_desktop.Base.Maps.{remove, Map, get, insert, size, contains_key}
use repartee_desktop.Base.Chars.{is_whitespace, Str}
use repartee_desktop.Irc.Caps
use repartee_desktop.Irc.Caps.{merge, has, value, sasl_mechanisms}
use repartee_desktop.Irc.Masks.{parse-display}
use repartee_desktop.Base.Chars.{split_once}
use repartee_desktop.Irc.Ignore.{
  build_mask, cached_wildcard_regex, notices, ignore_loop, msgs, should_ignore, wildcard_source,
  IgnoreEntry,
}
use repartee_desktop.Irc.Cache.{should_ignore_lem, says, IsCache}
use repartee_desktop.Irc.Isupport.{
  parse_tokens, chanmode_types, supports_multi_target_mode, prefix_map,
}
use repartee_desktop.Irc.Formatting.{strip_loop, strip_irc_formatting}
use repartee_desktop.Irc.Stripped.{strip_irc_formatting_lem, is_clean}

abbrev account_ban : Extban
account_ban = record {
  ban_type = b'a';
  parameter = some (codes "pat*");
  user = codes "*";
  host = codes "*";
}

account_parsed : parse_with_prefix (codes "~a:pat*") b'~' ≡ some account_ban
unfolding parse_with_prefix split_once
account_parsed = refl

no_colon : parse (codes "$aFOO!*@*") ≡ none
unfolding parse parse_with_prefix split_once
no_colon = refl

composed :
    parse (compose_account_ban (codes "patrick") none)
    ≡ some (record account_ban { parameter = some (codes "patrick") })
unfolding parse parse_with_prefix split_once compose_account_ban
composed = refl

shown :
    format_ban_mask (codes "$a:patrick!*@*") none ≡ codes "account:patrick (*@*) — $a:patrick!*@*"
unfolding format_ban_mask parse_with_prefix split_once display_friendly
shown = refl

parse-display_example : parse (fmt account_ban) ≡ some account_ban
parse-display_example = parse-display (codes "~a:pat*") b'~' account_ban account_parsed

-- A crate whose expression is its text, and which matches a text that is in lower case in it.
abbrev first_letter : Str → Str → Bool
first_letter [] s = false
first_letter re [] = false
first_letter re (c ∷ s) = has_byte c re

abbrev spammers : IgnoreEntry
spammers = record {
  mask = codes "spammer*";
  levels = msgs ∷ notices ∷ [];
  channels = some (codes "#rust" ∷ []);
}

escaped : wildcard_source (codes "*!*@a.b?") ≡ codes "(?i)^.*!.*@a\\.b.$"
unfolding wildcard_source
escaped = refl

ignored_in_channel :
    should_ignore some first_letter
      (λ s. s)
      (spammers ∷ [])
      (codes "spammer1")
      none
      none
      msgs
      (some (codes "#rust"))
      []
    ≡ some ((codes "spammer*", codes "(?i)^spammer.*$") ∷ [], true)
unfolding should_ignore ignore_loop cached_wildcard_regex wildcard_source get insert size
    contains_key
ignored_in_channel = refl

empty-IsCache : IsCache {R = Str} some []
unfolding size get
empty-IsCache = (omega arith, λ p re e. ground arith)

should_ignore_lem_example :
    (cache : Map Str Str) × (should_ignore some first_letter
        (λ s. s)
        (spammers ∷ [])
        (codes "spammer1")
        none
        none
        msgs
        none
        []
      ≡ some (
        cache,
        any
            (says first_letter wildcard_source
              (λ s. s)
              (record {
                nick = codes "spammer1";
                full_mask = build_mask (codes "spammer1") none none;
                level = msgs;
                channel = none;
              }))
            (spammers ∷ []),
      ))
    × IsCache some cache
should_ignore_lem_example =
    should_ignore_lem some first_letter wildcard_source (λ s. s) (spammers ∷ []) (codes "spammer1")
      none none msgs none [] (refl, tt) empty-IsCache

libera_prefixes :
    prefix_map (parse_tokens (codes "PREFIX=(ohv)@%+" ∷ codes "-WHOX" ∷ []) [])
    ≡ (b'o', b'@') ∷ (b'h', b'%') ∷ (b'v', b'+') ∷ []
unfolding prefix_map parse_tokens split_once get insert remove
libera_prefixes = refl

single_target :
    supports_multi_target_mode (parse_tokens (codes "TARGMAX=NAMES:1,KICK:1" ∷ []) []) ≡ false
unfolding supports_multi_target_mode parse_tokens split_once get insert remove
single_target = refl

four_groups :
    chanmode_types (parse_tokens (codes "CHANMODES=be,k,l,nt,s" ∷ []) [])
    ≡ (codes "be", codes "k", codes "l", codes "nt,s")
unfolding chanmode_types parse_tokens split_once get insert remove
four_groups = refl

sasl_external :
    sasl_mechanisms
      (λ s. s)
      (merge (Caps.parse (codes "Multi-Prefix SASL=PLAIN,EXTERNAL")) (codes "batch"))
    ≡ codes "PLAIN" ∷ codes "EXTERNAL" ∷ []
unfolding sasl_mechanisms merge Caps.parse split_once is_whitespace has value
sasl_external = refl

-- Bold, then red on white, then text with a comma that no colour follows.
colours_gone :
    strip_irc_formatting (0x02 ∷ (codes "a" ++ (0x03 ∷ (codes "04,15b" ++ (0x03 ∷ codes "1,c")))))
    ≡ codes "ab,c"
unfolding strip_irc_formatting strip_loop
colours_gone = refl

abbrev bold_word : Text
bold_word = 0x02 ∷ codes "word"

strip_irc_formatting_lem_example :
    (all is_clean (strip_irc_formatting bold_word) ≡ true)
    × (strip_irc_formatting (strip_irc_formatting bold_word) ≡ strip_irc_formatting bold_word)
    × (strip_irc_formatting (
          codes "a"
          ++ (0x03
              ∷ (codes "04"
                  ++ (b','
                      ∷ (codes "12"
                          ++ (0x04
                              ∷ (codes "ff00Aa" ++ (b',' ∷ (codes "001122" ++ bold_word)))))))))
        ≡ codes "a" ++ strip_irc_formatting bold_word)
strip_irc_formatting_lem_example =
    strip_irc_formatting_lem (codes "a") (codes "04") (codes "12") (codes "ff00Aa") (codes "001122")
      bold_word refl (refl, refl) refl (refl, refl) refl
