-- ===== src/Irc/Cache.antt =====
-- The cache of src/irc/ignore.rs changes no answer and stays within its bound.
use repartee_desktop.Base.{
  any, All, text_eq→eq, subst, refl, text_eq, inl, ◌∙◌, not, ◌&&◌, ap, inr, ◌<◌, leb, false,
  Option-cases, none, Bool-cases, [], List, some, Bool, suc, Option, ◌≤◌, arith, ◌≡◌, ◌∷◌,
}
use repartee_desktop.Base.Chars.{Str}
use repartee_desktop.Base.Maps.{get-insert, Map, get, contains_key, insert, size, Text_eq}
use repartee_desktop.Irc.Ignore.{
  build_mask, IgnoreLevel, should_ignore, ignore_loop, allows, subject, or_insert, regex_cache_max,
  is_level, Question, cached_wildcard_regex, evict, IgnoreEntry, wildcard_source,
}

size-insert : {V : Type 0} (k : Str) (v : V) (m : Map Str V) → size (insert k v m) ≤ suc (size m)
unfolding size insert
size-insert k v [] = omega arith
size-insert k v ((j, w) ∷ m) = ground (arith, size-insert k v m)

module _ {R : Type 0} (compile : Str → Option R) where
  -- A cache within its bound that holds of each pattern what it compiles to.
  abbrev pub IsCache : Map Str R → Type 0
  IsCache cache =
      (size cache ≤ 200)
      × ((p : Str) (re : R) → get p cache ≡ some re → compile (wildcard_source p) ≡ some re)

  evict-IsCache :
      (pattern : Str) (cache : Map Str R) → IsCache cache → IsCache (evict compile pattern cache)
  unfolding size get
  evict-IsCache pattern cache h =
      elim (Bool-cases (leb regex_cache_max (size cache) && not (contains_key pattern cache))) [
        | inl full ↦ rw full (omega arith, λ p re e. ground arith)
        | inr room ↦ rw room h
      ]

  evict-room :
      (pattern : Str) (cache : Map Str R)
      → IsCache cache
      → get pattern (evict compile pattern cache) ≡ none
      → size (evict compile pattern cache) < 200
  unfolding size get contains_key
  evict-room pattern cache h e =
      elim (Bool-cases (leb regex_cache_max (size cache) && not (contains_key pattern cache))) [
        | inl full ↦ rw full (omega arith)
        | inr room ↦
            let absent : get pattern cache ≡ none = rw room at e in
            let free : contains_key pattern cache ≡ false = rw (contains_key, absent) refl in
            let small : leb regex_cache_max (size cache) ≡ false = ground (arith, free) in
            rw room (ground arith)
      ]

  inserted-faithful :
      (cache : Map Str R) (pattern : Str) (re : R)
      → ((p : Str) (re' : R) → get p cache ≡ some re' → compile (wildcard_source p) ≡ some re')
      → compile (wildcard_source pattern) ≡ some re
      → (p : Str) (re' : R) → get p (insert pattern re cache) ≡ some re'
      → compile (wildcard_source p) ≡ some re'
  inserted-faithful cache pattern re h e p re' there = elim (Bool-cases (text_eq pattern p)) [
    | inl same ↦
        let inserted : some re ≡ some re' = ground (arith, get-insert pattern p re cache, same) in
        subst (λ x. compile (wildcard_source x) ≡ some re') (text_eq→eq pattern p same)
          (e ∙ inserted)
    | inr differs ↦ h p re' (ground (arith, get-insert pattern p re cache, differs))
  ]

  cached_lem :
      (cache : Map Str R) (pattern : Str) (re : R)
      → IsCache cache
      → compile (wildcard_source pattern) ≡ some re
      → (cache' : Map Str R) × (cached_wildcard_regex compile cache pattern ≡ some (cache', re))
        × IsCache cache'
  unfolding cached_wildcard_regex
  cached_lem cache pattern re h e =
      let cache1 = evict compile pattern cache in
      let (small, faithful) = evict-IsCache pattern cache h in
      elim (Option-cases (get pattern cache1)) [
        | inr (re', there) ↦
            let same : re' ≡ re = ground (arith, faithful pattern re' there) in
            (
              cache1,
              ap (or_insert compile pattern cache1) (there ∙ ap some same),
              (small, faithful),
            )
        | inl absent ↦ (
          insert pattern re cache1,
          ap (or_insert compile pattern cache1) absent ∙ rw (or_insert, e) refl,
          (
            omega (arith, size-insert pattern re cache1, evict-room pattern cache h absent),
            inserted-faithful cache1 pattern re faithful e,
          ),
        )
      ]

module _ {R : Type 0} (is_match : R → Str → Bool) where
  -- What an entry says without a cache.
  abbrev pub says : (Str → R) → (Str → Str) → Question → IgnoreEntry → Bool
  says regex lower q entry =
      is_level entry q.level
      && (is_match (regex entry.mask) (subject entry.mask q.nick q.full_mask)
          && allows lower entry.channels q.channel)

module _ {R : Type 0} (compile : Str → Option R) (is_match : R → Str → Bool) (regex : Str → R) where
  -- The pattern of the entry is one that the compiler accepts.
  abbrev pub IsAccepted : IgnoreEntry → Type 0
  IsAccepted entry = compile (wildcard_source entry.mask) ≡ some (regex entry.mask)

  ignore_loop_lem :
      (lower : Str → Str) (entries : List IgnoreEntry) (q : Question) (cache : Map Str R)
      → All IsAccepted entries
      → IsCache compile cache
      → (cache' : Map Str R) × (ignore_loop compile is_match lower entries q cache
          ≡ some (cache', any (says is_match regex lower q) entries))
        × IsCache compile cache'
  unfolding ignore_loop
  ignore_loop_lem lower [] q cache a h = (cache, refl, h)
  ignore_loop_lem lower (entry ∷ entries) q cache a h = elim (Bool-cases (is_level entry q.level)) [
    | inr other ↦
        let (cache', e, h') = ignore_loop_lem lower entries q cache a.1 h in
        (cache', ground (arith, other, e), h')
    | inl level ↦
        let (cache1, got, h1) = cached_lem compile cache entry.mask (regex entry.mask) h a.0 in
        elim (Bool-cases (
          is_match (regex entry.mask) (subject entry.mask q.nick q.full_mask)
          && allows lower entry.channels q.channel)) [
            | inl hit ↦ (cache1, ground (arith, level, got, hit), h1)
            | inr miss ↦
                let (cache', e, h') = ignore_loop_lem lower entries q cache1 a.1 h1 in
                (cache', ground (arith, level, got, miss, e), h')
          ]
  ]

-- Whether a message is ignored does not depend on the cache: the answer is whether some entry has
-- the level, matches the nick or the mask, and is not restricted to other channels. The cache stays
-- a cache of at most 200 patterns. The patterns of the list are taken to be accepted by the
-- compiler of regular expressions.
pub should_ignore_lem :
    {R : Type 0} (compile : Str → Option R) (is_match : R → Str → Bool) (regex : Str → R)
    (lower : Str → Str) (ignores : List IgnoreEntry) (nick : Str) (ident hostname : Option Str)
    (level : IgnoreLevel) (channel : Option Str) (cache : Map Str R)
    → All (IsAccepted compile is_match regex) ignores
    → IsCache compile cache
    → (cache' : Map Str R) × (should_ignore compile is_match lower ignores nick ident hostname level
          channel cache
        ≡ some (
          cache',
          any
              (says is_match regex lower (record {
                nick = nick;
                full_mask = build_mask nick ident hostname;
                level = level;
                channel = channel;
              }))
              ignores,
        ))
      × IsCache compile cache'
unfolding should_ignore
should_ignore_lem compile is_match regex lower ignores nick ident hostname level channel cache a h =
    ignore_loop_lem compile is_match regex lower ignores
      (record {
        nick = nick;
        full_mask = build_mask nick ident hostname;
        level = level;
        channel = channel;
      })
      cache a h
