-- ===== src/Irc/Advertised.antt =====
-- What the tokens of src/irc/isupport.rs leave in the end.
use repartee_desktop.Base.{
  inr, ap, inl, refl, ◌∙◌, Bool-cases, [], not, none, true, all, false, ◌==◌, some, List, text_eq,
  if◌then◌else◌, Option, arith, ◌≡◌, ◌++◌, ◌∷◌, codes,
}
use repartee_desktop.Base.Chars.{split_once-append, Str, split_once, lacks}
use repartee_desktop.Base.Maps.{get, Text_eq, get-insert, get-remove, get-insert_self}
use repartee_desktop.Irc.Isupport.{
  prefixes_of, prefixes_in, zip, store, parse_token, Isupport, parse_tokens, prefix_map,
}

-- The key that a token is about.
abbrev pub key_of : Str → Option (Str × Str) → Str
key_of token none = token
key_of token (some (key, value)) = key

abbrev pub token_key : Str → Str
token_key [] = []
token_key (c ∷ token) =
    if c == b'-' then token else key_of (c ∷ token) (split_once b'=' (c ∷ token))

store-other :
    (token : Str) (parts : Option (Str × Str)) (key : Str) (s : Isupport)
    → text_eq (key_of token parts) key ≡ false
    → get key (store token parts s) ≡ get key s
store-other token none key s h = ground (arith, get-insert token key [] s)
store-other token (some (k, v)) key s h = ground (arith, get-insert k key v s)

parse_token-other :
    (token key : Str) (s : Isupport)
    → text_eq (token_key token) key ≡ false
    → get key (parse_token token s) ≡ get key s
unfolding split_once
parse_token-other [] key s h = store-other [] none key s h
parse_token-other (c ∷ token) key s h = elim (Bool-cases (c == b'-')) [
  | inl minus ↦ ground (arith, minus, get-remove token key s)
  | inr plain ↦
      rw plain (store-other (c ∷ token) (split_once b'=' (c ∷ token)) key s (rw plain at h))
]

parse_tokens-other :
    (tokens : List Str) (key : Str) (s : Isupport)
    → all (λ token. not (text_eq (token_key token) key)) tokens ≡ true
    → get key (parse_tokens tokens s) ≡ get key s
unfolding parse_tokens
parse_tokens-other [] key s h = refl
parse_tokens-other (token ∷ tokens) key s h =
    parse_tokens-other tokens key (parse_token token s) (ground arith)
    ∙ parse_token-other token key s (ground arith)

parse_tokens-append :
    (a b : List Str) (s : Isupport) → parse_tokens (a ++ b) s ≡ parse_tokens b (parse_tokens a s)
unfolding parse_tokens
parse_tokens-append [] b s = refl
parse_tokens-append (t ∷ a) b s = parse_tokens-append a b (parse_token t s)

-- After a token PREFIX with modes in parentheses and their prefixes, whatever tokens came before it
-- and whatever tokens about other keys come after it, the modes are paired with the prefixes in
-- order. The modes have no closing parenthesis.
pub prefix_map_lem :
    (before after : List Str) (modes prefixes : Str) (s : Isupport)
    → lacks b')' modes ≡ true
    → all (λ token. not (text_eq (token_key token) (codes "PREFIX"))) after ≡ true
    → prefix_map
        (parse_tokens (before ++ ((codes "PREFIX=(" ++ (modes ++ (b')' ∷ prefixes))) ∷ after)) s)
      ≡ zip modes prefixes
unfolding prefix_map parse_tokens split_once
prefix_map_lem before after modes prefixes s h quiet =
    let value : Str = b'(' ∷ (modes ++ (b')' ∷ prefixes)) in
    let token : Str = codes "PREFIX=" ++ value in
    let s1 = parse_tokens before s in
    ap prefix_map (parse_tokens-append before (token ∷ after) s)
    ∙ (ap prefixes_in (
          parse_tokens-other after (codes "PREFIX") (parse_token token s1) quiet
          ∙ get-insert_self (codes "PREFIX") value s1)
        ∙ ap prefixes_of (split_once-append b')' modes prefixes h))
