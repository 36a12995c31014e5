-- ===== src/Irc/Masks.antt =====
-- What the extended ban masks of src/irc/extban.rs keep when they are parsed and displayed.
use repartee_desktop.Base.{
  ◌∙◌, ap, subst, refl, inr, ◌==◌, length, none, inl, Bool-cases, ◌≤◌, [], Option-cases, some, true,
  Option, arith, ◌≡◌, ◌++◌, ◌∷◌, ℕ,
}
use repartee_desktop.Base.Chars.{
  split_once_sound, split_once-none, split_once-append, Str, split_once, lacks,
}
use repartee_desktop.Irc.Extban.{
  userhost, fmt, parameter_text, parameter_of, extban_of, parse_with_prefix, user_and_host,
  type_and_userhost, Extban, parse,
}

-- What a parsed mask is made of: a parameter that is not empty and has no `!`, a user without `@`.
abbrev IsParameter : Option Str → Type 0
IsParameter none = Unit
IsParameter (some p) = (1 ≤ length p) × (lacks b'!' p ≡ true)

parameter_of-IsParameter :
    (s : Str) (parameter : Option Str)
    → lacks b'!' s ≡ true
    → parameter_of s ≡ some parameter
    → IsParameter parameter
parameter_of-IsParameter [] none h e = tt
parameter_of-IsParameter [] (some p) h e = ground arith
parameter_of-IsParameter (c ∷ []) none h e = tt
parameter_of-IsParameter (c ∷ []) (some p) h e = ground arith
parameter_of-IsParameter (c ∷ d ∷ s) none h e = tt
parameter_of-IsParameter (c ∷ d ∷ s) (some p) h e = elim (Bool-cases (c == b':')) [
  | inl colon ↦
      let same : d ∷ s ≡ p = ground (arith, colon) in
      subst (λ x. (1 ≤ length x) × (lacks b'!' x ≡ true)) same (omega arith, ground arith)
  | inr other ↦ ground (arith, other)
]

type_part-lacks : (remainder : Str) → lacks b'!' (type_and_userhost remainder).0 ≡ true
type_part-lacks remainder = elim (Option-cases (split_once b'!' remainder)) [
  | inl absent ↦ rw (type_and_userhost, absent) (split_once-none b'!' remainder absent)
  | inr ((a, b), there) ↦
      rw (type_and_userhost, there) (split_once_sound b'!' remainder a b there).0
]

user-lacks : (s : Str) → lacks b'@' (user_and_host s).0 ≡ true
user-lacks s = elim (Option-cases (split_once b'@' s)) [
  | inl absent ↦ rw (user_and_host, absent) (split_once-none b'@' s absent)
  | inr ((a, b), there) ↦ rw (user_and_host, there) (split_once_sound b'@' s a b there).0
]

lacks-append : (c : ℕ) (s t : Str) → lacks c s ≡ true → lacks c t ≡ true → lacks c (s ++ t) ≡ true
lacks-append c [] t h k = k
lacks-append c (d ∷ s) t h k = ground (arith, lacks-append c s t)

parameter_text-lacks : (p : Option Str) → IsParameter p → lacks b'!' (parameter_text p) ≡ true
parameter_text-lacks none h = refl
parameter_text-lacks (some p) h = ground (arith, h.1)

parameter_of-text : (p : Option Str) → IsParameter p → parameter_of (parameter_text p) ≡ some p
parameter_of-text none h = refl
parameter_of-text (some []) h = absurd (omega (arith, h.0))
parameter_of-text (some (c ∷ p)) h = refl

-- A mask that is displayed is parsed to the same ban.
parse-fmt :
    (eb : Extban) → IsParameter eb.parameter → lacks b'@' eb.user ≡ true → parse (fmt eb) ≡ some eb
unfolding parse parse_with_prefix
parse-fmt eb h k =
    let bang =
      split_once-append b'!' (parameter_text eb.parameter) (userhost eb)
        (parameter_text-lacks eb.parameter h) in
    let at_sign = split_once-append b'@' eb.user eb.host k in
    let parts : type_and_userhost (parameter_text eb.parameter ++ (b'!' ∷ userhost eb))
        ≡ (parameter_text eb.parameter, userhost eb) =
      rw (type_and_userhost, bang) refl in
    let ends : user_and_host (userhost eb) ≡ (eb.user, eb.host) =
      rw (user_and_host, at_sign) refl in
    ap (extban_of eb.ban_type) parts ∙ rw (extban_of, parameter_of-text eb.parameter h, ends) refl

extban_of-stable :
    (t : ℕ) (type_part rest : Str) (eb : Extban)
    → lacks b'!' type_part ≡ true
    → extban_of t (type_part, rest) ≡ some eb
    → parse (fmt eb) ≡ some eb
extban_of-stable t type_part rest eb h e = elim (Option-cases (parameter_of type_part)) [
  | inl refused ↦ ground (arith, refused)
  | inr (p, read) ↦
      let built : Extban = record {
        ban_type = t;
        parameter = p;
        user = (user_and_host rest).0;
        host = (user_and_host rest).1;
      } in
      let same : built ≡ eb = ground (arith, read) in
      subst (λ (x : Extban). parse (fmt x) ≡ some x) same
        (parse-fmt built (parameter_of-IsParameter type_part p h read) (user-lacks rest))
]

-- Displaying a parsed mask and parsing it again gives the same ban, whatever prefix the mask had.
pub parse-display :
    (mask : Str) (prefix : ℕ) (eb : Extban)
    → parse_with_prefix mask prefix ≡ some eb
    → parse (fmt eb) ≡ some eb
unfolding parse_with_prefix
parse-display [] prefix eb e = cc
parse-display (c ∷ []) prefix eb e = cc
parse-display (c ∷ t ∷ remainder) prefix eb e = elim (Bool-cases (c == prefix)) [
  | inl right ↦
      extban_of-stable t (type_and_userhost remainder).0 (type_and_userhost remainder).1 eb
        (type_part-lacks remainder) (ground (arith, right))
  | inr wrong ↦ ground (arith, wrong)
]
