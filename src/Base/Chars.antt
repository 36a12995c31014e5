-- ===== src/Base/Chars.antt =====
-- Strings as lists of code points, and what the client uses of `char` and `str` on them.
use repartee_desktop.Base.{
  Option-cases, inr, inl, Bool-cases, none, some, Option, refl, arith, ◌≤◌, ◌==◌, ◌&&◌, ◌||◌, ◌≡◌,
  ◌++◌, leb, ltb, ◌+◌, if◌then◌else◌, ℕ, [], ◌∷◌, List, Bool, not, true, false,
}

abbrev pub Str : Type 0
Str = List ℕ

-- `char::len_utf8`.
unfoldable pub len_utf8 : ℕ → ℕ
len_utf8 c = if ltb c 128 then 1 else (if ltb c 2048 then 2 else (if ltb c 65536 then 3 else 4))

pub len_utf8_pos : (c : ℕ) → 1 ≤ len_utf8 c
unfolding len_utf8
len_utf8_pos c = ground arith

-- `str::len`, in bytes.
abbrev pub len : Str → ℕ
len [] = 0
len (c ∷ s) = len_utf8 c + len s

-- `char::is_whitespace`.
unfoldable pub is_whitespace : ℕ → Bool
is_whitespace c =
    (leb 9 c && leb c 13)
    || (c == 32
        || (c == 133
            || (c == 160
                || (c == 5760
                    || ((leb 8192 c && leb c 8202)
                        || (c == 8232
                            || (c == 8233 || (c == 8239 || (c == 8287 || c == 12288)))))))))

-- `trim_start`.
abbrev pub trim_start : Str → Str
trim_start [] = []
trim_start (c ∷ s) = if is_whitespace c then trim_start s else c ∷ s

-- `trim_end`.
abbrev pub trim_end : Str → Str
trim_end [] = []
trim_end (c ∷ s) = elim (trim_end s) [
  | [] ↦ if is_whitespace c then [] else c ∷ []
  | d ∷ t ↦ c ∷ d ∷ t
]

pub len-append : (a b : Str) → len (a ++ b) ≡ len a + len b
len-append [] b = omega arith
len-append (c ∷ a) b = omega (arith, len-append a b)

-- Words between the characters of a kind.
module _ (white : ℕ → Bool) where
  -- A character in front of a string that has these words.
  abbrev pub extend : ℕ → Str → List Str → List Str
  extend c [] ws = (c ∷ []) ∷ ws
  extend c (d ∷ s) [] = (c ∷ []) ∷ []
  extend c (d ∷ s) (w ∷ ws) = if white d then (c ∷ []) ∷ w ∷ ws else (c ∷ w) ∷ ws

  abbrev pub words_by : Str → List Str
  words_by [] = []
  words_by (c ∷ s) = let rest = words_by s in if white c then rest else extend c s rest

  abbrev pub is_dark_by : Str → Bool
  is_dark_by [] = true
  is_dark_by (c ∷ s) = not (white c) && is_dark_by s

  -- A word is not empty and has no white character.
  abbrev pub is_word_by : Str → Bool
  is_word_by [] = false
  is_word_by (c ∷ s) = not (white c) && is_dark_by s

  pub words_by-word : (w : Str) → is_word_by w ≡ true → words_by w ≡ w ∷ []
  words_by-word [] h = cc
  words_by-word (c ∷ []) h = ground arith
  words_by-word (c ∷ d ∷ w) h = ground (arith, words_by-word (d ∷ w))

  extend-space :
      (c : ℕ) (s : Str) (ws : List Str) → white 32 ≡ true → extend c (32 ∷ s) ws ≡ (c ∷ []) ∷ ws
  extend-space c s [] h = refl
  extend-space c s (w ∷ ws) h = rw h refl

  pub words_by-space : (s : Str) → white 32 ≡ true → words_by (32 ∷ s) ≡ words_by s
  words_by-space s h = rw h refl

  pub words_by-append :
      (w s : Str)
      → white 32 ≡ true
      → is_word_by w ≡ true
      → words_by (w ++ (32 ∷ s)) ≡ w ∷ words_by s
  words_by-append [] s b h = cc
  words_by-append (c ∷ []) s b h = ground (arith, extend-space c s (words_by s), words_by-space s)
  words_by-append (c ∷ d ∷ w) s b h = ground (arith, words_by-append (d ∷ w) s)

-- `split_whitespace`.
abbrev pub split_whitespace : Str → List Str
split_whitespace s = words_by is_whitespace s

abbrev pub is_dark : Str → Bool
is_dark s = is_dark_by is_whitespace s

abbrev pub is_word : Str → Bool
is_word s = is_word_by is_whitespace s

space-white : is_whitespace 32 ≡ true
unfolding is_whitespace
space-white = refl

pub split_whitespace-word : (w : Str) → is_word w ≡ true → split_whitespace w ≡ w ∷ []
split_whitespace-word w h = words_by-word is_whitespace w h

pub split_whitespace-space : (s : Str) → split_whitespace (32 ∷ s) ≡ split_whitespace s
split_whitespace-space s = words_by-space is_whitespace s space-white

pub split_whitespace-append :
    (w s : Str) → is_word w ≡ true → split_whitespace (w ++ (32 ∷ s)) ≡ w ∷ split_whitespace s
split_whitespace-append w s h = words_by-append is_whitespace w s space-white h

pub split_whitespace-trim_start : (s : Str) → split_whitespace (trim_start s) ≡ split_whitespace s
split_whitespace-trim_start [] = refl
split_whitespace-trim_start (c ∷ s) = ground (arith, split_whitespace-trim_start s)

-- `split_ascii_whitespace`: tab, line feed, form feed, carriage return and space.
unfoldable pub is_ascii_whitespace : ℕ → Bool
is_ascii_whitespace c = c == 9 || (c == 10 || (c == 12 || (c == 13 || c == 32)))

abbrev pub split_ascii_whitespace : Str → List Str
split_ascii_whitespace s = words_by is_ascii_whitespace s

-- `trim`.
abbrev pub trim : Str → Str
trim s = trim_end (trim_start s)

-- `split_once` at a character.
unfoldable pub split_once : ℕ → Str → Option (Str × Str)
split_once c [] = none
split_once c (d ∷ s) =
    if d == c
    then some ([], s)
    else elim (split_once c s) [ none ↦ none | some (a, b) ↦ some (d ∷ a, b) ]

-- The character does not occur.
abbrev pub lacks : ℕ → Str → Bool
lacks c [] = true
lacks c (d ∷ s) = not (d == c) && lacks c s

pub split_once-append :
    (c : ℕ) (a b : Str) → lacks c a ≡ true → split_once c (a ++ (c ∷ b)) ≡ some (a, b)
unfolding split_once
split_once-append c [] b h = ground arith
split_once-append c (d ∷ a) b h = ground (arith, split_once-append c a b)

pub split_once-lacks : (c : ℕ) (s : Str) → lacks c s ≡ true → split_once c s ≡ none
unfolding split_once
split_once-lacks c [] h = refl
split_once-lacks c (d ∷ s) h = ground (arith, split_once-lacks c s)

-- `strip_prefix` of a string.
unfoldable pub strip_start : Str → Str → Option Str
strip_start [] s = some s
strip_start (c ∷ p) [] = none
strip_start (c ∷ p) (d ∷ s) = let rest = strip_start p s in if d == c then rest else none

pub strip_start-append : (p s : Str) → strip_start p (p ++ s) ≡ some s
unfolding strip_start
strip_start-append [] s = refl
strip_start-append (c ∷ p) s = ground (arith, strip_start-append p s)

pub split_once_sound :
    (c : ℕ) (s a b : Str) → split_once c s ≡ some (a, b) → (lacks c a ≡ true) × (s ≡ a ++ (c ∷ b))
unfolding split_once
split_once_sound c [] a b e = cc
split_once_sound c (d ∷ s) a b e = elim (Bool-cases (d == c)) [
  | inl here ↦ ground (arith, here)
  | inr not_here ↦ elim (Option-cases (split_once c s)) [
    | inl absent ↦ ground (arith, not_here, absent)
    | inr ((a', b'), there) ↦ ground (arith, not_here, there, split_once_sound c s a' b' there)
  ]
]

pub split_once-none : (c : ℕ) (s : Str) → split_once c s ≡ none → lacks c s ≡ true
unfolding split_once
split_once-none c [] e = refl
split_once-none c (d ∷ s) e = elim (Bool-cases (d == c)) [
  | inl here ↦ ground (arith, here)
  | inr not_here ↦ elim (Option-cases (split_once c s)) [
    | inl absent ↦ ground (arith, not_here, split_once-none c s absent)
    | inr (ab, there) ↦ ground (arith, not_here, there)
  ]
]
