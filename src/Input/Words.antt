-- ===== src/Input/Words.antt =====
-- Words in the input line: where the word before the cursor starts.
use repartee_desktop.Base.{
  ◌==◌, ap, ◌||◌, if◌then◌else◌, arith, ◌++◌, not, ◌+◌, ◌≡◌, all, ℕ, [], ◌∷◌, some, none, true,
  false, Option, Bool, refl,
}
use repartee_desktop.Input.Strings.{
  len_utf8, len_utf8_pos, len, is_whitespace, rfind_whitespace, trim_end, Str,
}
use repartee_desktop.Input.Line.{len-zero, strip_word}
use repartee_desktop.Input.Edits.{word_start_of}

-- Every white character of the string is one byte long.
abbrev pub is_narrow : Str → Bool
is_narrow s = all (λ c. not (is_whitespace c) || len_utf8 c == 1) s

trim_end-is_narrow : (s : Str) → is_narrow s ≡ true → is_narrow (trim_end s) ≡ true
trim_end-is_narrow [] e = refl
trim_end-is_narrow (c ∷ s) e = ground (arith, trim_end-is_narrow s)

start_after : Option ℕ → ℕ
start_after none = 0
start_after (some i) = i + 1

word_start_lem :
    (s : Str) → is_narrow s ≡ true → start_after (rfind_whitespace s) ≡ len (strip_word s)
unfolding start_after
word_start_lem [] e = refl
word_start_lem (c ∷ s) e = ground (arith, word_start_lem s, len_utf8_pos c, len-zero (strip_word s))

pub word_start_of-len :
    (s : Str) → is_narrow s ≡ true → word_start_of s ≡ len (strip_word (trim_end s))
unfolding start_after
word_start_of-len s e = ground (arith, word_start_lem (trim_end s) (trim_end-is_narrow s e))

-- A kept start, put behind one more character.
first_or_all :
    (c : ℕ) (s t r : Str)
    → s ≡ t ++ r
    → (white : Bool)
    → (r' : Str) × (c ∷ s
        ≡ elim t as (λ t. Str) [ [] ↦ if white then [] else c ∷ [] | d ∷ u ↦ c ∷ d ∷ u ] ++ r')
first_or_all c s [] r e true = (c ∷ s, refl)
first_or_all c s [] r e false = (s, refl)
first_or_all c s (d ∷ u) r e white = (r, ap (◌∷◌ c) e)

first_or_none :
    (c : ℕ) (s t r : Str)
    → s ≡ t ++ r
    → (white : Bool)
    → (r' : Str) × (c ∷ s
        ≡ elim t as (λ t. Str) [ [] ↦ if white then c ∷ [] else [] | d ∷ u ↦ c ∷ d ∷ u ] ++ r')
first_or_none c s [] r e true = (s, refl)
first_or_none c s [] r e false = (c ∷ s, refl)
first_or_none c s (d ∷ u) r e white = (r, ap (◌∷◌ c) e)

-- What a string starts with is left over by both.
pub trim_end-rest : (s : Str) → (r : Str) × (s ≡ trim_end s ++ r)
trim_end-rest [] = ([], refl)
trim_end-rest (c ∷ s) =
    let (r, e) = trim_end-rest s in first_or_all c s (trim_end s) r e (is_whitespace c)

pub strip_word-rest : (s : Str) → (r : Str) × (s ≡ strip_word s ++ r)
strip_word-rest [] = ([], refl)
strip_word-rest (c ∷ s) =
    let (r, e) = strip_word-rest s in first_or_none c s (strip_word s) r e (is_whitespace c)
