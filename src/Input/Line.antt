-- ===== src/Input/Line.antt =====
-- What the input line is meant to be: the characters before the cursor and those after it.
use repartee_desktop.Base.{
  ltb, ◌-◌, take, arith, ap, drop, ◌+◌, ◌≡◌, ◌++◌, if◌then◌else◌, ℕ, [], ◌∷◌, some, false, refl,
}
use repartee_desktop.Input.Strings.{
  split_at-len, len_utf8_pos, trim_end, is_control, is_whitespace, replace_range, len, second_index,
  last_index, Str,
}

pub record Line : Type 0 where
  pub left : Str
  pub right : Str

-- All but the last character, and the last character as a string.
abbrev pub drop_last : Str → Str
drop_last [] = []
drop_last (c ∷ []) = []
drop_last (c ∷ d ∷ s) = c ∷ drop_last (d ∷ s)

abbrev pub last_part : Str → Str
last_part [] = []
last_part (c ∷ []) = c ∷ []
last_part (c ∷ d ∷ s) = last_part (d ∷ s)

-- A string up to its last white character.
abbrev pub strip_word : Str → Str
strip_word [] = []
strip_word (c ∷ s) = elim (strip_word s) [
  | [] ↦ if is_whitespace c then c ∷ [] else []
  | d ∷ t ↦ c ∷ d ∷ t
]

pub data Edit : Type 0 where
  type : ℕ → Edit
  erase erase_next go_left go_right go_home go_end cut_to_start cut_to_end cut_word : Edit

abbrev pub edit : Line → Edit → Line
edit l (type c) = if is_control c then l else record l { left = l.left ++ c ∷ [] }
edit l erase = record l { left = drop_last l.left }
edit l erase_next = record l { right = drop 1 l.right }
edit l go_left = record { left = drop_last l.left; right = last_part l.left ++ l.right }
edit l go_right = record { left = l.left ++ take 1 l.right; right = drop 1 l.right }
edit l go_home = record { left = []; right = l.left ++ l.right }
edit l go_end = record { left = l.left ++ l.right; right = [] }
edit l cut_to_start = record l { left = [] }
edit l cut_to_end = record l { right = [] }
edit l cut_word = record l { left = strip_word (trim_end l.left) }

pub last_split : (s : Str) → drop_last s ++ last_part s ≡ s
last_split [] = refl
last_split (c ∷ []) = refl
last_split (c ∷ d ∷ s) = ap (◌∷◌ c) (last_split (d ∷ s))

pub last_index-len : (s : Str) → last_index s ≡ len (drop_last s)
last_index-len [] = refl
last_index-len (c ∷ []) = refl
last_index-len (c ∷ d ∷ s) = omega (arith, last_index-len (d ∷ s))

pub second_index-len : (s : Str) → second_index s ≡ len (take 1 s)
second_index-len [] = refl
second_index-len (c ∷ s) = omega arith

pub len-zero : (s : Str) → len s ≡ 0 → s ≡ []
len-zero [] e = refl
len-zero (c ∷ s) e = absurd (omega (arith, len_utf8_pos c))

-- A change of the middle of three parts.
pub replace_range-parts :
    (a b c new : Str)
    → replace_range (len a) (len a + len b) new (a ++ (b ++ c)) ≡ some (a ++ (new ++ c))
unfolding replace_range
replace_range-parts a b c new =
    let e : len a + len b - len a ≡ len b = omega arith in
    let p : ltb (len a + len b) (len a) ≡ false = ground arith in
    rw (replace_range, split_at-len a (b ++ c), p, e, split_at-len b c) refl
