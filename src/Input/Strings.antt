-- ===== src/Input/Strings.antt =====
-- What src/ui/input.rs uses of `str` and `char`.
use repartee_desktop.Base.{
  inr, inl, Option-cases, refl, arith, ◌-◌, ◌==◌, ◌&&◌, ◌||◌, ◌<◌, ◌≡◌, ◌++◌, leb, ltb, ◌+◌,
  if◌then◌else◌, ℕ, [], ◌∷◌, some, none, Option, Bool,
}
unfoldable pub use repartee_desktop.Base.Chars.{len_utf8, is_whitespace}
pub use repartee_desktop.Base.Chars.{Str, len_utf8_pos, len, trim_start, trim_end, len-append}

-- `char::is_control`.
unfoldable pub is_control : ℕ → Bool
is_control c = ltb c 32 || (leb 127 c && ltb c 160)

-- The two parts of a string at an offset, if a character begins there or the string ends.
unfoldable pub split_at : ℕ → Str → Option (Str × Str)
split_at n [] = if n == 0 then some ([], []) else none
split_at n (c ∷ s) =
    let rest = split_at (n - len_utf8 c) s in
    if n == 0
    then some ([], c ∷ s)
    else (if leb (len_utf8 c) n
        then elim rest [ none ↦ none | some (a, b) ↦ some (c ∷ a, b) ]
        else none)

-- `replace_range(a..b, new)`; `drain(a..b)` is the same with nothing put in.
unfoldable pub replace_range : ℕ → ℕ → Str → Str → Option Str
unfolding split_at
replace_range a b new s = elim (split_at a s) [
  | none ↦ none
  | some (before, rest) ↦ if ltb b a then none else elim (split_at (b - a) rest) [
    | none ↦ none
    | some (mid, after) ↦ some (before ++ (new ++ after))
  ]
]

-- The offset of the last character: `char_indices().last()`, or 0.
abbrev pub last_index : Str → ℕ
last_index [] = 0
last_index (c ∷ []) = 0
last_index (c ∷ d ∷ s) = len_utf8 c + last_index (d ∷ s)

-- The offset of the second character: `char_indices().nth(1)`, or the end.
abbrev pub second_index : Str → ℕ
second_index [] = 0
second_index (c ∷ s) = len_utf8 c

-- `rfind(char::is_whitespace)`: the offset of the last white character.
abbrev pub rfind_whitespace : Str → Option ℕ
rfind_whitespace [] = none
rfind_whitespace (c ∷ s) = elim (rfind_whitespace s) [
  | some i ↦ some (len_utf8 c + i)
  | none ↦ if is_whitespace c then some 0 else none
]

-- Slicing at the length of the first part gives the parts.
pub split_at-len : (a b : Str) → split_at (len a) (a ++ b) ≡ some (a, b)
unfolding split_at
split_at-len [] [] = refl
split_at-len [] (c ∷ b) = refl
split_at-len (c ∷ a) b =
    let e : len_utf8 c + len a - len_utf8 c ≡ len a = omega arith in
    rw e (ground (arith, len_utf8_pos c, split_at-len a b))

pub split_at_sound : (n : ℕ) (s a b : Str) → split_at n s ≡ some (a, b) → (s ≡ a ++ b) × (n ≡ len a)
unfolding split_at
split_at_sound n [] a b e = ground arith
split_at_sound n (c ∷ s) a b e = elim (Option-cases (split_at (n - len_utf8 c) s)) [
  | inl off ↦ ground (arith, off)
  | inr ((a', b'), on) ↦ ground (arith, on, split_at_sound (n - len_utf8 c) s a' b' on)
]

-- Nothing can be cut past the end.
pub split_at_past : (n : ℕ) (s : Str) → len s < n → split_at n s ≡ none
unfolding split_at
split_at_past n [] h = ground arith
split_at_past n (c ∷ s) h = ground (arith, len_utf8_pos c, split_at_past (n - len_utf8 c) s)

-- A panic ends the operation.
infixl 5 ◌>>=◌
abbrev pub ◌>>=◌ {ℓ κ} : {A : Type ℓ} {B : Type κ} → Option A → (A → Option B) → Option B
none >>= f = none
some a >>= f = f a
