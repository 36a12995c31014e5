-- ===== src/Input/Panics.antt =====
-- Inputs at which methods of src/ui/input.rs panic.
use repartee_desktop.Base.{
  ap, lt→ltb, append-nil, append_assoc, sym, ◌==◌, ◌-◌, ◌+◌, arith, ◌<◌, ◌++◌, ◌&&◌, ◌≤◌, ◌≡◌, not,
  ℕ, [], ◌∷◌, some, none, true, false, Option, Bool, refl,
}
use repartee_desktop.Input.{SpellCorrection, InputState}
use repartee_desktop.Input.Strings.{
  len-append, len_utf8_pos, split_at-len, len_utf8, rfind_whitespace, trim_end, replace_range,
  is_whitespace, Str, split_at, ◌>>=◌, len,
}
use repartee_desktop.Input.Edits.{word_start_of, clear_to_start, delete_word_back}
use repartee_desktop.Input.Spelling.{dismiss_spell}
use repartee_desktop.Input.Keys.{cut_lem}

-- A character and what follows it, none of it white.
abbrev pub is_word : Str → Bool
is_word [] = true
is_word (c ∷ s) = not (is_whitespace c) && is_word s

trim_end-word : (c : ℕ) (s : Str) → is_word (c ∷ s) ≡ true → trim_end (c ∷ s) ≡ c ∷ s
trim_end-word c [] e = ground arith
trim_end-word c (d ∷ s) e = ground (arith, trim_end-word d s)

trim_end-before :
    (x : Str) (w c : ℕ) (s : Str)
    → is_word (c ∷ s) ≡ true
    → trim_end (x ++ w ∷ c ∷ s) ≡ x ++ w ∷ c ∷ s
trim_end-before [] w c s e = rw (trim_end-word c s e) refl
trim_end-before (d ∷ []) w c s e = rw (trim_end-before [] w c s e) refl
trim_end-before (d ∷ d' ∷ x) w c s e = rw (trim_end-before (d' ∷ x) w c s e) refl

rfind-word : (s : Str) → is_word s ≡ true → rfind_whitespace s ≡ none
rfind-word [] e = refl
rfind-word (c ∷ s) e = ground (arith, rfind-word s)

rfind-before :
    (x : Str) (w : ℕ) (s : Str)
    → is_whitespace w ≡ true
    → is_word s ≡ true
    → rfind_whitespace (x ++ w ∷ s) ≡ some (len x)
rfind-before [] w s e f = rw (rfind-word s f, e) refl
rfind-before (c ∷ x) w s e f = rw (rfind-before x w s e f) refl

split_at-inside :
    (x : Str) (w : ℕ) (s : Str) → 2 ≤ len_utf8 w → split_at (len x + 1) (x ++ w ∷ s) ≡ none
unfolding split_at
split_at-inside [] w s h = ground arith
split_at-inside (c ∷ x) w s h =
    let e : len_utf8 c + len x + 1 - len_utf8 c ≡ len x + 1 = omega arith in
    rw e (ground (arith, len_utf8_pos c, split_at-inside x w s))

-- Cutting the word before the cursor panics whenever the white character before that word takes
-- two or more bytes, as a no-break space does.
pub delete_word_back-none :
    (s : InputState) (x y right : Str) (w c : ℕ)
    → s.value ≡ (x ++ w ∷ c ∷ y) ++ right
    → s.cursor_pos ≡ len (x ++ w ∷ c ∷ y)
    → is_whitespace w ≡ true
    → 2 ≤ len_utf8 w
    → is_word (c ∷ y) ≡ true
    → delete_word_back s ≡ none
unfolding delete_word_back replace_range
delete_word_back-none s x y right w c e f white wide word =
    let here : split_at s.cursor_pos s.value ≡ some (x ++ w ∷ c ∷ y, right) =
      rw (e, f) (split_at-len (x ++ w ∷ c ∷ y) right) in
    let positive : (s.cursor_pos == 0) ≡ false =
      ground (arith, f, len-append x (w ∷ c ∷ y), len_utf8_pos w) in
    let off : split_at (len x + 1) s.value ≡ none =
      rw (e, append_assoc x (w ∷ c ∷ y) right) (split_at-inside x w (c ∷ y ++ right) wide) in
    let start : word_start_of (x ++ w ∷ c ∷ y) ≡ len x + 1 =
      rw (word_start_of, trim_end-before x w c y word, rfind-before x w (c ∷ y) white word) refl in
    let cut : replace_range (len x + 1) s.cursor_pos [] s.value ≡ none =
      rw (replace_range, off) refl in
    let inner : replace_range (word_start_of (x ++ w ∷ c ∷ y)) s.cursor_pos [] s.value ≡ none =
      rw start cut in
    rw (positive, here)
      (ap
        (λ (o : Option Str). o >>= λ v.
          some
            (record s { value = v; cursor_pos = word_start_of (x ++ w ∷ c ∷ y); tab_state = none }))
        inner)

replace_range-nil : (a b : ℕ) (new : Str) → 0 < b → replace_range a b new [] ≡ none
unfolding replace_range split_at
replace_range-nil a b new h = ground arith

-- Where a correction is shown in the line and the cursor stands at its end, cutting the line to its
-- start and then dismissing the correction panics.
pub dismiss_spell-none :
    (s : InputState) (spell : SpellCorrection)
    → s.spell_state ≡ some spell
    → spell.highlight_only ≡ false
    → s.cursor_pos ≡ len s.value
    → 0 < s.cursor_pos
    → 0 < spell.word_end
    → (clear_to_start s >>= λ t. dismiss_spell t) ≡ none
unfolding clear_to_start dismiss_spell
dismiss_spell-none s spell e f at p q =
    let cut : replace_range 0 s.cursor_pos [] s.value ≡ some [] =
      cut_lem [] s.value [] s.value 0 s.cursor_pos (sym (append-nil s.value)) refl
        (omega (arith, at)) in
    let past : replace_range spell.word_start spell.word_end spell.original [] ≡ none =
      replace_range-nil spell.word_start spell.word_end spell.original q in
    rw (lt→ltb 0 s.cursor_pos p, cut, e, f, past) refl
