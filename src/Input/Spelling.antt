-- ===== src/Input/Spelling.antt =====
-- The inline spelling correction of the input line (src/ui/input.rs).
use repartee_desktop.Base.{
  length, ◌%◌, ◌-◌, ◌+◌, is_empty, ltb, starts_with_byte, get_elem?, if◌then◌else◌, ℕ, [], some,
  none, true, false, Option, Bool,
}
use repartee_desktop.Input.{InputState}
use repartee_desktop.Input.Strings.{
  rfind_whitespace, trim_end, len_utf8, second_index, split_at, replace_range, ◌>>=◌, Str, len,
}
use repartee_desktop.Input.Edits.{insert_at}

-- The cursor after a change of the text before it, by the source's saturating subtraction.
abbrev pub moved_cursor : ℕ → ℕ → ℕ → ℕ → ℕ
moved_cursor cursor start old_len new_len =
    if ltb start cursor then cursor + new_len - old_len else cursor

unfoldable pub dismiss_spell : InputState → Option InputState
dismiss_spell s = elim s.spell_state [
  | none ↦ some s
  | some spell ↦ if spell.highlight_only then some (record s { spell_state = none }) else (do
    v ← replace_range spell.word_start spell.word_end spell.original s.value
    some (record s {
      spell_state = none;
      value = v;
      cursor_pos =
          moved_cursor s.cursor_pos spell.word_start (spell.word_end - spell.word_start)
            (len spell.original);
    }))
]

unfoldable pub apply_spell_suggestion : InputState → ℕ → Option InputState
apply_spell_suggestion s index' = elim s.spell_state [
  | none ↦ some s
  | some spell ↦ elim (get_elem? spell.suggestions index') [
    | none ↦ some s
    | some replacement ↦ (do
      v ← replace_range spell.word_start spell.word_end replacement s.value
      some (record s {
        value = v;
        cursor_pos =
            moved_cursor s.cursor_pos spell.word_start (spell.word_end - spell.word_start)
              (len replacement);
        spell_state =
            some (record spell { word_end = spell.word_start + len replacement; index = index' });
      }))
  ]
]

unfoldable pub cycle_spell_suggestion : InputState → Option (InputState × Bool)
unfolding apply_spell_suggestion
cycle_spell_suggestion s = elim s.spell_state [
  | none ↦ some (s, false)
  | some spell ↦ if is_empty spell.suggestions then some (s, false) else (do
    s' ← apply_spell_suggestion s ((spell.index + 1) % length spell.suggestions)
    some (s', true))
]

-- The character after the word goes, and the cursor with it.
abbrev pub drop_separator : InputState → ℕ → Option InputState
drop_separator s after_word =
    if ltb after_word (len s.value)
    then (do
      (before, after) ← split_at after_word s.value
      v ← replace_range after_word (after_word + second_index after) [] s.value
      some (record s {
        value = v;
        cursor_pos =
            if ltb after_word s.cursor_pos then s.cursor_pos - second_index after else s.cursor_pos;
      }))
    else some s

unfoldable pub accept_spell_with_punctuation : InputState → ℕ → Option InputState
accept_spell_with_punctuation s punct = elim s.spell_state [
  | none ↦ some s
  | some spell ↦ (do
    dropped ← drop_separator (record s { spell_state = none }) spell.word_end
    v ← insert_at spell.word_end punct dropped.value
    some (record dropped { value = v; cursor_pos = spell.word_end + len_utf8 punct }))
]

unfoldable pub is_command : InputState → Bool
is_command s = starts_with_byte b'/' s.value

-- The second character's offset in a part of a string, by the source's search from there on.
abbrev pub word_start_after : Str → ℕ → Option ℕ
word_start_after trimmed i = do (before, after) ← split_at i trimmed; some (i + second_index after)

unfoldable pub last_completed_word : InputState → Option (Option (ℕ × ℕ × Str))
last_completed_word s = do
  (before_cursor, after) ← split_at s.cursor_pos s.value
  let trimmed = trim_end before_cursor
  (if is_empty trimmed then some none else (do
    word_start ← elim (rfind_whitespace trimmed) [
      | none ↦ some 0
      | some i ↦ word_start_after trimmed i
    ]
    (unused, word) ← split_at word_start trimmed
    (if is_empty word then some none else some (some (word_start, len trimmed, word)))))
