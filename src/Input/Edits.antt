-- ===== src/Input/Edits.antt =====
-- Editing the line and its history: the methods of `InputState` (src/ui/input.rs).
use repartee_desktop.Base.{
  ◌-◌, leb, drop, length, ◌&&◌, ◌+◌, is_empty, get_elem?, not, ◌==◌, ltb, ◌++◌, if◌then◌else◌, ℕ,
  [], ◌∷◌, some, none, List, Option,
}
use repartee_desktop.Input.{max_history_entry_bytes, max_history, InputState}
use repartee_desktop.Input.Strings.{
  second_index, len_utf8, replace_range, last_index, trim_end, is_control, rfind_whitespace, len,
  ◌>>=◌, Str, split_at,
}

-- `value.insert(at, c)`.
abbrev pub insert_at : ℕ → ℕ → Str → Option Str
insert_at at c s = split_at at s >>= λ (before, after). some (before ++ c ∷ after)

unfoldable pub insert_char : InputState → ℕ → Option InputState
insert_char s c = if is_control c then some s else (do
  v ← insert_at s.cursor_pos c s.value
  some (record s {
    spell_state = none;
    value = v;
    cursor_pos = s.cursor_pos + len_utf8 c;
    tab_state = none;
  }))

unfoldable pub backspace : InputState → Option InputState
backspace s =
    if ltb 0 s.cursor_pos
    then (do
      (before, after) ← split_at s.cursor_pos s.value
      let prev = last_index before
      v ← replace_range prev s.cursor_pos [] s.value
      some (record s { value = v; cursor_pos = prev; tab_state = none }))
    else some (record s { tab_state = none })

unfoldable pub delete : InputState → Option InputState
delete s =
    if ltb s.cursor_pos (len s.value)
    then (do
      (before, after) ← split_at s.cursor_pos s.value
      v ← replace_range s.cursor_pos (s.cursor_pos + second_index after) [] s.value
      some (record s { value = v; tab_state = none }))
    else some (record s { tab_state = none })

unfoldable pub move_left : InputState → Option InputState
move_left s =
    if ltb 0 s.cursor_pos
    then (do
      (before, after) ← split_at s.cursor_pos s.value
      some (record s { cursor_pos = last_index before; tab_state = none }))
    else some (record s { tab_state = none })

unfoldable pub move_right : InputState → Option InputState
move_right s =
    if ltb s.cursor_pos (len s.value)
    then (do
      (before, after) ← split_at s.cursor_pos s.value
      some (record s { cursor_pos = s.cursor_pos + second_index after; tab_state = none }))
    else some (record s { tab_state = none })

unfoldable pub home : InputState → InputState
home s = record s { cursor_pos = 0; tab_state = none }

unfoldable pub end : InputState → InputState
end s = record s { cursor_pos = len s.value; tab_state = none }

unfoldable pub clear_to_start : InputState → Option InputState
clear_to_start s =
    if ltb 0 s.cursor_pos
    then (do
      v ← replace_range 0 s.cursor_pos [] s.value
      some (record s { value = v; cursor_pos = 0; tab_state = none }))
    else some (record s { tab_state = none })

unfoldable pub clear_to_end : InputState → Option InputState
clear_to_end s =
    if ltb s.cursor_pos (len s.value)
    then (do
      (before, after) ← split_at s.cursor_pos s.value
      some (record s { value = before; tab_state = none }))
    else some (record s { tab_state = none })

-- Where the last word of a string starts, as the source computes it: one byte after the last white
-- character, white characters at the end left aside.
abbrev pub word_start_of : Str → ℕ
word_start_of before = elim (rfind_whitespace (trim_end before)) [ none ↦ 0 | some i ↦ i + 1 ]

unfoldable pub delete_word_back : InputState → Option InputState
delete_word_back s = if s.cursor_pos == 0 then some s else (do
  (before, after) ← split_at s.cursor_pos s.value
  let word_start = word_start_of before
  v ← replace_range word_start s.cursor_pos [] s.value
  some (record s { value = v; cursor_pos = word_start; tab_state = none }))

unfoldable pub clear : InputState → InputState × Str
clear s = (record s { cursor_pos = 0; tab_state = none; value = [] }, s.value)

-- `push_back`, then `pop_front` when there are more than a hundred.
abbrev pub push_history : List Str → Str → List Str
push_history history v =
    let longer = history ++ v ∷ [] in
    if ltb max_history (length longer) then drop 1 longer else longer

unfoldable pub submit : InputState → InputState × Str
unfolding clear
submit s =
    let (cleared, val) = clear s in
    let kept =
      if not (is_empty val) && leb (len val) max_history_entry_bytes
      then push_history cleared.history val
      else cleared.history in
    (record cleared { history = kept; history_index = none; saved_input = none }, val)

-- The entry at an index becomes the line; an index out of bounds panics.
abbrev pub show_entry : InputState → ℕ → Option Str → Option InputState
show_entry s idx saved = do
  v ← get_elem? s.history idx
  some (record s {
    saved_input = saved;
    history_index = some idx;
    value = v;
    cursor_pos = len v;
    tab_state = none;
  })

unfoldable pub history_up : InputState → Option InputState
history_up s = if is_empty s.history then some s else elim s.history_index [
  | none ↦ show_entry s (length s.history - 1) (some s.value)
  | some idx ↦
      if ltb 0 idx
      then show_entry s (idx - 1) s.saved_input
      else some (record s { tab_state = none })
]

abbrev pub saved_or_empty : Option Str → Str
saved_or_empty none = []
saved_or_empty (some v) = v

unfoldable pub history_down : InputState → Option InputState
history_down s = elim s.history_index [
  | none ↦ some (record s { tab_state = none })
  | some idx ↦
      if ltb (idx + 1) (length s.history)
      then show_entry s (idx + 1) s.saved_input
      else some (record s {
        history_index = none;
        saved_input = none;
        value = saved_or_empty s.saved_input;
        cursor_pos = len (saved_or_empty s.saved_input);
        tab_state = none;
      })
]
