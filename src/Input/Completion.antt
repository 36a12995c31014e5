-- ===== src/Input/Completion.antt =====
-- Tab completion (src/ui/input.rs). What it looks up elsewhere is the record `Sources`: Unicode
-- lower case, the names of subcommands in the embedded documentation, and the embedded emotes' names.
use repartee_desktop.Base.{
  get_elem?, length, ◌%◌, ◌||◌, has_byte, starts_with_byte, ◌+◌, codes, text_eq, ascii_lower, not,
  is_empty, ◌&&◌, drop, any, retain, map, ◌==◌, ◌++◌, if◌then◌else◌, ℕ, [], ◌∷◌, some, none, true,
  false, List, Option, Bool,
}
use repartee_desktop.Input.{TabCompletionState, InputState}
use repartee_desktop.Input.Strings.{trim_start, trim_end, Str, split_at, ◌>>=◌, len}
use repartee_desktop.State.Sorting.{text_le, sort_by}

pub record Sources : Type 0 where
  pub to_lowercase : Str → Str
  pub get_subcommand_names : Str → List Str
  pub tag_names : List Str

-- A string after its last character `c`, and what ends there.
abbrev pub rsplit_after : ℕ → Str → Option (Str × Str)
rsplit_after c [] = none
rsplit_after c (d ∷ s) = elim (rsplit_after c s) [
  | some (a, b) ↦ some (d ∷ a, b)
  | none ↦ if d == c then some (d ∷ [], s) else none
]

abbrev pub split_word : Str → Str × Str
split_word text = elim (rsplit_after b' ' text) [ none ↦ ([], text) | some p ↦ p ]

abbrev pub split_list : Str × Str → Str × Str
split_list (text_before, word) = elim (rsplit_after b',' word) [
  | none ↦ (text_before, word)
  | some (items, seg) ↦ (text_before ++ items, seg)
]

unfoldable pub split_completion_word : Str → Str × Str
split_completion_word text = split_list (split_word text)

abbrev pub starts_with : Str → Str → Bool
starts_with [] s = true
starts_with (c ∷ p) [] = false
starts_with (c ∷ p) (d ∷ s) = c == d && starts_with p s

abbrev pub strip_prefix : ℕ → Str → Option Str
strip_prefix c [] = none
strip_prefix c (d ∷ s) = if d == c then some s else none

-- `p` of a word `:p` with no other colon and not empty.
abbrev pub emote_prefix : Str → Option Str
emote_prefix word = elim (strip_prefix b':' word) [
  | none ↦ none
  | some p ↦ if not (is_empty p) && not (has_byte b':' p) then some p else none
]

unfoldable pub emote_completions : Sources → Str → Option (List Str)
emote_completions e word = elim (emote_prefix word) [
  | none ↦ none
  | some p ↦ some (
      map (λ (n : Str). b':' ∷ n ++ b':' ∷ [])
        (retain (starts_with (map ascii_lower p)) e.tag_names))
]

-- Those whose lower case starts with the prefix's.
abbrev pub matching : Sources → Str → List Str → List Str
matching e prefix names =
    retain (λ (n : Str). starts_with (e.to_lowercase prefix) (e.to_lowercase n)) names

abbrev pub sort_by_lowercase : Sources → List Str → List Str
sort_by_lowercase e names =
    sort_by (λ (a b : Str). text_le (e.to_lowercase a) (e.to_lowercase b)) names

abbrev pub contains : List Str → Str → Bool
contains names n = any (λ (m : Str). text_eq m n) names

unfoldable pub nick_completions : Sources → List Str → List Str → Str → List Str
nick_completions e nicks last_speakers prefix =
    let recent = matching e prefix last_speakers in
    let recent_lower = map e.to_lowercase recent in
    let rest =
      retain
        (λ (n : Str).
          starts_with (e.to_lowercase prefix) (e.to_lowercase n)
          && not (contains recent_lower (e.to_lowercase n)))
        nicks in
    recent ++ sort_by_lowercase e rest

pub data SubcommandContext : Type 0 where
  help set_path : SubcommandContext
  subcommand : List Str → SubcommandContext

unfoldable pub detect_subcommand_context : Sources → Str → Option SubcommandContext
detect_subcommand_context e text_before =
    let lower = e.to_lowercase (trim_end (trim_start text_before)) in
    if text_eq lower (codes "/help") || text_eq lower (codes "/?")
    then some help
    else (if text_eq lower (codes "/set") then some set_path else elim (strip_prefix b'/' lower) [
      | none ↦ none
      | some cmd ↦
          if has_byte b' ' cmd
          then none
          else (let names = e.get_subcommand_names cmd in
              if is_empty names then none else some (subcommand names))
    ])

abbrev pub drop_first : Str → Str
drop_first s = drop 1 s

abbrev pub names_for :
    Sources
    → Option SubcommandContext
    → Bool
    → Str
    → List Str
    → List Str
    → List Str
    → List Str
    → List Str
names_for e (some help) is_command prefix nicks last_speakers commands setting_paths =
    sort_by_lowercase e (matching e prefix commands)
names_for e (some set_path) is_command prefix nicks last_speakers commands setting_paths =
    sort_by_lowercase e (matching e prefix setting_paths)
names_for e (some (subcommand subcmds)) is_command prefix nicks last_speakers commands
      setting_paths =
    sort_by_lowercase e (matching e prefix subcmds)
names_for e none true prefix nicks last_speakers commands setting_paths =
    sort_by_lowercase e (map (λ (c : Str). b'/' ∷ c) (matching e (drop_first prefix) commands))
names_for e none false prefix nicks last_speakers commands setting_paths =
    nick_completions e nicks last_speakers prefix

abbrev pub or_empty : Option (List Str) → List Str
or_empty none = []
or_empty (some names) = names

abbrev pub is_emote_prefix : Bool → Str → Bool
is_emote_prefix emotes_enabled prefix =
    emotes_enabled && elim (emote_prefix prefix) [ none ↦ false | some p ↦ true ]

abbrev pub suffix_of : Bool → Bool → Str
suffix_of is_command is_start_of_line =
    if is_command then codes " " else (if is_start_of_line then codes ": " else codes " ")

-- The line becomes the text before the word, a completion and its suffix.
abbrev pub show_completion : InputState → TabCompletionState → Str → InputState
show_completion s tab completion =
    let line = tab.text_before ++ (completion ++ suffix_of tab.is_command tab.is_start_of_line) in
    record s { value = line; cursor_pos = len line; tab_state = some tab }

abbrev pub next_completion : InputState → TabCompletionState → Option InputState
next_completion s tab =
    if is_empty tab.matches
    then some s
    else (let tab' = record tab { index = (tab.index + 1) % length tab.matches } in
        get_elem? tab.matches tab'.index >>= λ completion. some (show_completion s tab' completion))

abbrev pub first_completion :
    Sources → InputState → Str × Str → List Str → List Str → List Str → List Str → Bool → InputState
first_completion e s (text_before', word) nicks last_speakers commands setting_paths
      emotes_enabled =
    let at_start = is_empty text_before' in
    let command = at_start && starts_with_byte b'/' word in
    let is_emote = is_emote_prefix emotes_enabled word in
    let found =
      if is_emote
      then or_empty (emote_completions e word)
      else names_for e (detect_subcommand_context e text_before') command word nicks last_speakers
          commands setting_paths in
    if is_empty word then s else elim found [
      | [] ↦ s
      | completion ∷ more ↦
          show_completion s
            (record {
              prefix = word;
              matches = completion ∷ more;
              index = 0;
              text_before = text_before';
              is_start_of_line = at_start && not is_emote;
              is_command = command;
            })
            completion
    ]

unfoldable pub tab_complete :
    Sources → InputState → List Str → List Str → List Str → List Str → Bool → Option InputState
unfolding split_completion_word
tab_complete e s nicks last_speakers commands setting_paths emotes_enabled = elim s.tab_state [
  | some tab ↦ next_completion s tab
  | none ↦ split_at s.cursor_pos s.value >>= λ (text, unused). some (
      first_completion e s (split_completion_word text) nicks last_speakers commands setting_paths
        emotes_enabled)
]
