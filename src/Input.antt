-- ===== src/Input.antt =====
-- The input line (src/ui/input.rs). A `String` is the list of its characters, a character its code
-- point; offsets are in bytes, as in the source, and an operation that slices a string off a
-- character's boundary, or past its end, panics: it returns `none`.
pub mod Strings
pub mod Edits
pub mod Spelling
pub mod Line
pub mod Words
pub mod Keys
pub mod Refines
pub mod Panics
pub mod History
pub mod Corrections
pub mod Completion
pub mod Completions
mod Tests
use repartee_desktop.Base.{ℕ, [], some, none, List, Option, Bool}
use repartee_desktop.Input.Strings.{Str}

abbrev pub max_history : ℕ
max_history = 100

abbrev pub max_history_entry_bytes : ℕ
max_history_entry_bytes = 4096

pub record SpellCorrection : Type 0 where
  pub word_start : ℕ
  pub word_end : ℕ
  pub original : Str
  pub suggestions : List Str
  pub index : ℕ
  pub highlight_only : Bool

pub record TabCompletionState : Type 0 where
  pub prefix : Str
  pub matches : List Str
  pub index : ℕ
  pub text_before : Str
  pub is_start_of_line : Bool
  pub is_command : Bool

pub record InputState : Type 0 where
  pub value : Str
  pub cursor_pos : ℕ
  pub tab_state : Option TabCompletionState
  pub spell_state : Option SpellCorrection
  pub history : List Str
  pub history_index : Option ℕ
  pub saved_input : Option Str

abbrev pub new : InputState
new = record {
  value = [];
  cursor_pos = 0;
  tab_state = none;
  spell_state = none;
  history = [];
  history_index = none;
  saved_input = none;
}
