-- ===== src/Input/Tests.antt =====
-- The input line of src/ui/input.rs at concrete inputs.
use repartee_desktop.Base.{
  ascii_lower, map, ◌≡◌, [], ◌∷◌, some, none, false, List, refl, arith, codes,
}
use repartee_desktop.Input.{SpellCorrection, InputState, new}
use repartee_desktop.Input.Strings.{Str, split_at, ◌>>=◌, len_utf8, is_whitespace, replace_range}
use repartee_desktop.Input.Line.{cut_to_end, go_right, erase, go_left, type, cut_word, Edit}
use repartee_desktop.Input.Keys.{Does}
use repartee_desktop.Input.Refines.{perform_all_refines, edit_all, perform_all, perform}
use repartee_desktop.Input.Edits.{clear_to_start, delete_word_back}
use repartee_desktop.Input.Corrections.{dismiss-cycles, cycles, Restored}
use repartee_desktop.Input.History.{browse_and_return, down_times, up_times, Drafts}
use repartee_desktop.Input.Completion.{nick_completions, Sources}
use repartee_desktop.Input.Spelling.{apply_spell_suggestion, dismiss_spell}
use repartee_desktop.State.Sorting.{sort_by}
use repartee_desktop.Input.Panics.{dismiss_spell-none, delete_word_back-none}

-- `hi there`, with the cursor at the end.
abbrev typed : InputState
typed = record new { value = codes "hi there"; cursor_pos = 8 }

abbrev edits : List Edit
edits = cut_word ∷ type b'y' ∷ go_left ∷ erase ∷ go_right ∷ type b' ' ∷ cut_to_end ∷ []

word_cut : perform typed cut_word ≡ some (record typed { value = codes "hi "; cursor_pos = 3 })
unfolding perform delete_word_back split_at len_utf8 is_whitespace replace_range
word_cut = refl

perform_all_refines_example :
    Does (perform_all typed edits) (edit_all (record { left = codes "hi there"; right = [] }) edits)
unfolding is_whitespace len_utf8
perform_all_refines_example =
    perform_all_refines typed (record { left = codes "hi there"; right = [] }) edits
      (record { text = refl; at = refl }) (refl, refl) (refl, (refl, tt))

-- `a`, a no-break space, `b`.
abbrev no_break : InputState
no_break = record new { value = b'a' ∷ 160 ∷ b'b' ∷ []; cursor_pos = 4 }

delete_word_back-none_example : delete_word_back no_break ≡ none
unfolding is_whitespace len_utf8
delete_word_back-none_example =
    delete_word_back-none no_break (b'a' ∷ []) [] [] 160 b'b' refl refl refl (omega arith) refl

abbrev teh : SpellCorrection
teh = record {
  word_start = 0;
  word_end = 3;
  original = codes "teh";
  suggestions = codes "the" ∷ codes "tech" ∷ [];
  index = 0;
  highlight_only = false;
}

abbrev misspelled : InputState
misspelled = record new { value = codes "teh "; cursor_pos = 4; spell_state = some teh }

dismiss_spell-none_example : (clear_to_start misspelled >>= λ t. dismiss_spell t) ≡ none
unfolding len_utf8
dismiss_spell-none_example =
    dismiss_spell-none misspelled teh refl refl refl (omega arith) (omega arith)

dismiss-cycles_example :
    Restored misspelled
      (apply_spell_suggestion misspelled 0 >>= λ t. cycles 3 t >>= λ u. dismiss_spell u)
unfolding len_utf8
dismiss-cycles_example =
    dismiss-cycles [] (codes " ") (codes "teh") 1 3 0 misspelled
      (record {
        spell = teh;
        state = refl;
        replaces = refl;
        text = refl;
        start = refl;
        stop = refl;
        cursor = refl;
        first = refl;
      })
      (omega arith)

abbrev remembering : InputState
remembering = record typed { history = codes "one" ∷ codes "two" ∷ codes "three" ∷ [] }

browse_and_return_example :
    Drafts remembering.history remembering.value (up_times 2 remembering >>= down_times 2)
browse_and_return_example = browse_and_return remembering 1 refl (omega arith)

abbrev sources : Sources
sources = record {
  to_lowercase = map ascii_lower;
  get_subcommand_names = λ c. [];
  tag_names = codes "usmiech" ∷ [];
}

abbrev nicks : List Str
nicks = codes "Bob" ∷ codes "alice" ∷ codes "bea" ∷ []

offered :
    nick_completions sources nicks (codes "BOB" ∷ []) (codes "b") ≡ codes "BOB" ∷ codes "bea" ∷ []
unfolding nick_completions sort_by
offered = refl
