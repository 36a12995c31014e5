-- ===== src/Commands.antt =====
-- The user's commands: `parse_command` of src/commands/parser.rs. A line is a list of code points;
-- Unicode lower case is a parameter.
mod Tests
use repartee_desktop.Base.{
  sym, refl, Option-cases, ◌∙◌, inr, inl, ap, Bool-cases, ◌==◌, text_eq, some, none, [],
  if◌then◌else◌, any, codes, true, join, Option, Bool, List, arith, ◌≡◌, ◌++◌, ◌∷◌, ℕ,
}
use repartee_desktop.Base.Chars.{
  split_once_sound, split_once-append, Str, split_once, split_whitespace, trim, lacks,
}

pub record ParsedCommand : Type 0 where
  pub name : Str
  pub args : List Str

abbrev pub greedy_commands : List Str
greedy_commands =
    codes "msg"
    ∷ codes "query"
    ∷ codes "notice"
    ∷ codes "me"
    ∷ codes "quit"
    ∷ codes "topic"
    ∷ codes "kb"
    ∷ codes "close"
    ∷ codes "disconnect"
    ∷ codes "set"
    ∷ codes "alias"
    ∷ codes "quote"
    ∷ codes "shell"
    ∷ codes "sh"
    ∷ []

abbrev pub is_greedy : Str → Bool
is_greedy command = any (text_eq command) greedy_commands

abbrev pub takes_one : Str → Bool
takes_one command =
    any (text_eq command) (codes "me" ∷ codes "quit" ∷ codes "close" ∷ codes "quote" ∷ [])

abbrev pub greedy_args : Str → Str → List Str
greedy_args command rest = if takes_one command then rest ∷ [] else elim (split_once b' ' rest) [
  | some (first, others) ↦ first ∷ others ∷ []
  | none ↦ rest ∷ []
]

abbrev pub args_of : Str → Str → List Str
args_of command rest = if is_greedy command then greedy_args command rest else split_whitespace rest

abbrev pub command_of : (Str → Str) → Str → Option (Str × Str) → ParsedCommand
command_of lower trimmed none = record { name = lower trimmed; args = [] }
command_of lower trimmed (some (command, rest)) = record {
  name = lower command;
  args = args_of (lower command) (trim rest);
}

unfoldable pub parse_command : (Str → Str) → Str → Option ParsedCommand
parse_command lower [] = none
parse_command lower (c ∷ trimmed) =
    if c == b'/' then some (command_of lower trimmed (split_once b' ' trimmed)) else none

greedy_args-join : (command rest : Str) → join (codes " ") (greedy_args command rest) ≡ rest
greedy_args-join command rest = elim (Bool-cases (takes_one command)) [
  | inl one ↦ rw (greedy_args, one) refl
  | inr two ↦ elim (Option-cases (split_once b' ' rest)) [
    | inl absent ↦ rw (greedy_args, two, absent) refl
    | inr ((a, b), there) ↦
        rw (greedy_args, two, there) (sym (split_once_sound b' ' rest a b there).1)
  ]
]

-- The arguments of a greedy command, joined by spaces, are the whole rest of its line without the
-- white space around it.
pub parse_command-greedy :
    (lower : Str → Str) (command rest : Str)
    → lacks b' ' command ≡ true
    → is_greedy (lower command) ≡ true
    → (args : List Str) × (parse_command lower (b'/' ∷ (command ++ (b' ' ∷ rest)))
        ≡ some (record { name = lower command; args = args }))
      × (join (codes " ") args ≡ trim rest)
unfolding parse_command
parse_command-greedy lower command rest h g =
    let greedy : args_of (lower command) (trim rest) ≡ greedy_args (lower command) (trim rest) =
      rw (args_of, g) refl in
    (
      args_of (lower command) (trim rest),
      ap (λ o. some (command_of lower (command ++ (b' ' ∷ rest)) o))
          (split_once-append b' ' command rest h),
      ap (join (codes " ")) greedy ∙ greedy_args-join (lower command) (trim rest),
    )
