-- ===== src/Input/Corrections.antt =====
-- Trying spelling suggestions and taking them back (src/ui/input.rs).
use repartee_desktop.Base.{
  sym, length, subst, ◌%◌, Bool-cases, is_empty, get_elem?, arith, Option-cases, ◌-◌, ◌+◌, ◌++◌,
  ◌<◌, ◌≡◌, ℕ, zero, suc, some, none, true, false, Option, Bool, refl, inl, inr,
}
use repartee_desktop.Input.{SpellCorrection, InputState}
use repartee_desktop.Input.Strings.{replace_range, Str, ◌>>=◌, len}
use repartee_desktop.Input.Spelling.{
  cycle_spell_suggestion, dismiss_spell, apply_spell_suggestion, moved_cursor,
}
use repartee_desktop.Input.Line.{replace_range-parts}

-- A word stands in the line with a correction shown at it, and the cursor after what follows it.
pub record IsShown (before word after original : Str) (gap : ℕ) (s : InputState) : Type 0 where
  pub spell : SpellCorrection
  pub state : s.spell_state ≡ some spell
  pub replaces : spell.highlight_only ≡ false
  pub text : s.value ≡ before ++ (word ++ after)
  pub start : spell.word_start ≡ len before
  pub stop : spell.word_end ≡ len before + len word
  pub cursor : s.cursor_pos ≡ len before + len word + gap
  pub first : spell.original ≡ original

abbrev pub IsShownIn : (before after original : Str) → ℕ → Option InputState → Type 0
IsShownIn before after original gap none = ⊥
IsShownIn before after original gap (some s) =
    (word : Str) × IsShown before word after original gap s

replace_word :
    (before word after new v : Str) (a b : ℕ)
    → v ≡ before ++ (word ++ after)
    → a ≡ len before
    → b ≡ len before + len word
    → replace_range a b new v ≡ some (before ++ (new ++ after))
replace_word before word after new v a b e f g =
    rw (e, f, g) (replace_range-parts before word after new)

apply_none :
    (s : InputState) (spell : SpellCorrection) (i : ℕ)
    → s.spell_state ≡ some spell
    → get_elem? spell.suggestions i ≡ none
    → apply_spell_suggestion s i ≡ some s
unfolding apply_spell_suggestion
apply_none s spell i e f = ground arith

apply_some :
    (s : InputState) (spell : SpellCorrection) (i : ℕ) (new v : Str)
    → s.spell_state ≡ some spell
    → get_elem? spell.suggestions i ≡ some new
    → replace_range spell.word_start spell.word_end new s.value ≡ some v
    → apply_spell_suggestion s i
      ≡ some (record s {
        value = v;
        cursor_pos =
            moved_cursor s.cursor_pos spell.word_start
              (spell.word_end - spell.word_start)
              (len new);
        spell_state = some (record spell { word_end = spell.word_start + len new; index = i });
      })
unfolding apply_spell_suggestion
apply_some s spell i new v e f g = ground arith

forget :
    (o : Option InputState)
    → ((o >>= λ t. some (t, true)) >>= λ (r : InputState × Bool). some r.0) ≡ o
forget none = refl
forget (some s) = refl

cycle_none :
    (s : InputState) (spell : SpellCorrection)
    → s.spell_state ≡ some spell
    → is_empty spell.suggestions ≡ true
    → (cycle_spell_suggestion s >>= λ (r : InputState × Bool). some r.0) ≡ some s
unfolding cycle_spell_suggestion
cycle_none s spell e f = ground arith

cycle_some :
    (s : InputState) (spell : SpellCorrection)
    → s.spell_state ≡ some spell
    → is_empty spell.suggestions ≡ false
    → (cycle_spell_suggestion s >>= λ (r : InputState × Bool). some r.0)
      ≡ apply_spell_suggestion s ((spell.index + 1) % length spell.suggestions)
unfolding cycle_spell_suggestion
cycle_some s spell e f =
    ground (arith, forget (apply_spell_suggestion s ((spell.index + 1) % length spell.suggestions)))

module _ (before after original : Str) (gap : ℕ) (behind : 0 < gap) where
  moved :
      (s : InputState) (word new : Str) (h : IsShown before word after original gap s)
      → moved_cursor s.cursor_pos h.spell.word_start
          (h.spell.word_end - h.spell.word_start)
          (len new)
        ≡ len before + len new + gap
  moved s word new h = ground (arith, h.start, h.stop, h.cursor)

  apply-IsShown :
      (s : InputState) (word : Str) (i : ℕ)
      → IsShown before word after original gap s
      → IsShownIn before after original gap (apply_spell_suggestion s i)
  apply-IsShown s word i h = elim (Option-cases (get_elem? h.spell.suggestions i)) [
    | inl out ↦ rw (apply_none s h.spell i h.state out) (word, h)
    | inr (new, found) ↦
        rw
          (apply_some s h.spell i new (before ++ (new ++ after)) h.state found (
            replace_word before word after new s.value h.spell.word_start h.spell.word_end h.text
              h.start h.stop))
          (
            new,
            record {
              spell = record h.spell { word_end = h.spell.word_start + len new; index = i };
              state = refl;
              replaces = h.replaces;
              text = refl;
              start = h.start;
              stop = rw h.start refl;
              cursor = moved s word new h;
              first = h.first;
            },
          )
  ]

  dismiss_lem :
      (s : InputState) (word : Str)
      → IsShown before word after original gap s
      → dismiss_spell s
        ≡ some (record s {
          spell_state = none;
          value = before ++ (original ++ after);
          cursor_pos = len before + len original + gap;
        })
  unfolding dismiss_spell
  dismiss_lem s word h =
      rw
        (
          h.state,
          h.replaces,
          h.first,
          replace_word before word after original s.value h.spell.word_start h.spell.word_end h.text
              h.start h.stop,
          moved s word original h,
        )
        refl

  cycle-IsShown :
      (s : InputState) (word : Str)
      → IsShown before word after original gap s
      → IsShownIn before after original gap
          (cycle_spell_suggestion s >>= λ (r : InputState × Bool). some r.0)
  unfolding cycle_spell_suggestion
  cycle-IsShown s word h = elim (Bool-cases (is_empty h.spell.suggestions)) [
    | inl none_left ↦
        subst (λ (o : Option InputState). IsShownIn before after original gap o)
          (sym (cycle_none s h.spell h.state none_left)) (word, h)
    | inr some_left ↦
        subst (λ (o : Option InputState). IsShownIn before after original gap o)
          (sym (cycle_some s h.spell h.state some_left))
          (apply-IsShown s word ((h.spell.index + 1) % length h.spell.suggestions) h)
  ]

-- The suggestion tried first, and any number after it.
abbrev pub cycles : ℕ → InputState → Option InputState
cycles zero s = some s
cycles (suc n) s = (cycle_spell_suggestion s >>= λ (r : InputState × Bool). some r.0) >>= cycles n

abbrev pub Restored : InputState → Option InputState → Type 0
Restored s none = ⊥
Restored s (some t) = (t.value ≡ s.value) × (t.cursor_pos ≡ s.cursor_pos) × (t.spell_state ≡ none)

shown_then :
    (before after original : Str) (gap : ℕ) (P : Option InputState → Type 0) (o : Option InputState)
    (f : InputState → Option InputState)
    → ((s : InputState) (word : Str) → IsShown before word after original gap s → P (f s))
    → IsShownIn before after original gap o
    → P (o >>= f)
shown_then before after original gap P none f next h = absurd h
shown_then before after original gap P (some s) f next (word, h) = next s word h

cycles-IsShown :
    (before after original : Str) (gap : ℕ)
    → 0 < gap
    → (n : ℕ) (s : InputState) (word : Str) → IsShown before word after original gap s
    → IsShownIn before after original gap (cycles n s)
cycles-IsShown before after original gap p zero s word h = (word, h)
cycles-IsShown before after original gap p (suc n) s word h =
    shown_then before after original gap (IsShownIn before after original gap)
      (cycle_spell_suggestion s >>= λ (r : InputState × Bool). some r.0) (cycles n)
      (cycles-IsShown before after original gap p n)
      (cycle-IsShown before after original gap p s word h)

-- A correction that is shown at a misspelled word can be tried in any number of ways without a
-- panic, and dismissing it brings the word and the cursor back; where the cursor stands behind
-- the character that ended the word.
pub dismiss-cycles :
    (before after original : Str) (gap n i : ℕ) (s : InputState)
    → IsShown before original after original gap s
    → 0 < gap
    → Restored s (apply_spell_suggestion s i >>= λ t. cycles n t >>= λ u. dismiss_spell u)
dismiss-cycles before after original gap n i s h p =
    shown_then before after original gap (Restored s) (apply_spell_suggestion s i)
      (λ t. cycles n t >>= λ u. dismiss_spell u)
      (λ t word k.
        shown_then before after original gap (Restored s) (cycles n t) dismiss_spell
          (λ u word' m.
            rw (dismiss_lem before after original gap p u word' m) (sym h.text, sym h.cursor, refl))
          (cycles-IsShown before after original gap p n t word k))
      (apply-IsShown before after original gap p s original i h)
