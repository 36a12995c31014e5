-- ===== src/Input/Refines.antt =====
-- Any sequence of methods of src/ui/input.rs is refined by the edits of a line.
use repartee_desktop.Base.{
  subst, take-append-drop, append-nil, ◌∙◌, ap, take, arith, sym, ◌++◌, ◌≡◌, [], ◌∷◌, some, none,
  true, List, Option, refl,
}
use repartee_desktop.Input.{Str, InputState}
use repartee_desktop.Input.Line.{
  strip_word, last_split, last_part, cut_word, cut_to_end, cut_to_start, go_end, go_home, go_right,
  go_left, erase_next, erase, edit, type, Line, Edit,
}
use repartee_desktop.Input.Edits.{
  delete_word_back, clear_to_end, clear_to_start, end, home, move_right, move_left, delete,
  backspace, insert_char,
}
use repartee_desktop.Input.Strings.{◌>>=◌, trim_end, len}
use repartee_desktop.Input.Words.{trim_end-rest, strip_word-rest, is_narrow}
use repartee_desktop.Input.Keys.{
  Shows, Does, type-Does, erase-Does, erase_next-Does, go_left-Does, go_right-Does,
  cut_to_start-Does, cut_to_end-Does, cut_word-Does,
}

unfoldable pub perform : InputState → Edit → Option InputState
perform s (type c) = insert_char s c
perform s erase = backspace s
perform s erase_next = delete s
perform s go_left = move_left s
perform s go_right = move_right s
perform s go_home = some (home s)
perform s go_end = some (end s)
perform s cut_to_start = clear_to_start s
perform s cut_to_end = clear_to_end s
perform s cut_word = delete_word_back s

-- Whatever white characters are typed are one byte long.
abbrev pub NarrowTyping : List Edit → Type 0
NarrowTyping [] = Unit
NarrowTyping (type c ∷ es) = (is_narrow (c ∷ []) ≡ true) × NarrowTyping es
NarrowTyping (e ∷ es) = NarrowTyping es

abbrev pub Narrow : Line → Type 0
Narrow l = (is_narrow l.left ≡ true) × (is_narrow l.right ≡ true)

is_narrow-append : (s t : Str) → is_narrow s ≡ true → is_narrow t ≡ true → is_narrow (s ++ t) ≡ true
is_narrow-append [] t p q = q
is_narrow-append (c ∷ s) t p q = ground (arith, is_narrow-append s t)

is_narrow-left : (s t : Str) → is_narrow (s ++ t) ≡ true → is_narrow s ≡ true
is_narrow-left [] t p = refl
is_narrow-left (c ∷ s) t p = ground (arith, is_narrow-left s t)

is_narrow-right : (s t : Str) → is_narrow (s ++ t) ≡ true → is_narrow t ≡ true
is_narrow-right [] t p = p
is_narrow-right (c ∷ s) t p = ground (arith, is_narrow-right s t)

narrow_parts :
    (a b s : Str) → a ++ b ≡ s → is_narrow s ≡ true → (is_narrow a ≡ true) × (is_narrow b ≡ true)
narrow_parts a b s e n =
    let whole = subst (λ (t : Str). is_narrow t ≡ true) (sym e) n in
    (is_narrow-left a b whole, is_narrow-right a b whole)

strip-is_narrow : (s : Str) → is_narrow s ≡ true → is_narrow (strip_word (trim_end s)) ≡ true
strip-is_narrow s n =
    let (r, trimmed) = trim_end-rest s in
    let (r', kept) = strip_word-rest (trim_end s) in
    (narrow_parts (strip_word (trim_end s)) r' (trim_end s) (sym kept)
      (narrow_parts (trim_end s) r s (sym trimmed) n).0).0

edit-Narrow :
    (l : Line) (e : Edit) (es : List Edit)
    → NarrowTyping (e ∷ es)
    → Narrow l
    → Narrow (edit l e) × NarrowTyping es
edit-Narrow l (type c) es t n = ground (arith, is_narrow-append l.left (c ∷ []))
edit-Narrow l erase es t n = (((narrow_parts _ _ l.left (last_split l.left) n.0).0, n.1), t)
edit-Narrow l erase_next es t n =
    ((n.0, (narrow_parts _ _ l.right (take-append-drop 1 l.right) n.1).1), t)
edit-Narrow l go_left es t n =
    let parts = narrow_parts _ _ l.left (last_split l.left) n.0 in
    ((parts.0, is_narrow-append (last_part l.left) l.right parts.1 n.1), t)
edit-Narrow l go_right es t n =
    let parts = narrow_parts _ _ l.right (take-append-drop 1 l.right) n.1 in
    ((is_narrow-append l.left (take 1 l.right) n.0 parts.0, parts.1), t)
edit-Narrow l go_home es t n = ((refl, is_narrow-append l.left l.right n.0 n.1), t)
edit-Narrow l go_end es t n = ((is_narrow-append l.left l.right n.0 n.1, refl), t)
edit-Narrow l cut_to_start es t n = ((refl, n.1), t)
edit-Narrow l cut_to_end es t n = ((n.0, refl), t)
edit-Narrow l cut_word es t n = ((strip-is_narrow l.left n.0, n.1), t)

perform-Does :
    (s : InputState) (l : Line) (e : Edit) → Shows s l → Narrow l → Does (perform s e) (edit l e)
unfolding perform home end
perform-Does s l (type c) v n = type-Does s l c v
perform-Does s l erase v n = erase-Does s l v
perform-Does s l erase_next v n = erase_next-Does s l v
perform-Does s l go_left v n = go_left-Does s l v
perform-Does s l go_right v n = go_right-Does s l v
perform-Does s l go_home v n = record { text = v.text; at = refl }
perform-Does s l go_end v n = record {
  text = v.text ∙ sym (append-nil (l.left ++ l.right));
  at = ap len v.text;
}
perform-Does s l cut_to_start v n = cut_to_start-Does s l v
perform-Does s l cut_to_end v n = cut_to_end-Does s l v
perform-Does s l cut_word v n = cut_word-Does s l v n.0

unfoldable pub perform_all : InputState → List Edit → Option InputState
unfolding perform
perform_all s [] = some s
perform_all s (e ∷ es) = perform s e >>= λ s'. perform_all s' es

abbrev pub edit_all : Line → List Edit → Line
edit_all l [] = l
edit_all l (e ∷ es) = edit_all (edit l e) es

perform_then :
    (o : Option InputState) (l : Line) (es : List Edit)
    → ((s : InputState) → Shows s l → Does (perform_all s es) (edit_all l es))
    → Does o l
    → Does (o >>= λ s. perform_all s es) (edit_all l es)
perform_then none l es next d = absurd d
perform_then (some s) l es next d = next s d

-- No sequence of edits panics, and each leaves the string and the cursor that the same edits make
-- of the text before and after the cursor; where all white characters of the line and of what is
-- typed are one byte long.
pub perform_all_refines :
    (s : InputState) (l : Line) (es : List Edit)
    → Shows s l
    → Narrow l
    → NarrowTyping es
    → Does (perform_all s es) (edit_all l es)
unfolding perform_all
perform_all_refines s l [] v n t = v
perform_all_refines s l (e ∷ es) v n t =
    let (kept, rest) = edit-Narrow l e es t n in
    perform_then (perform s e) (edit l e) es
      (λ s' v'. perform_all_refines s' (edit l e) es v' kept rest) (perform-Does s l e v n)
