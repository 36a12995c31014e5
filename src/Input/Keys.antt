-- ===== src/Input/Keys.antt =====
-- What each method of src/ui/input.rs does to the string and the byte offset, as an edit of a line.
use repartee_desktop.Base.{
  take-append-drop, ◌==◌, append-nil, drop, ◌∙◌, ap, take, arith, append_assoc, sym, inr, inl, ◌+◌,
  ltb, Bool-cases, ◌++◌, ◌≡◌, ℕ, [], ◌∷◌, some, none, true, false, Option, refl,
}
use repartee_desktop.Input.{Str, InputState}
use repartee_desktop.Input.Line.{
  strip_word, second_index-len, last_split, last_index-len, last_part, drop_last, cut_word,
  cut_to_end, cut_to_start, go_right, go_left, erase_next, replace_range-parts, len-zero, erase,
  edit, type, Line,
}
use repartee_desktop.Input.Edits.{
  word_start_of, delete_word_back, clear_to_end, clear_to_start, end, move_right, move_left, delete,
  backspace, insert_char,
}
use repartee_desktop.Input.Strings.{
  trim_end, second_index, last_index, len-append, replace_range, is_control, len, split_at-len,
  split_at,
}
use repartee_desktop.Input.Words.{word_start_of-len, trim_end-rest, strip_word-rest, is_narrow}

-- The string is the two parts, and the offset is the length of the first.
pub record Shows (s : InputState) (l : Line) : Type 0 where
  pub text : s.value ≡ l.left ++ l.right
  pub at : s.cursor_pos ≡ len l.left

-- An operation went well, and shows the line.
abbrev pub Does : Option InputState → Line → Type 0
Does none l = ⊥
Does (some s) l = Shows s l

pub cursor_split :
    (s : InputState) (l : Line) → Shows s l → split_at s.cursor_pos s.value ≡ some (l.left, l.right)
cursor_split s l v = rw (v.text, v.at) (split_at-len l.left l.right)

pub cut_lem :
    (a b c v : Str) (p q : ℕ)
    → v ≡ a ++ (b ++ c)
    → p ≡ len a
    → q ≡ len a + len b
    → replace_range p q [] v ≡ some (a ++ c)
cut_lem a b c v p q e f g = rw (e, f, g) (replace_range-parts a b c [])

pub type-Does :
    (s : InputState) (l : Line) (c : ℕ) → Shows s l → Does (insert_char s c) (edit l (type c))
unfolding insert_char
type-Does s l c v = elim (Bool-cases (is_control c)) [
  | inl control ↦ rw control v
  | inr plain ↦
      rw (plain, cursor_split s l v)
        (record {
          text = sym (append_assoc l.left (c ∷ []) l.right);
          at = rw (len-append l.left (c ∷ []), v.at) (omega arith);
        })
]

-- The parts of the line around the last character before the cursor, and around the next one.
last_parts :
    (s : InputState) (l : Line)
    → Shows s l
    → s.value ≡ drop_last l.left ++ (last_part l.left ++ l.right)
last_parts s l v =
    v.text
    ∙ ap (λ (t : Str). t ++ l.right) (sym (last_split l.left))
    ∙ append_assoc (drop_last l.left) (last_part l.left) l.right

last_offset :
    (s : InputState) (l : Line)
    → Shows s l
    → s.cursor_pos ≡ len (drop_last l.left) + len (last_part l.left)
last_offset s l v =
    v.at ∙ ap len (sym (last_split l.left)) ∙ len-append (drop_last l.left) (last_part l.left)

next_parts :
    (s : InputState) (l : Line) → Shows s l → s.value ≡ l.left ++ (take 1 l.right ++ drop 1 l.right)
next_parts s l v = v.text ∙ ap (λ (t : Str). l.left ++ t) (sym (take-append-drop 1 l.right))

all_left : (s : InputState) (l : Line) → Shows s l → ltb 0 s.cursor_pos ≡ false → l.left ≡ []
all_left s l v h = len-zero l.left (ground (arith, v.at))

no_right :
    (s : InputState) (l : Line) → Shows s l → ltb s.cursor_pos (len s.value) ≡ false → l.right ≡ []
no_right s l v h =
    let e : len s.value ≡ len l.left + len l.right = ap len v.text ∙ len-append l.left l.right in
    len-zero l.right (ground (arith, v.at, e))

pub erase-Does : (s : InputState) (l : Line) → Shows s l → Does (backspace s) (edit l erase)
unfolding backspace
erase-Does s l v = elim (Bool-cases (ltb 0 s.cursor_pos)) [
  | inr first ↦
      let e = all_left s l v first in
      rw (first, e) (record { text = v.text ∙ rw e refl; at = v.at ∙ rw e refl })
  | inl later ↦
      rw
        (
          later,
          cursor_split s l v,
          cut_lem (drop_last l.left) (last_part l.left) l.right s.value (last_index l.left)
              s.cursor_pos (last_parts s l v) (last_index-len l.left) (last_offset s l v),
        )
        (record { text = refl; at = last_index-len l.left })
]

pub erase_next-Does : (s : InputState) (l : Line) → Shows s l → Does (delete s) (edit l erase_next)
unfolding delete
erase_next-Does s l v = elim (Bool-cases (ltb s.cursor_pos (len s.value))) [
  | inr end ↦
      let e = no_right s l v end in rw (end, e) (record { text = v.text ∙ rw e refl; at = v.at })
  | inl more ↦
      rw
        (
          more,
          cursor_split s l v,
          cut_lem l.left (take 1 l.right) (drop 1 l.right) s.value s.cursor_pos
              (s.cursor_pos + second_index l.right) (next_parts s l v) v.at
              (omega (arith, v.at, second_index-len l.right)),
        )
        (record { text = refl; at = v.at })
]

pub go_left-Does : (s : InputState) (l : Line) → Shows s l → Does (move_left s) (edit l go_left)
unfolding move_left
go_left-Does s l v = elim (Bool-cases (ltb 0 s.cursor_pos)) [
  | inr first ↦
      let e = all_left s l v first in
      rw (first, e) (record { text = v.text ∙ rw e refl; at = v.at ∙ rw e refl })
  | inl later ↦
      rw (later, cursor_split s l v)
        (record { text = last_parts s l v; at = last_index-len l.left })
]

pub go_right-Does : (s : InputState) (l : Line) → Shows s l → Does (move_right s) (edit l go_right)
unfolding move_right
go_right-Does s l v = elim (Bool-cases (ltb s.cursor_pos (len s.value))) [
  | inr end ↦
      let e = no_right s l v end in
      rw (end, e)
        (record {
          text = v.text ∙ rw e (sym (append_assoc l.left [] []));
          at = v.at ∙ sym (rw (append-nil l.left) refl);
        })
  | inl more ↦
      rw (more, cursor_split s l v)
        (record {
          text = next_parts s l v ∙ sym (append_assoc l.left (take 1 l.right) (drop 1 l.right));
          at = rw (v.at, len-append l.left (take 1 l.right), second_index-len l.right) refl;
        })
]

pub cut_to_start-Does :
    (s : InputState) (l : Line) → Shows s l → Does (clear_to_start s) (edit l cut_to_start)
unfolding clear_to_start
cut_to_start-Does s l v = elim (Bool-cases (ltb 0 s.cursor_pos)) [
  | inr first ↦
      let e = all_left s l v first in
      rw first (record { text = v.text ∙ rw e refl; at = v.at ∙ rw e refl })
  | inl later ↦
      rw (later, cut_lem [] l.left l.right s.value 0 s.cursor_pos v.text refl (omega (arith, v.at)))
        (record { text = refl; at = refl })
]

pub cut_to_end-Does :
    (s : InputState) (l : Line) → Shows s l → Does (clear_to_end s) (edit l cut_to_end)
unfolding clear_to_end
cut_to_end-Does s l v = elim (Bool-cases (ltb s.cursor_pos (len s.value))) [
  | inr end ↦ let e = no_right s l v end in rw end (record { text = v.text ∙ rw e refl; at = v.at })
  | inl more ↦ rw (more, cursor_split s l v) (record { text = sym (append-nil l.left); at = v.at })
]

pub cut_word-Does :
    (s : InputState) (l : Line)
    → Shows s l
    → is_narrow l.left ≡ true
    → Does (delete_word_back s) (edit l cut_word)
unfolding delete_word_back
cut_word-Does s l v narrow = elim (Bool-cases (s.cursor_pos == 0)) [
  | inl first ↦
      let e = all_left s l v (ground arith) in
      rw (first, e) (record { text = v.text ∙ rw e refl; at = v.at ∙ rw e refl })
  | inr later ↦
      let (r, kept) = strip_word-rest (trim_end l.left) in
      let (r', trimmed) = trim_end-rest l.left in
      let word = strip_word (trim_end l.left) in
      let parts : l.left ≡ word ++ (r ++ r') =
        trimmed ∙ ap (λ (t : Str). t ++ r') kept ∙ append_assoc word r r' in
      let text : s.value ≡ word ++ ((r ++ r') ++ l.right) =
        v.text ∙ ap (λ (t : Str). t ++ l.right) parts ∙ append_assoc word (r ++ r') l.right in
      let at : s.cursor_pos ≡ len word + len (r ++ r') =
        v.at ∙ ap len parts ∙ len-append word (r ++ r') in
      rw
        (
          later,
          cursor_split s l v,
          cut_lem word (r ++ r') l.right s.value (word_start_of l.left) s.cursor_pos text
              (word_start_of-len l.left narrow) at,
        )
        (record { text = refl; at = word_start_of-len l.left narrow })
]
