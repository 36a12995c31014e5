-- ===== src/Input/Completions.antt =====
-- What tab completion (src/ui/input.rs) completes, and with what.
use repartee_desktop.Base.{
  sym, text_eq_refl, text_eq→eq, not, Bool-cases, retain, ◌∙◌, map, append_assoc, text_eq,
  Option-cases, ◌&&◌, ◌||◌, arith, all, ◌++◌, ◌≡◌, any, has_byte, ℕ, [], ◌∷◌, some, none, true,
  false, List, Bool, refl, inl, inr,
}
use repartee_desktop.Input.Strings.{Str}
use repartee_desktop.Input.Completion.{
  nick_completions, contains, matching, starts_with, split_list, split_word, split_completion_word,
  rsplit_after, Sources,
}
use repartee_desktop.State.Sorting.{text_le, sort_by, insert_sorted}

rsplit-none : (c : ℕ) (s : Str) → rsplit_after c s ≡ none → has_byte c s ≡ false
rsplit-none c [] e = refl
rsplit-none c (d ∷ s) e = ground (arith, rsplit-none c s)

rsplit-some :
    (c : ℕ) (s a b : Str) → rsplit_after c s ≡ some (a, b) → (a ++ b ≡ s) × (has_byte c b ≡ false)
rsplit-some c [] a b e = ground arith
rsplit-some c (d ∷ s) a b e = elim (Option-cases (rsplit_after c s)) [
  | inl no_more ↦ ground (arith, no_more, rsplit-none c s)
  | inr ((a', b'), more) ↦ ground (arith, more, rsplit-some c s a' b' more)
]

has_byte-right : (c : ℕ) (a b : Str) → has_byte c (a ++ b) ≡ false → has_byte c b ≡ false
has_byte-right c [] b e = e
has_byte-right c (d ∷ a) b e = ground (arith, has_byte-right c a b)

abbrev IsSplit : Str → Str × Str → Type 0
IsSplit text (text_before, word) = (text_before ++ word ≡ text) × (has_byte b' ' word ≡ false)

split_word-IsSplit : (text : Str) → IsSplit text (split_word text)
split_word-IsSplit text = elim (Option-cases (rsplit_after b' ' text)) [
  | inl e ↦ rw (split_word, e) (refl, rsplit-none b' ' text e)
  | inr ((a, b), e) ↦ rw (split_word, e) (rsplit-some b' ' text a b e)
]

split_list-IsSplit :
    (text text_before word : Str)
    → IsSplit text (text_before, word)
    → IsSplit text (split_list (text_before, word))
      × (has_byte b',' (split_list (text_before, word)).1 ≡ false)
split_list-IsSplit text text_before word h = elim (Option-cases (rsplit_after b',' word)) [
  | inl e ↦ rw (split_list, e) (h, rsplit-none b',' word e)
  | inr ((a, b), e) ↦
      let (joined, no_comma) = rsplit-some b',' word a b e in
      rw (split_list, e)
        (
          (append_assoc text_before a b ∙ rw joined h.0, has_byte-right b' ' a b (rw joined h.1)),
          no_comma,
        )
]

-- A line left of the cursor is split without a loss, and the part to be completed has neither a
-- space nor a comma.
pub split_completion_word_lem :
    (text : Str)
    → let (text_before, word) = split_completion_word text in
      (text_before ++ word ≡ text) × (has_byte b' ' word ≡ false) × (has_byte b',' word ≡ false)
unfolding split_completion_word
split_completion_word_lem text =
    let first = split_word text in
    let (h, no_comma) =
      split_list-IsSplit text (split_word text).0 (split_word text).1 (split_word-IsSplit text) in
    (h.0, h.1, no_comma)

module _ (p : Str → Bool) (le : Str → Str → Bool) where
  any-insert_sorted : (x : Str) (ys : List Str) → any p (insert_sorted le x ys) ≡ (p x || any p ys)
  unfolding insert_sorted
  any-insert_sorted x [] = refl
  any-insert_sorted x (y ∷ ys) = ground (arith, any-insert_sorted x ys)

  any-sort_by : (xs : List Str) → any p (sort_by le xs) ≡ any p xs
  unfolding sort_by
  any-sort_by [] = refl
  any-sort_by (x ∷ xs) = ground (arith, any-sort_by xs, any-insert_sorted x (sort_by le xs))

  all-insert_sorted : (x : Str) (ys : List Str) → all p (insert_sorted le x ys) ≡ (p x && all p ys)
  unfolding insert_sorted
  all-insert_sorted x [] = refl
  all-insert_sorted x (y ∷ ys) = ground (arith, all-insert_sorted x ys)

  all-sort_by : (xs : List Str) → all p (sort_by le xs) ≡ all p xs
  unfolding sort_by
  all-sort_by [] = refl
  all-sort_by (x ∷ xs) = ground (arith, all-sort_by xs, all-insert_sorted x (sort_by le xs))

  any-append_str : (xs ys : List Str) → any p (xs ++ ys) ≡ (any p xs || any p ys)
  any-append_str [] ys = refl
  any-append_str (x ∷ xs) ys = ground (arith, any-append_str xs ys)

module _ (e : Sources) (nicks last_speakers : List Str) (prefix : Str) where
  abbrev fits : Str → Bool
  fits n = starts_with (e.to_lowercase prefix) (e.to_lowercase n)

  abbrev same : Str → Str → Bool
  same n m = text_eq (e.to_lowercase m) (e.to_lowercase n)

  all-matching : (names : List Str) → all fits (matching e prefix names) ≡ true
  all-matching [] = refl
  all-matching (n ∷ names) = ground (arith, all-matching names)

  contains-map :
      (n : Str) (names : List Str)
      → contains (map e.to_lowercase names) (e.to_lowercase n) ≡ any (same n) names
  contains-map n [] = refl
  contains-map n (m ∷ names) = ground (arith, contains-map n names)

  abbrev others : List Str → List Str → List Str
  others known names =
      retain
        (λ (n : Str).
          starts_with (e.to_lowercase prefix) (e.to_lowercase n)
          && not (contains known (e.to_lowercase n)))
        names

  all-others : (known names : List Str) → all fits (others known names) ≡ true
  all-others known [] = refl
  all-others known (n ∷ names) = ground (arith, all-others known names)

  any-others :
      (known names : List Str) (n : Str)
      → contains names n ≡ true
      → fits n ≡ true
      → (contains known (e.to_lowercase n) || any (same n) (others known names)) ≡ true
  any-others known [] n h f = cc
  any-others known (m ∷ names) n h f = elim (Bool-cases (text_eq m n)) [
    | inl this ↦
        let eq = text_eq→eq m n this in rw eq (ground (arith, f, text_eq_refl (e.to_lowercase n)))
    | inr other ↦ ground (arith, other, any-others known names n)
  ]

  all-append : (xs ys : List Str) → all fits (xs ++ ys) ≡ (all fits xs && all fits ys)
  all-append [] ys = refl
  all-append (x ∷ xs) ys = ground (arith, all-append xs ys)

  recent : List Str
  recent = matching e prefix last_speakers

  -- Completing a nick offers only names with the prefix, and, in some spelling of its case, every
  -- nick of the channel that has the prefix.
  pub nick_completions_lem :
      (n : Str)
      → contains nicks n ≡ true
      → starts_with (e.to_lowercase prefix) (e.to_lowercase n) ≡ true
      → let found = nick_completions e nicks last_speakers prefix in
        (all (λ (m : Str). starts_with (e.to_lowercase prefix) (e.to_lowercase m)) found ≡ true)
        × (any (λ (m : Str). text_eq (e.to_lowercase m) (e.to_lowercase n)) found ≡ true)
  unfolding nick_completions recent
  nick_completions_lem n h f =
      let known = map e.to_lowercase recent in
      let le : Str → Str → Bool = λ (a b : Str). text_le (e.to_lowercase a) (e.to_lowercase b) in
      let rest = others known nicks in
      (
        all-append recent (sort_by le rest)
            ∙ rw (all-matching last_speakers, all-sort_by fits le rest, all-others known nicks)
                refl,
        any-append_str (same n) le recent (sort_by le rest)
            ∙ rw (any-sort_by (same n) le rest)
                (rw (sym (contains-map n recent)) (any-others known nicks n h f)),
      )
