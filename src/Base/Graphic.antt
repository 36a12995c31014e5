-- ===== src/Base/Graphic.antt =====
-- Printable ASCII characters: they are not white, and a string of them has as many bytes as characters.
use repartee_desktop.Base.{
  ap, false, ◌+◌, is_ascii_digit, arith, ◌≤◌, ◌≡◌, ◌++◌, leb, ◌&&◌, ℕ, [], ◌∷◌, Bool, true, all,
  length, refl, ◌∙◌, show_number,
}
use repartee_desktop.Base.Chars.{
  trim, trim_end, trim_start, words_by-append, split_ascii_whitespace, is_word_by, is_dark_by,
  is_ascii_whitespace, Str, len, len_utf8, is_whitespace, is_dark, is_word, lacks,
}
use repartee_desktop.Base.Numbers.{
  all_digits, ℤ, pos, negsuc, show_integer, show_number-digits, show_number-cons,
}

-- Printable ASCII but the space.
abbrev pub is_graphic : ℕ → Bool
is_graphic c = leb 33 c && leb c 126

graphic-dark : (s : Str) → all is_graphic s ≡ true → is_dark s ≡ true
unfolding is_whitespace
graphic-dark [] h = refl
graphic-dark (c ∷ s) h = ground (arith, graphic-dark s)

pub len-graphic : (s : Str) → all is_graphic s ≡ true → len s ≡ length s
unfolding len_utf8
len-graphic [] h = refl
len-graphic (c ∷ s) h = ground (arith, len-graphic s)

pub graphic-word : (s : Str) → 1 ≤ length s → all is_graphic s ≡ true → is_word s ≡ true
unfolding is_whitespace
graphic-word [] n h = absurd (omega arith)
graphic-word (c ∷ s) n h = ground (arith, graphic-dark s)

pub graphic-append :
    (s t : Str) → all is_graphic s ≡ true → all is_graphic t ≡ true → all is_graphic (s ++ t) ≡ true
graphic-append [] t h k = k
graphic-append (c ∷ s) t h k = ground (arith, graphic-append s t)

pub digits-graphic : (s : Str) → all_digits s ≡ true → all is_graphic s ≡ true
digits-graphic [] h = refl
digits-graphic (c ∷ s) h = ground (arith, digits-graphic s)

pub digits-lacks :
    (c : ℕ) (s : Str) → is_ascii_digit c ≡ false → all_digits s ≡ true → lacks c s ≡ true
digits-lacks c [] n h = refl
digits-lacks c (d ∷ s) n h = ground (arith, digits-lacks c s)

pub show_number-graphic : (n : ℕ) → all is_graphic (show_number n) ≡ true
show_number-graphic n = digits-graphic (show_number n) (show_number-digits n)

pub show_number-length : (n : ℕ) → 1 ≤ length (show_number n)
show_number-length n = let (c, s, e) = show_number-cons n in rw e (omega arith)

pub show_number-word : (n : ℕ) → is_word (show_number n) ≡ true
show_number-word n = graphic-word (show_number n) (show_number-length n) (show_number-graphic n)

pub show_integer-word : (z : ℤ) → is_word (show_integer z) ≡ true
unfolding show_integer
show_integer-word (pos n) = show_number-word n
show_integer-word (negsuc n) =
    graphic-word (b'-' ∷ show_number (n + 1)) (omega arith)
      (ground (arith, show_number-graphic (n + 1)))

graphic-ascii_dark : (s : Str) → all is_graphic s ≡ true → is_dark_by is_ascii_whitespace s ≡ true
unfolding is_ascii_whitespace
graphic-ascii_dark [] h = refl
graphic-ascii_dark (c ∷ s) h = ground (arith, graphic-ascii_dark s)

-- Also where only ASCII characters are white.
pub graphic-ascii_word :
    (s : Str) → 1 ≤ length s → all is_graphic s ≡ true → is_word_by is_ascii_whitespace s ≡ true
unfolding is_ascii_whitespace
graphic-ascii_word [] n h = absurd (omega arith)
graphic-ascii_word (c ∷ s) n h = ground (arith, graphic-ascii_dark s)

pub split_ascii_whitespace-append :
    (w s : Str)
    → is_word_by is_ascii_whitespace w ≡ true
    → split_ascii_whitespace (w ++ (32 ∷ s)) ≡ w ∷ split_ascii_whitespace s
unfolding is_ascii_whitespace
split_ascii_whitespace-append w s h = words_by-append is_ascii_whitespace w s refl h

trim_start-graphic : (s : Str) → all is_graphic s ≡ true → trim_start s ≡ s
unfolding is_whitespace
trim_start-graphic [] h = refl
trim_start-graphic (c ∷ s) h = ground arith

trim_end-graphic : (s : Str) → all is_graphic s ≡ true → trim_end s ≡ s
unfolding is_whitespace
trim_end-graphic [] h = refl
trim_end-graphic (c ∷ []) h = ground arith
trim_end-graphic (c ∷ d ∷ s) h =
    let rest : trim_end (d ∷ s) ≡ d ∷ s = trim_end-graphic (d ∷ s) (ground arith) in
    rw (trim_end, rest) refl

pub trim-graphic : (s : Str) → all is_graphic s ≡ true → trim s ≡ s
trim-graphic s h = ap trim_end (trim_start-graphic s h) ∙ trim_end-graphic s h

pub graphic-lacks :
    (c : ℕ) (s : Str) → is_graphic c ≡ false → all is_graphic s ≡ true → lacks c s ≡ true
graphic-lacks c [] n h = refl
graphic-lacks c (d ∷ s) n h = ground (arith, graphic-lacks c s)
