-- ===== src/Irc/Stripped.antt =====
-- What src/irc/formatting.rs leaves of a formatted text.
use repartee_desktop.Base.{
  inl, inr, ◌==◌, any, subst, ◌∙◌, Bool-cases, not, refl, zero, ap, [], is_ascii_digit, suc, true,
  Bool, arith, ◌≡◌, ◌++◌, ◌∷◌, ℕ, ◌≤◌, all, length, Text,
}
use repartee_desktop.Irc.Formatting.{
  is_continuation, hex_colour, colour, toggle, is_ascii_hexdigit, background, skip, plain,
  left_after, after_continuation, pushed, continuation, Kind, kind_of, strip_loop,
  strip_irc_formatting,
}

-- None of the bytes of bold, colour, hexadecimal colour, reset, reverse, italics, strikethrough and
-- underline.
abbrev pub is_clean : ℕ → Bool
is_clean b = not (any (◌==◌ b) (0x02 ∷ 0x03 ∷ 0x04 ∷ 0x0f ∷ 0x16 ∷ 0x1d ∷ 0x1e ∷ 0x1f ∷ []))

all-append : (p : ℕ → Bool) (s t : Text) → all p s ≡ true → all p t ≡ true → all p (s ++ t) ≡ true
all-append p [] t h k = k
all-append p (b ∷ s) t h k = ground (arith, all-append p s t)

continuation-clean : (s : Text) → all is_clean (continuation s) ≡ true
continuation-clean [] = refl
continuation-clean (b ∷ s) = ground (arith, continuation-clean s)

pushed-clean : (b : ℕ) (s : Text) → all is_clean (pushed (kind_of b) b s) ≡ true
pushed-clean b s = ground (arith, continuation-clean s)

strip_loop-clean : (f : ℕ) (s : Text) → all is_clean (strip_loop f s) ≡ true
unfolding strip_loop
strip_loop-clean zero s = refl
strip_loop-clean (suc f) [] = refl
strip_loop-clean (suc f) (b ∷ s) =
    all-append is_clean (pushed (kind_of b) b s) (strip_loop f (left_after (kind_of b) s))
      (pushed-clean b s) (strip_loop-clean f (left_after (kind_of b) s))

clean-plain : (b : ℕ) → is_clean b ≡ true → kind_of b ≡ plain
clean-plain b h = ground arith

continuation_parts : (s : Text) → continuation s ++ after_continuation s ≡ s
continuation_parts [] = refl
continuation_parts (b ∷ s) = ground (arith, continuation_parts s)

after_continuation-clean :
    (s : Text) → all is_clean s ≡ true → all is_clean (after_continuation s) ≡ true
after_continuation-clean [] h = refl
after_continuation-clean (b ∷ s) h = ground (arith, after_continuation-clean s)

after_continuation-length : (s : Text) → length (after_continuation s) ≤ length s
after_continuation-length [] = omega arith
after_continuation-length (b ∷ s) = ground (arith, after_continuation-length s)

strip_loop-of_clean : (f : ℕ) (s : Text) → length s ≤ f → all is_clean s ≡ true → strip_loop f s ≡ s
unfolding strip_loop
strip_loop-of_clean zero [] n h = refl
strip_loop-of_clean zero (b ∷ s) n h = absurd (omega arith)
strip_loop-of_clean (suc f) [] n h = refl
strip_loop-of_clean (suc f) (b ∷ s) n h =
    let rest : strip_loop f (after_continuation s) ≡ after_continuation s =
      strip_loop-of_clean f (after_continuation s) (omega (arith, after_continuation-length s))
        (after_continuation-clean s (ground arith)) in
    rw (clean-plain b (ground arith), rest) (ap (◌∷◌ b) (continuation_parts s))

skip-length : (p : ℕ → Bool) (n : ℕ) (s : Text) → length (skip p n s) ≤ length s
skip-length p zero s = omega arith
skip-length p (suc n) [] = omega arith
skip-length p (suc n) (b ∷ s) = ground (arith, skip-length p n s)

background-length : (p : ℕ → Bool) (n : ℕ) (s : Text) → length (background p n s) ≤ length s
background-length p n [] = omega arith
background-length p n (b ∷ []) = omega arith
background-length p n (b ∷ c ∷ s) = ground (arith, skip-length p n (c ∷ s))

left_after-length : (k : Kind) (s : Text) → length (left_after k s) ≤ length s
left_after-length toggle s = omega arith
left_after-length colour s = omega (
  arith,
  skip-length is_ascii_digit 2 s,
  background-length is_ascii_digit 2 (skip is_ascii_digit 2 s),
)
left_after-length hex_colour s = omega (
  arith,
  skip-length is_ascii_hexdigit 6 s,
  background-length is_ascii_hexdigit 6 (skip is_ascii_hexdigit 6 s),
)
left_after-length plain s = after_continuation-length s

strip_loop_fuel :
    (f g : ℕ) (s : Text) → length s ≤ f → length s ≤ g → strip_loop f s ≡ strip_loop g s
unfolding strip_loop
strip_loop_fuel zero zero s h k = refl
strip_loop_fuel zero (suc g) [] h k = refl
strip_loop_fuel (suc f) zero [] h k = refl
strip_loop_fuel (suc f) (suc g) [] h k = refl
strip_loop_fuel zero (suc g) (b ∷ s) h k = absurd (omega arith)
strip_loop_fuel (suc f) zero (b ∷ s) h k = absurd (omega arith)
strip_loop_fuel (suc f) (suc g) (b ∷ s) h k = ap (◌++◌ (pushed (kind_of b) b s)) (
    strip_loop_fuel f g (left_after (kind_of b) s) (omega (arith, left_after-length (kind_of b) s))
      (omega (arith, left_after-length (kind_of b) s)))

-- A byte that is clean stays.
strip-plain :
    (b : ℕ) (s : Text)
    → is_clean b ≡ true
    → strip_irc_formatting (b ∷ s) ≡ b ∷ strip_irc_formatting s
unfolding strip_irc_formatting strip_loop
strip-plain b [] h = rw (clean-plain b h) refl
strip-plain b (c ∷ s) h = elim (Bool-cases (is_continuation c)) [
  | inr e ↦ rw (clean-plain b h, e) refl
  | inl e ↦
      let clean : is_clean c ≡ true = ground (arith, e) in
      rw (clean-plain b h, e, clean-plain c clean)
        (ap (λ x. b ∷ (c ∷ (continuation s ++ x)))
          (strip_loop_fuel (suc (length s)) (length s) (after_continuation s)
            (omega (arith, after_continuation-length s)) (after_continuation-length s)))
]

strip-prefix :
    (pre s : Text)
    → all is_clean pre ≡ true
    → strip_irc_formatting (pre ++ s) ≡ pre ++ strip_irc_formatting s
strip-prefix [] s h = refl
strip-prefix (b ∷ pre) s h =
    strip-plain b (pre ++ s) (ground (arith, h))
    ∙ ap (◌∷◌ b) (strip-prefix pre s (ground (arith, h)))

skip-all :
    (p : ℕ → Bool) (n : ℕ) (digits s : Text)
    → length digits ≡ n
    → all p digits ≡ true
    → skip p n (digits ++ s) ≡ s
skip-all p zero [] s l h = refl
skip-all p zero (d ∷ digits) s l h = absurd (omega arith)
skip-all p (suc n) [] s l h = absurd (omega arith)
skip-all p (suc n) (d ∷ digits) s l h = ground (arith, h, skip-all p n digits s (omega (arith, l)))

background-all :
    (p : ℕ → Bool) (n : ℕ) (digits s : Text)
    → length digits ≡ suc n
    → all p digits ≡ true
    → background p (suc n) (b',' ∷ (digits ++ s)) ≡ s
background-all p n [] s l h = absurd (omega arith)
background-all p n (d ∷ digits) s l h = ground (arith, h, skip-all p n digits s (omega (arith, l)))

-- The code at the front of a text leaves what comes after it.
strip-code :
    (b : ℕ) (s rest : Text)
    → pushed (kind_of b) b s ≡ []
    → left_after (kind_of b) s ≡ rest
    → strip_irc_formatting (b ∷ s) ≡ strip_irc_formatting rest
unfolding strip_irc_formatting strip_loop
strip-code b s rest none' e =
    rw (none', e)
      (strip_loop_fuel (length s) (length rest) rest
        (subst (λ x. length x ≤ length s) e (left_after-length (kind_of b) s)) (omega arith))

stripped-clean : (text : Text) → all is_clean (strip_irc_formatting text) ≡ true
unfolding strip_irc_formatting
stripped-clean text = strip_loop-clean (length text) text

stripped_again :
    (text : Text)
    → all is_clean (strip_irc_formatting text) ≡ true
    → strip_irc_formatting (strip_irc_formatting text) ≡ strip_irc_formatting text
unfolding strip_irc_formatting
stripped_again text clean =
    let once = strip_loop (length text) text in
    strip_loop-of_clean (length once) once (omega arith) clean

all-parts :
    (p : ℕ → Bool) (xs ys : Text) → all p (xs ++ ys) ≡ true → (all p xs ≡ true) × (all p ys ≡ true)
all-parts p [] ys h = (refl, h)
all-parts p (x ∷ xs) ys h =
    let rest = all-parts p xs ys (ground (arith, h)) in (ground (arith, h, rest.0), rest.1)

-- A stripped text has none of the bytes of formatting codes, and stripping it again changes nothing.
-- Of a text without codes, a colour of two digits with a background of two, a colour of six
-- hexadecimal digits with a background of six, and any other text, the first is left as it is and the
-- codes go with all of their digits.
pub strip_irc_formatting_lem :
    (pre fg bg hex_fg hex_bg text : Text)
    → all is_clean pre ≡ true
    → (length fg ≡ 2) × (length bg ≡ 2)
    → all is_ascii_digit (fg ++ bg) ≡ true
    → (length hex_fg ≡ 6) × (length hex_bg ≡ 6)
    → all is_ascii_hexdigit (hex_fg ++ hex_bg) ≡ true
    → (all is_clean (strip_irc_formatting text) ≡ true)
      × (strip_irc_formatting (strip_irc_formatting text) ≡ strip_irc_formatting text)
      × (strip_irc_formatting (
            pre ++ (0x03 ∷ (fg ++ (b',' ∷ (bg ++ (0x04 ∷ (hex_fg ++ (b',' ∷ (hex_bg ++ text)))))))))
          ≡ pre ++ strip_irc_formatting text)
strip_irc_formatting_lem pre fg bg hex_fg hex_bg text h l d l' d' =
    let clean = stripped-clean text in
    let hex = hex_fg ++ (b',' ∷ (hex_bg ++ text)) in
    let both = all-parts is_ascii_digit fg bg d in
    let both' = all-parts is_ascii_hexdigit hex_fg hex_bg d' in
    let dropped = strip-code 0x03 (fg ++ (b',' ∷ (bg ++ (0x04 ∷ hex)))) (0x04 ∷ hex) refl (
      ap (background is_ascii_digit 2)
        (skip-all is_ascii_digit 2 fg (b',' ∷ (bg ++ (0x04 ∷ hex))) l.0 both.0)
      ∙ background-all is_ascii_digit 1 bg (0x04 ∷ hex) l.1 both.1) in
    let dropped' = strip-code 0x04 hex text refl (
      ap (background is_ascii_hexdigit 6)
        (skip-all is_ascii_hexdigit 6 hex_fg (b',' ∷ (hex_bg ++ text)) l'.0 both'.0)
      ∙ background-all is_ascii_hexdigit 5 hex_bg text l'.1 both'.1) in
    (clean, stripped_again text clean, strip-prefix pre _ h ∙ ap (◌++◌ pre) (dropped ∙ dropped'))
