-- ===== src/Base/Numbers.antt =====
-- Decimal numbers and integers as texts: `to_string` and `parse`.
use repartee_desktop.Base.{
  le→leb, ap, ◌∙◌, Bool-cases, arith, ◌%◌, ◌≤◌, ◌≡◌, all, decimal_digits, ltb, ◌/◌, is_ascii_digit,
  ◌-◌, ◌+◌, leb, ◌==◌, ◌*◌, ◌<◌, show_number, if◌then◌else◌, Text, ℕ, zero, suc, [], ◌∷◌, some,
  none, true, Option, Bool, refl, inl, inr,
}

pub data ℤ : Type 0 where
  pos : ℕ → ℤ
  negsuc : ℕ → ℤ  -- `negsuc n` is -(n + 1)

-- The digits read on from a value.
unfoldable pub digits_from : ℕ → Text → Option ℕ
digits_from v [] = some v
digits_from v (c ∷ s) =
    let rest = digits_from (10 * v + (c - b'0')) s in if is_ascii_digit c then rest else none

abbrev pub strip_plus : Text → Text
strip_plus [] = []
strip_plus (c ∷ s) = if c == b'+' then s else c ∷ s

abbrev pub at_most : ℕ → Option ℕ → Option ℕ
at_most bound none = none
at_most bound (some n) = if leb n bound then some n else none

abbrev pub digits : Text → Option ℕ
digits [] = none
digits (c ∷ s) = digits_from 0 (c ∷ s)

-- `parse` of an unsigned type with this greatest value: an optional plus, then digits.
unfoldable pub parse_unsigned : ℕ → Text → Option ℕ
unfolding digits_from
parse_unsigned bound s = at_most bound (digits (strip_plus s))

abbrev pub strip_minus : Text → Option Text
strip_minus [] = none
strip_minus (c ∷ s) = if c == b'-' then some s else none

abbrev pub negated : Option ℕ → Option ℤ
negated none = none
negated (some zero) = some (pos 0)
negated (some (suc n)) = some (negsuc n)

abbrev pub positive : Option ℕ → Option ℤ
positive none = none
positive (some n) = some (pos n)

-- What follows the sign, if there is one, or the whole text.
abbrev pub signed : Text → Option Text → Option ℤ
signed s (some t) = negated (at_most 9223372036854775808 (digits t))
signed s none = positive (parse_unsigned 9223372036854775807 s)

-- `parse` of `i64`.
unfoldable pub parse_i64 : Text → Option ℤ
parse_i64 s = signed s (strip_minus s)

unfoldable pub show_integer : ℤ → Text
show_integer (pos n) = show_number n
show_integer (negsuc n) = b'-' ∷ show_number (n + 1)

abbrev pub IsI64 : ℤ → Type 0
IsI64 (pos n) = n < 9223372036854775808
IsI64 (negsuc n) = n < 9223372036854775808

next_digit : (n : ℕ) (acc : Text) → digits_from (n / 10) ((b'0' + n % 10) ∷ acc) ≡ digits_from n acc
unfolding digits_from
next_digit n acc =
    let value : 10 * (n / 10) + (b'0' + n % 10 - b'0') ≡ n = omega arith in
    let digit : is_ascii_digit (b'0' + n % 10) ≡ true = ground arith in rw (digit, value) refl

last_digit :
    (n : ℕ) (acc : Text) → ltb n 10 ≡ true → digits_from 0 ((b'0' + n) ∷ acc) ≡ digits_from n acc
unfolding digits_from
last_digit n acc h =
    let value : 10 * 0 + (b'0' + n - b'0') ≡ n = omega arith in
    let digit : is_ascii_digit (b'0' + n) ≡ true = ground arith in rw (digit, value) refl

digits_from-decimal :
    (f n : ℕ) (acc : Text) → n < f → digits_from 0 (decimal_digits f n acc) ≡ digits_from n acc
unfolding digits_from decimal_digits
digits_from-decimal zero n acc h = absurd (omega arith)
digits_from-decimal (suc f) n acc h = elim (Bool-cases (ltb n 10)) [
  | inl small ↦ rw small (last_digit n acc small)
  | inr large ↦
      rw large
        (digits_from-decimal f (n / 10) ((b'0' + n % 10) ∷ acc) (ground arith) ∙ next_digit n acc)
]

abbrev pub all_digits : Text → Bool
all_digits s = all is_ascii_digit s

decimal-digits :
    (f n : ℕ) (acc : Text) → all_digits acc ≡ true → all_digits (decimal_digits f n acc) ≡ true
unfolding decimal_digits
decimal-digits zero n acc h = h
decimal-digits (suc f) n acc h =
    let digit : is_ascii_digit (b'0' + n % 10) ≡ true = ground arith in
    ground (arith, digit, decimal-digits f (n / 10) ((b'0' + n % 10) ∷ acc))

decimal-cons :
    (f n d : ℕ) (acc : Text) → (c : ℕ) × (s : Text) × (decimal_digits f n (d ∷ acc) ≡ c ∷ s)
unfolding decimal_digits
decimal-cons zero n d acc = (d, acc, refl)
decimal-cons (suc f) n d acc = elim (Bool-cases (ltb n 10)) [
  | inl small ↦ rw small (b'0' + n, d ∷ acc, refl)
  | inr large ↦ rw large (decimal-cons f (n / 10) (b'0' + n % 10) (d ∷ acc))
]

pub show_number-digits : (n : ℕ) → all_digits (show_number n) ≡ true
unfolding show_number
show_number-digits n = decimal-digits (suc n) n [] refl

-- A number's text is not empty.
pub show_number-cons : (n : ℕ) → (c : ℕ) × (s : Text) × (show_number n ≡ c ∷ s)
unfolding show_number decimal_digits
show_number-cons n = elim (Bool-cases (ltb n 10)) [
  | inl small ↦ rw small (b'0' + n, [], refl)
  | inr large ↦ rw large (decimal-cons n (n / 10) (b'0' + n % 10) [])
]

show_digits : (n : ℕ) → digits_from 0 (show_number n) ≡ some n
unfolding show_number digits_from
show_digits n = digits_from-decimal (suc n) n [] (omega arith)

digits-show : (n : ℕ) → digits (show_number n) ≡ some n
digits-show n =
    let (c, s, e) = show_number-cons n in
    let whole : digits_from 0 (show_number n) ≡ some n = show_digits n in rw e (rw e at whole)

strip_plus-digits : (s : Text) → all_digits s ≡ true → strip_plus s ≡ s
strip_plus-digits [] h = refl
strip_plus-digits (c ∷ s) h = ground arith

strip_minus-digits : (s : Text) → all_digits s ≡ true → strip_minus s ≡ none
strip_minus-digits [] h = refl
strip_minus-digits (c ∷ s) h = ground arith

pub parse_unsigned-show : (bound n : ℕ) → n ≤ bound → parse_unsigned bound (show_number n) ≡ some n
unfolding parse_unsigned
parse_unsigned-show bound n h =
    ap (λ (s : Text). at_most bound (digits s))
      (strip_plus-digits (show_number n) (show_number-digits n))
    ∙ rw (digits-show n, le→leb n bound h) refl

pub parse_i64-show : (z : ℤ) → IsI64 z → parse_i64 (show_integer z) ≡ some z
unfolding parse_i64 show_integer
parse_i64-show (pos n) h =
    ap (signed (show_number n)) (strip_minus-digits (show_number n) (show_number-digits n))
    ∙ ap positive (parse_unsigned-show 9223372036854775807 n (omega arith))
parse_i64-show (negsuc n) h =
    let e : digits (show_number (n + 1)) ≡ some (suc n) =
      digits-show (n + 1) ∙ ap some (omega arith) in
    let small : leb (suc n) 9223372036854775808 ≡ true = ground arith in rw (e, small) refl

at_most-range : (bound : ℕ) (m : Option ℕ) (n : ℕ) → at_most bound m ≡ some n → n ≤ bound
at_most-range bound none n e = cc
at_most-range bound (some m) n e = ground arith

pub parse_unsigned-range :
    (bound : ℕ) (s : Text) (n : ℕ) → parse_unsigned bound s ≡ some n → n ≤ bound
unfolding parse_unsigned
parse_unsigned-range bound s n e = at_most-range bound (digits (strip_plus s)) n e

positive-range :
    (m : Option ℕ) (z : ℤ) → positive (at_most 9223372036854775807 m) ≡ some z → IsI64 z
positive-range none z e = cc
positive-range (some n) (pos k) e = ground arith
positive-range (some n) (negsuc k) e = ground arith

negated-range : (m : Option ℕ) (z : ℤ) → negated (at_most 9223372036854775808 m) ≡ some z → IsI64 z
negated-range none z e = cc
negated-range (some zero) (pos k) e = ground arith
negated-range (some zero) (negsuc k) e = ground arith
negated-range (some (suc n)) (pos k) e = ground arith
negated-range (some (suc n)) (negsuc k) e = ground arith

signed-range : (s : Text) (m : Option Text) (z : ℤ) → signed s m ≡ some z → IsI64 z
unfolding parse_unsigned
signed-range s none z e = positive-range (digits (strip_plus s)) z e
signed-range s (some t) z e = negated-range (digits t) z e

pub parse_i64-range : (s : Text) (z : ℤ) → parse_i64 s ≡ some z → IsI64 z
unfolding parse_i64
parse_i64-range s z e = signed-range s (strip_minus s) z e
