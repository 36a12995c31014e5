-- ===== src/E2e/Chunks.antt =====
-- What the chunker of src/e2e/chunker.rs makes of a plaintext.
use repartee_desktop.Base.{
  Option-cases, ◌<◌, Bool-cases, length, get_elem?, ◌≡◌, ◌++◌, Text, ℕ, List, [], ◌∷◌, zero, suc,
  true, inl, inr, refl, none, some, ◌≤◌, ◌+◌, arith,
}
use repartee_desktop.E2e.Chunker.{is_char_boundary, walk_back}
use repartee_desktop.E2e.Utf8.{four_begin, begins, IsUtf8}

abbrev pub concat : List Text → Text
concat [] = []
concat (c ∷ cs) = c ++ concat cs

pub walk_back-le : (t : Text) (n : ℕ) → walk_back t n ≤ n
unfolding walk_back
walk_back-le t zero = omega arith
walk_back-le t (suc n) = ground (arith, walk_back-le t n)

pub walk_back-boundary : (t : Text) (n : ℕ) → is_char_boundary t (walk_back t n) ≡ true
unfolding walk_back is_char_boundary
walk_back-boundary t zero = refl
walk_back-boundary t (suc n) = elim (Bool-cases (is_char_boundary t (suc n))) [
  | inl e ↦ ground (arith, e)
  | inr e ↦ ground (arith, e, walk_back-boundary t n)
]

get_elem?-none : (t : Text) (n : ℕ) → get_elem? t n ≡ none → length t ≤ n
get_elem?-none [] n e = omega arith
get_elem?-none (b ∷ t) zero e = cc
get_elem?-none (b ∷ t) (suc n) e = omega (arith, get_elem?-none t n e)

begins-boundary :
    (t : Text) (n : ℕ) → n ≤ length t → begins (get_elem? t n) ≡ true → is_char_boundary t n ≡ true
unfolding is_char_boundary
begins-boundary t zero h b = refl
begins-boundary t (suc n) h b = ground (arith, get_elem?-none t (suc n))

-- At the end of the text the inner loop does not move.
end-boundary : (t : Text) (n : ℕ) → n ≡ length t → is_char_boundary t n ≡ true
unfolding is_char_boundary
end-boundary t zero h = refl
end-boundary t (suc n) h = elim (Option-cases (get_elem? t (suc n))) [
  | inl e ↦ ground (arith, e)
  | inr (b, e) ↦ absurd (omega (arith, get_elem?-some t (suc n) e))
]
  where
    get_elem?-some : (s : Text) (i : ℕ) {b : ℕ} → get_elem? s i ≡ some b → i < length s
    get_elem?-some [] i e = cc
    get_elem?-some (c ∷ s) zero e = omega arith
    get_elem?-some (c ∷ s) (suc i) e = omega (arith, get_elem?-some s i e)

pub walk_back-end : (t : Text) (n : ℕ) → n ≡ length t → walk_back t n ≡ n
unfolding walk_back
walk_back-end t zero h = refl
walk_back-end t (suc n) h = ground (arith, end-boundary t (suc n) h)

-- In a well-formed text the inner loop goes back three bytes at most.
pub walk_back-near : (t : Text) (n : ℕ) → IsUtf8 t → n ≤ length t → n ≤ walk_back t n + 3
unfolding walk_back
walk_back-near t zero s h = omega arith
walk_back-near t (suc zero) s h = omega arith
walk_back-near t (suc (suc zero)) s h = omega arith
walk_back-near t (suc (suc (suc i))) s h = ground (
  arith,
  four_begin 0 i t (omega arith) s,
  begins-boundary t i (omega arith),
  begins-boundary t (suc i) (omega arith),
  begins-boundary t (suc (suc i)) (omega arith),
  begins-boundary t (suc (suc (suc i))) h,
  walk_back-boundary t i,
  walk_back-end t i,
)
