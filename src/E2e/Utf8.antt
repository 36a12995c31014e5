-- ===== src/E2e/Utf8.antt =====
-- What the chunker uses of UTF-8: a text begins with no continuation byte, and at most three of
-- them follow each other. Every valid UTF-8 text is such.
use repartee_desktop.Base.{
  ◌⊎◌, ◌||◌, arith, drop, ◌-◌, not, ◌<◌, ◌≤◌, get_elem?, take, Bool, ◌≡◌, Option, Text, ℕ, [], ◌∷◌,
  zero, suc, true, false, inl, inr, refl, none, some,
}
use repartee_desktop.E2e.Chunker.{is_continuation, is_char_boundary}

-- At most `k` continuation bytes may come next.
abbrev pub Shape : ℕ → Text → Type 0
Shape k [] = Unit
Shape k (b ∷ bs) =
    ((is_continuation b ≡ true) × (0 < k) × Shape (k - 1) bs)
    ⊎ ((is_continuation b ≡ false) × Shape 3 bs)

abbrev pub IsUtf8 : Text → Type 0
IsUtf8 t = Shape 0 t

-- The byte at the index, if there is one, begins a character.
abbrev pub begins : Option ℕ → Bool
begins none = true
begins (some b) = not (is_continuation b)

pub Shape-take : (k n : ℕ) (t : Text) → Shape k t → Shape k (take n t)
Shape-take k zero t s = tt
Shape-take k (suc n) [] s = tt
Shape-take k (suc n) (b ∷ bs) (inl (c, p, s)) = inl (c, p, Shape-take (k - 1) n bs s)
Shape-take k (suc n) (b ∷ bs) (inr (c, s)) = inr (c, Shape-take 3 n bs s)

Shape-drop : (k n : ℕ) (t : Text) → Shape k t → begins (get_elem? t n) ≡ true → Shape 0 (drop n t)
Shape-drop k zero [] s b = tt
Shape-drop k zero (c ∷ bs) (inl (e, p, s)) b = absurd (ground arith)
Shape-drop k zero (c ∷ bs) (inr (e, s)) b = inr (e, s)
Shape-drop k (suc n) [] s b = tt
Shape-drop k (suc n) (c ∷ bs) (inl (e, p, s)) b = Shape-drop (k - 1) n bs s b
Shape-drop k (suc n) (c ∷ bs) (inr (e, s)) b = Shape-drop 3 n bs s b

boundary-begins :
    (t : Text) (i : ℕ) → is_char_boundary t (suc i) ≡ true → begins (get_elem? t (suc i)) ≡ true
unfolding is_char_boundary
boundary-begins t i h = ground arith

-- What follows a boundary is well formed again.
pub IsUtf8-drop : (t : Text) (n : ℕ) → IsUtf8 t → is_char_boundary t n ≡ true → IsUtf8 (drop n t)
IsUtf8-drop t zero s b = s
IsUtf8-drop t (suc n) s b = Shape-drop 0 (suc n) t s (boundary-begins t n b)

-- Among any four positions in a row there is one at which a character begins.
pub four_begin :
    (k i : ℕ) (t : Text)
    → k ≤ 3
    → Shape k t
    → (begins (get_elem? t i)
        || (begins (get_elem? t (suc i))
            || (begins (get_elem? t (suc (suc i))) || begins (get_elem? t (suc (suc (suc i)))))))
      ≡ true
four_begin k zero [] h s = refl
four_begin k zero (a ∷ []) h s = ground arith
four_begin k zero (a ∷ b ∷ []) h s = ground arith
four_begin k zero (a ∷ b ∷ c ∷ []) h s = ground arith
four_begin k zero (a ∷ b ∷ c ∷ d ∷ t) h s = ground arith
four_begin k (suc i) [] h s = refl
four_begin k (suc i) (a ∷ t) h (inl (e, p, s)) = four_begin (k - 1) i t (omega arith) s
four_begin k (suc i) (a ∷ t) h (inr (e, s)) = four_begin 3 i t (omega arith) s
