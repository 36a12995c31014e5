-- ===== src/Events/Letters.antt =====
-- The modes of a user and the prefix that src/irc/events.rs shows for them.
use repartee_desktop.Base.{
  append-nil, ◌&&◌, [], true, ◌==◌, if◌then◌else◌, arith, false, not, ◌||◌, ◌++◌, has_byte, Text,
  Bool, ℕ, ◌∷◌, ◌≡◌, refl,
}
use repartee_desktop.Events.Modes.{set_letter, without}

has_byte-append : (c : ℕ) (s t : Text) → has_byte c (s ++ t) ≡ (has_byte c s || has_byte c t)
has_byte-append c [] t = refl
has_byte-append c (d ∷ s) t = ground (arith, has_byte-append c s t)

has_byte-without : (c d : ℕ) (s : Text) → has_byte d (without c s) ≡ (not (c == d) && has_byte d s)
has_byte-without c d [] = ground arith
has_byte-without c d (x ∷ s) = ground (arith, has_byte-without c d s)

without-absent : (c : ℕ) (s : Text) → has_byte c s ≡ false → without c s ≡ s
without-absent c [] h = refl
without-absent c (x ∷ s) h = ground (arith, h, without-absent c s)

without-append : (c : ℕ) (s t : Text) → without c (s ++ t) ≡ without c s ++ without c t
without-append c [] t = refl
without-append c (x ∷ s) t = ground (arith, without-append c s t)

-- A mode letter that is set is there and one that is unset is not; every other letter is there if
-- it was.
pub set_letter_lem :
    (adding : Bool) (c d : ℕ) (modes : Text)
    → has_byte d (set_letter adding c modes) ≡ (if c == d then adding else has_byte d modes)
unfolding set_letter
set_letter_lem adding c d modes =
    ground (arith, has_byte-append d modes (c ∷ []), has_byte-without c d modes)

-- A mode that a user does not have is given and taken again: the user's modes are as they were.
pub set_letter_back :
    (c : ℕ) (modes : Text)
    → has_byte c modes ≡ false
    → set_letter false c (set_letter true c modes) ≡ modes
unfolding set_letter
set_letter_back c modes h =
    ground (arith, h, without-append c modes (c ∷ []), without-absent c modes, append-nil modes)
