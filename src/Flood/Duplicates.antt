-- ===== src/Flood/Duplicates.antt =====
-- The detector of repeated channel messages (src/irc/flood.rs) against the history of the channel.
use repartee_desktop.Base.{
  refl, append_assoc, subst, inr, ◌&&◌, append-nil, inl, count_if-append, ◌⊎◌, retain, ◌==◌, ◌++◌,
  leb, count_if, true, Bool, ℕ, ◌≤◌, ◌≡◌, List, [], ◌∷◌, Text, arith,
}
use repartee_desktop.Flood.Checks.{check_duplicate_flood}
use repartee_desktop.Flood.{dup_window, triggered, cutoff, new, FloodState}

-- The state after a sequence of channel messages.
unfoldable pub duplicate_run : (Text → ℕ) → FloodState → List (Text × ℕ) → FloodState
unfolding check_duplicate_flood
duplicate_run hash_text s [] = s
duplicate_run hash_text s ((text, now) ∷ evs) =
    duplicate_run hash_text (check_duplicate_flood hash_text s text true now).0 evs

abbrev pub hashed : (Text → ℕ) → (ℕ × ℕ → Bool) → Text × ℕ → Bool
hashed hash_text q e = q (hash_text e.0, e.1)

-- The window holds nothing that the history lacks.
abbrev Recorded : (Text → ℕ) → FloodState → List (Text × ℕ) → Type 0
Recorded hash_text s history =
    (q : ℕ × ℕ → Bool) → count_if q s.msg_window ≤ count_if (hashed hash_text q) history

count_if-retain_le :
    (q p : ℕ × ℕ → Bool) (xs : List (ℕ × ℕ)) → count_if q (retain p xs) ≤ count_if q xs
count_if-retain_le q p [] = omega arith
count_if-retain_le q p (x ∷ xs) = ground (arith, count_if-retain_le q p xs)

count_if-retain_and :
    (q p : ℕ × ℕ → Bool) (xs : List (ℕ × ℕ))
    → count_if q (retain p xs) ≡ count_if (λ e. q e && p e) xs
count_if-retain_and q p [] = refl
count_if-retain_and q p (x ∷ xs) = ground (arith, count_if-retain_and q p xs)

abbrev recent : ℕ → ℕ × ℕ → Bool
recent now e = leb (cutoff now dup_window) e.1

-- What one message does to the window.
window-cases :
    (hash_text : Text → ℕ) (s : FloodState) (text : Text) (now : ℕ)
    → let s' = (check_duplicate_flood hash_text s text true now).0 in
      (s'.msg_window ≡ s.msg_window)
      ⊎ (s'.msg_window ≡ retain (recent now) (s.msg_window ++ (hash_text text, now) ∷ []))
unfolding check_duplicate_flood
window-cases hash_text s text now = ground arith

pushed-le :
    (hash_text : Text → ℕ) (s : FloodState) (history : List (Text × ℕ)) (text : Text) (now : ℕ)
    (q : ℕ × ℕ → Bool)
    → Recorded hash_text s history
    → count_if q (s.msg_window ++ (hash_text text, now) ∷ [])
      ≤ count_if (hashed hash_text q) (history ++ (text, now) ∷ [])
pushed-le hash_text s history text now q r = ground (
  arith,
  r q,
  count_if-append q s.msg_window ((hash_text text, now) ∷ []),
  count_if-append (hashed hash_text q) history ((text, now) ∷ []),
)

check-Recorded :
    (hash_text : Text → ℕ) (s : FloodState) (history : List (Text × ℕ)) (text : Text) (now : ℕ)
    → Recorded hash_text s history
    → Recorded hash_text
        (check_duplicate_flood hash_text s text true now).0
        (history ++ (text, now) ∷ [])
check-Recorded hash_text s history text now r q = elim (window-cases hash_text s text now) [
  | inl same ↦
      rw same (omega (arith, r q, count_if-append (hashed hash_text q) history ((text, now) ∷ [])))
  | inr pushed ↦ rw pushed (
      omega (
        arith,
        count_if-retain_le q (recent now) (s.msg_window ++ (hash_text text, now) ∷ []),
        pushed-le hash_text s history text now q r,
      ))
]

run-Recorded :
    (hash_text : Text → ℕ) (s : FloodState) (history evs : List (Text × ℕ))
    → Recorded hash_text s history
    → Recorded hash_text (duplicate_run hash_text s evs) (history ++ evs)
unfolding duplicate_run
run-Recorded hash_text s history [] r = rw append-nil r
run-Recorded hash_text s history ((text, now) ∷ evs) r =
    subst (Recorded hash_text (duplicate_run hash_text s ((text, now) ∷ evs)))
      (append_assoc history ((text, now) ∷ []) evs)
      (run-Recorded hash_text (check_duplicate_flood hash_text s text true now).0
        (history ++ (text, now) ∷ []) evs (check-Recorded hash_text s history text now r))

-- Whether a message has the text's hash and lies in the window of the instant.
abbrev pub repeats : (Text → ℕ) → Text → ℕ → Text × ℕ → Bool
repeats hash_text text now e = (hash_text e.0 == hash_text text) && leb (cutoff now dup_window) e.1

trigger-count :
    (hash_text : Text → ℕ) (s : FloodState) (text : Text) (now : ℕ)
    → (check_duplicate_flood hash_text s text true now).1 ≡ triggered
    → 3
      ≤ count_if
          (λ (e : ℕ × ℕ). e.0 == hash_text text)
          (retain (recent now) (s.msg_window ++ (hash_text text, now) ∷ []))
unfolding check_duplicate_flood
trigger-count hash_text s text now h = ground arith

-- Whatever was said in a channel from the start, a message is taken for a flood only if at least
-- three messages of the last five seconds, itself among them, have its text's hash.
pub duplicate_needs_three :
    (hash_text : Text → ℕ) (evs : List (Text × ℕ)) (text : Text) (now : ℕ)
    → (check_duplicate_flood hash_text (duplicate_run hash_text new evs) text true now).1
      ≡ triggered
    → 3 ≤ count_if (repeats hash_text text now) (evs ++ (text, now) ∷ [])
duplicate_needs_three hash_text evs text now h =
    let s = duplicate_run hash_text new evs in
    let q = λ (e : ℕ × ℕ). (e.0 == hash_text text) && recent now e in
    omega (
      arith,
      trigger-count hash_text s text now h,
      count_if-retain_and (λ (e : ℕ × ℕ). e.0 == hash_text text) (recent now)
          (s.msg_window ++ (hash_text text, now) ∷ []),
      pushed-le hash_text s evs text now q (run-Recorded hash_text new [] evs (λ q'. omega arith)),
    )
