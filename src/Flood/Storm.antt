-- ===== src/Flood/Storm.antt =====
-- The storm detector of src/irc/flood.rs: how many different nicks it takes.
use repartee_desktop.Base.{
  refl, All-append, All-retain, length-append, leb, inr, false, if◌then◌else◌, retain, suc, inl,
  true, ◌||◌, none, ap, Bool-cases, ◌==◌, not, length, All, any, ◌++◌, Bool, count_if, ℕ, ◌+◌, ◌≤◌,
  ◌≡◌, List, [], ◌∷◌, Text, arith,
}
use repartee_desktop.Flood.Checks.{check_pm_tilde_storm, unique_count, unique_from}
use repartee_desktop.Flood.{allow, pm_storm_window, cutoff, suppressed, FloodState}

-- How many of `hs` are not in `seen`.
abbrev missing : List ℕ → List ℕ → ℕ
missing hs seen = count_if (λ h. not (any (◌==◌ h) seen)) hs

any-append : (p : ℕ → Bool) (xs ys : List ℕ) → any p (xs ++ ys) ≡ any p xs || any p ys
any-append p [] ys = refl
any-append p (x ∷ xs) ys = ground (arith, any-append p xs ys)

missing-append-le : (hs seen : List ℕ) (h : ℕ) → missing hs (seen ++ h ∷ []) ≤ missing hs seen
missing-append-le [] seen h = omega arith
missing-append-le (g ∷ hs) seen h =
    ground (arith, any-append (◌==◌ g) seen (h ∷ []), missing-append-le hs seen h)

missing-append :
    (hs seen : List ℕ) (h : ℕ)
    → any (◌==◌ h) hs ≡ true
    → any (◌==◌ h) seen ≡ false
    → missing hs (seen ++ h ∷ []) + 1 ≤ missing hs seen
missing-append [] seen h i n = cc
missing-append (g ∷ hs) seen h i n = ground (
  arith,
  any-append (◌==◌ g) seen (h ∷ []),
  missing-append-le hs seen h,
  missing-append hs seen h,
)

-- Every hash of the entries is in `hs`.
abbrev pub Among : List ℕ → List (ℕ × ℕ) → Type 0
Among hs = All (λ (e : ℕ × ℕ). any (◌==◌ e.0) hs ≡ true)

unique_from-le :
    (hs seen : List ℕ) (entries : List (ℕ × ℕ))
    → Among hs entries
    → unique_from seen entries ≤ length seen + missing hs seen
unfolding unique_from
unique_from-le hs seen [] a = omega arith
unique_from-le hs seen ((h, t) ∷ entries) a = elim (Bool-cases (any (◌==◌ h) seen)) [
  | inl old ↦ rw old (unique_from-le hs seen entries a.1)
  | inr fresh ↦ rw fresh (
      omega (
        arith,
        unique_from-le hs (seen ++ h ∷ []) entries a.1,
        missing-append hs seen h a.0 fresh,
        length-append seen (h ∷ []),
      ))
]

missing-nil : (hs : List ℕ) → missing hs [] ≡ length hs
missing-nil [] = refl
missing-nil (h ∷ hs) = ap suc (missing-nil hs)

-- The entries hold no more different hashes than a list that has them all.
unique_count-le :
    (hs : List ℕ) (entries : List (ℕ × ℕ)) → Among hs entries → unique_count entries ≤ length hs
unfolding unique_count
unique_count-le hs entries a = omega (arith, unique_from-le hs [] entries a, missing-nil hs)

-- The storm detector over a sequence of private messages: how many are suppressed.
unfoldable pub storm_drops : (Text → ℕ) → FloodState → List (Text × ℕ) → ℕ
unfolding check_pm_tilde_storm suppressed
storm_drops hash_text s [] = 0
storm_drops hash_text s ((nick, now) ∷ evs) =
    let (s', v) = check_pm_tilde_storm hash_text s nick now in
    let rest = storm_drops hash_text s' evs in if suppressed v then suc rest else rest

abbrev pub FromNicks : (Text → ℕ) → List ℕ → List (Text × ℕ) → Type 0
FromNicks hash_text hs = All (λ (e : Text × ℕ). any (◌==◌ (hash_text e.0)) hs ≡ true)

module _ (hash_text : Text → ℕ) (hs : List ℕ) (s : FloodState) (nick : Text) (now : ℕ)
    (few : length hs ≤ 5) (old : Among hs s.pm_storm_nicks)
    (new' : any (◌==◌ (hash_text nick)) hs ≡ true) where
  abbrev entries : List (ℕ × ℕ)
  entries =
      retain (λ (e : ℕ × ℕ). leb (cutoff now pm_storm_window) e.1)
        (s.pm_storm_nicks ++ (hash_text nick, now) ∷ [])

  entries-Among : Among hs entries
  entries-Among =
      All-retain (λ (e : ℕ × ℕ). any (◌==◌ e.0) hs ≡ true)
        (λ (e : ℕ × ℕ). leb (cutoff now pm_storm_window) e.1)
        (s.pm_storm_nicks ++ (hash_text nick, now) ∷ [])
        (All-append (λ (e : ℕ × ℕ). any (◌==◌ e.0) hs ≡ true) s.pm_storm_nicks
          ((hash_text nick, now) ∷ []) old (new', tt))

  -- One more message of a known nick.
  storm-open :
      s.pm_storm_blocked_until ≡ none
      → let (s', v) = check_pm_tilde_storm hash_text s nick now in
        (v ≡ allow) × (s'.pm_storm_blocked_until ≡ none) × (s'.pm_storm_nicks ≡ entries)
  unfolding check_pm_tilde_storm
  storm-open b = ground (arith, unique_count-le hs entries entries-Among)

-- As long as the private messages come from at most five different nicks, none is suppressed,
-- however fast they come.
pub storm_needs_six :
    (hash_text : Text → ℕ) (hs : List ℕ) (s : FloodState) (evs : List (Text × ℕ))
    → length hs ≤ 5
    → Among hs s.pm_storm_nicks
    → s.pm_storm_blocked_until ≡ none
    → FromNicks hash_text hs evs
    → storm_drops hash_text s evs ≡ 0
unfolding storm_drops
storm_needs_six hash_text hs s [] n a b w = refl
storm_needs_six hash_text hs s ((nick, now) ∷ evs) n a b w =
    let (verdict, open', kept) = storm-open hash_text hs s nick now n a w.0 b in
    rw (verdict, suppressed)
      (storm_needs_six hash_text hs (check_pm_tilde_storm hash_text s nick now).0 evs n
        (rw kept (entries-Among hash_text hs s nick now n a w.0)) open' w.1)
