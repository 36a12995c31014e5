-- ===== src/Dcc/Ids.antt =====
-- `generate_id` of src/dcc/mod.rs finds a free identifier.
use repartee_desktop.Base.{
  refl, Option-cases, inr, ◌⊎◌, inl, Bool-cases, false, none, subst, ap, zero, ◌∙◌, suc,
  text_eq_iff, ◌+◌, sym, [], ◌<◌, ◌≢◌, true, ◌≤◌, some, show_number, Text, arith, ◌≡◌, ◌++◌, ◌∷◌, ℕ,
}
use repartee_desktop.Base.Maps.{Text_eq, get-remove, Map, contains_key, remove, size, get}
use repartee_desktop.Dcc.{DccManager, DccRecord}
use repartee_desktop.Dcc.Manager.{generate_id, next_free}
use repartee_desktop.Base.Numbers.{parse_unsigned, parse_unsigned-show}

abbrev pub candidate : Text → ℕ → Text
candidate base n = base ++ show_number n

cancel_left : (a s t : Text) → a ++ s ≡ a ++ t → s ≡ t
cancel_left [] s t e = e
cancel_left (c ∷ a) s t e = cancel_left a s t (ground arith)

show_number_injective : (m n : ℕ) → show_number m ≡ show_number n → m ≡ n
show_number_injective m n e =
    let same : some m ≡ some n =
      sym (parse_unsigned-show (m + n) m (omega arith))
      ∙ (ap (parse_unsigned (m + n)) e ∙ parse_unsigned-show (m + n) n (omega arith)) in
    ground arith

candidate_injective : (base : Text) (m n : ℕ) → candidate base m ≡ candidate base n → m ≡ n
candidate_injective base m n e =
    show_number_injective m n (cancel_left base (show_number m) (show_number n) e)

size-remove : (k : Text) (m : Map Text DccRecord) → size (remove k m) ≤ size m
unfolding size remove
size-remove k [] = omega arith
size-remove k ((j, r) ∷ m) = ground (arith, size-remove k m)

size-remove_present :
    (k : Text) (m : Map Text DccRecord) → contains_key k m ≡ true → size (remove k m) < size m
unfolding size remove contains_key get
size-remove_present k [] h = ground arith
size-remove_present k ((j, r) ∷ m) h = ground (arith, size-remove k m, size-remove_present k m)

contains_key-remove :
    (k j : Text) (m : Map Text DccRecord) → k ≢ j → contains_key j (remove k m) ≡ contains_key j m
unfolding contains_key
contains_key-remove k j m h = ground (arith, get-remove k j m, text_eq_iff k j)

at_number :
    (base : Text) (m : Map Text DccRecord) (i j : ℕ)
    → i ≡ j
    → contains_key (candidate base i) m ≡ true
    → contains_key (candidate base j) m ≡ true
at_number base m i j e h = subst (λ x. contains_key (candidate base x) m ≡ true) e h

-- So many different candidates are taken only if the table has as many entries.
taken-size :
    (k n : ℕ) (base : Text) (m : Map Text DccRecord)
    → ((i : ℕ) → i < k → contains_key (candidate base (n + i)) m ≡ true)
    → k ≤ size m
taken-size zero n base m h = omega arith
taken-size (suc k) n base m h =
    let here : contains_key (candidate base n) m ≡ true =
      at_number base m (n + 0) n (omega arith) (h 0 (omega arith)) in
    let shorter = size-remove_present (candidate base n) m here in
    let rest = taken-size k (n + 1) base (remove (candidate base n) m) (λ i small.
      contains_key-remove (candidate base n) (candidate base (n + 1 + i)) m
        (λ e. absurd (omega (arith, candidate_injective base n (n + 1 + i) e)))
      ∙ at_number base m (n + suc i) (n + 1 + i) (omega arith) (h (suc i) (omega arith))) in
    omega arith

next_free-fails :
    (m : Map Text DccRecord) (base : Text) (f n : ℕ)
    → next_free m base f n ≡ none
    → (i : ℕ) → i < f
    → contains_key (candidate base (n + i)) m ≡ true
unfolding next_free
next_free-fails m base zero n e i small = absurd (omega arith)
next_free-fails m base (suc f) n e zero small =
    elim (Bool-cases (contains_key (candidate base n) m)) [
      | inl taken ↦ at_number base m n (n + 0) (omega arith) taken
      | inr free ↦ ground (arith, free)
    ]
next_free-fails m base (suc f) n e (suc i) small =
    elim (Bool-cases (contains_key (candidate base n) m)) [
      | inl taken ↦
          at_number base m (n + 1 + i) (n + suc i) (omega arith)
            (next_free-fails m base f (n + 1) (ground (arith, taken)) i (omega arith))
      | inr free ↦ ground (arith, free)
    ]

-- A free identifier, as it is or numbered from 2 on.
abbrev pub IsFree : Map Text DccRecord → Text → Text → Type 0
IsFree m base id =
    (contains_key id m ≡ false) × ((id ≡ base) ⊎ ((k : ℕ) × (2 ≤ k) × (id ≡ candidate base k)))

next_free-IsFree :
    (m : Map Text DccRecord) (base : Text) (f n : ℕ) (id : Text)
    → 2 ≤ n
    → next_free m base f n ≡ some id
    → IsFree m base id
unfolding next_free
next_free-IsFree m base zero n id h e = cc
next_free-IsFree m base (suc f) n id h e = elim (Bool-cases (contains_key (candidate base n) m)) [
  | inl taken ↦ next_free-IsFree m base f (n + 1) id (omega arith) (ground (arith, taken))
  | inr free ↦
      let same : candidate base n ≡ id = ground (arith, free) in
      (rw (sym same) free, inr (n, h, sym same))
]

-- The search for an identifier ends: it finds one that no record has, the nick in lower case or
-- that with a number from 2 on.
pub generate_id_lem :
    (lower : Text → Text) {S : Type 0} (m : DccManager S) (nick : Text)
    → (id : Text) × (generate_id lower m nick ≡ some id) × IsFree m.records (lower nick) id
unfolding generate_id
generate_id_lem lower m nick = elim (Bool-cases (contains_key (lower nick) m.records)) [
  | inr free ↦ (lower nick, ground (arith, free), (free, inl refl))
  | inl taken ↦ elim (Option-cases (next_free m.records (lower nick) (suc (size m.records)) 2)) [
    | inl fails ↦ absurd (
        omega (
          arith,
          taken-size (suc (size m.records)) 2 (lower nick) m.records
              (next_free-fails m.records (lower nick) (suc (size m.records)) 2 fails),
        ))
    | inr (id, gives) ↦ (
      id,
      ground (arith, taken, gives),
      next_free-IsFree m.records (lower nick) (suc (size m.records)) 2 id (omega arith) gives,
    )
  ]
]
