-- ===== src/Base/Maps.antt =====
-- `HashMap` as an association list. Keys come with a Boolean equality. The order of the entries
-- stands for the table's iteration order, which the program does not rely on.
use Prim.Native.Nat.{ℕ, suc}
use mathlib.Core.Path.{◌≡◌, refl, subst}
use mathlib.Core.Logic.{◌↔◌, inl, inr}
use mathlib.Core.Bool.{Bool, true, false}
use mathlib.Core.List.{List, [], ◌∷◌}
use mathlib.Core.Option.{Option, none, some}
use native.Mathlib.Omega.{arith}
use repartee_desktop.Base.Tests.{if◌then◌else◌, ◌==◌, ==_iff, Bool-cases}
use repartee_desktop.Base.Texts.{Text, text_eq, text_eq_iff}

pub record Eq {ℓ} (A : Type ℓ) : Type ℓ where
  pub beq : A → A → Bool
  pub beq_iff : (a b : A) → (beq a b ≡ true) ↔ (a ≡ b)

instance abbrev pub ℕ_eq : Eq ℕ
ℕ_eq = record { beq = ◌==◌; beq_iff = ==_iff }

instance abbrev pub Text_eq : Eq Text
Text_eq = record { beq = text_eq; beq_iff = text_eq_iff }

abbrev pub Map {ℓ κ} : Type ℓ → Type κ → Type (ℓ ⊔ κ)
Map K V = List (K × V)

pub beq_self {ℓ} : {K : Type ℓ} ⦃e : Eq K⦄ (k : K) → e.beq k k ≡ true
beq_self ⦃e⦄ k = (e.beq_iff k k).1 refl

abbrev pub filtered {ℓ} : {V : Type ℓ} → (V → Bool) → Option V → Option V
filtered p none = none
filtered p (some v) = if p v then some v else none

module _ {ℓ κ} {K : Type ℓ} {V : Type κ} where
  -- `retain`, on a table whose keys are distinct.
  unfoldable pub retain_values : (V → Bool) → Map K V → Map K V
  retain_values p [] = []
  retain_values p ((j, w) ∷ m) = let rest = retain_values p m in if p w then (j, w) ∷ rest else rest

  unfoldable pub map_values : (V → V) → Map K V → Map K V
  map_values f [] = []
  map_values f ((j, w) ∷ m) = (j, f w) ∷ map_values f m

  unfoldable pub size : Map K V → ℕ
  size [] = 0
  size (x ∷ m) = suc (size m)

module _ {ℓ κ} {K : Type ℓ} {V : Type κ} ⦃e : Eq K⦄ where
  unfoldable pub get : K → Map K V → Option V
  get k [] = none
  get k ((j, v) ∷ m) = if e.beq j k then some v else get k m

  unfoldable pub contains_key : K → Map K V → Bool
  unfolding get
  contains_key k m = elim (get k m) [ none ↦ false | some v ↦ true ]

  unfoldable pub insert : K → V → Map K V → Map K V
  insert k v [] = (k, v) ∷ []
  insert k v ((j, w) ∷ m) =
      let rest = insert k v m in if e.beq j k then (j, v) ∷ m else (j, w) ∷ rest

  unfoldable pub remove : K → Map K V → Map K V
  remove k [] = []
  remove k ((j, w) ∷ m) = let rest = remove k m in if e.beq j k then rest else (j, w) ∷ rest

  pub get-insert :
      (k j : K) (v : V) (m : Map K V)
      → get j (insert k v m) ≡ (if e.beq k j then some v else get j m)
  unfolding get insert
  get-insert k j v [] = refl
  get-insert k j v ((i, w) ∷ m) =
      ground (arith, e.beq_iff k j, e.beq_iff i k, e.beq_iff i j, get-insert k j v m)

  pub get-insert_self : (k : K) (v : V) (m : Map K V) → get k (insert k v m) ≡ some v
  get-insert_self k v m = rw (get-insert k k v m, beq_self k)

  pub get-remove :
      (k j : K) (m : Map K V) → get j (remove k m) ≡ (if e.beq k j then none else get j m)
  unfolding get remove
  get-remove k j [] = ground arith
  get-remove k j ((i, w) ∷ m) =
      ground (arith, e.beq_iff k j, e.beq_iff i k, e.beq_iff i j, get-remove k j m)

  pub get-remove_self : (k : K) (m : Map K V) → get k (remove k m) ≡ none
  get-remove_self k m = rw (get-remove k k m, beq_self k)

  pub get-map_values :
      (f : V → V) (j : K) (m : Map K V)
      → get j (map_values f m) ≡ elim (get j m) [ none ↦ none | some v ↦ some (f v) ]
  unfolding get map_values
  get-map_values f j [] = refl
  get-map_values f j ((i, w) ∷ m) = ground (arith, get-map_values f j m)

  -- A change through `get_mut`.
  unfoldable pub adjust : K → (V → V) → Map K V → Map K V
  adjust k f [] = []
  adjust k f ((j, v) ∷ m) =
      let rest = adjust k f m in if e.beq j k then (j, f v) ∷ m else (j, v) ∷ rest

  pub get-adjust :
      (k : K) (f : V → V) (j : K) (m : Map K V)
      → get j (adjust k f m)
        ≡ (if e.beq k j then elim (get j m) [ none ↦ none | some v ↦ some (f v) ] else get j m)
  unfolding get adjust
  get-adjust k f j [] = ground arith
  get-adjust k f j ((i, w) ∷ m) =
      ground (arith, e.beq_iff k j, e.beq_iff i k, e.beq_iff i j, get-adjust k f j m)

  pub get-adjust_self :
      (k : K) (f : V → V) (m : Map K V) (v : V)
      → get k m ≡ some v
      → get k (adjust k f m) ≡ some (f v)
  get-adjust_self k f m v h = rw (get-adjust k f k m, beq_self k, h) refl

  pub contains_key-adjust :
      (k : K) (f : V → V) (j : K) (m : Map K V) → contains_key j (adjust k f m) ≡ contains_key j m
  unfolding contains_key
  contains_key-adjust k f j m = ground (arith, get-adjust k f j m)

  -- No key stands twice.
  abbrev pub Distinct : Map K V → Type κ
  Distinct [] = Unit
  Distinct ((k, v) ∷ m) = (get k m ≡ none) × Distinct m

  retain_values-absent :
      (p : V → Bool) (j : K) (m : Map K V) → get j m ≡ none → get j (retain_values p m) ≡ none
  unfolding get retain_values
  retain_values-absent p j [] h = refl
  retain_values-absent p j ((i, w) ∷ m) h = ground (arith, retain_values-absent p j m)

  pub get-retain_values :
      (p : V → Bool) (j : K) (m : Map K V)
      → Distinct m
      → get j (retain_values p m) ≡ filtered p (get j m)
  unfolding get retain_values
  get-retain_values p j [] d = refl
  get-retain_values p j ((i, w) ∷ m) d =
      ground (arith, e.beq_iff i j, retain_values-absent p j m, get-retain_values p j m d.1)

  pub insert-Distinct : (k : K) (v : V) (m : Map K V) → Distinct m → Distinct (insert k v m)
  unfolding get insert
  insert-Distinct k v [] d = (refl, tt)
  insert-Distinct k v ((i, w) ∷ m) d =
      ground (arith, e.beq_iff i k, e.beq_iff k i, get-insert k i v m, insert-Distinct k v m d.1)

  pub adjust-Distinct : (k : K) (f : V → V) (m : Map K V) → Distinct m → Distinct (adjust k f m)
  unfolding get adjust
  adjust-Distinct k f [] d = tt
  adjust-Distinct k f ((i, w) ∷ m) d = ground (arith, get-adjust k f i m, adjust-Distinct k f m d.1)

  pub remove-Distinct : (k : K) (m : Map K V) → Distinct m → Distinct (remove k m)
  unfolding get remove
  remove-Distinct k [] d = tt
  remove-Distinct k ((i, w) ∷ m) d = ground (arith, get-remove k i m, remove-Distinct k m d.1)

  pub retain_values-Distinct :
      (p : V → Bool) (m : Map K V) → Distinct m → Distinct (retain_values p m)
  unfolding get retain_values
  retain_values-Distinct p [] d = tt
  retain_values-Distinct p ((i, w) ∷ m) d =
      ground (arith, retain_values-absent p i m, retain_values-Distinct p m d.1)

  pub map_values-Distinct : (f : V → V) (m : Map K V) → Distinct m → Distinct (map_values f m)
  unfolding get map_values
  map_values-Distinct f [] d = tt
  map_values-Distinct f ((i, w) ∷ m) d =
      ground (arith, get-map_values f i m, map_values-Distinct f m d.1)

  -- A predicate of every value.
  abbrev pub AllValues {ι} : (V → Type ι) → Map K V → Type ι
  AllValues P [] = Unit
  AllValues P ((k, v) ∷ m) = P v × AllValues P m

  pub AllValues-get {ι} :
      (P : V → Type ι) (k : K) (m : Map K V) {v : V} → AllValues P m → get k m ≡ some v → P v
  unfolding get
  AllValues-get P k [] a h = cc
  AllValues-get P k ((i, w) ∷ m) {v} a h = elim (Bool-cases (e.beq i k)) [
    | inl hit ↦ subst P (ground arith) a.0
    | inr miss ↦ AllValues-get P k m a.1 (ground arith)
  ]

  pub AllValues-insert {ι} :
      (P : V → Type ι) (k : K) (v : V) (m : Map K V)
      → P v
      → AllValues P m
      → AllValues P (insert k v m)
  unfolding insert
  AllValues-insert P k v [] h a = (h, tt)
  AllValues-insert P k v ((i, w) ∷ m) h a = ground (arith, AllValues-insert P k v m h a.1)

  pub AllValues-remove {ι} :
      (P : V → Type ι) (k : K) (m : Map K V) → AllValues P m → AllValues P (remove k m)
  unfolding remove
  AllValues-remove P k [] a = tt
  AllValues-remove P k ((i, w) ∷ m) a = ground (arith, AllValues-remove P k m a.1)

  pub AllValues-retain_values {ι} :
      (P : V → Type ι) (p : V → Bool) (m : Map K V)
      → AllValues P m
      → AllValues P (retain_values p m)
  unfolding retain_values
  AllValues-retain_values P p [] a = tt
  AllValues-retain_values P p ((i, w) ∷ m) a = ground (arith, AllValues-retain_values P p m a.1)
