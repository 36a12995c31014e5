-- ===== src/State/Sorting.antt =====
-- src/state/sorting.rs. `sort_by` is a stable sort: an insertion sort that leaves equals in order.
use mathlib.Core.List.{Perm}
use mathlib.Core.List.Perm
use repartee_desktop.Base.{
  length, some, ◌&&◌, none, inr, text_eq_refl, ◌==◌, inl, text_eq→eq, arith, find_byte, ◌||◌, false,
  Bool-cases, text_eq, ltb, ◌≡◌, if◌then◌else◌, not, true, ℕ, List, [], ◌∷◌, refl, Text, Bool,
}
use repartee_desktop.State.{mentions, sort_group, NickEntry, Buffer, BufferType}

-- `str::cmp`: byte by byte, a prefix first.
unfoldable pub text_le : Text → Text → Bool
text_le [] t = true
text_le (a ∷ s) [] = false
text_le (a ∷ s) (b ∷ t) = ltb a b || (a == b && text_le s t)

abbrev pub text_lt : Text → Text → Bool
text_lt s t = not (text_le t s)

module _ {ℓ} {A : Type ℓ} where
  -- In front of the first element that is not before it.
  unfoldable pub insert_sorted : (A → A → Bool) → A → List A → List A
  insert_sorted le x [] = x ∷ []
  insert_sorted le x (y ∷ ys) =
      let rest = insert_sorted le x ys in if le x y then x ∷ y ∷ ys else y ∷ rest

  unfoldable pub sort_by : (A → A → Bool) → List A → List A
  unfolding insert_sorted
  sort_by le [] = []
  sort_by le (x ∷ xs) = insert_sorted le x (sort_by le xs)

  -- Each element is in order with the next.
  abbrev pub FirstLe : (A → A → Bool) → A → List A → Type 0
  FirstLe le x [] = Unit
  FirstLe le x (y ∷ ys) = le x y ≡ true

  abbrev pub IsSorted : (A → A → Bool) → List A → Type 0
  IsSorted le [] = Unit
  IsSorted le (x ∷ xs) = FirstLe le x xs × IsSorted le xs

-- The key by which a buffer is sorted: whether it is not the mentions buffer, the label, the group
-- and the name.
pub record SortKey : Type 0 where
  pub pinned : ℕ
  pub label : Text
  pub group : ℕ
  pub name : Text

abbrev pub key_le : SortKey → SortKey → Bool
key_le a b =
    ltb a.pinned b.pinned
    || (a.pinned == b.pinned
        && (text_lt a.label b.label
            || (text_eq a.label b.label
                && (ltb a.group b.group || (a.group == b.group && text_le a.name b.name)))))

abbrev pub pinned_rank : BufferType → ℕ
pinned_rank mentions = 0
pinned_rank _ = 1

abbrev pub sort_key : (Text → Text) → (Text → Text) → Buffer → SortKey
sort_key to_lowercase label_fn b = record {
  pinned = pinned_rank b.buffer_type;
  label = to_lowercase (label_fn b.connection_id);
  group = sort_group b.buffer_type;
  name = to_lowercase b.name;
}

abbrev pub buffer_le : (Text → Text) → (Text → Text) → Buffer → Buffer → Bool
buffer_le to_lowercase label_fn a b =
    key_le (sort_key to_lowercase label_fn a) (sort_key to_lowercase label_fn b)

unfoldable pub sort_buffers : (Text → Text) → (Text → Text) → List Buffer → List Buffer
unfolding sort_by
sort_buffers to_lowercase label_fn buffers = sort_by (buffer_le to_lowercase label_fn) buffers

-- The rank of a prefix. The order is ASCII, so a byte of it is a character of it.
unfoldable pub prefix_rank : Text → Text → ℕ
prefix_rank [] prefix_order = length prefix_order
prefix_rank (ch ∷ rest) prefix_order = elim (find_byte ch prefix_order) [
  | none ↦ length prefix_order
  | some i ↦ i
]

abbrev pub nick_le : (Text → Text) → Text → NickEntry → NickEntry → Bool
nick_le to_lowercase prefix_order a b =
    let ra = prefix_rank a.prefix prefix_order in
    let rb = prefix_rank b.prefix prefix_order in
    ltb ra rb || (ra == rb && text_le (to_lowercase a.nick) (to_lowercase b.nick))

unfoldable pub sort_nicks : (Text → Text) → List NickEntry → Text → List NickEntry
unfolding sort_by
sort_nicks to_lowercase nicks prefix_order = sort_by (nick_le to_lowercase prefix_order) nicks

text_le_total : (s t : Text) → text_le s t ≡ false → text_le t s ≡ true
unfolding text_le
text_le_total [] t h = cc
text_le_total (a ∷ s) [] h = refl
text_le_total (a ∷ s) (b ∷ t) h = ground (arith, text_le_total s t)

text_le_antisym : (s t : Text) → text_le s t ≡ true → text_le t s ≡ true → text_eq s t ≡ true
unfolding text_le
text_le_antisym [] [] h k = refl
text_le_antisym [] (b ∷ t) h k = cc
text_le_antisym (a ∷ s) [] h k = cc
text_le_antisym (a ∷ s) (b ∷ t) h k = ground (arith, text_le_antisym s t)

text_eq_sym : (s t : Text) → text_eq s t ≡ true → text_eq t s ≡ true
text_eq_sym s t h = rw (text_eq→eq s t h) (text_eq_refl t)

pub key_le_total : (a b : SortKey) → key_le a b ≡ false → key_le b a ≡ true
key_le_total a b h = ground (
  arith,
  text_le_total a.label b.label,
  text_le_total b.label a.label,
  text_le_antisym a.label b.label,
  text_eq_sym a.label b.label,
  text_eq_sym b.label a.label,
  text_le_total a.name b.name,
)

module _ {ℓ} {A : Type ℓ} (le : A → A → Bool)
    (total : (x y : A) → le x y ≡ false → le y x ≡ true) where
  insert_sorted-FirstLe :
      (z x : A) (ys : List A)
      → le z x ≡ true
      → FirstLe le z ys
      → FirstLe le z (insert_sorted le x ys)
  unfolding insert_sorted
  insert_sorted-FirstLe z x [] h f = h
  insert_sorted-FirstLe z x (y ∷ ys) h f = ground arith

  insert_sorted-IsSorted :
      (x : A) (ys : List A) → IsSorted le ys → IsSorted le (insert_sorted le x ys)
  unfolding insert_sorted
  insert_sorted-IsSorted x [] s = (tt, tt)
  insert_sorted-IsSorted x (y ∷ ys) s = elim (Bool-cases (le x y)) [
    | inl e ↦ rw e (e, s)
    | inr e ↦ rw e (insert_sorted-FirstLe y x ys (total x y e) s.0, insert_sorted-IsSorted x ys s.1)
  ]

  pub sort_by-IsSorted : (xs : List A) → IsSorted le (sort_by le xs)
  unfolding sort_by
  sort_by-IsSorted [] = tt
  sort_by-IsSorted (x ∷ xs) = insert_sorted-IsSorted x (sort_by le xs) (sort_by-IsSorted xs)

module _ {ℓ} {A : Type ℓ} (le : A → A → Bool) where
  insert_sorted-Perm : (x : A) (ys : List A) → Perm (insert_sorted le x ys) (x ∷ ys)
  unfolding insert_sorted
  insert_sorted-Perm x [] = Perm.refl (x ∷ [])
  insert_sorted-Perm x (y ∷ ys) = elim (Bool-cases (le x y)) [
    | inl e ↦ rw e (Perm.refl (x ∷ y ∷ ys))
    | inr e ↦ rw e (Perm.trans (Perm.cons y (insert_sorted-Perm x ys)) (Perm.swap x y ys))
  ]

  pub sort_by-Perm : (xs : List A) → Perm (sort_by le xs) xs
  unfolding sort_by
  sort_by-Perm [] = Perm.refl []
  sort_by-Perm (x ∷ xs) =
      Perm.trans (insert_sorted-Perm x (sort_by le xs)) (Perm.cons x (sort_by-Perm xs))

-- The sidebar's order holds every buffer once, each next to one that may follow it.
pub sort_buffers_lem :
    (to_lowercase label_fn : Text → Text) (buffers : List Buffer)
    → Perm (sort_buffers to_lowercase label_fn buffers) buffers
      × IsSorted (buffer_le to_lowercase label_fn) (sort_buffers to_lowercase label_fn buffers)
unfolding sort_buffers
sort_buffers_lem to_lowercase label_fn buffers = (
  sort_by-Perm (buffer_le to_lowercase label_fn) buffers,
  sort_by-IsSorted (buffer_le to_lowercase label_fn)
      (λ a b. key_le_total (sort_key to_lowercase label_fn a) (sort_key to_lowercase label_fn b))
      buffers,
)
