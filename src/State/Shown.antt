-- ===== src/State/Shown.antt =====
-- The shown buffer of src/state/events.rs exists, and what closing a buffer does to it.
use repartee_desktop.Base.{
  text_eq_refl, Bool-cases, ◌++◌, map, All-map, All, ◌&&◌, not, ◌||◌, text_eq_iff, length,
  Option-cases, arith, ◌≡◌, get_elem?, text_eq, ℕ, List, [], ◌∷◌, refl, Text, Bool, Option, some,
  none, true, false, inl, inr,
}
use repartee_desktop.Flood.Checks
use repartee_desktop.Base.Maps.{
  get-remove, get-insert, contains_key-adjust, Text_eq, Map, get, contains_key, adjust, insert,
  remove,
}
use repartee_desktop.State.App.{
  buffer_closed, remove_buffer, label_of, first_of_list, values, fall_back, clear_activity,
  sorted_buffer_ids, set_active_buffer, add_buffer, Env, AppState,
}
use repartee_desktop.State.{Buffer}
use repartee_desktop.State.Sorting.{buffer_le, sort_buffers, sort_by, insert_sorted}
use repartee_desktop.State.Active.{
  activate_at, current_idx, prev_idx, next_idx, prev_buffer, next_buffer,
}

-- The shown buffer, if any, exists.
abbrev pub shows : Option Text → Map Text Buffer → Bool
shows none m = true
shows (some id) m = contains_key id m

-- Every buffer stands under its own id.
abbrev pub OwnId : Map Text Buffer → Type 0
OwnId [] = Unit
OwnId ((k, b) ∷ m) = (k ≡ b.id) × OwnId m

pub record IsApp (s : AppState) : Type 0 where
  pub shown : shows s.active_buffer_id s.buffers ≡ true
  pub own : OwnId s.buffers

pub OwnId-insert : (b : Buffer) (m : Map Text Buffer) → OwnId m → OwnId (insert b.id b m)
unfolding insert
OwnId-insert b [] h = (refl, tt)
OwnId-insert b ((k, c) ∷ m) h = ground (arith, text_eq_iff k b.id, OwnId-insert b m h.1)

pub OwnId-remove : (j : Text) (m : Map Text Buffer) → OwnId m → OwnId (remove j m)
unfolding remove
OwnId-remove j [] h = tt
OwnId-remove j ((k, c) ∷ m) h = ground (arith, OwnId-remove j m h.1)

pub OwnId-adjust :
    (j : Text) (f : Buffer → Buffer) (m : Map Text Buffer)
    → ((b : Buffer) → (f b).id ≡ b.id)
    → OwnId m
    → OwnId (adjust j f m)
unfolding adjust
OwnId-adjust j f [] same h = tt
OwnId-adjust j f ((k, c) ∷ m) same h = ground (arith, same c, OwnId-adjust j f m same h.1)

pub contains_key-insert :
    (j k : Text) (b : Buffer) (m : Map Text Buffer)
    → contains_key j (insert k b m) ≡ (text_eq k j || contains_key j m)
unfolding contains_key
contains_key-insert j k b m = ground (arith, get-insert k j b m)

pub contains_key-remove :
    (j k : Text) (m : Map Text Buffer)
    → contains_key j (remove k m) ≡ (not (text_eq k j) && contains_key j m)
unfolding contains_key
contains_key-remove j k m = ground (arith, get-remove k j m)

-- Opening a buffer keeps the state sound.
pub add_buffer-IsApp : (s : AppState) (b : Buffer) → IsApp s → IsApp (add_buffer s b)
unfolding add_buffer
add_buffer-IsApp s b v = elim (Option-cases s.active_buffer_id) [
  | inl e ↦ record { shown = ground (arith, e); own = OwnId-insert b s.buffers v.own }
  | inr (id, e) ↦ record {
    shown = ground (arith, e, v.shown, contains_key-insert id b.id b s.buffers);
    own = OwnId-insert b s.buffers v.own;
  }
]

-- Showing a buffer does; an unknown one is ignored.
pub set_active_buffer-IsApp : (s : AppState) (id : Text) → IsApp s → IsApp (set_active_buffer s id)
unfolding set_active_buffer
set_active_buffer-IsApp s id v =
    let kept = OwnId-adjust id clear_activity s.buffers (λ b. refl) v.own in
    ground (arith, v.shown, kept, contains_key-adjust id clear_activity id s.buffers)

module _ (P : Buffer → Type 0) (le : Buffer → Buffer → Bool) where
  All-insert_sorted :
      (x : Buffer) (ys : List Buffer) → P x → All P ys → All P (insert_sorted le x ys)
  unfolding insert_sorted
  All-insert_sorted x [] p a = (p, tt)
  All-insert_sorted x (y ∷ ys) p a = ground (arith, All-insert_sorted x ys p a.1)

  All-sort_by : (xs : List Buffer) → All P xs → All P (sort_by le xs)
  unfolding sort_by
  All-sort_by [] a = tt
  All-sort_by (x ∷ xs) a = All-insert_sorted x (sort_by le xs) a.0 (All-sort_by xs a.1)

abbrev Held : Map Text Buffer → Buffer → Type 0
Held m b = contains_key b.id m ≡ true

Held-later :
    (k : Text) (b : Buffer) (m : Map Text Buffer) (c : Buffer) → Held m c → Held ((k, b) ∷ m) c
unfolding contains_key get
Held-later k b m c h = ground arith

Held-first : (k : Text) (b : Buffer) (m : Map Text Buffer) → k ≡ b.id → Held ((k, b) ∷ m) b
unfolding contains_key get
Held-first k b m h = ground (arith, text_eq_iff k b.id)

values-Held : (m : Map Text Buffer) → OwnId m → All (Held m) (values m)
values-Held [] h = tt
values-Held ((k, b) ∷ m) h = (
  Held-first k b m h.0,
  All-map (Held m) (Held ((k, b) ∷ m)) (Held-later k b m) (values m) (values-Held m h.1),
)

first-shows :
    (m : Map Text Buffer) (bs : List Buffer)
    → All (Held m) bs
    → shows (first_of_list (map (λ (b : Buffer). b.id) bs)) m ≡ true
first-shows m [] a = refl
first-shows m (b ∷ bs) a = a.0

sorted-shows :
    (env : Env) (s : AppState)
    → OwnId s.buffers
    → shows (first_of_list (sorted_buffer_ids env s)) s.buffers ≡ true
unfolding sorted_buffer_ids sort_buffers
sorted-shows env s h =
    let le = buffer_le env.to_lowercase (label_of s.connections) in
    first-shows s.buffers (sort_by le (values s.buffers))
      (All-sort_by (Held s.buffers) le (values s.buffers) (values-Held s.buffers h))

fall_back-IsApp : (env : Env) (s : AppState) → OwnId s.buffers → IsApp (fall_back env s)
unfolding fall_back
fall_back-IsApp env s h = elim (Option-cases s.previous_buffer_id) [
  | inl e ↦ ground (arith, e, sorted-shows env s h, h)
  | inr (id, e) ↦ ground (arith, e, sorted-shows env s h, h)
]

-- Closing a buffer does: if it was shown, another one that exists is shown, or none.
pub remove_buffer-IsApp :
    (env : Env) (s : AppState) (id : Text) → IsApp s → IsApp (remove_buffer env s id)
unfolding remove_buffer
remove_buffer-IsApp env s id v =
    let closed : AppState = record s {
      pending_web_events = s.pending_web_events ++ buffer_closed id ∷ [];
      buffers = remove id s.buffers;
      flood_state = Checks.remove_buffer s.flood_state id;
    } in
    let own' = OwnId-remove id s.buffers v.own in
    elim (Bool-cases (contains_key id s.buffers)) [
      | inr gone ↦ ground (arith, gone, v.shown, v.own)
      | inl here ↦ elim (Option-cases s.active_buffer_id) [
        | inl e ↦ ground (arith, here, e, own')
        | inr (a, e) ↦ elim (Bool-cases (text_eq a id)) [
          | inl same ↦
              rw (here, e, same)
                (fall_back-IsApp env (record closed { active_buffer_id = some a }) own')
          | inr other ↦ ground (
            arith,
            here,
            e,
            other,
            own',
            v.shown,
            contains_key-remove a id s.buffers,
            text_eq_iff id a,
            text_eq_iff a id,
          )
        ]
      ]
    ]

fall_back-buffers : (env : Env) (s : AppState) → (fall_back env s).buffers ≡ s.buffers
unfolding fall_back
fall_back-buffers env s = ground arith

absent-remove_buffer :
    (env : Env) (s : AppState) (id : Text)
    → contains_key id s.buffers ≡ false
    → remove_buffer env s id ≡ s
unfolding remove_buffer
absent-remove_buffer env s id h = ground (arith, h)

pub remove_buffer-absent :
    (env : Env) (s : AppState) (id : Text)
    → contains_key id (remove_buffer env s id).buffers ≡ false
unfolding remove_buffer
remove_buffer-absent env s id =
    let closed : AppState = record s {
      pending_web_events = s.pending_web_events ++ buffer_closed id ∷ [];
      buffers = remove id s.buffers;
      flood_state = Checks.remove_buffer s.flood_state id;
    } in
    ground
      (arith, contains_key-remove id id s.buffers, text_eq_refl id, fall_back-buffers env closed)

-- Closing a buffer twice is closing it once: the web clients are told once.
pub remove_buffer_twice :
    (env : Env) (s : AppState) (id : Text)
    → remove_buffer env (remove_buffer env s id) id ≡ remove_buffer env s id
remove_buffer_twice env s id =
    absent-remove_buffer env (remove_buffer env s id) id (remove_buffer-absent env s id)

activate_at-IsApp :
    (s : AppState) (sorted : List Text) (i : ℕ) → IsApp s → IsApp (activate_at s sorted i)
activate_at-IsApp s sorted i v = elim (Option-cases (get_elem? sorted i)) [
  | inl e ↦ rw (e, activate_at) v
  | inr (id, e) ↦ rw (e, activate_at) (set_active_buffer-IsApp s id v)
]

-- Moving to the next or the previous buffer keeps the state sound.
pub next_buffer-IsApp : (env : Env) (s : AppState) → IsApp s → IsApp (next_buffer env s)
unfolding next_buffer
next_buffer-IsApp env s v =
    let sorted = sorted_buffer_ids env s in
    activate_at-IsApp s sorted (next_idx (current_idx s.active_buffer_id sorted) (length sorted)) v

pub prev_buffer-IsApp : (env : Env) (s : AppState) → IsApp s → IsApp (prev_buffer env s)
unfolding prev_buffer
prev_buffer-IsApp env s v =
    let sorted = sorted_buffer_ids env s in
    activate_at-IsApp s sorted (prev_idx (current_idx s.active_buffer_id sorted) (length sorted)) v
