-- ===== src/Input/History.antt =====
-- Browsing the history of the input line (src/ui/input.rs), and its bound.
use repartee_desktop.Base.{
  leb, ◌&&◌, length-drop, is_empty, All-append, length-append, not, All, ◌≤◌, ◌-◌, get_elem?,
  length, ◌<◌, drop, arith, inr, inl, ◌+◌, Bool-cases, ◌++◌, ◌≡◌, ℕ, zero, suc, [], ◌∷◌, some, none,
  List, Option, refl,
}
use repartee_desktop.Input.{InputState}
use repartee_desktop.Input.Strings.{Str, ◌>>=◌, len}
use repartee_desktop.Input.Edits.{push_history, clear, submit, history_down, history_up}

abbrev pub up_times : ℕ → InputState → Option InputState
up_times zero s = some s
up_times (suc k) s = history_up s >>= up_times k

abbrev pub down_times : ℕ → InputState → Option InputState
down_times zero s = some s
down_times (suc k) s = history_down s >>= down_times k

-- The user looks at the entry with this index, and left a draft.
record IsBrowsing (history : List Str) (draft : Str) (i : ℕ) (s : InputState) : Type 0 where
  pub same : s.history ≡ history
  pub index : s.history_index ≡ some i
  pub draft_kept : s.saved_input ≡ some draft

abbrev Browses : List Str → Str → ℕ → Option InputState → Type 0
Browses history draft i none = ⊥
Browses history draft i (some s) = IsBrowsing history draft i s

-- The draft is the line again, the cursor at its end, and nothing is browsed.
abbrev pub Drafts : List Str → Str → Option InputState → Type 0
Drafts history draft none = ⊥
Drafts history draft (some s) =
    (s.value ≡ draft)
    × (s.cursor_pos ≡ len draft)
    × (s.history_index ≡ none)
    × (s.history ≡ history)

entry_exists {ℓ} :
    {A : Type ℓ} (xs : List A) (i : ℕ) → i < length xs → (x : A) × (get_elem? xs i ≡ some x)
entry_exists [] i h = absurd (omega arith)
entry_exists (x ∷ xs) zero h = (x, refl)
entry_exists (x ∷ xs) (suc i) h = entry_exists xs i (omega arith)

up-Browses :
    (s : InputState) (history : List Str) (draft : Str) (i : ℕ)
    → suc i < length history
    → IsBrowsing history draft (suc i) s
    → Browses history draft i (history_up s)
unfolding history_up
up-Browses s history draft i h b =
    let (v, e) = entry_exists history i (omega arith) in
    ground (arith, b.same, b.index, b.draft_kept, e)

down-Browses :
    (s : InputState) (history : List Str) (draft : Str) (i : ℕ)
    → suc i < length history
    → IsBrowsing history draft i s
    → Browses history draft (suc i) (history_down s)
unfolding history_down
down-Browses s history draft i h b =
    let (v, e) = entry_exists history (suc i) h in ground (arith, b.same, b.index, b.draft_kept, e)

first-Browses :
    (s : InputState)
    → s.history_index ≡ none
    → 0 < length s.history
    → Browses s.history s.value (length s.history - 1) (history_up s)
unfolding history_up
first-Browses s e h =
    let (v, found) = entry_exists s.history (length s.history - 1) (omega arith) in
    ground (arith, e, found)

last-Drafts :
    (s : InputState) (history : List Str) (draft : Str) (i : ℕ)
    → suc i ≡ length history
    → IsBrowsing history draft i s
    → Drafts history draft (history_down s)
unfolding history_down
last-Drafts s history draft i h b = ground (arith, b.same, b.index, b.draft_kept)

Browses_then :
    (o : Option InputState) (history : List Str) (draft : Str) (i : ℕ)
    (P : Option InputState → Type 0) (f : InputState → Option InputState)
    → ((s : InputState) → IsBrowsing history draft i s → P (f s))
    → Browses history draft i o
    → P (o >>= f)
Browses_then none history draft i P f next b = absurd b
Browses_then (some s) history draft i P f next b = next s b

some-bind : (o : Option InputState) (P : Option InputState → Type 0) → P o → P (o >>= λ s. some s)
some-bind none P p = p
some-bind (some s) P p = p

downs-Drafts :
    (k : ℕ) (s : InputState) (history : List Str) (draft : Str) (i : ℕ)
    → i + suc k ≡ length history
    → IsBrowsing history draft i s
    → Drafts history draft (down_times (suc k) s)
downs-Drafts zero s history draft i e b =
    some-bind (history_down s) (λ o. Drafts history draft o)
      (last-Drafts s history draft i (omega arith) b)
downs-Drafts (suc k) s history draft i e b =
    Browses_then (history_down s) history draft (suc i) (λ o. Drafts history draft o)
      (down_times (suc k)) (λ t c. downs-Drafts k t history draft (suc i) (omega (arith, e)) c)
      (down-Browses s history draft i (omega (arith, e)) b)

sub_zero : (n : ℕ) → n - 0 ≡ n
sub_zero n = omega arith

ups-Browses :
    (k : ℕ) (s : InputState) (history : List Str) (draft : Str) (i : ℕ)
    → k ≤ i
    → i < length history
    → IsBrowsing history draft i s
    → Browses history draft (i - k) (up_times k s)
ups-Browses zero s history draft i p q b = rw (sub_zero i) b
ups-Browses (suc k) s history draft zero p q b = absurd (omega arith)
ups-Browses (suc k) s history draft (suc i) p q b =
    let e : suc i - suc k ≡ i - k = omega arith in
    rw e (
      Browses_then (history_up s) history draft i (λ o. Browses history draft (i - k) o)
        (up_times k)
        (λ t c. ups-Browses k t history draft i (omega (arith, p)) (omega (arith, q)) c)
        (up-Browses s history draft i q b))

-- From a line that is not browsing, any number of steps up the history, at most as many as it has
-- entries, and as many down again bring the line back, with the cursor at its end.
pub browse_and_return :
    (s : InputState) (k : ℕ)
    → s.history_index ≡ none
    → k < length s.history
    → Drafts s.history s.value (up_times (suc k) s >>= down_times (suc k))
browse_and_return s k e p =
    let n = length s.history in
    let top : Browses s.history s.value (n - 1 - k) (up_times (suc k) s) =
      Browses_then (history_up s) s.history s.value (n - 1)
        (λ o. Browses s.history s.value (n - 1 - k) o) (up_times k)
        (λ t b. ups-Browses k t s.history s.value (n - 1) (omega (arith, p)) (omega (arith, p)) b)
        (first-Browses s e (omega (arith, p))) in
    Browses_then (up_times (suc k) s) s.history s.value (n - 1 - k)
      (λ o. Drafts s.history s.value o) (down_times (suc k))
      (λ t b. downs-Drafts k t s.history s.value (n - 1 - k) (omega (arith, p)) b) top

-- Submitting keeps at most a hundred entries, none of them empty or longer than 4096 bytes.
abbrev pub IsEntry : Str → Type 0
IsEntry v = (0 < length v) × (len v ≤ 4096)

drop-IsEntry : (n : ℕ) (h : List Str) → All IsEntry h → All IsEntry (drop n h)
drop-IsEntry zero h a = a
drop-IsEntry (suc n) [] a = tt
drop-IsEntry (suc n) (x ∷ h) a = drop-IsEntry n h a.1

push-length : (h : List Str) (v : Str) → length h ≤ 100 → length (push_history h v) ≤ 100
push-length h v p = ground (arith, length-append h (v ∷ []), length-drop 1 (h ++ v ∷ []))

push-entries : (h : List Str) (v : Str) → All IsEntry h → IsEntry v → All IsEntry (push_history h v)
push-entries h v a e =
    let more = All-append IsEntry h (v ∷ []) a (e, tt) in
    ground (arith, more, drop-IsEntry 1 (h ++ v ∷ []) more)

submit-length : (s : InputState) → length s.history ≤ 100 → length (submit s).0.history ≤ 100
unfolding submit clear
submit-length s p = ground (arith, push-length s.history s.value)

submit-entries : (s : InputState) → All IsEntry s.history → All IsEntry (submit s).0.history
unfolding submit clear
submit-entries s a = elim (Bool-cases (not (is_empty s.value) && leb (len s.value) 4096)) [
  | inr left_out ↦ rw left_out a
  | inl kept ↦ rw kept (push-entries s.history s.value a (ground arith))
]

-- A submitted line empties the input and is kept only if it has 1 to 4096 bytes; the history stays
-- within a hundred such entries.
pub submit_lem :
    (s : InputState)
    → length s.history ≤ 100
    → All IsEntry s.history
    → let (after, val) = submit s in
      (val ≡ s.value)
      × (after.value ≡ [])
      × (after.cursor_pos ≡ 0)
      × (length after.history ≤ 100)
      × All IsEntry after.history
unfolding submit clear
submit_lem s p a = (refl, refl, refl, submit-length s p, submit-entries s a)
