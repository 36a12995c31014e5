-- ===== src/Events/BanLists.antt =====
-- The lists of masks that src/irc/events.rs keeps for a channel.
use repartee_desktop.Base.{
  length-drop, ◌-◌, inl, ltb, not, inr, Bool-cases, retain, Option-cases, length-append, ◌∙◌, zero,
  some, ap, ◌||◌, none, ◌<◌, suc, [], arith, ◌≤◌, position, modify, drop, ◌++◌, length, false, true,
  any, eq_ignore_ascii_case, ℕ, List, Text, ◌∷◌, ◌≡◌, refl,
}
use repartee_desktop.Events.Bans.{
  same_mask, upsert_entries, upsert_list_mode_entry, remove_list_mode_entry, entries_of,
  drain_oldest,
}
use repartee_desktop.State.{ListEntry, Buffer}
use repartee_desktop.Base.Maps.{Text_eq, get-remove_self, get, get-insert_self}

eq_ignore_ascii_case_sym :
    (s t : Text) → eq_ignore_ascii_case s t ≡ true → eq_ignore_ascii_case t s ≡ true
eq_ignore_ascii_case_sym [] [] h = refl
eq_ignore_ascii_case_sym [] (d ∷ t) h = cc
eq_ignore_ascii_case_sym (c ∷ s) [] h = cc
eq_ignore_ascii_case_sym (c ∷ s) (d ∷ t) h = ground (arith, h, eq_ignore_ascii_case_sym s t)

eq_ignore_ascii_case_refl : (s : Text) → eq_ignore_ascii_case s s ≡ true
eq_ignore_ascii_case_refl [] = refl
eq_ignore_ascii_case_refl (c ∷ s) = ground (arith, eq_ignore_ascii_case_refl s)

-- No two masks are equal but for case.
abbrev pub MasksOnce : List ListEntry → Type 0
MasksOnce [] = Unit
MasksOnce (e ∷ es) = (any (same_mask e.mask) es ≡ false) × MasksOnce es

abbrev pub IsMaskList : List ListEntry → Type 0
IsMaskList es = (length es ≤ 500) × MasksOnce es

any-pushed :
    (mask : Text) (es : List ListEntry) (e : ListEntry)
    → any (same_mask mask) (es ++ e ∷ []) ≡ (any (same_mask mask) es || same_mask mask e)
any-pushed mask [] e = ground arith
any-pushed mask (x ∷ es) e = ground (arith, any-pushed mask es e)

pushed-MasksOnce :
    (es : List ListEntry) (e : ListEntry)
    → MasksOnce es
    → any (same_mask e.mask) es ≡ false
    → MasksOnce (es ++ e ∷ [])
pushed-MasksOnce [] e h n = (refl, tt)
pushed-MasksOnce (x ∷ es) e h n = (
  ground (arith, h.0, n, any-pushed x.mask es e, eq_ignore_ascii_case_sym e.mask x.mask),
  pushed-MasksOnce es e h.1 (ground (arith, n)),
)

drop-MasksOnce : (n : ℕ) (es : List ListEntry) → MasksOnce es → MasksOnce (drop n es)
drop-MasksOnce zero es h = h
drop-MasksOnce (suc n) [] h = tt
drop-MasksOnce (suc n) (x ∷ es) h = drop-MasksOnce n es h.1

modified-same :
    (pos : ℕ) (by : Text) (at_time : ℕ) (mask : Text) (es : List ListEntry)
    → any
        (same_mask mask)
        (modify pos (λ (e : ListEntry). record e { set_by = by; set_at = at_time }) es)
      ≡ any (same_mask mask) es
modified-same pos by at_time mask [] = refl
modified-same zero by at_time mask (x ∷ es) = refl
modified-same (suc pos) by at_time mask (x ∷ es) =
    ground (arith, modified-same pos by at_time mask es)

modified-IsMaskList :
    (pos : ℕ) (by : Text) (at_time : ℕ) (es : List ListEntry)
    → (length (modify pos (λ (e : ListEntry). record e { set_by = by; set_at = at_time }) es)
        ≡ length es)
      × (MasksOnce es
          → MasksOnce
              (modify pos (λ (e : ListEntry). record e { set_by = by; set_at = at_time }) es))
modified-IsMaskList pos by at_time [] = (refl, λ h. h)
modified-IsMaskList zero by at_time (x ∷ es) = (refl, λ h. h)
modified-IsMaskList (suc pos) by at_time (x ∷ es) =
    let (len', once) = modified-IsMaskList pos by at_time es in
    (ap suc len', λ h. (modified-same pos by at_time x.mask es ∙ h.0, once h.1))

position-any :
    (mask : Text) (es : List ListEntry)
    → any (same_mask mask) es
      ≡ elim (position (same_mask mask) es) [ none ↦ false | some pos ↦ true ]
position-any mask [] = refl
position-any mask (x ∷ es) = ground (arith, position-any mask es)

drop-any :
    (n : ℕ) (mask : Text) (es : List ListEntry) (e : ListEntry)
    → n ≤ length es
    → same_mask mask e ≡ true
    → any (same_mask mask) (drop n (es ++ e ∷ [])) ≡ true
drop-any zero mask es e h s = ground (arith, s, any-pushed mask es e)
drop-any (suc n) mask [] e h s = absurd (omega (arith, h))
drop-any (suc n) mask (x ∷ es) e h s = drop-any n mask es e (omega (arith, h)) s

drained-IsMaskList :
    (mask : Text) (es : List ListEntry) (e : ListEntry)
    → IsMaskList es
    → same_mask mask e ≡ true
    → any (same_mask e.mask) es ≡ false
    → IsMaskList (drain_oldest (es ++ e ∷ []))
      × (any (same_mask mask) (drain_oldest (es ++ e ∷ [])) ≡ true)
drained-IsMaskList mask es e v same fresh =
    let pushed = es ++ e ∷ [] in
    let one = length-append es (e ∷ []) in
    let once = pushed-MasksOnce es e v.1 fresh in
    elim (Bool-cases (ltb 500 (length pushed))) [
      | inl full ↦
          let short : length pushed - 500 ≤ length es = omega (arith, one, v.0) in
          let excess = length-drop (length pushed - 500) pushed in
          rw full (
            (omega (arith, excess), drop-MasksOnce (length pushed - 500) pushed once),
            drop-any (length pushed - 500) mask es e short same,
          )
      | inr room ↦
          rw room ((ground (arith, room), once), ground (arith, same, any-pushed mask es e))
    ]

-- A mask that is set keeps the list one of at most 500 masks, none twice, and is on it afterwards.
pub upsert_entries-IsMaskList :
    (mask by : Text) (at_time : ℕ) (es : List ListEntry)
    → IsMaskList es
    → IsMaskList (upsert_entries mask by at_time es).0
      × (any (same_mask mask) (upsert_entries mask by at_time es).0 ≡ true)
unfolding upsert_entries
upsert_entries-IsMaskList mask by at_time es v =
    elim (Option-cases (position (same_mask mask) es)) [
      | inr (pos, e) ↦
          let (len', once) = modified-IsMaskList pos by at_time es in
          rw (upsert_entries, e)
            (
              (rw len' v.0, once v.1),
              modified-same pos by at_time mask es ∙ (position-any mask es ∙ rw e refl),
            )
      | inl e ↦
          let entry : ListEntry = record { mask = mask; set_by = by; set_at = at_time } in
          let fresh : any (same_mask mask) es ≡ false = position-any mask es ∙ rw e refl in
          rw (upsert_entries, e)
            (drained-IsMaskList mask es entry v (eq_ignore_ascii_case_refl mask) fresh)
    ]

upsert_entries-fresh :
    (mask by : Text) (at_time : ℕ) (es : List ListEntry)
    → any (same_mask mask) es ≡ false
    → length es < 500
    → (upsert_entries mask by at_time es).0
      ≡ es ++ record { mask = mask; set_by = by; set_at = at_time } ∷ []
unfolding upsert_entries
upsert_entries-fresh mask by at_time es fresh room =
    elim (Option-cases (position (same_mask mask) es)) [
      | inr (pos, e) ↦ absurd (ground (arith, e, fresh, position-any mask es))
      | inl e ↦
          let entry : ListEntry = record { mask = mask; set_by = by; set_at = at_time } in
          let one = length-append es (entry ∷ []) in
          let small : ltb 500 (length (es ++ entry ∷ [])) ≡ false = ground (arith, one, room) in
          rw (upsert_entries, e, small) refl
    ]

retained :
    (mask : Text) (es : List ListEntry) (e : ListEntry)
    → any (same_mask mask) es ≡ false
    → same_mask mask e ≡ true
    → retain (λ e'. not (same_mask mask e')) (es ++ e ∷ []) ≡ es
retained mask [] e fresh same = ground (arith, same)
retained mask (x ∷ es) e fresh same = ground (arith, fresh, same, retained mask es e)

entries_of-remove :
    (b : Buffer) (key mask : Text)
    → entries_of key (remove_list_mode_entry b key mask).0.list_modes
      ≡ retain (λ e. not (same_mask mask e)) (entries_of key b.list_modes)
unfolding remove_list_mode_entry
entries_of-remove b key mask = elim (Option-cases (get key b.list_modes)) [
  | inl e ↦ ground (arith, e)
  | inr (es, e) ↦
      let left = retain (λ e'. not (same_mask mask e')) es in
      ground (arith, e, get-remove_self key b.list_modes, get-insert_self key left b.list_modes)
]

entries_of-upsert :
    (b : Buffer) (key mask by : Text) (at_time : ℕ)
    → entries_of key (upsert_list_mode_entry b key mask by at_time).0.list_modes
      ≡ (upsert_entries mask by at_time (entries_of key b.list_modes)).0
unfolding upsert_list_mode_entry
entries_of-upsert b key mask by at_time =
    let es = (upsert_entries mask by at_time (entries_of key b.list_modes)).0 in
    rw (entries_of, get-insert_self key es b.list_modes) refl

-- A mask that is set and then unset leaves a list that did not have it, and was not full, as it
-- was.
pub remove-upsert :
    (b : Buffer) (key mask by : Text) (at_time : ℕ)
    → any (same_mask mask) (entries_of key b.list_modes) ≡ false
    → length (entries_of key b.list_modes) < 500
    → entries_of key
        (remove_list_mode_entry
          (upsert_list_mode_entry b key mask by at_time).0
          key
          mask).0.list_modes
      ≡ entries_of key b.list_modes
remove-upsert b key mask by at_time fresh room =
    let es = entries_of key b.list_modes in
    let entry : ListEntry = record { mask = mask; set_by = by; set_at = at_time } in
    let set =
      entries_of-upsert b key mask by at_time
      ∙ upsert_entries-fresh mask by at_time es fresh room in
    entries_of-remove (upsert_list_mode_entry b key mask by at_time).0 key mask
    ∙ (ap (retain (λ e. not (same_mask mask e))) set
        ∙ retained mask es entry fresh (eq_ignore_ascii_case_refl mask))
