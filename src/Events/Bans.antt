-- ===== src/Events/Bans.antt =====
-- The lists of a channel's masks: `upsert_list_mode_entry` and `remove_list_mode_entry` of
-- src/irc/events.rs.
use repartee_desktop.Base.{
  ◌==◌, is_empty, not, ◌+◌, retain, modify, ◌-◌, false, position, drop, some, none, [], length, ◌∷◌,
  ltb, eq_ignore_ascii_case, ◌++◌, if◌then◌else◌, Bool, codes, List, Text, ℕ,
}
use repartee_desktop.State.{Buffer, ListEntry}
use repartee_desktop.Base.Maps.{remove, Text_eq, get, insert, Map}

abbrev pub max_list_mode_entries : ℕ
max_list_mode_entries = 500

abbrev pub ban_mode_key : Text
ban_mode_key = codes "b"

abbrev pub entries_of : Text → Map Text (List ListEntry) → List ListEntry
entries_of mode_key list_modes = elim (get mode_key list_modes) [ none ↦ [] | some es ↦ es ]

abbrev pub same_mask : Text → ListEntry → Bool
same_mask mask e = eq_ignore_ascii_case e.mask mask

-- `drain` of the oldest entries beyond the bound.
abbrev pub drain_oldest : List ListEntry → List ListEntry
drain_oldest es =
    if ltb max_list_mode_entries (length es)
    then drop (length es - max_list_mode_entries) es
    else es

-- The entries with one for the mask, and what `upsert_list_mode_entry` returns.
unfoldable pub upsert_entries : Text → Text → ℕ → List ListEntry → List ListEntry × ℕ
upsert_entries mask set_by set_at es =
    let entry : ListEntry = record { mask = mask; set_by = set_by; set_at = set_at } in
    let pushed = drain_oldest (es ++ entry ∷ []) in
    elim (position (same_mask mask) es) [
      | some pos ↦ (
        modify pos (λ (e : ListEntry). record e { set_by = set_by; set_at = set_at }) es,
        pos + 1,
      )
      | none ↦ (pushed, length pushed)
    ]

unfoldable pub upsert_list_mode_entry : Buffer → Text → Text → Text → ℕ → Buffer × ℕ
unfolding upsert_entries
upsert_list_mode_entry b mode_key mask set_by set_at =
    let (entries, n) = upsert_entries mask set_by set_at (entries_of mode_key b.list_modes) in
    (record b { list_modes = insert mode_key entries b.list_modes }, n)

unfoldable pub remove_list_mode_entry : Buffer → Text → Text → Buffer × Bool
remove_list_mode_entry b mode_key mask = elim (get mode_key b.list_modes) [
  | none ↦ (b, false)
  | some entries ↦
      let left = retain (λ e. not (same_mask mask e)) entries in
      (
        record b {
          list_modes =
              if is_empty left
              then remove mode_key b.list_modes
              else insert mode_key left b.list_modes;
        },
        not (length left == length entries),
      )
]
