-- ===== src/State/Active.antt =====
-- Moving between buffers (src/state/events.rs).
use repartee_desktop.Base.{
  zero, length, get_elem?, suc, ◌%◌, text_eq, ◌-◌, ◌+◌, position, ℕ, List, Text, Option, some, none,
}
use repartee_desktop.Base.Maps.{Text_eq}
use repartee_desktop.State.App.{sorted_buffer_ids, set_active_buffer, Env, AppState}

-- The index of the active buffer in the sidebar.
abbrev pub current_idx : Option Text → List Text → Option ℕ
current_idx none sorted = none
current_idx (some id) sorted = position (λ s. text_eq s id) sorted

abbrev pub next_idx : Option ℕ → ℕ → ℕ
next_idx none n = 0
next_idx (some idx) n = (idx + 1) % n

abbrev pub prev_idx : Option ℕ → ℕ → ℕ
prev_idx none n = 0
prev_idx (some zero) n = n - 1
prev_idx (some (suc idx)) n = idx

abbrev pub activate_at : AppState → List Text → ℕ → AppState
activate_at s sorted i = elim (get_elem? sorted i) [ none ↦ s | some id ↦ set_active_buffer s id ]

unfoldable pub next_buffer : Env → AppState → AppState
next_buffer env s =
    let sorted = sorted_buffer_ids env s in
    activate_at s sorted (next_idx (current_idx s.active_buffer_id sorted) (length sorted))

unfoldable pub prev_buffer : Env → AppState → AppState
prev_buffer env s =
    let sorted = sorted_buffer_ids env s in
    activate_at s sorted (prev_idx (current_idx s.active_buffer_id sorted) (length sorted))
