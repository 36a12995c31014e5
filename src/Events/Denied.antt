-- ===== src/Events/Denied.antt =====
-- A JOIN that the server refuses: the replies 471, 473, 474, 475 and 405 of `handle_response` of
-- src/irc/events.rs.
use repartee_desktop.Events.{
  if◌then◌else◌, ◌++◌, get, codes, Bool, Text, List, make_buffer_id, emit_text, server_buffer,
  World, AppState,
}
use repartee_desktop.State.App.{remove_buffer}
use repartee_desktop.Base.{zero, [], suc, ◌∷◌, ℕ, is_empty, some, false, none}
use repartee_desktop.Base.Maps.{Text_eq}

-- The argument at a place, or a text for want of one.
abbrev pub argument_or : Text → ℕ → List Text → Text
argument_or d n [] = d
argument_or d zero (x ∷ xs) = x
argument_or d (suc n) (x ∷ xs) = argument_or d n xs

-- There is such a buffer, and it lists nobody.
abbrev pub is_deserted : Text → AppState → Bool
is_deserted id s = elim (get id s.buffers) [ none ↦ false | some b ↦ is_empty b.users ]

unfoldable pub handle_join_refused : World → AppState → Text → List Text → AppState
unfolding server_buffer emit_text
handle_join_refused w s conn_id args =
    let name = argument_or (codes "?") 1 args in
    let reason = argument_or (codes "Cannot join channel") 2 args in
    let id = make_buffer_id w.env.to_lowercase conn_id (name) in
    let told =
      emit_text w s (server_buffer w s conn_id)
        (codes "%Zff6b6bCannot join " ++ (name ++ (codes ": " ++ (reason ++ codes "%N")))) in
    if is_deserted id told then remove_buffer w.env told id else told
