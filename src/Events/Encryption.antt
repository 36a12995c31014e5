-- ===== src/Events/Encryption.antt =====
-- Where the handlers of src/irc/events.rs meet the end-to-end encryption of src/e2e:
-- `try_decrypt_e2e`, `try_dispatch_rpe2e_ctcp` and the lines that the latter shows.
use repartee_desktop.Events.{
  List, some, ◌++◌, Bool, ◌∷◌, Option, Text, make_buffer_id, post, event_message, server_buffer,
  World, AppState, E2eManager, Decrypted, plaintext, missing_key, rejected, failed, Reaction, send,
  tell,
}
use repartee_desktop.Base.{not, ◌&&◌, ends_with_byte, true, if◌then◌else◌, codes, [], false, none}
use repartee_desktop.Base.Chars.{strip_start}
use repartee_desktop.Base.Maps.{Text_eq, contains_key}

abbrev pub all_but_last : Text → Text
all_but_last [] = []
all_but_last (c ∷ []) = []
all_but_last (c ∷ d ∷ s) = c ∷ all_but_last (d ∷ s)

abbrev pub begins_with : Text → Text → Bool
begins_with word text = elim (strip_start word text) [ none ↦ false | some s ↦ true ]

unfoldable pub active_or_server_buffer : World → AppState → Text → Text
unfolding server_buffer
active_or_server_buffer w s conn_id = elim s.active_buffer_id [
  | none ↦ server_buffer w s conn_id
  | some id ↦ id
]

-- A NOTICE is queued for the task that sends it.
unfoldable pub queue_send : AppState → Text → Text → Text → AppState
queue_send s conn_id nick body = record s {
  pending_e2e_sends =
      s.pending_e2e_sends
      ++ record { connection_id = conn_id; target = nick; notice_text = body } ∷ [];
}

-- The buffer of the channel if there is one, or else the shown one.
unfoldable pub told_buffer : World → AppState → Text → Option Text → Text
unfolding active_or_server_buffer
told_buffer w s conn_id channel = elim channel [
  | none ↦ active_or_server_buffer w s conn_id
  | some name ↦
      let cand = make_buffer_id w.env.to_lowercase conn_id name in
      if contains_key cand s.buffers then cand else active_or_server_buffer w s conn_id
]

unfoldable pub react : World → AppState → Text → Text → Reaction → AppState
unfolding queue_send told_buffer
react w s conn_id nick (send body) = queue_send s conn_id nick body
react w s conn_id nick (tell channel key highlight params text) =
    post w s (told_buffer w s conn_id channel)
      (λ id. record (event_message id w.now text (some key) params none) { highlight = highlight })

unfoldable pub react_all : World → AppState → Text → Text → List Reaction → AppState
unfolding react
react_all w s conn_id nick [] = s
react_all w s conn_id nick (r ∷ rs) = react_all w (react w s conn_id nick r) conn_id nick rs

-- The body of a CTCP, with one mark or both taken off.
abbrev pub unmarked : Text → Text
unmarked text =
    let trimmed : Text = elim (strip_start (1 ∷ []) text) [ none ↦ text | some s ↦ s ] in
    if ends_with_byte 1 trimmed then all_but_last trimmed else trimmed

-- What is left to do is nothing if the message was one of the handshake.
unfoldable pub try_dispatch_rpe2e_ctcp :
    World → AppState → Text → Text → Text → Text → AppState × Bool
unfolding react_all
try_dispatch_rpe2e_ctcp w s conn_id nick sender_handle text =
    let asked : Option (List Reaction) = elim w.e2e_manager [
      | none ↦ none
      | some mgr ↦ mgr.handshake nick sender_handle (unmarked text)
    ] in
    let answered : AppState × Bool = elim asked [
      | none ↦ (s, false)
      | some reactions ↦ (react_all w s conn_id nick reactions, true)
    ] in
    if begins_with (codes "RPEE2E") (unmarked text) then answered else (s, false)

abbrev pub read_as : Decrypted → Option Text
read_as (plaintext s) = some s
read_as (missing_key handle channel) =
    some (codes "[E2E: awaiting session with " ++ (handle ++ codes "]"))
read_as (rejected reason) = some (codes "[E2E rejected: " ++ (reason ++ codes "]"))
read_as failed = none

-- What an encrypted line is replaced by: nothing for our own echo, which is dropped.
unfoldable pub decrypted : World → Text → Text → Text → Bool → Option Text
decrypted w sender_handle channel text own = elim w.e2e_manager [
  | none ↦ none
  | some mgr ↦
      if begins_with (codes "+RPE2E01") text
      then (if own then some [] else read_as (mgr.decrypt_incoming sender_handle channel text))
      else none
]

-- A key that is missing is asked for.
unfoldable pub ask_for_key : AppState → Text → Text → E2eManager → Decrypted → AppState
unfolding queue_send
ask_for_key s conn_id nick mgr (missing_key handle channel) =
    elim (mgr.build_keyreq channel handle) [
      | none ↦ s
      | some ctcp ↦ if mgr.allow_keyreq handle then queue_send s conn_id nick ctcp else s
    ]
ask_for_key s conn_id nick mgr (plaintext t) = s
ask_for_key s conn_id nick mgr (rejected reason) = s
ask_for_key s conn_id nick mgr failed = s

unfoldable pub try_decrypt_e2e :
    World → AppState → Text → Text → Text → Text → Text → Bool → AppState × Option Text
unfolding ask_for_key decrypted
try_decrypt_e2e w s conn_id nick sender_handle channel text own =
    let asked : AppState = elim w.e2e_manager [
      | none ↦ s
      | some mgr ↦
          if begins_with (codes "+RPE2E01") text && not own
          then ask_for_key s conn_id nick mgr (mgr.decrypt_incoming sender_handle channel text)
          else s
    ] in
    (asked, decrypted w sender_handle channel text own)
