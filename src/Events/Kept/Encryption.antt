-- ===== src/Events/Kept/Encryption.antt =====
-- That decryption and the handshake, as src/irc/events.rs calls them, keep the shown buffer.
use repartee_desktop.Events.Sound.{post-IsApp}
use repartee_desktop.State.Shown.{IsApp}
use repartee_desktop.State.Steps.{}
use repartee_desktop.Events.Encryption.{
  ask_for_key, queue_send, try_decrypt_e2e, begins_with, unmarked, react, react_all,
  try_dispatch_rpe2e_ctcp,
}
use repartee_desktop.Events.{
  E2eManager, Decrypted, plaintext, missing_key, rejected, failed, Reaction, send, tell,
}
use repartee_desktop.Base.{
  List, ◌&&◌, not, Bool-cases, codes, inr, inl, arith, Option-cases, [], Bool, Text, ◌∷◌,
}
use repartee_desktop.State.Steps.{}
use repartee_desktop.Events.Talk.{}
use repartee_desktop.Events.{AppState, World}
use repartee_desktop.Base.Maps.{Text_eq}

react_all-IsApp :
    (w : World) (rs : List Reaction) (s : AppState) (id nick : Text)
    → IsApp s
    → IsApp (react_all w s id nick rs)
unfolding react_all react queue_send
react_all-IsApp w [] s id nick v = v
react_all-IsApp w (send body ∷ rs) s id nick v =
    react_all-IsApp w rs _ id nick (record { shown = v.shown; own = v.own })
react_all-IsApp w (tell channel key highlight params text ∷ rs) s id nick v =
    react_all-IsApp w rs _ id nick (post-IsApp w s _ _ v)

pub dispatched-IsApp :
    (w : World) (s : AppState) (id nick handle text : Text)
    → IsApp s
    → IsApp (try_dispatch_rpe2e_ctcp w s id nick handle text).0
unfolding try_dispatch_rpe2e_ctcp
dispatched-IsApp w s id nick handle text v =
    elim (Bool-cases (begins_with (codes "RPEE2E") (unmarked text))) [
      | inr e ↦ rw (try_dispatch_rpe2e_ctcp, e) v
      | inl e ↦ elim (Option-cases w.e2e_manager) [
        | inl off ↦ rw (try_dispatch_rpe2e_ctcp, e, off) v
        | inr (mgr, on) ↦ elim (Option-cases (mgr.handshake nick handle (unmarked text))) [
          | inl other ↦ rw (try_dispatch_rpe2e_ctcp, e, on, other) v
          | inr (rs, done) ↦
              rw (try_dispatch_rpe2e_ctcp, e, on, done) (react_all-IsApp w rs s id nick v)
        ]
      ]
    ]

ask_for_key-IsApp :
    (s : AppState) (id nick : Text) (mgr : E2eManager) (d : Decrypted)
    → IsApp s
    → IsApp (ask_for_key s id nick mgr d)
unfolding ask_for_key queue_send
ask_for_key-IsApp s id nick mgr (missing_key handle channel) v = ground (arith, v.shown, v.own)
ask_for_key-IsApp s id nick mgr (plaintext t) v = v
ask_for_key-IsApp s id nick mgr (rejected reason) v = v
ask_for_key-IsApp s id nick mgr failed v = v

pub try_decrypt-IsApp :
    (w : World) (s : AppState) (id nick handle channel text : Text) (own : Bool)
    → IsApp s
    → IsApp (try_decrypt_e2e w s id nick handle channel text own).0
unfolding try_decrypt_e2e
try_decrypt-IsApp w s id nick handle channel text own v = elim (Option-cases w.e2e_manager) [
  | inl e ↦ rw (try_decrypt_e2e, e) v
  | inr (mgr, e) ↦ elim (Bool-cases (begins_with (codes "+RPE2E01") text && not own)) [
    | inl b ↦
        rw (try_decrypt_e2e, e, b)
          (ask_for_key-IsApp s id nick mgr (mgr.decrypt_incoming handle channel text) v)
    | inr b ↦ rw (try_decrypt_e2e, e, b) v
  ]
]
