-- ===== src/Events/Kept/Talk.antt =====
-- That what users say, by PRIVMSG or NOTICE, keeps the shown buffer and the buffers' identifiers:
-- `handle_privmsg` and `handle_notice` of src/irc/events.rs.
use repartee_desktop.Events.Sound.{post-IsApp}
use repartee_desktop.State.Shown.{add_buffer-IsApp, IsApp}
use repartee_desktop.State.Steps.{
  update_buffer-IsApp, stored-IsApp, escalate-IsApp, mentioned-IsApp,
}
use repartee_desktop.State.Messages.{add_message_unshrunk, add_message_with_activity_unshrunk}
use repartee_desktop.State.App.{add_buffer, next_message_id}
use repartee_desktop.State.Nicks.{nick_prefix}
use repartee_desktop.State.Gate.{add_message_with_activity}
use repartee_desktop.Events.Spoken.{lone_mark}
use repartee_desktop.Events.Notices.{handle_notice}
use repartee_desktop.Events.Talk.{meet, tag_account, is_exempt, is_ctcp, ctcp_flood}
use repartee_desktop.Events.Encryption.{decrypted, try_decrypt_e2e, try_dispatch_rpe2e_ctcp}
use repartee_desktop.E2e.{context_key}
use repartee_desktop.Events.Talk.{handle_decrypted, other_ctcp}
use repartee_desktop.Events.Notices.{show_notice}
use repartee_desktop.Events.{or_text}
use repartee_desktop.Events.Kept.Encryption.{dispatched-IsApp, try_decrypt-IsApp}
use repartee_desktop.Base.{
  is_empty, subst, starts_with_byte, some, ◌||◌, if◌then◌else◌, ◌&&◌, not, text_eq, ◌++◌,
  Bool-cases, codes, false, inr, inl, arith, Option-cases, [], Option, none, Bool, true, Text, ◌∷◌,
  ◌≡◌, refl,
}
use repartee_desktop.State.Steps.{}
use repartee_desktop.Flood.Checks
use repartee_desktop.Events.Talk.{
  hear, talk_flood, tilde_flood, judged, say, spoken, mention_line, is_mention, activity_of,
  is_exempt, handle_privmsg, hear_ctcp, meet, tag_account, ignore_level, channel_of, inner, is_ctcp,
  Heard,
}
use repartee_desktop.Events.{
  get, label, Message, Env, emit_text, is_server_prefix, make_buffer_id, extract_nick_userhost,
  is_ignored, Tags, Prefix, AppState, World,
}
use repartee_desktop.Base.Chars.{strip_start}
use repartee_desktop.Irc.Formatting.{is_channel}
use repartee_desktop.State.{Buffer, action, message, ActivityLevel, MessageType}
use repartee_desktop.Flood.{blocked, triggered, allow, FloodResult, FloodState}
use repartee_desktop.Irc.Ignore.{notices}
use repartee_desktop.Base.Maps.{contains_key, Text_eq}

-- The client has not panicked, and the shown buffer exists.
abbrev pub IsUp : Option AppState → Type 0
IsUp none = ⊥
IsUp (some s) = IsApp s

show_notice-IsApp :
    (w : World) (s : AppState) (id : Text) (from : Option Prefix) (target text : Text) (tags : Tags)
    → IsApp s
    → IsApp (show_notice w s id from target text tags)
unfolding show_notice
show_notice-IsApp w s id from target text tags v =
    let (nick, ident, host) = extract_nick_userhost from in
    let handle = ident ++ (b'@' ∷ host) in
    let done = dispatched-IsApp w s id nick handle text v in
    elim (Bool-cases (try_dispatch_rpe2e_ctcp w s id nick handle text).1) [
      | inl e ↦ rw (show_notice, e) done
      | inr e ↦ rw (show_notice, e) (post-IsApp w _ _ _ done)
    ]

pub notice-IsApp :
    (w : World) (s : AppState) (id : Text) (from : Option Prefix) (target text : Text) (tags : Tags)
    → IsApp s
    → IsApp (handle_notice w s id from target text tags)
unfolding handle_notice
notice-IsApp w s id from target text tags v =
    let (nick, ident, host) = extract_nick_userhost from in
    elim (Bool-cases
      (not (is_server_prefix from) && is_ignored w s nick ident host notices (channel_of target))) [
        | inl hidden ↦ rw (handle_notice, hidden) v
        | inr heard ↦ rw (handle_notice, heard) (show_notice-IsApp w s id from target text tags v)
      ]

judged-IsApp :
    (w : World) (s : AppState) (id warning : Text) (r : FloodState × FloodResult)
    → IsApp s
    → IsApp (judged w s id warning r).0
unfolding judged emit_text
judged-IsApp w s id warning (flood, allow) v = record { shown = v.shown; own = v.own }
judged-IsApp w s id warning (flood, triggered) v =
    post-IsApp w _ _ _ (record { shown = v.shown; own = v.own })
judged-IsApp w s id warning (flood, blocked) v = record { shown = v.shown; own = v.own }

delivered-IsApp :
    (env : Env) (s : AppState) (id : Text) (m : Message) (level : ActivityLevel)
    → IsApp s
    → IsApp (add_message_with_activity env s id m level)
unfolding add_message_with_activity add_message_with_activity_unshrunk
delivered-IsApp env s id m level v =
    let stored = stored-IsApp env s id m v in
    let raised = escalate-IsApp (add_message_unshrunk env s id m) id level stored in
    ground (arith, v.shown, v.own, raised.shown, raised.own)

counted-IsApp : (s : AppState) → IsApp s → IsApp (next_message_id s).0
unfolding next_message_id
counted-IsApp s v = record { shown = v.shown; own = v.own }

say-IsApp :
    (w : World) (s : AppState) (h : Heard) (kind : MessageType) (body line : Text)
    → IsApp s
    → IsApp (say w s h kind body line)
unfolding say
say-IsApp w s h kind body line v =
    let s1 = (next_message_id s).0 in
    let mentioned = is_mention w h body in
    let m =
      spoken w h kind body (nick_prefix w.env s h.buffer_id h.nick) mentioned
        (next_message_id s).1 in
    let s2 = add_message_with_activity w.env s1 h.buffer_id m (activity_of h mentioned) in
    let there =
      delivered-IsApp w.env s1 h.buffer_id m (activity_of h mentioned) (counted-IsApp s v) in
    let line' = mention_line w h (label s2 h.conn_id h.conn_id) line (next_message_id s2).1 in
    let told = mentioned-IsApp (next_message_id s2).0 line' (counted-IsApp s2 there) in
    ground (arith, there.shown, there.own, told.shown, told.own)

tilde_flood-IsApp : (w : World) (s : AppState) (h : Heard) → IsApp s → IsApp (tilde_flood w s h).0
unfolding tilde_flood
tilde_flood-IsApp w s h v =
    let (s1, hidden) =
      judged w s h.buffer_id (codes "Flood from " ++ (h.nick ++ codes " detected — suppressing"))
        (Checks.check_tilde_nick_flood w.hash_text s.flood_state h.nick w.instant) in
    let first =
      judged-IsApp w s h.buffer_id
        (codes "Flood from " ++ (h.nick ++ codes " detected — suppressing"))
        (Checks.check_tilde_nick_flood w.hash_text s.flood_state h.nick w.instant) v in
    let second =
      judged-IsApp w s1 h.buffer_id (codes "PM flood storm detected — suppressing all ~ PMs")
        (Checks.check_pm_tilde_storm w.hash_text s1.flood_state h.nick w.instant) first in
    elim (Bool-cases (hidden || is_channel h.target)) [
      | inl e ↦ rw (tilde_flood, e) first
      | inr e ↦ rw (tilde_flood, e) second
    ]

talk_flood-IsApp :
    (w : World) (s : AppState) (h : Heard) (ident text : Text)
    → IsApp s
    → IsApp (talk_flood w s h ident text).0
unfolding talk_flood
talk_flood-IsApp w s h ident text v = elim (Bool-cases (starts_with_byte b'~' ident)) [
  | inr e ↦ rw (talk_flood, e) (judged-IsApp w s h.buffer_id _ _ v)
  | inl e ↦ elim (Bool-cases (tilde_flood w s h).1) [
    | inl hidden ↦ rw (talk_flood, e, hidden) (tilde_flood-IsApp w s h v)
    | inr heard ↦
        rw (talk_flood, e, heard) (judged-IsApp w _ h.buffer_id _ _ (tilde_flood-IsApp w s h v))
  ]
]

hear-IsApp :
    (w : World) (s : AppState) (h : Heard) (ident : Text) (exempt : Bool) (text : Text)
    → IsApp s
    → IsApp (hear w s h ident exempt text)
unfolding hear
hear-IsApp w s h ident exempt text v =
    elim (Bool-cases (s.flood_protection && (not h.own && not exempt))) [
      | inr e ↦ rw (hear, e) (say-IsApp w s h message text text v)
      | inl e ↦
          let v1 = talk_flood-IsApp w s h ident text v in
          elim (Bool-cases (talk_flood w s h ident text).1) [
            | inl hidden ↦ rw (hear, e, hidden) v1
            | inr heard ↦ rw (hear, e, heard) (say-IsApp w _ h message text text v1)
          ]
    ]

opened-IsApp :
    (there : Bool) (s : AppState) (b : Buffer)
    → IsApp s
    → IsApp (if there then s else add_buffer s b)
opened-IsApp true s b v = v
opened-IsApp false s b v = add_buffer-IsApp s b v

meet-IsApp :
    (w : World) (s : AppState) (conn_id id : Text) (own : Bool) (nick handle : Text)
    → IsApp s
    → IsApp (meet w s conn_id id own nick handle)
unfolding meet
meet-IsApp w s conn_id id true nick handle v = opened-IsApp (contains_key id s.buffers) s _ v
meet-IsApp w s conn_id id false nick handle v =
    update_buffer-IsApp _ id _ (λ b. refl) (opened-IsApp (contains_key id s.buffers) s _ v)

tag_account-IsApp :
    (w : World) (s : AppState) (id nick : Text) (tags : Tags)
    → IsApp s
    → IsApp (tag_account w s id nick tags)
unfolding tag_account
tag_account-IsApp w s id nick none v = v
tag_account-IsApp w s id nick (some tags) v = elim (Option-cases (get (codes "account") tags)) [
  | inl e ↦ rw (tag_account, e) v
  | inr (a, e) ↦ rw (tag_account, e) (update_buffer-IsApp s id _ (λ b. refl) v)
]

not_lone : (text : Text) → text_eq text (1 ∷ []) ≡ false → text ≡ 1 ∷ [] → ⊥
not_lone text h e = ground (arith, subst (λ t. text_eq t (1 ∷ []) ≡ false) e h)

ctcp_flood-IsApp :
    (w : World) (s : AppState) (id : Text) (exempt : Bool)
    → IsApp s
    → IsApp (ctcp_flood w s id exempt).0
unfolding ctcp_flood
ctcp_flood-IsApp w s id exempt v = elim (Bool-cases (s.flood_protection && not exempt)) [
  | inl e ↦ rw (ctcp_flood, e) (judged-IsApp w s id _ _ v)
  | inr e ↦ rw (ctcp_flood, e) v
]

other_ctcp-IsApp :
    (w : World) (s : AppState) (h : Heard) (exempt : Bool) (text : Text)
    → IsApp s
    → IsApp (other_ctcp w s h exempt text)
unfolding other_ctcp
other_ctcp-IsApp w s h exempt text v =
    let counted = ctcp_flood-IsApp w s h.buffer_id exempt v in
    elim (Bool-cases (ctcp_flood w s h.buffer_id exempt).1) [
      | inl e ↦ rw (other_ctcp, e) counted
      | inr e ↦
          rw (other_ctcp, e) (dispatched-IsApp w _ h.conn_id h.nick h.sender_handle text counted)
    ]

hear_ctcp-IsUp :
    (w : World) (s : AppState) (h : Heard) (exempt : Bool) (text i : Text)
    → inner text ≡ some i
    → IsApp s
    → IsUp (hear_ctcp w s h exempt text)
unfolding hear_ctcp
hear_ctcp-IsUp w s h exempt text i e v = elim (Option-cases (strip_start (codes "ACTION ") i)) [
  | inr (a, act) ↦ rw (hear_ctcp, e, act) (say-IsApp w s h action a _ v)
  | inl other ↦ rw (hear_ctcp, e, other) (other_ctcp-IsApp w s h exempt text v)
]

decrypted-IsUp :
    (w : World) (s : AppState) (conn_id me : Text) (from : Option Prefix) (target text : Text)
    (tags : Tags)
    → text_eq text (1 ∷ []) ≡ false
    → IsApp s
    → IsUp (handle_decrypted w s conn_id me from target text tags)
unfolding handle_decrypted
decrypted-IsUp w s conn_id me from target text tags sane v =
    let (nick, ident, host) = extract_nick_userhost from in
    let own = text_eq nick me in
    let exempt = not own && is_exempt w s nick ident host in
    let buffer_id =
      make_buffer_id w.env.to_lowercase conn_id
        (if is_channel target || own then target else nick) in
    let h : Heard = record {
      conn_id = conn_id;
      buffer_id = buffer_id;
      target = target;
      nick = nick;
      sender_handle = ident ++ (b'@' ∷ host);
      our_nick = me;
      own = own;
      tags = tags;
    } in
    let s' =
      if is_channel target
      then tag_account w s buffer_id nick tags
      else meet w s conn_id buffer_id own nick (ident ++ (b'@' ∷ host)) in
    let v' : IsApp s' = elim (Bool-cases (is_channel target)) [
      | inl e ↦ rw e (tag_account-IsApp w s _ nick tags v)
      | inr e ↦ rw e (meet-IsApp w s conn_id _ own nick _ v)
    ] in
    elim (Bool-cases
      (is_ignored w s nick ident host (ignore_level target text) (channel_of target))) [
        | inl hidden ↦ rw (handle_decrypted, hidden) v
        | inr heard ↦ elim (Bool-cases (is_ctcp text)) [
          | inr plain ↦ rw (handle_decrypted, heard, plain) (hear-IsApp w s' h ident exempt text v')
          | inl mark ↦ elim (Option-cases (inner text)) [
            | inl e ↦ absurd (not_lone text sane (lone_mark text mark e))
            | inr (i, e) ↦
                rw (handle_decrypted, heard, mark) (hear_ctcp-IsUp w s' h exempt text i e v')
          ]
        ]
      ]

-- What a PRIVMSG says, decrypted if it is encrypted.
abbrev pub read_text : World → Option Prefix → Text → Text → Text
read_text w from target text =
    let (nick, ident, host) = extract_nick_userhost from in
    let handle = ident ++ (b'@' ∷ host) in
    or_text text (decrypted w handle (context_key target handle) text false)

own-sane :
    (w : World) (handle channel text : Text) (own : Bool)
    → text_eq (or_text text (decrypted w handle channel text false)) (1 ∷ []) ≡ false
    → text_eq (or_text text (decrypted w handle channel text own)) (1 ∷ []) ≡ false
unfolding decrypted
own-sane w handle channel text false h = h
own-sane w handle channel text true h = ground (arith, h)

pub privmsg-IsUp :
    (w : World) (s : AppState) (conn_id me : Text) (from : Option Prefix) (target text : Text)
    (tags : Tags)
    → text_eq (read_text w from target text) (1 ∷ []) ≡ false
    → IsApp s
    → IsUp (handle_privmsg w s conn_id me from target text tags)
unfolding handle_privmsg
privmsg-IsUp w s conn_id me from target text tags sane v =
    let (nick, ident, host) = extract_nick_userhost from in
    let handle = ident ++ (b'@' ∷ host) in
    let own = text_eq nick me in
    let channel = context_key target handle in
    let s' = (try_decrypt_e2e w s conn_id nick handle channel text own).0 in
    let v' = try_decrypt-IsApp w s conn_id nick handle channel text own v in
    let ok = own-sane w handle channel text own sane in
    elim (Option-cases (decrypted w handle channel text own)) [
      | inl e ↦
          rw (handle_privmsg, try_decrypt_e2e, e)
            (decrypted-IsUp w s' conn_id me from target text tags
              (subst (λ d. text_eq (or_text text d) (1 ∷ []) ≡ false) e ok) v')
      | inr (t, e) ↦ elim (Bool-cases (is_empty t)) [
        | inl empty ↦ rw (handle_privmsg, try_decrypt_e2e, e, empty) v'
        | inr full ↦
            rw (handle_privmsg, try_decrypt_e2e, e, full)
              (decrypted-IsUp w s' conn_id me from target t tags
                (subst (λ d. text_eq (or_text text d) (1 ∷ []) ≡ false) e ok) v')
      ]
    ]
