-- ===== src/Events/Spoken.antt =====
-- What comes of a PRIVMSG of src/irc/events.rs: where the handler panics.
use repartee_desktop.Events.Encryption.{
  decrypted, ask_for_key, queue_send, try_decrypt_e2e, begins_with,
}
use repartee_desktop.E2e.{context_key}
use repartee_desktop.Events.Talk.{handle_decrypted}
use repartee_desktop.Events.{
  IgnoreLevel, E2eManager, Decrypted, plaintext, missing_key, rejected, failed, or_text,
}
use repartee_desktop.Base.{
  ◌∙◌, sym, is_empty, ap, ◌||◌, if◌then◌else◌, ◌&&◌, not, text_eq, ◌++◌, Bool-cases, codes, false,
  inr, inl, arith, Option-cases, [], ◌↔◌, Option, none, Bool, true, Text, ◌∷◌, ◌≡◌, refl,
}
use repartee_desktop.Events.Talk.{
  is_exempt, handle_privmsg, hear_ctcp, meet, tag_account, ignore_level, channel_of, inner, is_ctcp,
  Heard,
}
use repartee_desktop.Events.{
  make_buffer_id, extract_nick_userhost, is_ignored, Tags, Prefix, AppState, World,
}
use repartee_desktop.Base.Chars.{strip_start}
use repartee_desktop.Irc.Formatting.{is_channel}
use repartee_desktop.Irc.Ignore.{ctcps}

hear_ctcp-none :
    (w : World) (s : AppState) (h : Heard) (exempt : Bool) (text : Text)
    → (hear_ctcp w s h exempt text ≡ none) ↔ (inner text ≡ none)
unfolding hear_ctcp
hear_ctcp-none w s h exempt text = elim (Option-cases (inner text)) [
  | inl e ↦ (λ x. e, λ x. rw (hear_ctcp, e) refl)
  | inr (i, e) ↦ elim (Option-cases (strip_start (codes "ACTION ") i)) [
    | inl other ↦ (λ x. absurd (ground (arith, e, other, x)), λ x. absurd (ground (arith, e, x)))
    | inr (a, act) ↦ (λ x. absurd (ground (arith, e, act, x)), λ x. absurd (ground (arith, e, x)))
  ]
]

pub lone_mark : (text : Text) → is_ctcp text ≡ true → inner text ≡ none → text ≡ 1 ∷ []
lone_mark [] h e = ground (arith, h)
lone_mark (c ∷ []) h e = ground (arith, h)
lone_mark (c ∷ d ∷ s) h e = absurd (ground (arith, e))

handle_decrypted-none :
    (w : World) (s : AppState) (conn_id me : Text) (from : Option Prefix) (target text : Text)
    (tags : Tags)
    → (handle_decrypted w s conn_id me from target text tags ≡ none) ↔ (
        (text ≡ 1 ∷ [])
        × (is_ignored w s
              (extract_nick_userhost from).0
              (extract_nick_userhost from).1
              (extract_nick_userhost from).2
              (ignore_level target text)
              (channel_of target)
            ≡ false))
unfolding handle_decrypted
handle_decrypted-none w s conn_id me from target text tags =
    let (nick, ident, host) = extract_nick_userhost from in
    let own = text_eq nick me in
    let exempt = not own && is_exempt w s nick ident host in
    let buffer_id =
      make_buffer_id w.env.to_lowercase conn_id
        (if is_channel target || own then target else nick) in
    let h : Heard = record {
      conn_id = conn_id;
      buffer_id = buffer_id;
      target = target;
      nick = nick;
      sender_handle = ident ++ (b'@' ∷ host);
      our_nick = me;
      own = own;
      tags = tags;
    } in
    let s' =
      if is_channel target
      then tag_account w s buffer_id nick tags
      else meet w s conn_id buffer_id own nick (ident ++ (b'@' ∷ host)) in
    let marked = hear_ctcp-none w s' h exempt text in
    elim (Bool-cases
      (is_ignored w s nick ident host (ignore_level target text) (channel_of target))) [
        | inl hidden ↦
            rw (handle_decrypted, hidden)
              (λ x. absurd (ground (arith, x)), λ p. absurd (ground (arith, p.1)))
        | inr heard ↦ elim (Bool-cases (is_ctcp text)) [
          | inl mark ↦
              rw (handle_decrypted, heard, mark)
                (λ x. (lone_mark text mark (marked.0 x), refl), λ p. marked.1 (rw p.0 refl))
          | inr plain ↦
              rw (handle_decrypted, heard, plain)
                (λ x. absurd (ground (arith, x)), λ p. absurd (ground (arith, plain, p.0)))
        ]
      ]

-- What a PRIVMSG is taken to say, which is empty where it is dropped.
abbrev pub seen_text : World → Text → Option Prefix → Text → Text → Text
seen_text w me from target text =
    let (nick, ident, host) = extract_nick_userhost from in
    let sender_handle = ident ++ (b'@' ∷ host) in
    or_text text
      (decrypted w sender_handle (context_key target sender_handle) text (text_eq nick me))

ask_for_key-ignores :
    (s : AppState) (id nick : Text) (mgr : E2eManager) (d : Decrypted)
    → (ask_for_key s id nick mgr d).ignores ≡ s.ignores
unfolding ask_for_key queue_send
ask_for_key-ignores s id nick mgr (missing_key handle channel) = ground arith
ask_for_key-ignores s id nick mgr (plaintext t) = refl
ask_for_key-ignores s id nick mgr (rejected reason) = refl
ask_for_key-ignores s id nick mgr failed = refl

try_decrypt-ignores :
    (w : World) (s : AppState) (id nick handle channel text : Text) (own : Bool)
    → (try_decrypt_e2e w s id nick handle channel text own).0.ignores ≡ s.ignores
unfolding try_decrypt_e2e
try_decrypt-ignores w s id nick handle channel text own = elim (Option-cases w.e2e_manager) [
  | inl e ↦ rw (try_decrypt_e2e, e) refl
  | inr (mgr, e) ↦ elim (Bool-cases (begins_with (codes "+RPE2E01") text && not own)) [
    | inl b ↦
        rw (try_decrypt_e2e, e, b)
          (ask_for_key-ignores s id nick mgr (mgr.decrypt_incoming handle channel text))
    | inr b ↦ rw (try_decrypt_e2e, e, b) refl
  ]
]

same_ignores :
    (w : World) (s t : AppState) (nick ident host : Text) (level : IgnoreLevel)
    (channel : Option Text)
    → t.ignores ≡ s.ignores
    → is_ignored w t nick ident host level channel ≡ is_ignored w s nick ident host level channel
unfolding is_ignored
same_ignores w s t nick ident host level channel e = rw e refl

-- The same in a state whose ignore list is that of another.
decrypted_none :
    (w : World) (s s' : AppState) (conn_id me : Text) (from : Option Prefix) (target text : Text)
    (tags : Tags)
    → s'.ignores ≡ s.ignores
    → (handle_decrypted w s' conn_id me from target text tags ≡ none) ↔ (
        (text ≡ 1 ∷ [])
        × (is_ignored w s
              (extract_nick_userhost from).0
              (extract_nick_userhost from).1
              (extract_nick_userhost from).2
              ctcps
              (channel_of target)
            ≡ false))
decrypted_none w s s' conn_id me from target text tags same =
    let (nick, ident, host) = extract_nick_userhost from in
    let here = handle_decrypted-none w s' conn_id me from target text tags in
    let asked = same_ignores w s s' nick ident host ctcps (channel_of target) same in
    let level = λ (e : text ≡ 1 ∷ []).
      ap (λ u. is_ignored w s' nick ident host (ignore_level target u) (channel_of target)) e in
    (
      λ x. ((here.0 x).0, sym asked ∙ (sym (level (here.0 x).0) ∙ (here.0 x).1)),
      λ p. here.1 (p.0, level p.0 ∙ (asked ∙ p.1)),
    )

-- A PRIVMSG makes the client panic exactly if what it says, decrypted if it is encrypted, is the one
-- byte that begins and ends a CTCP, and the ignore list does not take the CTCPs of its sender.
pub handle_privmsg-none :
    (w : World) (s : AppState) (conn_id me : Text) (from : Option Prefix) (target text : Text)
    (tags : Tags)
    → (handle_privmsg w s conn_id me from target text tags ≡ none) ↔ (
        (seen_text w me from target text ≡ 1 ∷ [])
        × (is_ignored w s
              (extract_nick_userhost from).0
              (extract_nick_userhost from).1
              (extract_nick_userhost from).2
              ctcps
              (channel_of target)
            ≡ false))
unfolding handle_privmsg
handle_privmsg-none w s conn_id me from target text tags =
    let (nick, ident, host) = extract_nick_userhost from in
    let handle = ident ++ (b'@' ∷ host) in
    let own = text_eq nick me in
    let channel = context_key target handle in
    let s' = (try_decrypt_e2e w s conn_id nick handle channel text own).0 in
    let same = try_decrypt-ignores w s conn_id nick handle channel text own in
    elim (Option-cases (decrypted w handle channel text own)) [
      | inl e ↦
          rw (handle_privmsg, try_decrypt_e2e, e)
            (decrypted_none w s s' conn_id me from target text tags same)
      | inr (t, e) ↦ elim (Bool-cases (is_empty t)) [
        | inr full ↦
            rw (handle_privmsg, try_decrypt_e2e, e, full)
              (decrypted_none w s s' conn_id me from target t tags same)
        | inl empty ↦
            rw (handle_privmsg, try_decrypt_e2e, e, empty)
              (λ x. absurd (ground (arith, x)), λ p. absurd (ground (arith, empty, p.0)))
      ]
    ]
