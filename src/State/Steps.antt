-- ===== src/State/Steps.antt =====
-- Any sequence of the state's methods (src/state/events.rs).
use repartee_desktop.State.App.{
  new_message, emit, u32_succ, update_buffer, set_active_buffer, add_buffer, AppState, Env,
  remove_buffer,
}
use repartee_desktop.Base.{
  ltb, Bool-cases, arith, if◌then◌else◌, ◌≡◌, ℕ, List, [], ◌∷◌, refl, Text, Option, some, none, inl,
  inr,
}
use repartee_desktop.State.{mention, activity_rank, NickEntry, Map, Message, ActivityLevel, Buffer}
use repartee_desktop.State.Messages.{
  message_to_wire, mentions_id, set_topic, set_activity, add_local_message, maybe_log,
  add_message_with_activity_unshrunk, add_mention_to_buffer, escalate, add_message_unshrunk,
  announce, receive,
}
use repartee_desktop.State.Buffers.{push_message, touch_speaker, track_speaker, enforce_scrollback}
use repartee_desktop.Base.Maps.{Text_eq, contains_key-adjust, contains_key, adjust}
use repartee_desktop.State.Nicks.{update_nick, remove_nick, add_nick}
use repartee_desktop.State.Active.{prev_buffer, next_buffer}
use repartee_desktop.State.Shown.{
  prev_buffer-IsApp, next_buffer-IsApp, set_active_buffer-IsApp, remove_buffer-IsApp,
  add_buffer-IsApp, OwnId-adjust, shows, IsApp,
}

pub data AppEvent : Type 0 where
  open_buffer : Buffer → AppEvent
  close show : Text → AppEvent
  next previous : AppEvent
  store : Text → Message → AppEvent
  deliver : Text → Message → ActivityLevel → AppEvent
  note_locally : Text → Message → AppEvent
  mention_me : Message → AppEvent
  raise : Text → ActivityLevel → AppEvent
  change_topic : Text → Text → Option Text → AppEvent
  come : Text → NickEntry → AppEvent
  leave : Text → Text → AppEvent
  rename : Text → Text → Text → AppEvent

unfoldable pub step : Env → AppState → AppEvent → AppState
step env s (open_buffer b) = add_buffer s b
step env s (close id) = remove_buffer env s id
step env s (show id) = set_active_buffer s id
step env s next = next_buffer env s
step env s previous = prev_buffer env s
step env s (store id m) = add_message_unshrunk env s id m
step env s (deliver id m level) = add_message_with_activity_unshrunk env s id m level
step env s (note_locally id m) = add_local_message s id m
step env s (mention_me m) = add_mention_to_buffer s m
step env s (raise id level) = set_activity s id level
step env s (change_topic id topic by) = set_topic s id topic by
step env s (come id entry) = add_nick env s id entry
step env s (leave id nick) = remove_nick env s id nick
step env s (rename id old_nick new_nick) = update_nick env s id old_nick new_nick

unfoldable pub run : Env → AppState → List AppEvent → AppState
unfolding step
run env s [] = s
run env s (ev ∷ evs) = run env (step env s ev) evs

-- What is asked of the state is kept by whatever leaves the buffers' ids and the shown one alone.
abbrev pub Keeps : AppState → AppState → Type 0
Keeps s t = (t.buffers ≡ s.buffers) × (t.active_buffer_id ≡ s.active_buffer_id)

pub Keeps-IsApp : (s t : AppState) → Keeps s t → IsApp s → IsApp t
Keeps-IsApp s t k v = record { shown = rw (k.0, k.1) v.shown; own = rw k.0 v.own }

shows-adjust :
    (o : Option Text) (id : Text) (f : Buffer → Buffer) (m : Map Text Buffer)
    → shows o (adjust id f m) ≡ shows o m
shows-adjust none id f m = refl
shows-adjust (some a) id f m = contains_key-adjust id f a m

pub update_buffer-IsApp :
    (s : AppState) (id : Text) (f : Buffer → Buffer)
    → ((b : Buffer) → (f b).id ≡ b.id)
    → IsApp s
    → IsApp (update_buffer s id f)
update_buffer-IsApp s id f same v = record {
  shown = rw (shows-adjust s.active_buffer_id id f s.buffers) v.shown;
  own = OwnId-adjust id f s.buffers same v.own;
}

receive-id : (env : Env) (limit : ℕ) (m : Message) (b : Buffer) → (receive env limit m b).id ≡ b.id
unfolding receive enforce_scrollback track_speaker touch_speaker
receive-id env limit m b = ground arith

local-id :
    (limit : ℕ) (m : Message) (b : Buffer) → (enforce_scrollback (push_message b m) limit).id ≡ b.id
unfolding enforce_scrollback
local-id limit m b = ground arith

announced-Keeps :
    (env : Env) (s : AppState) (id : Text) (m : Message)
    → Keeps s (announce (maybe_log env s id m) id m)
unfolding announce maybe_log
announced-Keeps env s id m = ground arith

pub stored-IsApp :
    (env : Env) (s : AppState) (id : Text) (m : Message)
    → IsApp s
    → IsApp (add_message_unshrunk env s id m)
unfolding add_message_unshrunk
stored-IsApp env s id m v = elim (Bool-cases (contains_key id s.buffers)) [
  | inr gone ↦ rw gone v
  | inl here ↦ rw here (
      update_buffer-IsApp (announce (maybe_log env s id m) id m) id
        (receive env s.scrollback_limit m) (receive-id env s.scrollback_limit m)
        (Keeps-IsApp s (announce (maybe_log env s id m) id m) (announced-Keeps env s id m) v))
]

pub escalate-IsApp :
    (s : AppState) (id : Text) (level : ActivityLevel) → IsApp s → IsApp (escalate s id level)
unfolding escalate
escalate-IsApp s id level v =
    let raised =
      update_buffer-IsApp s id
        (λ c. record c { activity = level; unread_count = u32_succ c.unread_count }) (λ b. refl)
        v in
    ground (arith, raised.shown, raised.own, v.shown, v.own)

pub mentioned-IsApp : (s : AppState) (m : Message) → IsApp s → IsApp (add_mention_to_buffer s m)
unfolding add_mention_to_buffer
mentioned-IsApp s m v =
    let told = emit s (new_message mentions_id (message_to_wire m s.web_preview_extractor)) in
    let pushed = update_buffer told mentions_id (λ b. enforce_scrollback (push_message b m) 1000) in
    let v' : IsApp told = record { shown = v.shown; own = v.own } in
    let kept : IsApp pushed =
      update_buffer-IsApp told mentions_id (λ b. enforce_scrollback (push_message b m) 1000)
        (local-id 1000 m) v' in
    let raised =
      update_buffer-IsApp pushed mentions_id
        (λ c. record c { activity = mention; unread_count = u32_succ c.unread_count }) (λ b. refl)
        kept in
    ground (arith, kept.shown, kept.own, raised.shown, raised.own, v.shown, v.own)

raise-id :
    (level : ActivityLevel) (b : Buffer)
    → (if ltb (activity_rank b.activity) (activity_rank level)
        then record b { activity = level }
        else b).id
      ≡ b.id
raise-id level b = ground arith

step-IsApp : (env : Env) (s : AppState) (ev : AppEvent) → IsApp s → IsApp (step env s ev)
unfolding step add_message_with_activity_unshrunk add_local_message set_activity set_topic add_nick
    remove_nick update_nick
step-IsApp env s (open_buffer b) v = add_buffer-IsApp s b v
step-IsApp env s (close id) v = remove_buffer-IsApp env s id v
step-IsApp env s (show id) v = set_active_buffer-IsApp s id v
step-IsApp env s next v = next_buffer-IsApp env s v
step-IsApp env s previous v = prev_buffer-IsApp env s v
step-IsApp env s (store id m) v = stored-IsApp env s id m v
step-IsApp env s (deliver id m level) v = elim (Bool-cases (contains_key id s.buffers)) [
  | inr gone ↦ rw gone v
  | inl here ↦
      rw here
        (escalate-IsApp (add_message_unshrunk env s id m) id level (stored-IsApp env s id m v))
]
step-IsApp env s (note_locally id m) v =
    update_buffer-IsApp (emit s (new_message id (message_to_wire m s.web_preview_extractor))) id
      (λ b. enforce_scrollback (push_message b m) s.scrollback_limit)
      (local-id s.scrollback_limit m) (record { shown = v.shown; own = v.own })
step-IsApp env s (mention_me m) v = mentioned-IsApp s m v
step-IsApp env s (raise id level) v = update_buffer-IsApp s id _ (raise-id level) v
step-IsApp env s (change_topic id topic by) v = update_buffer-IsApp s id _ (λ b. refl) v
step-IsApp env s (come id entry) v = update_buffer-IsApp s id _ (λ b. refl) v
step-IsApp env s (leave id nick) v = update_buffer-IsApp s id _ (λ b. refl) v
step-IsApp env s (rename id old_nick new_nick) v = update_buffer-IsApp s id _ (λ b. refl) v

-- From a state where the shown buffer, if there is one, exists, and every buffer stands under its
-- own id, any sequence of methods leads to such a state again.
pub run-IsApp : (env : Env) (s : AppState) (evs : List AppEvent) → IsApp s → IsApp (run env s evs)
unfolding run
run-IsApp env s [] v = v
run-IsApp env s (ev ∷ evs) v = run-IsApp env (step env s ev) evs (step-IsApp env s ev v)
