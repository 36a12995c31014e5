-- ===== src/Flood/Isolation.antt =====
-- Blocks of src/irc/flood.rs: whom they hit, how long they last, and what keeps the tables sound.
use repartee_desktop.Base.{
  refl, inr, ◌∙◌, inl, ap, some, ◌≢◌, sym, ◌<◌, subst, Bool, ℕ, ◌+◌, ◌≤◌, ◌≡◌, List, [], ◌∷◌, Text,
  arith,
}
use repartee_desktop.Flood.{
  nick_block, tilde_nick_block, ctcp_window, nick_window, tilde_nick_window, ctcp_threshold,
  nick_threshold, tilde_nick_threshold, in_block, ctcp_block, new, FloodState,
}
use repartee_desktop.Flood.Checks.{
  remove_buffer, should_suppress_nick_flood, check_duplicate_flood, check_pm_tilde_storm,
  check_tilde_nick_flood, check_ctcp_flood,
}
use repartee_desktop.Flood.Rates.{
  ctcp_limiter, ctcp-hit, nick-check, tilde-check, ctcp_passes, tilde_table, nick_table, IsState,
}
use repartee_desktop.Base.Maps.{get, ℕ_eq, Text_eq, remove-Distinct}
use repartee_desktop.Flood.Keyed.{check-view_other, Keyed, check-IsTable, IsTable}
use repartee_desktop.Flood.Limiter.{pass, Limiter, hit-blocked, sweep}

-- What the program does to the state of a connection's detectors.
pub data FloodEvent : Type 0 where
  ctcp : FloodEvent
  tilde : Text → FloodEvent
  private_message : Text → FloodEvent
  channel_message : Text → Bool → FloodEvent
  nick_change : Text → FloodEvent
  close : Text → FloodEvent

unfoldable pub step : (Text → ℕ) → FloodState → FloodEvent × ℕ → FloodState
step hash_text s (ctcp, now) = (check_ctcp_flood s now).0
step hash_text s (tilde nick, now) = (check_tilde_nick_flood hash_text s nick now).0
step hash_text s (private_message nick, now) = (check_pm_tilde_storm hash_text s nick now).0
step hash_text s (channel_message text is_channel, now) =
    (check_duplicate_flood hash_text s text is_channel now).0
step hash_text s (nick_change buffer_id, now) = (should_suppress_nick_flood s buffer_id now).0
step hash_text s (close buffer_id, now) = remove_buffer s buffer_id

unfoldable pub run : (Text → ℕ) → FloodState → List (FloodEvent × ℕ) → FloodState
run hash_text s [] = s
run hash_text s (ev ∷ evs) = run hash_text (step hash_text s ev) evs

-- The tilde detector leaves the tables of nick changes alone, and the other way round.
tilde-others :
    (hash_text : Text → ℕ) (s : FloodState) (nick : Text) (now : ℕ)
    → nick_table (check_tilde_nick_flood hash_text s nick now).0 ≡ nick_table s
unfolding check_tilde_nick_flood
tilde-others hash_text s nick now = ground arith

nick-others :
    (s : FloodState) (b : Text) (now : ℕ)
    → tilde_table (should_suppress_nick_flood s b now).0 ≡ tilde_table s
unfolding should_suppress_nick_flood
nick-others s b now = ground arith

IsState-parts : (s : FloodState) → IsTable (tilde_table s) → IsTable (nick_table s) → IsState s
IsState-parts s t n = record {
  tilde_times = t.times_once;
  tilde_blocked = t.blocked_once;
  nick_times_once = n.times_once;
  nick_blocked = n.blocked_once;
}

tilde-IsTable : (s : FloodState) → IsState s → IsTable (tilde_table s)
tilde-IsTable s v = record { times_once = v.tilde_times; blocked_once = v.tilde_blocked }

nick-IsTable : (s : FloodState) → IsState s → IsTable (nick_table s)
nick-IsTable s v = record { times_once = v.nick_times_once; blocked_once = v.nick_blocked }

tilde-IsState :
    (hash_text : Text → ℕ) (s : FloodState) (nick : Text) (now : ℕ)
    → IsState s
    → IsState (check_tilde_nick_flood hash_text s nick now).0
tilde-IsState hash_text s nick now v =
    IsState-parts (check_tilde_nick_flood hash_text s nick now).0
      (subst IsTable (sym (tilde-check hash_text s nick now).0) (
        check-IsTable tilde_nick_threshold tilde_nick_window tilde_nick_block (tilde_table s)
          (hash_text nick) now (tilde-IsTable s v)))
      (subst IsTable (sym (tilde-others hash_text s nick now)) (nick-IsTable s v))

nick-IsState :
    (s : FloodState) (b : Text) (now : ℕ)
    → IsState s
    → IsState (should_suppress_nick_flood s b now).0
nick-IsState s b now v =
    IsState-parts (should_suppress_nick_flood s b now).0
      (subst IsTable (sym (nick-others s b now)) (tilde-IsTable s v))
      (subst IsTable (sym (nick-check s b now).0) (
        check-IsTable nick_threshold nick_window nick_block (nick_table s) b now
          (nick-IsTable s v)))

-- Every event keeps the keys of the tables distinct.
pub step-IsState :
    (hash_text : Text → ℕ) (s : FloodState) (ev : FloodEvent × ℕ)
    → IsState s
    → IsState (step hash_text s ev)
unfolding step check_ctcp_flood check_pm_tilde_storm check_duplicate_flood remove_buffer
step-IsState hash_text s (ctcp, now) v = ground arith
step-IsState hash_text s (tilde nick, now) v = tilde-IsState hash_text s nick now v
step-IsState hash_text s (private_message nick, now) v = ground arith
step-IsState hash_text s (channel_message text is_channel, now) v = ground arith
step-IsState hash_text s (nick_change buffer_id, now) v = nick-IsState s buffer_id now v
step-IsState hash_text s (close buffer_id, now) v = ground (
  arith,
  remove-Distinct buffer_id s.nick_times v.nick_times_once,
  remove-Distinct buffer_id s.nick_blocked_until v.nick_blocked,
)

run-IsState_from :
    (hash_text : Text → ℕ) (s : FloodState) (evs : List (FloodEvent × ℕ))
    → IsState s
    → IsState (run hash_text s evs)
unfolding run
run-IsState_from hash_text s [] v = v
run-IsState_from hash_text s (ev ∷ evs) v =
    run-IsState_from hash_text (step hash_text s ev) evs (step-IsState hash_text s ev v)

pub new-IsState : IsState new
new-IsState = ground arith

-- After any sequence of events from the start no key stands twice in a table of the state.
pub run-IsState :
    (hash_text : Text → ℕ) (evs : List (FloodEvent × ℕ)) → IsState (run hash_text new evs)
run-IsState hash_text evs = run-IsState_from hash_text new evs new-IsState

-- A tilde nick that floods never changes whether another nick, one with another hash, is blocked.
pub tilde_block_isolated :
    (hash_text : Text → ℕ) (s : FloodState) (nick : Text) (h now later : ℕ)
    → IsState s
    → hash_text nick ≢ h
    → now ≤ later
    → in_block later (get h (check_tilde_nick_flood hash_text s nick now).0.tilde_nick_blocked)
      ≡ in_block later (get h s.tilde_nick_blocked)
unfolding sweep
tilde_block_isolated hash_text s nick h now later v ne le =
    rw
      (ap (λ (t : Keyed ℕ). in_block later (get h t.blocked_until))
        (tilde-check hash_text s nick now).0)
      (elim (check-view_other tilde_nick_threshold tilde_nick_window tilde_nick_block
        (tilde_table s) (hash_text nick) h now (tilde-IsTable s v) (ground arith)) [
          | inl same ↦ ap (λ (l : Limiter). in_block later l.blocked_until) same
          | inr swept ↦ ap (λ (l : Limiter). in_block later l.blocked_until) swept ∙ ground arith
        ])

-- Each event comes before the block ends that the one before it has renewed.
abbrev pub Gaps : ℕ → List ℕ → Type 0
Gaps last [] = Unit
Gaps last (now ∷ evs) = (now < last + ctcp_block) × Gaps now evs

-- Once a CTCP flood is blocked, no request passes until none has come for a minute.
pub ctcp_block_holds :
    (s : FloodState) (last : ℕ) (evs : List ℕ)
    → s.ctcp_blocked_until ≡ some (last + ctcp_block)
    → Gaps last evs
    → ctcp_passes s evs ≡ 0
unfolding ctcp_passes
ctcp_block_holds s last [] b g = refl
ctcp_block_holds s last (now ∷ evs) b g =
    let (same, verdict) = ctcp-hit s now in
    let (stays, until) =
      hit-blocked ctcp_threshold ctcp_window ctcp_block (ctcp_limiter s) now (ground arith) in
    omega (
      arith,
      ap pass (verdict ∙ stays),
      ctcp_block_holds (check_ctcp_flood s now).0 now evs
          (ap (λ (l : Limiter). l.blocked_until) same ∙ until) g.1,
    )
