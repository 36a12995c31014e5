-- ===== src/Flood/Rates.antt =====
-- What the detectors of src/irc/flood.rs let pass in one window.
use repartee_desktop.Flood.Checks.{
  check_ctcp_flood, check_tilde_nick_flood, should_suppress_nick_flood,
}
use repartee_desktop.Base.{
  sym, subst, ◌==◌, text_eq, if◌then◌else◌, false, true, Bool, ℕ, ◌+◌, ◌≤◌, ◌≡◌, List, [], ◌∷◌,
  Text, arith,
}
use repartee_desktop.Base.Maps.{Text_eq, ℕ_eq, size, Distinct}
use repartee_desktop.Flood.{
  nick_block, tilde_nick_block, nick_window, tilde_nick_window, nick_threshold,
  tilde_nick_threshold, ctcp_block, ctcp_window, ctcp_threshold, FloodState,
}
use repartee_desktop.Flood.Limiter.{hit-credit, credit, credit-le, IsSpan, Limiter, pass, hit}
use repartee_desktop.Flood.Keyed.{check-credit, check-IsTable, view, IsTable, cleanup, Keyed, check}

-- The events of a list lie between `c` and `e`.
abbrev pub Within {ℓ} : {A : Type ℓ} → ℕ → ℕ → List (A × ℕ) → Type 0
Within c e [] = Unit
Within c e ((a, now) ∷ evs) = (c ≤ now) × (now ≤ e) × Within c e evs

-- How many of the requests at the given instants pass.
unfoldable pub ctcp_passes : FloodState → List ℕ → ℕ
unfolding check_ctcp_flood
ctcp_passes s [] = 0
ctcp_passes s (now ∷ evs) = let (s', v) = check_ctcp_flood s now in pass v + ctcp_passes s' evs

-- How many of the messages of tilde nicks with the hash `h` pass.
unfoldable pub tilde_passes : (Text → ℕ) → ℕ → FloodState → List (Text × ℕ) → ℕ
unfolding check_tilde_nick_flood
tilde_passes hash_text h s [] = 0
tilde_passes hash_text h s ((nick, now) ∷ evs) =
    let (s', v) = check_tilde_nick_flood hash_text s nick now in
    (if hash_text nick == h then pass v else 0) + tilde_passes hash_text h s' evs

abbrev pub shown : Bool → ℕ
shown true = 0
shown false = 1

-- How many of the nick changes in the buffer `b` are shown.
unfoldable pub nick_passes : Text → FloodState → List (Text × ℕ) → ℕ
unfolding should_suppress_nick_flood
nick_passes b s [] = 0
nick_passes b s ((buffer_id, now) ∷ evs) =
    let (s', v) = should_suppress_nick_flood s buffer_id now in
    (if text_eq buffer_id b then shown v else 0) + nick_passes b s' evs

abbrev pub ctcp_limiter : FloodState → Limiter
ctcp_limiter s = record { times = s.ctcp_times; blocked_until = s.ctcp_blocked_until }

abbrev pub tilde_table : FloodState → Keyed ℕ
tilde_table s = record { times = s.tilde_nick_times; blocked_until = s.tilde_nick_blocked }

abbrev pub nick_table : FloodState → Keyed Text
nick_table s = record { times = s.nick_times; blocked_until = s.nick_blocked_until }

-- The request detector is one limiter.
pub ctcp-hit :
    (s : FloodState) (now : ℕ)
    → let (s', v) = check_ctcp_flood s now in
      let (l, w) = hit ctcp_threshold ctcp_window ctcp_block (ctcp_limiter s) now in
      (ctcp_limiter s' ≡ l) × (v ≡ w)
unfolding check_ctcp_flood hit
ctcp-hit s now = ground arith

-- The tilde detector is a table of limiters.
pub tilde-check :
    (hash_text : Text → ℕ) (s : FloodState) (nick : Text) (now : ℕ)
    → let (s', v) = check_tilde_nick_flood hash_text s nick now in
      let (t, w) =
        check tilde_nick_threshold tilde_nick_window tilde_nick_block
          (tilde_table s)
          (hash_text nick)
          now in
      (tilde_table s' ≡ t) × (v ≡ w)
unfolding check_tilde_nick_flood check cleanup size
tilde-check hash_text s nick now = ground arith

-- So is the detector of nick changes.
pub nick-check :
    (s : FloodState) (b : Text) (now : ℕ)
    → let (s', v) = should_suppress_nick_flood s b now in
      let (t, w) = check nick_threshold nick_window nick_block (nick_table s) b now in
      (nick_table s' ≡ t) × (shown v ≡ pass w)
unfolding should_suppress_nick_flood check cleanup size
nick-check s b now = ground arith

abbrev pub Instants : ℕ → ℕ → List ℕ → Type 0
Instants c e [] = Unit
Instants c e (now ∷ evs) = (c ≤ now) × (now ≤ e) × Instants c e evs

-- No key stands twice in the tables of the state.
pub record IsState (s : FloodState) : Type 0 where
  pub tilde_times : Distinct s.tilde_nick_times
  pub tilde_blocked : Distinct s.tilde_nick_blocked
  pub nick_times_once : Distinct s.nick_times
  pub nick_blocked : Distinct s.nick_blocked_until

ctcp_spends :
    (c e : ℕ) (s : FloodState) (evs : List ℕ)
    → IsSpan ctcp_window ctcp_block c e
    → Instants c e evs
    → ctcp_passes s evs ≤ credit ctcp_threshold c e (ctcp_limiter s)
unfolding ctcp_passes
ctcp_spends c e s [] span w = omega arith
ctcp_spends c e s (now ∷ evs) span w =
    let (same, verdict) = ctcp-hit s now in
    let rest = ctcp_spends c e (check_ctcp_flood s now).0 evs span w.2 in
    let spent =
      hit-credit ctcp_threshold ctcp_window ctcp_block c e now (ctcp_limiter s) span w.0 w.1 in
    let spent' = rw (← same, ← verdict) at spent in omega (arith, rest, spent')

-- Of all the CTCP requests that come within five seconds, at most four pass, whatever the detector
-- has recorded before. The clock has run for five seconds.
pub ctcp_rate_limit :
    (c e : ℕ) (s : FloodState) (evs : List ℕ)
    → ctcp_window ≤ c
    → e ≤ c + ctcp_window
    → Instants c e evs
    → ctcp_passes s evs ≤ 4
ctcp_rate_limit c e s evs h k w = omega (
  arith,
  ctcp_spends c e s evs (record { started = h; short = k; covered = omega arith }) w,
  credit-le ctcp_threshold c e (ctcp_limiter s),
)

tilde_spends :
    (hash_text : Text → ℕ) (h c e : ℕ) (s : FloodState) (evs : List (Text × ℕ))
    → IsSpan tilde_nick_window tilde_nick_block c e
    → IsTable (tilde_table s)
    → Within c e evs
    → tilde_passes hash_text h s evs ≤ credit tilde_nick_threshold c e (view h (tilde_table s))
unfolding tilde_passes
tilde_spends hash_text h c e s [] span d w = omega arith
tilde_spends hash_text h c e s ((nick, now) ∷ evs) span d w =
    let (same, verdict) = tilde-check hash_text s nick now in
    let d' =
      check-IsTable tilde_nick_threshold tilde_nick_window tilde_nick_block (tilde_table s)
        (hash_text nick) now d in
    let rest =
      tilde_spends hash_text h c e (check_tilde_nick_flood hash_text s nick now).0 evs span
        (subst IsTable (sym same) d') w.2 in
    let spent =
      check-credit tilde_nick_threshold tilde_nick_window tilde_nick_block c e span (tilde_table s)
        h now d w.0 w.1 (hash_text nick) in
    let spent' = rw (← same, ← verdict) at spent in omega (arith, rest, spent')

-- Of all the messages that tilde nicks with one hash send within five seconds, at most four pass,
-- whatever the other nicks send in between. The clock has run for five seconds.
pub tilde_rate_limit :
    (hash_text : Text → ℕ) (h c e : ℕ) (s : FloodState) (evs : List (Text × ℕ))
    → IsState s
    → tilde_nick_window ≤ c
    → e ≤ c + tilde_nick_window
    → Within c e evs
    → tilde_passes hash_text h s evs ≤ 4
tilde_rate_limit hash_text h c e s evs v i k w = omega (
  arith,
  tilde_spends hash_text h c e s evs (record { started = i; short = k; covered = omega arith })
      (record { times_once = v.tilde_times; blocked_once = v.tilde_blocked }) w,
  credit-le tilde_nick_threshold c e (view h (tilde_table s)),
)

nick_spends :
    (b : Text) (c e : ℕ) (s : FloodState) (evs : List (Text × ℕ))
    → IsSpan nick_window nick_block c e
    → IsTable (nick_table s)
    → Within c e evs
    → nick_passes b s evs ≤ credit nick_threshold c e (view b (nick_table s))
unfolding nick_passes
nick_spends b c e s [] span d w = omega arith
nick_spends b c e s ((j, now) ∷ evs) span d w =
    let (same, verdict) = nick-check s j now in
    let d' = check-IsTable nick_threshold nick_window nick_block (nick_table s) j now d in
    let rest =
      nick_spends b c e (should_suppress_nick_flood s j now).0 evs span
        (subst IsTable (sym same) d') w.2 in
    let spent =
      check-credit nick_threshold nick_window nick_block c e span (nick_table s) b now d w.0 w.1
        j in
    let spent' = rw (← same, ← verdict) at spent in omega (arith, rest, spent')

-- Of all the nick changes that come in one buffer within three seconds, at most four are shown,
-- whatever happens in the other buffers. The clock has run for three seconds.
pub nick_rate_limit :
    (b : Text) (c e : ℕ) (s : FloodState) (evs : List (Text × ℕ))
    → IsState s
    → nick_window ≤ c
    → e ≤ c + nick_window
    → Within c e evs
    → nick_passes b s evs ≤ 4
nick_rate_limit b c e s evs v i k w = omega (
  arith,
  nick_spends b c e s evs (record { started = i; short = k; covered = omega arith })
      (record { times_once = v.nick_times_once; blocked_once = v.nick_blocked }) w,
  credit-le nick_threshold c e (view b (nick_table s)),
)
