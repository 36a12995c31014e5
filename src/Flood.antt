-- ===== src/Flood.antt =====
-- src/irc/flood.rs: flood detection for CTCP requests, tilde nicks, private-message storms,
-- repeated texts and nick changes. An `Instant` is the number of milliseconds since the clock's
-- origin, a `Duration` a number of milliseconds, and `now` is the argument that the callers pass.
-- `hash_text`, the standard library's `DefaultHasher`, is the argument `hash_text` of the methods
-- that call it: nothing is assumed of it.
pub mod Checks
pub mod Limiter
pub mod Keyed
pub mod Rates
pub mod Isolation
pub mod Storm
pub mod Duplicates
mod Tests
use repartee_desktop.Base.{
  ℕ, zero, suc, ◌+◌, ◌-◌, Bool, true, false, not, ◌&&◌, ◌||◌, ltb, leb, ◌==◌, if◌then◌else◌, Option,
  none, some, List, [], ◌∷◌, ◌++◌, length, is_empty, any, retain, count_if, Text, text_eq,
}
use repartee_desktop.Base.Maps.{
  Map, get, insert, remove, retain_values, map_values, size, ℕ_eq, Text_eq,
}

pub data FloodResult : Type 0 where
  allow triggered blocked : FloodResult

unfoldable pub suppressed : FloodResult → Bool
suppressed allow = false
suppressed triggered = true
suppressed blocked = true

abbrev pub ctcp_threshold : ℕ
ctcp_threshold = 5

abbrev pub ctcp_window : ℕ
ctcp_window = 5000

abbrev pub ctcp_block : ℕ
ctcp_block = 60000

abbrev pub tilde_nick_threshold : ℕ
tilde_nick_threshold = 5

abbrev pub tilde_nick_window : ℕ
tilde_nick_window = 5000

abbrev pub tilde_nick_block : ℕ
tilde_nick_block = 60000

abbrev pub pm_storm_threshold : ℕ
pm_storm_threshold = 6

abbrev pub pm_storm_window : ℕ
pm_storm_window = 5000

abbrev pub pm_storm_block : ℕ
pm_storm_block = 60000

abbrev pub dup_min_in_window : ℕ
dup_min_in_window = 5

abbrev pub dup_threshold : ℕ
dup_threshold = 3

abbrev pub dup_window : ℕ
dup_window = 5000

abbrev pub dup_block : ℕ
dup_block = 60000

abbrev pub nick_threshold : ℕ
nick_threshold = 5

abbrev pub nick_window : ℕ
nick_window = 3000

abbrev pub nick_block : ℕ
nick_block = 60000

pub record FloodState : Type 0 where
  pub ctcp_times : List ℕ
  pub ctcp_blocked_until : Option ℕ
  pub tilde_nick_times : Map ℕ (List ℕ)
  pub tilde_nick_blocked : Map ℕ ℕ
  pub pm_storm_nicks : List (ℕ × ℕ)
  pub pm_storm_blocked_until : Option ℕ
  pub msg_window : List (ℕ × ℕ)
  pub blocked_texts : Map ℕ ℕ
  pub nick_times : Map Text (List ℕ)
  pub nick_blocked_until : Map Text ℕ

abbrev pub new : FloodState
new = record {
  ctcp_times = [];
  ctcp_blocked_until = none;
  tilde_nick_times = [];
  tilde_nick_blocked = [];
  pm_storm_nicks = [];
  pm_storm_blocked_until = none;
  msg_window = [];
  blocked_texts = [];
  nick_times = [];
  nick_blocked_until = [];
}

-- `now.checked_sub(window).unwrap_or(now)`: an instant before the clock's origin is not
-- representable, and the cutoff is then `now` itself.
abbrev pub cutoff : ℕ → ℕ → ℕ
cutoff now window = if leb window now then now - window else now

-- The scan `while i < times.len() && times[i] < cutoff` with the `drain(..i)` after it.
unfoldable pub drain_older : ℕ → List ℕ → List ℕ
drain_older c [] = []
drain_older c (t ∷ ts) = let rest = drain_older c ts in if ltb t c then rest else t ∷ ts

-- The vector after the call, and the count that it returns.
unfoldable pub prune_window : List ℕ → ℕ → ℕ → List ℕ × ℕ
prune_window times now window =
    let kept = drain_older (cutoff now window) times in (kept, length kept)

-- Whether `until` is set and `now < until`.
abbrev pub in_block : ℕ → Option ℕ → Bool
in_block now none = false
in_block now (some until) = ltb now until

abbrev pub or_default : Option (List ℕ) → List ℕ
or_default none = []
or_default (some ts) = ts

-- `retain(|_, v| { v.retain(|t| *t >= cutoff); !v.is_empty() })`.
unfoldable pub drop_idle {ℓ} : {K : Type ℓ} → ℕ → Map K (List ℕ) → Map K (List ℕ)
unfolding retain_values map_values
drop_idle c m = retain_values (λ v. not (is_empty v)) (map_values (retain (leb c)) m)

-- `retain(|_, until| *until > now)`.
unfoldable pub drop_expired {ℓ} : {K : Type ℓ} → ℕ → Map K ℕ → Map K ℕ
unfolding retain_values
drop_expired now m = retain_values (ltb now) m
