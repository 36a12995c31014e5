-- ===== src/Web/Auth.antt =====
-- The limiter of failed logins (`RateLimiter` of src/web/auth.rs) and the calls that `login_handler`
-- of src/web/server.rs makes of it: it locks the limiter once to check an address and again to record
-- the outcome, so other logins may come in between. Instants and durations are milliseconds, and
-- `elapsed` is taken against the argument `now`.
use repartee_desktop.Base.{
  ◌||◌, true, text_eq, false, ◌==◌, ◌^◌, none, ◌∷◌, some, ◌+◌, ◌-◌, ltb, List, Bool, Option, min,
  ◌*◌, if◌then◌else◌, [], Text, ℕ,
}
use repartee_desktop.Base.Maps.{Map, Text_eq, get, insert, remove, retain_values}

pub record AttemptState : Type 0 where
  pub failures : ℕ  -- u32
  pub last_attempt : ℕ

pub record RateLimiter : Type 0 where
  pub attempts : Map Text AttemptState

abbrev pub new : RateLimiter
new = record { attempts = [] }

-- `1u64.checked_shl(n)`, or 60 where the shift is too wide.
abbrev pub shl_or_60 : ℕ → ℕ
shl_or_60 n = if ltb n 64 then 2 ^ n else 60

unfoldable pub lockout_duration : ℕ → ℕ
lockout_duration failures = 1000 * min (shl_or_60 (failures - 1)) 60

unfoldable pub check : RateLimiter → Text → ℕ → Option ℕ
unfolding lockout_duration
check l ip now = elim (get ip l.attempts) [
  | none ↦ none
  | some st ↦
      if st.failures == 0
      then none
      else (if ltb (now - st.last_attempt) (lockout_duration st.failures)
          then some (lockout_duration st.failures - (now - st.last_attempt))
          else none)
]

abbrev pub saturating_succ : ℕ → ℕ
saturating_succ n = min (n + 1) 4294967295

abbrev pub failures_of : Option AttemptState → ℕ
failures_of none = 0
failures_of (some st) = st.failures

unfoldable pub record_failure : RateLimiter → Text → ℕ → RateLimiter
record_failure l ip now = record {
  attempts =
      insert ip
        (record {
          failures = saturating_succ (failures_of (get ip l.attempts));
          last_attempt = now;
        })
        l.attempts;
}

unfoldable pub record_success : RateLimiter → Text → RateLimiter
record_success l ip = record { attempts = remove ip l.attempts }

abbrev pub locked : ℕ → AttemptState → Bool
locked now st = ltb (now - st.last_attempt) (lockout_duration st.failures)

unfoldable pub purge_expired : RateLimiter → ℕ → RateLimiter
unfolding lockout_duration
purge_expired l now = record { attempts = retain_values (locked now) l.attempts }

pub data LoginAnswer : Type 0 where
  too_many_requests welcome unauthorized : LoginAnswer

-- The first part of `login_handler`, which may refuse the attempt.
unfoldable pub begin_login : RateLimiter → Text → ℕ → Option LoginAnswer
unfolding check
begin_login l ip now = elim (check l ip now) [
  | none ↦ none
  | some remaining ↦ some too_many_requests
]

-- The second part, when the password matches or not.
unfoldable pub end_login : RateLimiter → Text → Bool → ℕ → RateLimiter × LoginAnswer
unfolding record_failure record_success
end_login l ip true now = (record_success l ip, welcome)
end_login l ip false now = (record_failure l ip now, unauthorized)

-- The limiter, and the addresses of the logins that were let through and have not ended.
pub record Logins : Type 0 where
  pub limiter : RateLimiter
  pub under_way : List Text

abbrev pub is_under_way : Text → List Text → Bool
is_under_way ip [] = false
is_under_way ip (x ∷ xs) = text_eq ip x || is_under_way ip xs

abbrev pub remove_first : Text → List Text → List Text
remove_first ip [] = []
remove_first ip (x ∷ xs) = let rest = remove_first ip xs in if text_eq ip x then xs else x ∷ rest

-- What reaches the limiter: the two parts of a login, and the purge of the program's one-second tick.
pub data AuthEvent : Type 0 where
  begun : Text → AuthEvent
  ended : Text → Bool → AuthEvent
  purge : AuthEvent

-- Only a login that was let through comes to its second part.
unfoldable pub step : Logins → AuthEvent × ℕ → Logins
unfolding begin_login end_login
step s (begun ip, now) = elim (begin_login s.limiter ip now) [
  | none ↦ record s { under_way = ip ∷ s.under_way }
  | some answer ↦ s
]
step s (ended ip password_matches, now) =
    if is_under_way ip s.under_way
    then record {
      limiter = (end_login s.limiter ip password_matches now).0;
      under_way = remove_first ip s.under_way;
    }
    else s
step s (purge, now) = record s { limiter = purge_expired s.limiter now }

unfoldable pub run : Logins → List (AuthEvent × ℕ) → Logins
unfolding step
run s [] = s
run s (ev ∷ evs) = run (step s ev) evs
