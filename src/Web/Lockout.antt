-- ===== src/Web/Lockout.antt =====
-- What the limiter of src/web/auth.rs does to someone who guesses passwords.
use repartee_desktop.Base.{
  refl, ltb, text_eq_iff, if◌then◌else◌, sym, subst, ◌*◌, ◌∙◌, Option-cases, text_eq, length,
  Bool-cases, [], ◌∷◌, some, none, inl, inr, true, false, some, zero, ◌+◌, Bool, ◌-◌, ◌≡◌, suc,
  arith, ◌^◌, List, Text, min, ◌<◌, ◌≤◌, ℕ,
}
use repartee_desktop.Web.Auth.{
  ended, begun, remove_first, Logins, is_under_way, end_login, begin_login, purge, new, locked, run,
  step, record_success, purge_expired, too_many_requests, failures_of, saturating_succ,
  AttemptState, check, AuthEvent, RateLimiter, shl_or_60, begin_login, end_login, Logins, begun,
  ended, is_under_way, remove_first, record_failure, lockout_duration,
}
use repartee_desktop.Base.Maps.{
  get-insert, retain_values-Distinct, remove-Distinct, get-remove, retain_values, insert-Distinct,
  get-retain_values, Distinct, Text_eq, get-insert_self, get,
}

one_le_two_pow : (n : ℕ) → 1 ≤ 2 ^ n
one_le_two_pow zero = omega arith
one_le_two_pow (suc n) = omega (arith, one_le_two_pow n)

lt_two_pow : (n : ℕ) → n < 2 ^ n
lt_two_pow zero = omega arith
lt_two_pow (suc n) = omega (arith, lt_two_pow n)

min-shl : (n : ℕ) → min (shl_or_60 n) 60 ≡ min (2 ^ n) 60
min-shl n = ground (arith, lt_two_pow n)

lockout_duration-least : (n : ℕ) → 1000 ≤ lockout_duration n
unfolding lockout_duration
lockout_duration-least n = ground (arith, one_le_two_pow (n - 1))

abbrev pub IsDistinct : RateLimiter → Type 0
IsDistinct l = Distinct l.attempts

-- The limiter remembers a failure of this address at the time or later.
record IsHeld (ip : Text) (t : ℕ) (l : RateLimiter) : Type 0 where
  pub st : AttemptState
  pub found : get ip l.attempts ≡ some st
  pub failed : 1 ≤ st.failures
  pub since : t ≤ st.last_attempt

abbrev pub Within : ℕ → ℕ → List (AuthEvent × ℕ) → Type 0
Within t t' [] = Unit
Within t t' ((ev, now) ∷ evs) = (t ≤ now) × (now ≤ t') × Within t t' evs

record_failure-IsHeld : (l : RateLimiter) (ip : Text) (t : ℕ) → IsHeld ip t (record_failure l ip t)
unfolding record_failure
record_failure-IsHeld l ip t = record {
  st = record { failures = saturating_succ (failures_of (get ip l.attempts)); last_attempt = t };
  found = get-insert_self ip _ l.attempts;
  failed = ground arith;
  since = omega arith;
}

IsHeld-blocked :
    (l : RateLimiter) (ip : Text) (t now : ℕ)
    → now < t + 1000
    → IsHeld ip t l
    → begin_login l ip now ≡ some too_many_requests
unfolding begin_login check
IsHeld-blocked l ip t now p h =
    ground (arith, h.found, h.failed, h.since, lockout_duration-least h.st.failures)

purge-IsHeld :
    (l : RateLimiter) (ip : Text) (t now : ℕ)
    → now < t + 1000
    → IsDistinct l
    → IsHeld ip t l
    → IsHeld ip t (purge_expired l now)
unfolding purge_expired
purge-IsHeld l ip t now p d h = record {
  st = h.st;
  found =
      get-retain_values (locked now) ip l.attempts d
      ∙ ground (arith, h.found, h.since, lockout_duration-least h.st.failures);
  failed = h.failed;
  since = h.since;
}

-- A login of another address does not touch this one's entry.
end_login-other :
    (l : RateLimiter) (ip ip' : Text) (ok : Bool) (now : ℕ)
    → text_eq ip' ip ≡ false
    → get ip (end_login l ip' ok now).0.attempts ≡ get ip l.attempts
unfolding end_login record_failure record_success
end_login-other l ip ip' true now p = rw (get-remove ip' ip l.attempts, p) refl
end_login-other l ip ip' false now p =
    let st : AttemptState = record {
      failures = saturating_succ (failures_of (get ip' l.attempts));
      last_attempt = now;
    } in
    rw (get-insert ip' ip st l.attempts, p) refl

end_login-IsDistinct :
    (l : RateLimiter) (ip : Text) (ok : Bool) (now : ℕ)
    → IsDistinct l
    → IsDistinct (end_login l ip ok now).0
unfolding end_login record_failure record_success
end_login-IsDistinct l ip true now d = remove-Distinct ip l.attempts d
end_login-IsDistinct l ip false now d = insert-Distinct ip _ l.attempts d

remove_first-less :
    (ip ip' : Text) (xs : List Text)
    → is_under_way ip xs ≡ false
    → is_under_way ip (remove_first ip' xs) ≡ false
remove_first-less ip ip' [] h = refl
remove_first-less ip ip' (x ∷ xs) h = ground (arith, h, remove_first-less ip ip' xs)

-- The address is held, and none of its logins is under way.
record IsShut (ip : Text) (t : ℕ) (s : Logins) : Type 0 where
  pub distinct : IsDistinct s.limiter
  pub held : IsHeld ip t s.limiter
  pub idle : is_under_way ip s.under_way ≡ false

ended-IsShut :
    (s : Logins) (ip ip' : Text) (ok : Bool) (t now : ℕ)
    → is_under_way ip' s.under_way ≡ true
    → IsShut ip t s
    → IsShut ip t (record {
      limiter = (end_login s.limiter ip' ok now).0;
      under_way = remove_first ip' s.under_way;
    })
ended-IsShut s ip ip' ok t now here h =
    let other : text_eq ip' ip ≡ false = elim (Bool-cases (text_eq ip' ip)) [
      | inr differs ↦ differs
      | inl same ↦ absurd (
          ground (
            arith,
            h.idle,
            subst (λ i. is_under_way i s.under_way ≡ true) ((text_eq_iff ip' ip).0 same) here,
          ))
    ] in
    record {
      distinct = end_login-IsDistinct s.limiter ip' ok now h.distinct;
      held = record {
        st = h.held.st;
        found = end_login-other s.limiter ip ip' ok now other ∙ h.held.found;
        failed = h.held.failed;
        since = h.held.since;
      };
      idle = remove_first-less ip ip' s.under_way h.idle;
    }

step-IsShut :
    (s : Logins) (ip : Text) (t now : ℕ) (ev : AuthEvent)
    → now < t + 1000
    → IsShut ip t s
    → IsShut ip t (step s (ev, now))
unfolding step purge_expired
step-IsShut s ip t now (begun ip') p h = elim (Option-cases (begin_login s.limiter ip' now)) [
  | inr (answer, e) ↦ rw (step, e) h
  | inl e ↦ elim (Bool-cases (text_eq ip ip')) [
    | inr other ↦
        rw (step, e)
          (record { distinct = h.distinct; held = h.held; idle = ground (arith, other, h.idle) })
    | inl same ↦
        let blocked = IsHeld-blocked s.limiter ip t now p h.held in
        let open' : begin_login s.limiter ip now ≡ none =
          subst (λ i. begin_login s.limiter i now ≡ none) (sym ((text_eq_iff ip ip').0 same)) e in
        absurd (ground (arith, blocked, open'))
  ]
]
step-IsShut s ip t now (ended ip' ok) p h = elim (Bool-cases (is_under_way ip' s.under_way)) [
  | inr e ↦ rw (step, e) h
  | inl e ↦ rw (step, e) (ended-IsShut s ip ip' ok t now e h)
]
step-IsShut s ip t now purge p h = record {
  distinct = retain_values-Distinct (locked now) s.limiter.attempts h.distinct;
  held = purge-IsHeld s.limiter ip t now p h.distinct h.held;
  idle = h.idle;
}

run-IsShut :
    (s : Logins) (ip : Text) (t t' : ℕ) (evs : List (AuthEvent × ℕ))
    → t' < t + 1000
    → Within t t' evs
    → IsShut ip t s
    → IsShut ip t (run s evs)
unfolding run
run-IsShut s ip t t' [] p w h = h
run-IsShut s ip t t' ((ev, now) ∷ evs) p w h =
    run-IsShut (step s (ev, now)) ip t t' evs p w.2
      (step-IsShut s ip t now ev (omega (arith, w.1)) h)

-- Where the limiter holds each address once, and the login that ends with a wrong password is the
-- only one of its address under way, every attempt from the address is refused for a second, whatever
-- logins begin and end and whatever purges come in between.
pub wrong_guess_costs_a_second :
    (s : Logins) (ip : Text) (t t' : ℕ) (evs : List (AuthEvent × ℕ))
    → IsDistinct s.limiter
    → is_under_way ip s.under_way ≡ true
    → is_under_way ip (remove_first ip s.under_way) ≡ false
    → t' < t + 1000
    → Within t t' evs
    → begin_login (run s ((ended ip false, t) ∷ evs)).limiter ip t' ≡ some too_many_requests
unfolding run step end_login record_failure
wrong_guess_costs_a_second s ip t t' evs d here alone p w =
    let first : IsShut ip t (step s (ended ip false, t)) =
      rw (step, here)
        (record {
          distinct = insert-Distinct ip _ s.limiter.attempts d;
          held = record_failure-IsHeld s.limiter ip t;
          idle = alone;
        }) in
    let shut = run-IsShut (step s (ended ip false, t)) ip t t' evs p w first in
    IsHeld-blocked _ ip t t' p shut.held

-- A purge after the lockout of an address forgets its failures: where the limiter holds each
-- address once, the next wrong password costs one second again, however many came before.
pub purge_resets_backoff :
    (l : RateLimiter) (ip : Text) (p t t' : ℕ)
    → IsDistinct l
    → check l ip p ≡ none
    → t + 1000 ≤ t'
    → check (record_failure (purge_expired l p) ip t) ip t' ≡ none
unfolding check record_failure purge_expired lockout_duration
purge_resets_backoff l ip p t t' d e q = ground (
  arith,
  get-insert_self ip
      (record {
        failures = saturating_succ (failures_of (get ip (retain_values (locked p) l.attempts)));
        last_attempt = t;
      })
      (retain_values (locked p) l.attempts),
  get-retain_values (locked p) ip l.attempts d,
  e,
)

abbrev pub fail_all : RateLimiter → Text → List ℕ → RateLimiter
fail_all l ip [] = l
fail_all l ip (t ∷ ts) = fail_all (record_failure l ip t) ip ts

fail_all-count :
    (l : RateLimiter) (ip : Text) (ts : List ℕ)
    → failures_of (get ip l.attempts) + length ts < 4294967296
    → failures_of (get ip (fail_all l ip ts).attempts) ≡ failures_of (get ip l.attempts) + length ts
unfolding record_failure
fail_all-count l ip [] p = omega arith
fail_all-count l ip (t ∷ ts) p =
    let st : AttemptState = record {
      failures = saturating_succ (failures_of (get ip l.attempts));
      last_attempt = t;
    } in
    let found = get-insert_self ip st l.attempts in
    fail_all-count (record_failure l ip t) ip ts (rw found (omega (arith, p)))
    ∙ rw found (omega (arith, p))

-- Without a purge in between, wrong passwords double the lockout up to a minute: after any number
-- of them (fewer than 2 ^ 32 - 1) and one more, the address is refused for that time.
pub lockout_doubles :
    (ip : Text) (ts : List ℕ) (t t' : ℕ)
    → length ts < 4294967295
    → let d = 1000 * min (2 ^ length ts) 60 in
      check (record_failure (fail_all new ip ts) ip t) ip t'
      ≡ (if ltb (t' - t) d then some (d - (t' - t)) else none)
unfolding check record_failure lockout_duration get
lockout_doubles ip ts t t' p =
    let st : AttemptState = record {
      failures = saturating_succ (failures_of (get ip (fail_all new ip ts).attempts));
      last_attempt = t;
    } in
    ground (
      arith,
      get-insert_self ip st (fail_all new ip ts).attempts,
      fail_all-count new ip ts (omega (arith, p)),
      min-shl (length ts),
      p,
    )
