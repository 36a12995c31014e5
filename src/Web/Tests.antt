-- ===== src/Web/Tests.antt =====
-- The limiter and the session store of src/web/auth.rs at concrete inputs.
use repartee_desktop.Base.{
  ◌≢◌, codes, Text, ℕ, List, [], ◌∷◌, some, none, true, false, ◌≡◌, arith, refl,
}
use repartee_desktop.Web.Auth.{
  too_many_requests, begin_login, end_login, record_failure, record_success, lockout_duration,
  check, AuthEvent, purge, begun, ended, Logins, RateLimiter,
}
use repartee_desktop.Web.Auth
use repartee_desktop.Web.Tokens
use repartee_desktop.Web.Tokens.{
  revoke-final, validate-purge_expired, validate-create, sign_in, sign_out, visit, clean,
  StoreEvent,
}
use repartee_desktop.Web.Sessions.{with_days, validate, create, SessionStore}
use repartee_desktop.Base.Maps.{get, remove, insert}
use repartee_desktop.Web.Lockout.{wrong_guess_costs_a_second, purge_resets_backoff}
use repartee_desktop.Web.SignedIn.{stays_signed_in}

abbrev ip : Text
ip = codes "10.0.0.1"

-- Three wrong passwords, the last of which is remembered from the second 5.
abbrev guessed : RateLimiter
guessed = record { attempts = (ip, record { failures = 3; last_attempt = 5000 }) ∷ [] }

third_costs_four_seconds : check guessed ip 6000 ≡ some 3000
unfolding check lockout_duration get
third_costs_four_seconds = refl

abbrev guessing : Logins
guessing = record { limiter = guessed; under_way = ip ∷ codes "10.0.0.2" ∷ [] }

abbrev others : List (AuthEvent × ℕ)
others =
    (ended (codes "10.0.0.2") true, 9100)
    ∷ (purge, 9200)
    ∷ (begun ip, 9300)
    ∷ (ended ip true, 9400)
    ∷ []

wrong_guess_costs_a_second_example :
    begin_login (Auth.run guessing ((ended ip false, 9000) ∷ others)).limiter ip 9900
    ≡ some too_many_requests
unfolding get
wrong_guess_costs_a_second_example =
    wrong_guess_costs_a_second guessing ip 9000 9900 others (refl, tt) refl refl (omega arith)
      (
        omega arith,
        omega arith,
        (omega arith, omega arith, (omega arith, omega arith, (omega arith, omega arith, tt))),
      )

-- A login that is already under way with the right password takes the failure away.
race_forgets :
    begin_login
      (Auth.run
        (record { limiter = guessed; under_way = ip ∷ ip ∷ [] })
        ((ended ip false, 9000) ∷ (ended ip true, 9001) ∷ [])).limiter
      ip
      9002
    ≡ none
unfolding Auth.run Auth.step begin_login check end_login record_failure record_success get remove
    insert
race_forgets = refl

purge_resets_backoff_example :
    check (record_failure (Auth.purge_expired guessed 9000) ip 9500) ip 10500 ≡ none
unfolding get check lockout_duration
purge_resets_backoff_example =
    purge_resets_backoff guessed ip 9000 9500 10500 (refl, tt) refl (omega arith)

-- Any function serves for the keyed hash; this one puts a byte in front.
abbrev keyed : Text → Text
keyed t = 107 ∷ t

abbrev store : SessionStore
store = with_days 1

abbrev token : Text
token = codes "t1"

abbrev day : List (StoreEvent × ℕ)
day =
    (sign_in (codes "t2") (codes "firefox"), 2000)
    ∷ (visit token, 3000)
    ∷ (clean, 4000)
    ∷ (sign_out (codes "t2"), 5000)
    ∷ []

stays_signed_in_example :
    (validate keyed
      (Tokens.run keyed (create keyed store token (codes "safari") 1000) day)
      token
      6000).1
    ≢ none
stays_signed_in_example =
    stays_signed_in keyed store token (codes "safari") 1000 6000 day tt
      (omega arith, omega arith, (omega arith, omega arith, (omega arith, (refl, tt))))
      (omega arith)
