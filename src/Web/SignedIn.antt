-- ===== src/Web/SignedIn.antt =====
-- A session outlives whatever else happens to the store of src/web/auth.rs.
use repartee_desktop.Base.{
  refl, text_eq_iff, ◌≢◌, ◌∙◌, arith, leb, ◌+◌, ◌≡◌, text_eq, ◌<◌, ◌≤◌, Bool, List, Text, ℕ, [],
  ◌∷◌, some, none, true, false,
}
use repartee_desktop.Web.Tokens.{
  StoreEvent, run, step, IsDistinct, step-IsDistinct, sign_in, visit, sign_out, clean,
}
use repartee_desktop.Web.Sessions.{
  live, PersistedSession, revoke, SessionStore, purge_expired, validate, create,
}
use repartee_desktop.Base.Maps.{
  get-insert_self, get-adjust, Text_eq, insert-Distinct, get-remove, get-retain_values, get-insert,
  get,
}

-- The store has this hash, used at the time or later.
abbrev fresh : Text → ℕ → SessionStore → Bool
fresh h t s = elim (get h s.sessions) [ none ↦ false | some st ↦ leb t st.last_used ]

-- The events lie between two times and none is a logout of this hash.
abbrev pub Undisturbed : (Text → Text) → Text → ℕ → ℕ → List (StoreEvent × ℕ) → Type 0
Undisturbed hash h t t' [] = Unit
Undisturbed hash h t t' ((sign_in raw user_agent, now) ∷ evs) =
    (t ≤ now) × (now ≤ t') × Undisturbed hash h t t' evs
Undisturbed hash h t t' ((visit raw, now) ∷ evs) =
    (t ≤ now) × (now ≤ t') × Undisturbed hash h t t' evs
Undisturbed hash h t t' ((sign_out raw, now) ∷ evs) =
    (text_eq (hash raw) h ≡ false) × Undisturbed hash h t t' evs
Undisturbed hash h t t' ((clean, now) ∷ evs) = (now ≤ t') × Undisturbed hash h t t' evs

create-fresh :
    (hash : Text → Text) (s : SessionStore) (raw agent h : Text) (t now : ℕ)
    → t ≤ now
    → fresh h t s ≡ true
    → fresh h t (create hash s raw agent now) ≡ true
unfolding create
create-fresh hash s raw agent h t now p e =
    let made : PersistedSession = record {
      token_hash = hash raw;
      created_at = now;
      last_used = now;
      user_agent = agent;
      label = none;
    } in
    ground (arith, get-insert (hash raw) h made s.sessions, e)

validate-fresh :
    (hash : Text → Text) (s : SessionStore) (raw h : Text) (t now : ℕ)
    → t ≤ now
    → now < t + s.max_age
    → fresh h t s ≡ true
    → fresh h t (validate hash s raw now).0 ≡ true
unfolding validate
validate-fresh hash s raw h t now p q e = ground (
  arith,
  text_eq_iff (hash raw) h,
  get-remove (hash raw) h s.sessions,
  get-adjust (hash raw) (λ (p : PersistedSession). record p { last_used = now }) h s.sessions,
  e,
)

purge-fresh :
    (s : SessionStore) (h : Text) (t now : ℕ)
    → now < t + s.max_age
    → IsDistinct s
    → fresh h t s ≡ true
    → fresh h t (purge_expired s now) ≡ true
unfolding purge_expired
purge-fresh s h t now q d e =
    ground (arith, get-retain_values (live s.max_age now) h s.sessions d, e)

step-max_age :
    (hash : Text → Text) (s : SessionStore) (ev : StoreEvent × ℕ)
    → (step hash s ev).max_age ≡ s.max_age
unfolding step create revoke purge_expired validate
step-max_age hash s (sign_in raw agent, now) = refl
step-max_age hash s (visit raw, now) = ground arith
step-max_age hash s (sign_out raw, now) = refl
step-max_age hash s (clean, now) = refl

run-fresh :
    (hash : Text → Text) (h : Text) (t t' : ℕ) (s : SessionStore) (evs : List (StoreEvent × ℕ))
    → Undisturbed hash h t t' evs
    → t' < t + s.max_age
    → IsDistinct s
    → fresh h t s ≡ true
    → (fresh h t (run hash s evs) ≡ true) × ((run hash s evs).max_age ≡ s.max_age)
unfolding run step revoke
run-fresh hash h t t' s [] u q d e = (e, refl)
run-fresh hash h t t' s ((sign_in raw agent, now) ∷ evs) u q d e =
    let kept =
      run-fresh hash h t t' (create hash s raw agent now) evs u.2
        (rw (step-max_age hash s (sign_in raw agent, now)) q)
        (step-IsDistinct hash s (sign_in raw agent, now) d)
        (create-fresh hash s raw agent h t now u.0 e) in
    (kept.0, kept.1 ∙ step-max_age hash s (sign_in raw agent, now))
run-fresh hash h t t' s ((visit raw, now) ∷ evs) u q d e =
    let kept =
      run-fresh hash h t t' (validate hash s raw now).0 evs u.2
        (rw (step-max_age hash s (visit raw, now)) q) (step-IsDistinct hash s (visit raw, now) d)
        (validate-fresh hash s raw h t now u.0 (omega (arith, u.1)) e) in
    (kept.0, kept.1 ∙ step-max_age hash s (visit raw, now))
run-fresh hash h t t' s ((sign_out raw, now) ∷ evs) u q d e =
    run-fresh hash h t t' (revoke hash s raw).0 evs u.1 q
      (step-IsDistinct hash s (sign_out raw, now) d)
      (ground (arith, u.0, get-remove (hash raw) h s.sessions, e))
run-fresh hash h t t' s ((clean, now) ∷ evs) u q d e =
    let kept =
      run-fresh hash h t t' (purge_expired s now) evs u.1 (rw (step-max_age hash s (clean, now)) q)
        (step-IsDistinct hash s (clean, now) d) (purge-fresh s h t now (omega (arith, u.0)) d e) in
    (kept.0, kept.1 ∙ step-max_age hash s (clean, now))

-- A token stays accepted until its age limit after its login, whatever other logins, visits,
-- logouts of other hashes and purges come in between; where the store holds each hash once.
pub stays_signed_in :
    (hash : Text → Text) (s : SessionStore) (raw agent : Text) (t t' : ℕ)
    (evs : List (StoreEvent × ℕ))
    → IsDistinct s
    → Undisturbed hash (hash raw) t t' evs
    → t' < t + s.max_age
    → (validate hash (run hash (create hash s raw agent t) evs) raw t').1 ≢ none
unfolding create validate
stays_signed_in hash s raw agent t t' evs d u q =
    let made : PersistedSession = record {
      token_hash = hash raw;
      created_at = t;
      last_used = t;
      user_agent = agent;
      label = none;
    } in
    let kept =
      run-fresh hash (hash raw) t t' (create hash s raw agent t) evs u q
        (insert-Distinct (hash raw) made s.sessions d)
        (ground (arith, get-insert_self (hash raw) made s.sessions)) in
    ground (arith, kept.0, kept.1)
