-- ===== src/Web/Tokens.antt =====
-- What the session store of src/web/auth.rs promises for a token.
use repartee_desktop.Base.{
  ◌∙◌, refl, ◌+◌, leb, arith, text_eq, Option-cases, if◌then◌else◌, ◌≤◌, ◌≡◌, List, Text, ℕ, [],
  ◌∷◌, some, none, inl, inr, false,
}
use repartee_desktop.Web.Sessions.{
  PersistedSession, live, revoke, validate, purge_expired, create, SessionStore,
}
use repartee_desktop.Base.Maps.{
  adjust-Distinct, get-insert, adjust, get-insert_self, get-adjust, get-remove_self, get-remove,
  retain_values-Distinct, get-retain_values, Text_eq, remove-Distinct, get, insert-Distinct,
  Distinct,
}

-- What comes to the store; the time is given with each event.
pub data StoreEvent : Type 0 where
  sign_in : Text → Text → StoreEvent
  visit : Text → StoreEvent
  sign_out : Text → StoreEvent
  clean : StoreEvent

unfoldable pub step : (Text → Text) → SessionStore → StoreEvent × ℕ → SessionStore
step hash s (sign_in raw user_agent, now) = create hash s raw user_agent now
step hash s (visit raw, now) = (validate hash s raw now).0
step hash s (sign_out raw, now) = (revoke hash s raw).0
step hash s (clean, now) = purge_expired s now

unfoldable pub run : (Text → Text) → SessionStore → List (StoreEvent × ℕ) → SessionStore
unfolding step
run hash s [] = s
run hash s (ev ∷ evs) = run hash (step hash s ev) evs

abbrev pub IsDistinct : SessionStore → Type 0
IsDistinct s = Distinct s.sessions

-- A fresh token is accepted exactly until its age limit, with the times it was made and used.
pub validate-create :
    (hash : Text → Text) (s : SessionStore) (raw user_agent : Text) (t t' : ℕ)
    → (validate hash (create hash s raw user_agent t) raw t').1 ≡ (
        if leb (t + s.max_age) t'
        then none
        else some (record { created_at = t; last_used = t'; user_agent = user_agent }))
unfolding create validate
validate-create hash s raw user_agent' t t' =
    let made : PersistedSession = record {
      token_hash = hash raw;
      created_at = t;
      last_used = t;
      user_agent = user_agent';
      label = none;
    } in
    ground (arith, get-insert_self (hash raw) made s.sessions)

-- Dropping the expired sessions changes no later answer, where the store holds each hash once.
pub validate-purge_expired :
    (hash : Text → Text) (s : SessionStore) (raw : Text) (now now' : ℕ)
    → IsDistinct s
    → now ≤ now'
    → (validate hash (purge_expired s now) raw now').1 ≡ (validate hash s raw now').1
unfolding purge_expired validate
validate-purge_expired hash s raw now now' d p = elim (Option-cases (get (hash raw) s.sessions)) [
  | inl e ↦ ground (arith, e, get-retain_values (live s.max_age now) (hash raw) s.sessions d)
  | inr (st, e) ↦ ground (arith, e, get-retain_values (live s.max_age now) (hash raw) s.sessions d)
]

touch-IsDistinct :
    (h : Text) (now : ℕ) (s : SessionStore)
    → IsDistinct s
    → Distinct (adjust h (λ (p : PersistedSession). record p { last_used = now }) s.sessions)
touch-IsDistinct h now s d = adjust-Distinct h _ s.sessions d

validate-IsDistinct :
    (hash : Text → Text) (s : SessionStore) (raw : Text) (now : ℕ)
    → IsDistinct s
    → IsDistinct (validate hash s raw now).0
unfolding validate
validate-IsDistinct hash s raw now d =
    ground (arith, d, remove-Distinct (hash raw) s.sessions d, touch-IsDistinct (hash raw) now s d)

pub step-IsDistinct :
    (hash : Text → Text) (s : SessionStore) (ev : StoreEvent × ℕ)
    → IsDistinct s
    → IsDistinct (step hash s ev)
unfolding step create revoke purge_expired validate
step-IsDistinct hash s (sign_in raw user_agent, now) d = insert-Distinct (hash raw) _ s.sessions d
step-IsDistinct hash s (visit raw, now) d = validate-IsDistinct hash s raw now d
step-IsDistinct hash s (sign_out raw, now) d = remove-Distinct (hash raw) s.sessions d
step-IsDistinct hash s (clean, now) d = retain_values-Distinct (live s.max_age now) s.sessions d

-- No event is a login that gets this hash.
abbrev pub NoLogin : (Text → Text) → Text → List (StoreEvent × ℕ) → Type 0
NoLogin hash h [] = Unit
NoLogin hash h ((sign_in raw user_agent, now) ∷ evs) =
    (text_eq (hash raw) h ≡ false) × NoLogin hash h evs
NoLogin hash h ((visit raw, now) ∷ evs) = NoLogin hash h evs
NoLogin hash h ((sign_out raw, now) ∷ evs) = NoLogin hash h evs
NoLogin hash h ((clean, now) ∷ evs) = NoLogin hash h evs

validate-absent :
    (hash : Text → Text) (s : SessionStore) (raw h : Text) (now : ℕ)
    → get h s.sessions ≡ none
    → get h (validate hash s raw now).0.sessions ≡ none
unfolding validate
validate-absent hash s raw h now e = ground (
  arith,
  e,
  get-remove (hash raw) h s.sessions,
  get-adjust (hash raw) (λ (p : PersistedSession). record p { last_used = now }) h s.sessions,
)

run-absent :
    (hash : Text → Text) (h : Text) (s : SessionStore) (evs : List (StoreEvent × ℕ))
    → NoLogin hash h evs
    → IsDistinct s
    → get h s.sessions ≡ none
    → get h (run hash s evs).sessions ≡ none
unfolding run step create revoke purge_expired
run-absent hash h s [] n d e = e
run-absent hash h s ((sign_in raw agent, now) ∷ evs) n d e =
    run-absent hash h (step hash s (sign_in raw agent, now)) evs n.1
      (step-IsDistinct hash s (sign_in raw agent, now) d)
      (get-insert (hash raw) h
          (record {
            token_hash = hash raw;
            created_at = now;
            last_used = now;
            user_agent = agent;
            label = none;
          })
          s.sessions
        ∙ rw n.0 e)
run-absent hash h s ((visit raw, now) ∷ evs) n d e =
    run-absent hash h (step hash s (visit raw, now)) evs n
      (step-IsDistinct hash s (visit raw, now) d) (validate-absent hash s raw h now e)
run-absent hash h s ((sign_out raw, now) ∷ evs) n d e =
    run-absent hash h (step hash s (sign_out raw, now)) evs n
      (step-IsDistinct hash s (sign_out raw, now) d)
      (get-remove (hash raw) h s.sessions ∙ ground (arith, e))
run-absent hash h s ((clean, now) ∷ evs) n d e =
    run-absent hash h (step hash s (clean, now)) evs n (step-IsDistinct hash s (clean, now) d)
      (get-retain_values (live s.max_age now) h s.sessions d ∙ rw e refl)

-- A token that was signed out is never accepted again, whatever other logins, visits, logouts and
-- purges follow, unless a login gets a token of the same hash; where the store holds each hash
-- once.
pub revoke-final :
    (hash : Text → Text) (s : SessionStore) (raw : Text) (evs : List (StoreEvent × ℕ)) (t : ℕ)
    → IsDistinct s
    → NoLogin hash (hash raw) evs
    → (validate hash (run hash (revoke hash s raw).0 evs) raw t).1 ≡ none
unfolding revoke validate
revoke-final hash s raw evs t d n =
    rw
      (
        validate,
        run-absent hash (hash raw) (revoke hash s raw).0 evs n
            (remove-Distinct (hash raw) s.sessions d) (get-remove_self (hash raw) s.sessions),
      )
      refl
