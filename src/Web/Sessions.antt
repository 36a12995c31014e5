-- ===== src/Web/Sessions.antt =====
-- The session store of src/web/auth.rs in memory: what `create`, `validate`, `revoke`,
-- `revoke_all` and `purge_expired` do to the sessions. The keyed hash of a token, the random token
-- of `create` and the clock (seconds since 1970) are arguments. Writing the store to its file
-- (`flush_if_needed`) is not modelled.
use repartee_desktop.Base.{leb, if◌then◌else◌, some, ◌+◌, none, ltb, Option, Bool, ◌*◌, [], Text, ℕ}
use repartee_desktop.Base.Maps.{
  Map, Text_eq, get, insert, remove, retain_values, adjust, contains_key,
}

pub record PersistedSession : Type 0 where
  pub token_hash : Text
  pub created_at : ℕ
  pub last_used : ℕ
  pub user_agent : Text
  pub label : Option Text

pub record Session : Type 0 where
  pub created_at : ℕ
  pub last_used : ℕ
  pub user_agent : Text

pub record SessionStore : Type 0 where
  pub sessions : Map Text PersistedSession
  pub max_age : ℕ

abbrev pub new : ℕ → SessionStore
new max_age' = record { sessions = []; max_age = max_age' }

abbrev pub with_days : ℕ → SessionStore
with_days days = new (days * 86400)

abbrev pub live : ℕ → ℕ → PersistedSession → Bool
live max now s = ltb now (s.last_used + max)

unfoldable pub create : (Text → Text) → SessionStore → Text → Text → ℕ → SessionStore
create hash s raw user_agent' now = record s {
  sessions =
      insert (hash raw)
        (record {
          token_hash = hash raw;
          created_at = now;
          last_used = now;
          user_agent = user_agent';
          label = none;
        })
        s.sessions;
}

unfoldable pub validate : (Text → Text) → SessionStore → Text → ℕ → SessionStore × Option Session
validate hash s raw_token now = elim (get (hash raw_token) s.sessions) [
  | none ↦ (s, none)
  | some session ↦
      if leb (session.last_used + s.max_age) now
      then (record s { sessions = remove (hash raw_token) s.sessions }, none)
      else (
        record s {
          sessions =
              adjust (hash raw_token) (λ (p : PersistedSession). record p { last_used = now })
                s.sessions;
        },
        some (record {
          created_at = session.created_at;
          last_used = now;
          user_agent = session.user_agent;
        }),
      )
]

unfoldable pub revoke : (Text → Text) → SessionStore → Text → SessionStore × Bool
revoke hash s raw_token = (
  record s { sessions = remove (hash raw_token) s.sessions },
  contains_key (hash raw_token) s.sessions,
)

unfoldable pub revoke_all : SessionStore → SessionStore
revoke_all s = record s { sessions = [] }

unfoldable pub purge_expired : SessionStore → ℕ → SessionStore
purge_expired s now = record s { sessions = retain_values (live s.max_age now) s.sessions }
