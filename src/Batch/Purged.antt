-- ===== src/Batch/Purged.antt =====
-- What a purge of src/irc/batch.rs closes and returns.
use repartee_desktop.Base.{
  ◌∙◌, ◌-◌, ◌≤◌, length, ◌+◌, ◌≡◌, ltb, All, ℕ, [], ◌∷◌, some, none, refl, Option, Text, arith,
}
use repartee_desktop.Base.Maps.{Map, get, Text_eq, size, retain_values, filtered, get-retain_values}
use repartee_desktop.Batch.{
  BatchInfo, BatchTracker, in_time, timed_out, purge_expired, batch_timeout,
}
use repartee_desktop.Batch.Collected.{IsDistinct}

size-timed_out {ℓ} :
    {A : Type ℓ} (now : ℕ) (m : Map Text (BatchInfo A))
    → size (retain_values (in_time now) m) + length (timed_out now m) ≡ size m
unfolding size retain_values timed_out
size-timed_out now [] = omega arith
size-timed_out now ((tag, info) ∷ m) = ground (arith, size-timed_out now m)

timed_out-late {ℓ} :
    {A : Type ℓ} (now : ℕ) (m : Map Text (BatchInfo A))
    → All (λ (info : BatchInfo A). info.started_at + batch_timeout ≤ now) (timed_out now m)
unfolding timed_out
timed_out-late now [] = tt
timed_out-late now ((tag, info) ∷ m) = ground (arith, timed_out-late now m)

in_time_lem : (t now : ℕ) → ltb (now - t) 60000 ≡ ltb now (t + 60000)
in_time_lem t now = ground arith

same_filter {ℓ} :
    {A : Type ℓ} (now : ℕ) (o : Option (BatchInfo A))
    → filtered (in_time now) o ≡ filtered (λ info. ltb now (info.started_at + batch_timeout)) o
same_filter now none = refl
same_filter now (some info) = rw (in_time_lem info.started_at now) refl

-- A purge loses no batch: what it returns and what stays open are together as many as were open;
-- every batch that it returns has been open for a minute, and, where the tracker holds each tag
-- once, a batch stays open exactly when it has not.
pub purge_expired_lem {ℓ} :
    {A : Type ℓ} (s : BatchTracker A) (now : ℕ) (tag : Text)
    → IsDistinct s
    → let (after, expired) = purge_expired s now in
      (size after.open_batches + length expired ≡ size s.open_batches)
      × All (λ (info : BatchInfo A). info.started_at + batch_timeout ≤ now) expired
      × (get tag after.open_batches
          ≡ filtered (λ info. ltb now (info.started_at + batch_timeout)) (get tag s.open_batches))
unfolding purge_expired
purge_expired_lem s now tag d = (
  size-timed_out now s.open_batches,
  timed_out-late now s.open_batches,
  get-retain_values (in_time now) tag s.open_batches d ∙ same_filter now (get tag s.open_batches),
)
