-- ===== src/Flood/Limiter.antt =====
-- The detector that src/irc/flood.rs writes out three times (requests, tilde nicks and nick
-- changes), on its own: the recorded instants and the end of the block.
use repartee_desktop.Base.{
  ℕ, ◌+◌, ◌-◌, ◌≤◌, ◌<◌, ◌≡◌, true, ltb, leb, if◌then◌else◌, Option, none, some, List, [], ◌∷◌,
  ◌++◌, length, retain, count_if, count_if-append, arith, refl,
}
use repartee_desktop.Base.Maps.{filtered}
use repartee_desktop.Flood.{FloodResult, allow, triggered, blocked, cutoff, in_block, drain_older}

pub record Limiter : Type 0 where
  pub times : List ℕ
  pub blocked_until : Option ℕ

-- The instants left after a new one is recorded at `now`.
abbrev pub recorded : ℕ → ℕ → List ℕ → List ℕ
recorded window now times = drain_older (cutoff now window) (times ++ now ∷ [])

unfoldable pub hit : ℕ → ℕ → ℕ → Limiter → ℕ → Limiter × FloodResult
hit threshold window block l now =
    if in_block now l.blocked_until
    then (record l { blocked_until = some (now + block) }, blocked)
    else (if leb threshold (length (recorded window now l.times))
        then (record { times = []; blocked_until = some (now + block) }, triggered)
        else (record { times = recorded window now l.times; blocked_until = none }, allow))

-- What the periodic cleanup leaves of a detector.
unfoldable pub sweep : ℕ → Limiter → ℕ → Limiter
sweep window l now = record {
  times = retain (leb (cutoff now window)) l.times;
  blocked_until = filtered (ltb now) l.blocked_until;
}

-- One for an event that passes.
abbrev pub pass : FloodResult → ℕ
pass allow = 1
pass triggered = 0
pass blocked = 0

-- How many more events can pass up to the instant `e`, counting those recorded since `c`.
unfoldable pub credit : ℕ → ℕ → ℕ → Limiter → ℕ
credit threshold c e l =
    if in_block e l.blocked_until then 0 else threshold - 1 - count_if (leb c) l.times

pub credit-le : (threshold c e : ℕ) (l : Limiter) → credit threshold c e l ≤ threshold - 1
unfolding credit
credit-le threshold c e l = ground arith

count_if-le-length : (c : ℕ) (ts : List ℕ) → count_if (leb c) ts ≤ length ts
count_if-le-length c [] = omega arith
count_if-le-length c (t ∷ ts) = ground (arith, count_if-le-length c ts)

count_if-drain_older :
    (a c : ℕ) (ts : List ℕ) → a ≤ c → count_if (leb c) (drain_older a ts) ≡ count_if (leb c) ts
unfolding drain_older
count_if-drain_older a c [] h = refl
count_if-drain_older a c (t ∷ ts) h = ground (arith, count_if-drain_older a c ts h)

count_if-retain :
    (a c : ℕ) (ts : List ℕ) → a ≤ c → count_if (leb c) (retain (leb a) ts) ≡ count_if (leb c) ts
count_if-retain a c [] h = refl
count_if-retain a c (t ∷ ts) h = ground (arith, count_if-retain a c ts h)

-- The interval `c … e` is no longer than the window, and the clock has run for one.
pub record IsSpan (window block c e : ℕ) : Type 0 where
  pub started : window ≤ c
  pub short : e ≤ c + window
  pub covered : window < block

cutoff-le : (window now c : ℕ) → window ≤ c → c ≤ now → now ≤ c + window → cutoff now window ≤ c
cutoff-le window now c h k m = ground arith

count_if-recorded :
    (window now c : ℕ) (ts : List ℕ)
    → window ≤ c
    → c ≤ now
    → now ≤ c + window
    → count_if (leb c) (recorded window now ts) ≡ count_if (leb c) ts + 1
count_if-recorded window now c ts h k m =
    rw
      (
        count_if-drain_older (cutoff now window) c (ts ++ now ∷ []) (cutoff-le window now c h k m),
        count_if-append (leb c) ts (now ∷ []),
      )
      (ground arith)

module _ (threshold window block c e now : ℕ) (l : Limiter) (s : IsSpan window block c e)
    (from : c ≤ now) (until : now ≤ e) where
  -- An event that passes uses up one unit.
  pub hit-credit :
      let (l', v) = hit threshold window block l now in
      credit threshold c e l' + pass v ≤ credit threshold c e l
  unfolding hit credit
  hit-credit = ground (
    arith,
    count_if-recorded window now c l.times s.started from,
    count_if-le-length c (recorded window now l.times),
  )

  -- The cleanup gives nothing back.
  pub sweep-credit : credit threshold c e (sweep window l now) ≡ credit threshold c e l
  unfolding sweep credit
  sweep-credit =
      ground (
        arith,
        count_if-retain (cutoff now window) c l.times,
        cutoff-le window now c s.started from,
      )

-- A block holds, and is renewed, for as long as the events keep coming before it ends.
pub hit-blocked :
    (threshold window block : ℕ) (l : Limiter) (now : ℕ)
    → in_block now l.blocked_until ≡ true
    → ((hit threshold window block l now).1 ≡ blocked)
      × ((hit threshold window block l now).0.blocked_until ≡ some (now + block))
unfolding hit
hit-blocked threshold window block l now h = ground arith
