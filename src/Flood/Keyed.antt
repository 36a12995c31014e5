-- ===== src/Flood/Keyed.antt =====
-- The two detectors of src/irc/flood.rs that keep a limiter for each key, a nick's hash or a
-- buffer, seen through one key.
use repartee_desktop.Base.{
  ◌≤◌, false, ℕ, ◌+◌, ◌≡◌, not, ltb, leb, if◌then◌else◌, Option, none, some, List, [], ◌∷◌, length,
  is_empty, retain, arith, refl, Bool-cases, inl, inr, ◌⊎◌,
}
use repartee_desktop.Base.Maps.{
  beq_self, get-remove, get-insert, insert-Distinct, remove-Distinct, Eq, Map, get, insert, remove,
  map_values, size, Distinct, filtered, get-map_values, get-retain_values, retain_values-Distinct,
  map_values-Distinct,
}
use repartee_desktop.Flood.{
  FloodResult, allow, triggered, blocked, cutoff, in_block, or_default, drop_idle, drop_expired,
}
use repartee_desktop.Flood.Limiter.{
  hit-credit, pass, sweep-credit, credit, IsSpan, hit, Limiter, recorded, sweep,
}

abbrev no_times : List ℕ
no_times = []

pub record Keyed {ℓ} (K : Type ℓ) : Type ℓ where
  pub times : Map K (List ℕ)
  pub blocked_until : Map K ℕ

module _ {ℓ} {K : Type ℓ} ⦃e : Eq K⦄ where
  -- The table as one key sees it.
  abbrev pub view : K → Keyed K → Limiter
  view k s = record { times = or_default (get k s.times); blocked_until = get k s.blocked_until }

  pub record IsTable (s : Keyed K) : Type ℓ where
    pub times_once : Distinct s.times
    pub blocked_once : Distinct s.blocked_until

  unfoldable pub cleanup : ℕ → Keyed K → ℕ → Keyed K
  cleanup window s now =
      if ltb 200 (size s.times)
      then record {
        times = drop_idle (cutoff now window) s.times;
        blocked_until = drop_expired now s.blocked_until;
      }
      else s

  unfoldable pub check : ℕ → ℕ → ℕ → Keyed K → K → ℕ → Keyed K × FloodResult
  check threshold window block s k now =
      let opened = remove k s.blocked_until in
      let left = recorded window now (or_default (get k s.times)) in
      if in_block now (get k s.blocked_until)
      then (record s { blocked_until = insert k (now + block) s.blocked_until }, blocked)
      else (if leb threshold (length left)
          then (
            record { times = insert k [] s.times; blocked_until = insert k (now + block) opened },
            triggered,
          )
          else (
            cleanup window (record { times = insert k left s.times; blocked_until = opened }) now,
            allow,
          ))

  or_default-drop_idle :
      (c : ℕ) (k : K) (m : Map K (List ℕ))
      → Distinct m
      → or_default (get k (drop_idle c m)) ≡ retain (leb c) (or_default (get k m))
  unfolding drop_idle
  or_default-drop_idle c k m d =
      rw
        (
          get-retain_values (λ v. not (is_empty v)) k (map_values (retain (leb c)) m)
              (map_values-Distinct (retain (leb c)) m d),
          get-map_values (retain (leb c)) k m,
        )
        (lem (get k m))
    where
      kept : (ts : List ℕ) → or_default (if not (is_empty ts) then some ts else none) ≡ ts
      kept [] = refl
      kept (t ∷ ts) = refl

      lem :
          (o : Option (List ℕ))
          → or_default (
              filtered
                (λ v. not (is_empty v))
                (elim o [ none ↦ none | some v ↦ some (retain (leb c) v) ]))
            ≡ retain (leb c) (or_default o)
      lem none = refl
      lem (some ts) = kept (retain (leb c) ts)

  -- The cleanup changes nothing that a key sees, or forgets what is out of date.
  pub cleanup-view :
      (window : ℕ) (s : Keyed K) (now : ℕ) (k : K)
      → IsTable s
      → (view k (cleanup window s now) ≡ view k s)
        ⊎ (view k (cleanup window s now) ≡ sweep window (view k s) now)
  unfolding cleanup sweep drop_expired
  cleanup-view window s now k d = elim (Bool-cases (ltb 200 (size s.times))) [
    | inl full ↦ inr (
        rw full (
          ground (
            arith,
            or_default-drop_idle (cutoff now window) k s.times d.times_once,
            get-retain_values (ltb now) k s.blocked_until d.blocked_once,
          )))
    | inr small ↦ inl (rw small)
  ]

  cleanup-IsTable :
      (window : ℕ) (s : Keyed K) (now : ℕ) → IsTable s → IsTable (cleanup window s now)
  unfolding cleanup drop_idle drop_expired
  cleanup-IsTable window s now d = ground (
    arith,
    retain_values-Distinct (ltb now) s.blocked_until d.blocked_once,
    retain_values-Distinct (λ (v : List ℕ). not (is_empty v))
        (map_values (retain (leb (cutoff now window))) s.times)
        (map_values-Distinct (retain (leb (cutoff now window))) s.times d.times_once),
  )

  pub check-IsTable :
      (threshold window block : ℕ) (s : Keyed K) (j : K) (now : ℕ)
      → IsTable s
      → IsTable (check threshold window block s j now).0
  unfolding check
  check-IsTable threshold window block s j now d =
      let left = recorded window now (or_default (get j s.times)) in
      let opened = remove-Distinct j s.blocked_until d.blocked_once in
      ground (
        arith,
        insert-Distinct j (now + block) s.blocked_until d.blocked_once,
        insert-Distinct j (now + block) (remove j s.blocked_until) opened,
        insert-Distinct j no_times s.times d.times_once,
        cleanup-IsTable window
            (record { times = insert j left s.times; blocked_until = remove j s.blocked_until }) now
            (record {
              times_once = insert-Distinct j left s.times d.times_once;
              blocked_once = opened;
            }),
      )

  -- The event's own key sees one step of a limiter, and perhaps the cleanup after it.
  pub check-view_self :
      (threshold window block : ℕ) (s : Keyed K) (k : K) (now : ℕ)
      → IsTable s
      → let (s', v) = check threshold window block s k now in
        let (l', w) = hit threshold window block (view k s) now in
        (v ≡ w) × ((view k s' ≡ l') ⊎ (view k s' ≡ sweep window l' now))
  unfolding check hit
  check-view_self threshold window block s k now d =
      let left = recorded window now (or_default (get k s.times)) in
      let opened = remove k s.blocked_until in
      let s' : Keyed K = record { times = insert k left s.times; blocked_until = opened } in
      ground (
        arith,
        get-insert k k (now + block) s.blocked_until,
        get-insert k k (now + block) opened,
        get-insert k k left s.times,
        get-insert k k no_times s.times,
        get-remove k k s.blocked_until,
        beq_self k,
        cleanup-view window s' now k (record {
          times_once = insert-Distinct k left s.times d.times_once;
          blocked_once = remove-Distinct k s.blocked_until d.blocked_once;
        }),
      )

  -- Another key sees nothing, or the cleanup.
  pub check-view_other :
      (threshold window block : ℕ) (s : Keyed K) (j k : K) (now : ℕ)
      → IsTable s
      → e.beq j k ≡ false
      → let s' = (check threshold window block s j now).0 in
        (view k s' ≡ view k s) ⊎ (view k s' ≡ sweep window (view k s) now)
  unfolding check
  check-view_other threshold window block s j k now d ne =
      let left = recorded window now (or_default (get j s.times)) in
      let opened = remove j s.blocked_until in
      let s' : Keyed K = record { times = insert j left s.times; blocked_until = opened } in
      ground (
        arith,
        get-insert j k (now + block) s.blocked_until,
        get-insert j k (now + block) opened,
        get-insert j k left s.times,
        get-insert j k no_times s.times,
        get-remove j k s.blocked_until,
        cleanup-view window s' now k (record {
          times_once = insert-Distinct j left s.times d.times_once;
          blocked_once = remove-Distinct j s.blocked_until d.blocked_once;
        }),
      )

  module _ (threshold window block c e' : ℕ) (span : IsSpan window block c e') (s : Keyed K) (k : K)
      (now : ℕ) (d : IsTable s) (from : c ≤ now) (until : now ≤ e') where
    credit_after_sweep :
        (l : Limiter) (k' : Keyed K)
        → (view k k' ≡ l) ⊎ (view k k' ≡ sweep window l now)
        → credit threshold c e' (view k k') ≡ credit threshold c e' l
    credit_after_sweep l k' (inl same) = rw same
    credit_after_sweep l k' (inr swept) =
        rw swept (sweep-credit threshold window block c e' now l span from until)

    -- What an event does to the credit of any key.
    pub check-credit :
        (j : K)
        → let (s', v) = check threshold window block s j now in
          credit threshold c e' (view k s') + (if e.beq j k then pass v else 0)
          ≤ credit threshold c e' (view k s)
    check-credit j = elim (Bool-cases (e.beq j k)) [
      | inl same ↦ rw (same, (e.beq_iff j k).0 same) self
      | inr other ↦ rw other (
          omega (
            arith,
            credit_after_sweep (view k s) (check threshold window block s j now).0
                (check-view_other threshold window block s j k now d other),
          ))
    ]
      where
        self :
            let (s', v) = check threshold window block s k now in
            credit threshold c e' (view k s') + pass v ≤ credit threshold c e' (view k s)
        self =
            let seen = check-view_self threshold window block s k now d in
            rw
              (
                credit_after_sweep (hit threshold window block (view k s) now).0
                    (check threshold window block s k now).0 seen.1,
                seen.0,
              )
              (hit-credit threshold window block c e' now (view k s) span from until)
