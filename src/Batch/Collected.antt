-- ===== src/Batch/Collected.antt =====
-- What a batch of src/irc/batch.rs holds when it ends.
use repartee_desktop.Base.{
  append_assoc, sym, append-nil, text_eq_iff, ◌∙◌, min, zero, ◌%◌, length-append, ◌-◌, length-take,
  suc, ◌+◌, Bool-cases, arith, leb, length, ◌++◌, ◌<◌, if◌then◌else◌, Option-cases, ◌≡◌, take,
  text_eq, Bool, List, Text, ℕ, [], ◌∷◌, some, none, inl, inr, true, false, refl,
}
use repartee_desktop.Batch.{
  in_time, usize_succ, batch_timeout, purge_expired, max_batch_messages, get_batch_tag, end_batch,
  BatchInfo, start_batch, add_message, collect, BatchTracker, IrcMessage,
}
use repartee_desktop.Base.Maps.{
  get-retain_values, get-remove, get-insert, retain_values-Distinct, get-adjust, get-insert_self,
  remove-Distinct, filtered, insert-Distinct, get, adjust-Distinct, Text_eq, Distinct, contains_key,
}

-- What the tracker of a connection gets; the clock is given where it is read.
pub data BatchEvent {ℓ} (A : Type ℓ) : Type ℓ where
  arrive : IrcMessage A → BatchEvent A
  begin : Text → Text → List Text → ℕ → BatchEvent A
  finish : Text → BatchEvent A
  expire : ℕ → BatchEvent A

full_lem : (n : ℕ) → leb 4096 n ≡ true → leb 4096 (min 4096 n) ≡ true
full_lem n e = ground arith

room_lem : (n : ℕ) → leb 4096 n ≡ false → leb 4096 (min 4096 n) ≡ false
room_lem n e = ground arith

dropped_lem :
    (n : ℕ)
    → leb 4096 n ≡ true
    → (n + 1 - 4096) % 18446744073709551616 ≡ usize_succ ((n - 4096) % 18446744073709551616)
dropped_lem n e = ground arith

none_dropped : (n : ℕ) → leb 4096 n ≡ false → (n + 1 - 4096) % 18446744073709551616 ≡ 0
none_dropped n e = ground arith

none_yet : (n : ℕ) → leb 4096 n ≡ false → (n - 4096) % 18446744073709551616 ≡ 0
none_yet n e = ground arith

module _ {ℓ} {A : Type ℓ} where
  unfoldable pub step : (Text → Text) → BatchTracker A → BatchEvent A → BatchTracker A
  step to_uppercase s (arrive msg) = (add_message s msg).0
  step to_uppercase s (begin tag batch_type params now) =
      start_batch to_uppercase s tag batch_type params now
  step to_uppercase s (finish tag) = (end_batch s tag).0
  step to_uppercase s (expire now) = (purge_expired s now).0

  unfoldable pub run : (Text → Text) → BatchTracker A → List (BatchEvent A) → BatchTracker A
  unfolding step
  run to_uppercase s [] = s
  run to_uppercase s (ev ∷ evs) = run to_uppercase (step to_uppercase s ev) evs

  abbrev pub IsDistinct : BatchTracker A → Type ℓ
  IsDistinct s = Distinct s.open_batches

  abbrev pub belongs : Text → IrcMessage A → Bool
  belongs tag msg = elim (get_batch_tag msg) [ none ↦ false | some u ↦ text_eq u tag ]

  -- The messages of a batch among the events.
  abbrev pub mine : Text → List (BatchEvent A) → List (IrcMessage A)
  mine tag [] = []
  mine tag (arrive msg ∷ evs) =
      let later = mine tag evs in if belongs tag msg then msg ∷ later else later
  mine tag (begin tag' batch_type params now ∷ evs) = mine tag evs
  mine tag (finish tag' ∷ evs) = mine tag evs
  mine tag (expire now ∷ evs) = mine tag evs

  -- Nothing starts or ends this batch again, and no purge comes after its time is over.
  abbrev pub Undisturbed : Text → ℕ → List (BatchEvent A) → Type 0
  Undisturbed tag t [] = Unit
  Undisturbed tag t (arrive msg ∷ evs) = Undisturbed tag t evs
  Undisturbed tag t (begin tag' batch_type params now ∷ evs) =
      (text_eq tag' tag ≡ false) × Undisturbed tag t evs
  Undisturbed tag t (finish tag' ∷ evs) = (text_eq tag' tag ≡ false) × Undisturbed tag t evs
  Undisturbed tag t (expire now ∷ evs) = (now < t + batch_timeout) × Undisturbed tag t evs

  -- A batch that has got these messages.
  abbrev pub holding : Text → List Text → ℕ → List (IrcMessage A) → BatchInfo A
  holding batch_type' params' t ms = record {
    batch_type = batch_type';
    params = params';
    messages = take max_batch_messages ms;
    dropped_messages = (length ms - max_batch_messages) % 18446744073709551616;
    started_at = t;
  }

  take-nil : (n : ℕ) → take {A = IrcMessage A} n [] ≡ []
  take-nil zero = refl
  take-nil (suc n) = refl

  take-snoc :
      (n : ℕ) (ms : List (IrcMessage A)) (msg : IrcMessage A)
      → take n (ms ++ msg ∷ []) ≡ (if leb n (length ms) then take n ms else take n ms ++ msg ∷ [])
  take-snoc zero ms msg = ground arith
  take-snoc (suc n) [] msg = ground (arith, take-nil n)
  take-snoc (suc n) (m ∷ ms) msg = ground (arith, take-snoc n ms msg)

  collect-holding :
      (batch_type : Text) (params : List Text) (t : ℕ) (ms : List (IrcMessage A))
      (msg : IrcMessage A)
      → collect msg (holding batch_type params t ms) ≡ holding batch_type params t (ms ++ msg ∷ [])
  unfolding collect
  collect-holding batch_type params t ms msg =
      let longer : length (ms ++ msg ∷ []) ≡ length ms + 1 = length-append ms (msg ∷ []) in
      let kept : length (take 4096 ms) ≡ min 4096 (length ms) = length-take 4096 ms in
      let last = take-snoc 4096 ms msg in
      elim (Bool-cases (leb 4096 (length ms))) [
        | inl full ↦
            let at_bound : leb 4096 (length (take 4096 ms)) ≡ true =
              rw kept (full_lem (length ms) full) in
            let same : take 4096 (ms ++ msg ∷ []) ≡ take 4096 ms = rw (last, full) refl in
            rw (collect, at_bound, same, longer, dropped_lem (length ms) full) refl
        | inr room ↦
            let below : leb 4096 (length (take 4096 ms)) ≡ false =
              rw kept (room_lem (length ms) room) in
            let more : take 4096 (ms ++ msg ∷ []) ≡ take 4096 ms ++ msg ∷ [] =
              rw (last, room) refl in
            rw
              (
                collect,
                below,
                more,
                longer,
                none_dropped (length ms) room,
                none_yet (length ms) room,
              )
              refl
      ]

  add_message-IsDistinct :
      (s : BatchTracker A) (msg : IrcMessage A) → IsDistinct s → IsDistinct (add_message s msg).0
  unfolding add_message
  add_message-IsDistinct s msg d = elim (Option-cases (get_batch_tag msg)) [
    | inl e ↦ rw (add_message, e) d
    | inr (tag, e) ↦ elim (Bool-cases (contains_key tag s.open_batches)) [
      | inr gone ↦ rw (add_message, e, gone) d
      | inl here ↦ rw (add_message, e, here) (adjust-Distinct tag (collect msg) s.open_batches d)
    ]
  ]

  get-add_message :
      (s : BatchTracker A) (msg : IrcMessage A) (tag : Text) (info : BatchInfo A)
      → get tag s.open_batches ≡ some info
      → get tag (add_message s msg).0.open_batches
        ≡ some (if belongs tag msg then collect msg info else info)
  unfolding add_message contains_key
  get-add_message s msg tag info e = elim (Option-cases (get_batch_tag msg)) [
    | inl n ↦ ground (arith, n, e)
    | inr (u, n) ↦
        ground (arith, n, e, text_eq_iff u tag, get-adjust u (collect msg) tag s.open_batches)
  ]

  step-IsDistinct :
      (to_uppercase : Text → Text) (s : BatchTracker A) (ev : BatchEvent A)
      → IsDistinct s
      → IsDistinct (step to_uppercase s ev)
  unfolding step start_batch end_batch purge_expired
  step-IsDistinct to_uppercase s (arrive msg) d = add_message-IsDistinct s msg d
  step-IsDistinct to_uppercase s (begin tag batch_type params now) d =
      insert-Distinct tag _ s.open_batches d
  step-IsDistinct to_uppercase s (finish tag) d = remove-Distinct tag s.open_batches d
  step-IsDistinct to_uppercase s (expire now) d =
      retain_values-Distinct (in_time now) s.open_batches d

  still_open :
      (now : ℕ) (info : BatchInfo A)
      → now < info.started_at + batch_timeout
      → filtered (in_time now) (some info) ≡ some info
  still_open now info p = ground (arith, p)

  run-holding :
      (to_uppercase : Text → Text) (s : BatchTracker A) (tag batch_type : Text) (params : List Text)
      (t : ℕ) (ms : List (IrcMessage A)) (evs : List (BatchEvent A))
      → IsDistinct s
      → Undisturbed tag t evs
      → get tag s.open_batches ≡ some (holding batch_type params t ms)
      → get tag (run to_uppercase s evs).open_batches
        ≡ some (holding batch_type params t (ms ++ mine tag evs))
  unfolding run start_batch end_batch purge_expired
  run-holding to_uppercase s tag batch_type params t ms [] d u e = rw (append-nil ms) e
  run-holding to_uppercase s tag batch_type params t ms (arrive msg ∷ evs) d u e =
      let next = step-IsDistinct to_uppercase s (arrive msg) d in
      let got = get-add_message s msg tag (holding batch_type params t ms) e in
      elim (Bool-cases (belongs tag msg)) [
        | inr not_ours ↦ rw not_ours (
            run-holding to_uppercase (step to_uppercase s (arrive msg)) tag batch_type params t ms
              evs next u (got ∙ rw not_ours refl))
        | inl ours ↦
            rw (ours, sym (append_assoc ms (msg ∷ []) (mine tag evs)))
              (run-holding to_uppercase (step to_uppercase s (arrive msg)) tag batch_type params t
                (ms ++ msg ∷ []) evs next u
                (got ∙ rw (ours, collect-holding batch_type params t ms msg) refl))
      ]
  run-holding to_uppercase s tag batch_type params t ms (begin tag' type' params' now ∷ evs) d u e =
      run-holding to_uppercase (step to_uppercase s (begin tag' type' params' now)) tag batch_type
        params t ms evs (step-IsDistinct to_uppercase s (begin tag' type' params' now) d) u.1
        (get-insert tag' tag _ s.open_batches ∙ rw u.0 e)
  run-holding to_uppercase s tag batch_type params t ms (finish tag' ∷ evs) d u e =
      run-holding to_uppercase (step to_uppercase s (finish tag')) tag batch_type params t ms evs
        (step-IsDistinct to_uppercase s (finish tag') d) u.1
        (get-remove tag' tag s.open_batches ∙ rw u.0 e)
  run-holding to_uppercase s tag batch_type params t ms (expire now ∷ evs) d u e =
      run-holding to_uppercase (step to_uppercase s (expire now)) tag batch_type params t ms evs
        (step-IsDistinct to_uppercase s (expire now) d) u.1
        (get-retain_values (in_time now) tag s.open_batches d
          ∙ rw e (still_open now (holding batch_type params t ms) u.0))

-- A batch that is ended has, of the messages that came with its tag since its start, the first
-- 4096 in their order, and counts the others (modulo 2 ^ 64), whatever comes for other batches in
-- between; where the tracker holds each tag once, no batch of that tag is started or ended in
-- between, and no purge comes after its minute.
pub end_batch_lem {ℓ} :
    {A : Type ℓ} (to_uppercase : Text → Text) (s : BatchTracker A) (tag batch_type : Text)
    (params : List Text) (t : ℕ) (evs : List (BatchEvent A))
    → IsDistinct s
    → Undisturbed tag t evs
    → (end_batch (run to_uppercase (start_batch to_uppercase s tag batch_type params t) evs) tag).1
      ≡ some (holding (to_uppercase batch_type) params t (mine tag evs))
unfolding end_batch start_batch
end_batch_lem to_uppercase s tag batch_type params t evs d u =
    run-holding to_uppercase (start_batch to_uppercase s tag batch_type params t) tag
      (to_uppercase batch_type) params t [] evs (insert-Distinct tag _ s.open_batches d) u
      (get-insert_self tag _ s.open_batches)
