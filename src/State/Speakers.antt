-- ===== src/State/Speakers.antt =====
-- The recent speakers of a buffer (src/state/buffer.rs) and its scrollback (src/state/events.rs).
use repartee_desktop.Base.{
  ap, ◌∙◌, length-append, length-drop, ◌-◌, ◌++◌, ◌<◌, drop, length-take, zero, length, get_elem?,
  ◌≤◌, not, arith, suc, ◌≡◌, text_eq, retain, take, any, ℕ, List, [], ◌∷◌, refl, Text, Bool, some,
  false,
}
use repartee_desktop.State.Buffers.{push_message, track_speaker, enforce_scrollback, touch_speaker}
use repartee_desktop.State.{last_speakers_cap, Buffer, Message}
use repartee_desktop.State.Messages.{receive}
use repartee_desktop.State.App.{Env}

-- No nick stands twice, whatever its case.
abbrev pub IsOnce : (Text → Text) → List Text → Type 0
IsOnce to_lowercase [] = Unit
IsOnce to_lowercase (n ∷ ns) =
    (any (λ m. text_eq (to_lowercase m) (to_lowercase n)) ns ≡ false) × IsOnce to_lowercase ns

module _ (to_lowercase : Text → Text) where
  any-take :
      (p : Text → Bool) (k : ℕ) (ns : List Text) → any p ns ≡ false → any p (take k ns) ≡ false
  any-take p zero ns h = refl
  any-take p (suc k) [] h = refl
  any-take p (suc k) (n ∷ ns) h = ground (arith, any-take p k ns)

  IsOnce-take : (k : ℕ) (ns : List Text) → IsOnce to_lowercase ns → IsOnce to_lowercase (take k ns)
  IsOnce-take zero ns h = tt
  IsOnce-take (suc k) [] h = tt
  IsOnce-take (suc k) (n ∷ ns) h =
      (any-take (λ m. text_eq (to_lowercase m) (to_lowercase n)) k ns h.0, IsOnce-take k ns h.1)

  any-retain : (p q : Text → Bool) (ns : List Text) → any p ns ≡ false → any p (retain q ns) ≡ false
  any-retain p q [] h = refl
  any-retain p q (n ∷ ns) h = ground (arith, any-retain p q ns)

  IsOnce-retain :
      (q : Text → Bool) (ns : List Text)
      → IsOnce to_lowercase ns
      → IsOnce to_lowercase (retain q ns)
  IsOnce-retain q [] h = tt
  IsOnce-retain q (n ∷ ns) h = ground (
    arith,
    any-retain (λ m. text_eq (to_lowercase m) (to_lowercase n)) q ns,
    IsOnce-retain q ns h.1,
  )

  any-retain-not : (p : Text → Bool) (ns : List Text) → any p (retain (λ n. not (p n)) ns) ≡ false
  any-retain-not p [] = refl
  any-retain-not p (n ∷ ns) = ground (arith, any-retain-not p ns)

  -- The speaker comes first, at most fifty are kept, and no nick stands twice in any case.
  pub touch_speaker_lem :
      (b : Buffer) (nick : Text)
      → IsOnce to_lowercase b.last_speakers
      → let speakers = (touch_speaker to_lowercase b nick).last_speakers in
        (get_elem? speakers 0 ≡ some nick) × (length speakers ≤ 50) × IsOnce to_lowercase speakers
  unfolding touch_speaker
  touch_speaker_lem b nick h =
      let same : Text → Bool = λ n. text_eq (to_lowercase n) (to_lowercase nick) in
      let rest = retain (λ n. not (same n)) b.last_speakers in
      (
        refl,
        omega (arith, length-take last_speakers_cap (nick ∷ rest)),
        IsOnce-take last_speakers_cap (nick ∷ rest) (
          any-retain-not same b.last_speakers,
          IsOnce-retain (λ n. not (same n)) b.last_speakers h,
        ),
      )

drop-all :
    (n : ℕ) (ms : List Message) (m : Message)
    → n ≤ length ms
    → (older : List Message) × (drop n (ms ++ m ∷ []) ≡ older ++ m ∷ [])
drop-all zero ms m h = (ms, refl)
drop-all (suc n) [] m h = elim h [ ]
drop-all (suc n) (x ∷ ms) m h = drop-all n ms m (omega arith)

track_speaker-messages :
    (to_lowercase : Text → Text) (b : Buffer) (m : Message)
    → (track_speaker to_lowercase b m).messages ≡ b.messages
unfolding track_speaker
track_speaker-messages to_lowercase b m = ground arith

drop-none : (n : ℕ) (ms : List Message) → n ≡ 0 → drop n ms ≡ ms
drop-none n ms e = rw e

enforce_scrollback-messages :
    (b : Buffer) (limit : ℕ)
    → 0 < limit
    → (enforce_scrollback b limit).messages ≡ drop (length b.messages - limit) b.messages
unfolding enforce_scrollback
enforce_scrollback-messages b limit p =
    ground (arith, drop-none (length b.messages - limit) b.messages)

receive-messages :
    (env : Env) (limit : ℕ) (m : Message) (b : Buffer)
    → 0 < limit
    → let all' = b.messages ++ m ∷ [] in
      (receive env limit m b).messages ≡ drop (length all' - limit) all'
unfolding receive
receive-messages env limit m b p =
    let told = track_speaker env.to_lowercase b m in
    enforce_scrollback-messages (push_message told m) limit p
    ∙ ap (λ (ms : List Message). drop (length (ms ++ m ∷ []) - limit) (ms ++ m ∷ []))
        (track_speaker-messages env.to_lowercase b m)

-- With a scrollback limit a buffer never holds more messages than it after one has come, the new
-- message is the last, and what is kept is an end of what there was.
pub receive_lem :
    (env : Env) (limit : ℕ) (m : Message) (b : Buffer)
    → 0 < limit
    → let kept = (receive env limit m b).messages in
      (length kept ≤ limit)
      × ((older : List Message) × (kept ≡ older ++ m ∷ []))
      × ((n : ℕ) × (kept ≡ drop n (b.messages ++ m ∷ [])))
receive_lem env limit m b p =
    let all' = b.messages ++ m ∷ [] in
    let n = length all' - limit in
    rw (receive-messages env limit m b p) (
      omega (arith, length-drop n all'),
      drop-all n b.messages m (omega (arith, length-append b.messages (m ∷ []))),
      (n, refl),
    )
