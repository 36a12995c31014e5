-- ===== src/Batch.antt =====
-- The tracker of open IRCv3 batches (`BatchTracker` of src/irc/batch.rs). Of a message of the
-- library `irc::proto` it reads the tags; the rest is a parameter. Instants are milliseconds.
pub mod Collected
pub mod Purged
mod Tests
use repartee_desktop.Base.{
  ◌++◌, length, ◌-◌, codes, leb, ltb, ◌%◌, text_eq, if◌then◌else◌, Bool, ◌+◌, List, Text, Option, ℕ,
  [], ◌∷◌, some, none, true, false,
}
use repartee_desktop.Base.Maps.{
  Map, Text_eq, get, insert, remove, adjust, contains_key, retain_values,
}

abbrev pub batch_timeout : ℕ
batch_timeout = 60000

abbrev pub max_batch_messages : ℕ
max_batch_messages = 4096

pub record IrcMessage {ℓ} (A : Type ℓ) : Type ℓ where
  pub tags : Option (List (Text × Option Text))
  pub command : A

pub record BatchInfo {ℓ} (A : Type ℓ) : Type ℓ where
  pub batch_type : Text
  pub params : List Text
  pub messages : List (IrcMessage A)
  pub dropped_messages : ℕ  -- usize
  pub started_at : ℕ

pub record BatchTracker {ℓ} (A : Type ℓ) : Type ℓ where
  pub open_batches : Map Text (BatchInfo A)

-- The first tag called `batch`.
abbrev pub find_batch : List (Text × Option Text) → Option Text
find_batch [] = none
find_batch ((name, value) ∷ tags) =
    let later = find_batch tags in if text_eq name (codes "batch") then value else later

abbrev pub usize_succ : ℕ → ℕ
usize_succ n = (n + 1) % 18446744073709551616

module _ {ℓ} {A : Type ℓ} where
  unfoldable pub get_batch_tag : IrcMessage A → Option Text
  get_batch_tag msg = elim msg.tags [ none ↦ none | some tags ↦ find_batch tags ]

  unfoldable pub start_batch :
      (Text → Text) → BatchTracker A → Text → Text → List Text → ℕ → BatchTracker A
  start_batch to_uppercase s ref_tag batch_type' params' now = record {
    open_batches =
        insert ref_tag
          (record {
            batch_type = to_uppercase batch_type';
            params = params';
            messages = [];
            dropped_messages = 0;
            started_at = now;
          })
          s.open_batches;
  }

  abbrev pub in_time : ℕ → BatchInfo A → Bool
  in_time now info = ltb (now - info.started_at) batch_timeout

  -- The batches that time out, in the order of the table.
  unfoldable pub timed_out : ℕ → Map Text (BatchInfo A) → List (BatchInfo A)
  timed_out now [] = []
  timed_out now ((tag, info) ∷ m) =
      let later = timed_out now m in if in_time now info then later else info ∷ later

  unfoldable pub purge_expired : BatchTracker A → ℕ → BatchTracker A × List (BatchInfo A)
  unfolding timed_out
  purge_expired s now = (
    record { open_batches = retain_values (in_time now) s.open_batches },
    timed_out now s.open_batches,
  )

  unfoldable pub is_batched : BatchTracker A → IrcMessage A → Bool
  unfolding get_batch_tag
  is_batched s msg = elim (get_batch_tag msg) [
    | none ↦ false
    | some tag ↦ contains_key tag s.open_batches
  ]

  -- What a message does to its batch.
  unfoldable pub collect : IrcMessage A → BatchInfo A → BatchInfo A
  collect msg info =
      if leb max_batch_messages (length info.messages)
      then record info { dropped_messages = usize_succ info.dropped_messages }
      else record info { messages = info.messages ++ msg ∷ [] }

  unfoldable pub add_message : BatchTracker A → IrcMessage A → BatchTracker A × Bool
  unfolding get_batch_tag collect
  add_message s msg = elim (get_batch_tag msg) [
    | none ↦ (s, false)
    | some tag ↦
        if contains_key tag s.open_batches
        then (record { open_batches = adjust tag (collect msg) s.open_batches }, true)
        else (s, false)
  ]

  unfoldable pub end_batch : BatchTracker A → Text → BatchTracker A × Option (BatchInfo A)
  end_batch s ref_tag =
      (record { open_batches = remove ref_tag s.open_batches }, get ref_tag s.open_batches)
