-- ===== src/Batch/Tests.antt =====
-- The batch tracker of src/irc/batch.rs at concrete inputs.
use repartee_desktop.Base.{arith, ◌≡◌, codes, Text, ℕ, List, [], ◌∷◌, some, refl}
use repartee_desktop.Base.Maps.{Text_eq}
use repartee_desktop.Batch.{start_batch, get_batch_tag, end_batch, BatchTracker, IrcMessage}
use repartee_desktop.Batch.Collected.{
  finish, end_batch_lem, expire, begin, holding, mine, arrive, BatchEvent, run,
}

-- Any function serves for upper case; this one leaves the text as it is.
abbrev same : Text → Text
same t = t

abbrev empty : BatchTracker ℕ
empty = record { open_batches = [] }

abbrev tagged : Text → ℕ → IrcMessage ℕ
tagged tag n = record { tags = some ((codes "batch", some tag) ∷ []); command = n }

abbrev traffic : List (BatchEvent ℕ)
traffic =
    arrive (tagged (codes "a") 1)
    ∷ begin (codes "b") (codes "NETJOIN") [] 1500
    ∷ arrive (tagged (codes "b") 2)
    ∷ arrive (tagged (codes "a") 3)
    ∷ expire 2000
    ∷ finish (codes "b")
    ∷ []

end_batch_lem_example :
    (end_batch
      (run same (start_batch same empty (codes "a") (codes "NETSPLIT") [] 1000) traffic)
      (codes "a")).1
    ≡ some (holding (codes "NETSPLIT") [] 1000 (mine (codes "a") traffic))
end_batch_lem_example =
    end_batch_lem same empty (codes "a") (codes "NETSPLIT") [] 1000 traffic tt
      (refl, (omega arith, (refl, tt)))

its_messages : mine (codes "a") traffic ≡ tagged (codes "a") 1 ∷ tagged (codes "a") 3 ∷ []
unfolding get_batch_tag
its_messages = refl

abbrev two_open : BatchTracker ℕ
two_open = record {
  open_batches =
      (codes "a", holding (codes "NETSPLIT") [] 1000 [])
      ∷ (codes "b", holding (codes "NETJOIN") [] 9000 [])
      ∷ [];
}
