-- ===== src/Flood/Tests.antt =====
-- The detectors of src/irc/flood.rs at concrete inputs.
use repartee_desktop.Base.{refl, true, arith, ◌≤◌, length, ℕ, ◌≡◌, List, [], ◌∷◌, Text, codes}
use repartee_desktop.Flood.Rates.{tilde_rate_limit, tilde_passes, ctcp_passes}
use repartee_desktop.Base.Maps.{ℕ_eq, remove, insert, size, get}
use repartee_desktop.Flood.Checks.{check_tilde_nick_flood, check_ctcp_flood, check_duplicate_flood}
use repartee_desktop.Flood.{drain_older, triggered, new}
use repartee_desktop.Flood.Isolation.{new-IsState}
use repartee_desktop.Flood.Duplicates.{duplicate_run}

-- Any function serves for the hash; this one tells texts apart by their length.
abbrev by_length : Text → ℕ
by_length t = length t

abbrev burst : List ℕ
burst = 10000 ∷ 10100 ∷ 10200 ∷ 10300 ∷ 10400 ∷ 40000 ∷ []

burst_passes : ctcp_passes new burst ≡ 4
unfolding ctcp_passes check_ctcp_flood drain_older
burst_passes = refl

abbrev jim : Text
jim = codes "jim"

abbrev ripsum : Text
ripsum = codes "ripsum"

abbrev tilde_burst : List (Text × ℕ)
tilde_burst =
    (jim, 10000)
    ∷ (jim, 10100)
    ∷ (ripsum, 10200)
    ∷ (jim, 10300)
    ∷ (jim, 10400)
    ∷ (jim, 10500)
    ∷ (ripsum, 10600)
    ∷ []

tilde_burst_passes :
    (tilde_passes by_length 3 new tilde_burst ≡ 4) × (tilde_passes by_length 6 new tilde_burst ≡ 2)
unfolding tilde_passes check_tilde_nick_flood size get insert remove drain_older
tilde_burst_passes = (refl, refl)

tilde_rate_limit_example : tilde_passes by_length 3 new tilde_burst ≤ 4
tilde_rate_limit_example =
    tilde_rate_limit by_length 3 10000 15000 new tilde_burst new-IsState (omega arith) (omega arith)
      (omega arith)

abbrev said : List (Text × ℕ)
said = (jim, 9000) ∷ (ripsum, 9100) ∷ (jim, 9200) ∷ (ripsum, 9300) ∷ []

said_triggers :
    (check_duplicate_flood by_length (duplicate_run by_length new said) jim true 9400).1 ≡ triggered
unfolding check_duplicate_flood duplicate_run size get insert
said_triggers = refl
