-- ===== src/Tests/ArbiterTests.antt =====
-- Four inputs, of which the policy has just served the third.
use gwr.Base.{ℕ, ◌<◌, ◌≡◌, refl, none, some, List, [], ◌∷◌, true, arith, Option, ◌⊎◌}
use gwr.Base.Loops.{find_first}
use gwr.Arbiter.{served, granted}
use gwr.Arbiter.RoundRobin.{RoundRobin, arbitrate}
use gwr.Arbiter.RoundRobin.Grant.{distance}
use gwr.Arbiter.RoundRobin.Fair.{arbitrate_progress, served_in_turn}

abbrev policy : RoundRobin
policy = record { candidate = 3 }

abbrev inputs : List (Option ℕ)
inputs = none ∷ some 11 ∷ some 22 ∷ none ∷ []

abbrev busy : List (Option ℕ)
busy = some 10 ∷ some 11 ∷ some 22 ∷ some 33 ∷ []

arbitrate_example : (arbitrate policy inputs).grant ≡ some (1, 11)
unfolding arbitrate find_first
arbitrate_example = refl

arbitrate_progress_example :
    (granted 2 (arbitrate policy inputs).grant ≡ true)
    ⊎ (distance 4 (arbitrate policy inputs).policy 2 < distance 4 policy 2)
arbitrate_progress_example = arbitrate_progress policy inputs 2 22 (omega arith) (omega arith) refl

served_in_turn_example : served arbitrate policy (busy ∷ inputs ∷ busy ∷ busy ∷ []) 2 ≡ true
served_in_turn_example =
    served_in_turn 4 2 policy (busy ∷ inputs ∷ busy ∷ busy ∷ []) (omega arith) (omega arith)
      ((refl, (22, refl)), ((refl, (22, refl)), ((refl, (22, refl)), ((refl, (22, refl)), tt))))
      (omega arith)
