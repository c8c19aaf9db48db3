-- ===== src/Tests/CreditTests.antt =====
-- Credits at concrete data.
use gwr.Base.{ℕ, ◌≡◌, refl, List, [], ◌∷◌, ok, ◌>>=◌}
use gwr.Credit.{Action, limits, issues_credit, returns_credit, new, run}
use gwr.Credit.Laws.{Returns, run-Balances, new-Balances}

-- One credit: the second value waits until the issuer has given the credit of the first back.
abbrev two_values : List (Action ℕ)
two_values =
    limits 10 1
    ∷ limits 0 1
    ∷ limits 0 1
    ∷ limits 20 1
    ∷ limits 0 1
    ∷ issues_credit
    ∷ issues_credit
    ∷ returns_credit
    ∷ returns_credit
    ∷ limits 0 1
    ∷ limits 0 1
    ∷ []

run-Balances_example : Returns 1 (run (new {T = ℕ} 1) two_values)
run-Balances_example = run-Balances 1 (new {T = ℕ} 1) two_values (new-Balances ℕ 1)

second_passed : (run (new {T = ℕ} 1) two_values >>= λ s. ok s.link) ≡ ok (20 ∷ [])
unfolding run new
second_passed = refl
