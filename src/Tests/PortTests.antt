-- ===== src/Tests/PortTests.antt =====
-- Ports at concrete data.
use gwr.Base.{ℕ, ◌≡◌, refl, List, [], ◌∷◌, ok, ◌>>=◌}
use gwr.Port.{poll_put, poll_get, poll_start_get, finish_get}
use gwr.Port.Delivery.{
  Action, calls_put, polls_put, calls_get, calls_start_get, polls_get, calls_finish_get, new, act,
  run, AllMatch, Goes, run-IsValid, new-IsValid,
}

-- Two values are put; the first is got at once, the second by `start_get` and `finish_get`.
abbrev two_values : List (Action ℕ)
two_values =
    calls_put 10
    ∷ polls_put 1
    ∷ calls_get
    ∷ polls_get 2
    ∷ polls_put 1
    ∷ calls_put 20
    ∷ calls_start_get
    ∷ polls_put 1
    ∷ polls_get 2
    ∷ calls_finish_get
    ∷ polls_put 1
    ∷ []

two_values-AllMatch : AllMatch (new {T = ℕ}) two_values
unfolding act new poll_put poll_get poll_start_get finish_get
two_values-AllMatch = (tt, (tt, (tt, (tt, (tt, (tt, (tt, (tt, (tt, (refl, (tt, tt)))))))))))

run-IsValid_example : Goes (run (new {T = ℕ}) two_values)
run-IsValid_example = run-IsValid (new {T = ℕ}) two_values two_values-AllMatch (new-IsValid)

both_delivered : (run (new {T = ℕ}) two_values >>= λ s. ok s.received) ≡ ok (10 ∷ 20 ∷ [])
unfolding run new poll_put poll_get poll_start_get finish_get
both_delivered = refl
