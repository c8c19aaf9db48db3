-- ===== src/Arbiter/RoundRobin/Grant.antt =====
-- What one call of the round robin policy grants.
use gwr.Base.{
  ℕ, ◌+◌, ◌-◌, ◌≤◌, ◌<◌, ◌≡◌, refl, inl, inr, Option, none, List, length, arith, find_first,
  find_first-Search, Search, missed, found, Misses, mod_below, mod_once, get_or-out, Bool-cases,
  ltb, leb, if◌then◌else◌,
}
use gwr.Arbiter.{slot, Grants}
use gwr.Arbiter.RoundRobin.{RoundRobin, looks_at, arbitrate}

-- The candidate is an input, or there is none.
abbrev pub IsReady : ℕ → RoundRobin → Type 0
IsReady n p = p.candidate ≤ n - 1

-- How many inputs come before input `i` in the order in which the policy looks at them.
unfoldable pub distance : ℕ → RoundRobin → ℕ → ℕ
distance n p i = if leb p.candidate i then i - p.candidate else i + n - p.candidate

module _ {ℓ} {A : Type ℓ} (p : RoundRobin) (xs : List (Option A)) where
  abbrev pub loop : Option (ℕ × A)
  loop = find_first (length xs) 0 (λ i. slot xs (looks_at p xs i))

  pub loop-Search : Search 0 (length xs) (λ i. slot xs (looks_at p xs i)) loop
  loop-Search = find_first-Search (length xs) 0 (length xs) _ (omega arith)

  pub looks_at-lt : (i : ℕ) → 0 < length xs → looks_at p xs i < length xs
  looks_at-lt i h = omega arith

  -- In round `distance` the loop looks at input `i`.
  pub looks_at-distance :
      (i : ℕ)
      → IsReady (length xs) p
      → i < length xs
      → (looks_at p xs (distance (length xs) p i) ≡ i) × (distance (length xs) p i < length xs)
  unfolding distance
  looks_at-distance i ready h = elim (Bool-cases (leb p.candidate i)) [
    | inl e ↦ rw e (
      rw (mod_below (i - p.candidate + p.candidate) (length xs) (ground arith)) (ground arith),
      ground arith,
    )
    | inr e ↦ rw e (
      rw
          (mod_once (i + length xs - p.candidate + p.candidate) (length xs) (ground arith)
            (ground arith))
          (ground arith),
      ground arith,
    )
  ]

  all_missed :
      IsReady (length xs) p
      → Misses 0 (length xs) (λ i. slot xs (looks_at p xs i))
      → (i : ℕ) → slot xs i ≡ none
  all_missed ready h i = elim (Bool-cases (ltb i (length xs))) [
    | inl below ↦
        let (seen, inside) = looks_at-distance i ready (ground arith) in
        rw seen at (h (distance (length xs) p i) (omega arith) inside)
    | inr above ↦ get_or-out xs i none (ground arith)
  ]

  -- A call grants a waiting value whenever there is one, and takes out no other.
  pub arbitrate-Grants : IsReady (length xs) p → Grants xs (arbitrate p xs)
  unfolding arbitrate
  arbitrate-Grants ready = go loop-Search
    where
      go : Search 0 (length xs) (λ i. slot xs (looks_at p xs i)) loop → Grants xs (arbitrate p xs)
      go (missed r h) =
          rw (r, arbitrate)
            (record { waits = λ _. (all_missed ready h, refl); serves = λ i v e. cc })
      go (found m v r above below hit before) =
          rw (r, arbitrate)
            (record {
              waits = λ e. cc;
              serves = λ i w e. ground (arith, looks_at-lt m (omega arith));
            })
