-- ===== src/Arbiter/RoundRobin/Fair.antt =====
-- The round robin policy starves no input.
use gwr.Base.{
  ℕ, ◌+◌, ◌%◌, ◌≤◌, ◌<◌, ◌≡◌, ◌⊎◌, inl, inr, Option, some, List, [], ◌∷◌, length, arith, true, All,
  Search, missed, found, mod_below, mod_once, Bool-cases, ltb,
}
use native.Mathlib.Decide.{dec_lt}
use native.Mathlib.Nat.{mod-add-mod}
use gwr.Arbiter.{slot, granted, served}
use gwr.Arbiter.RoundRobin.{RoundRobin, looks_at, arbitrate}
use gwr.Arbiter.RoundRobin.Grant.{IsReady, distance, loop, loop-Search, looks_at-distance}

-- A call keeps the candidate among the inputs.
pub arbitrate-IsReady {ℓ} :
    {A : Type ℓ} (p : RoundRobin) (xs : List (Option A))
    → IsReady (length xs) p
    → IsReady (length xs) (arbitrate p xs).policy
unfolding arbitrate
arbitrate-IsReady p xs ready = go (loop-Search p xs)
  where
    go :
        Search 0 (length xs) (λ i. slot xs (looks_at p xs i)) (loop p xs)
        → IsReady (length xs) (arbitrate p xs).policy
    go (missed r h) = rw (r, arbitrate) ready
    go (found m v r above below hit before) = rw (r, arbitrate) (omega arith)

-- Past round `m` the candidate has moved on, and the distance of what lies ahead has shrunk.
distance-next :
    (n c i m : ℕ)
    → c < n
    → i < n
    → m < distance n (record { candidate = c }) i
    → distance n (record { candidate = (m + c + 1) % n }) i
      < distance n (record { candidate = c }) i
unfolding distance
distance-next n c i m hc hi hm = elim (Bool-cases (ltb (m + c + 1) n)) [
  | inl e ↦ rw (mod_below (m + c + 1) n (ground arith)) (ground arith)
  | inr e ↦ rw (mod_once (m + c + 1) n (ground arith) (ground arith)) (ground arith)
]

module _ {ℓ} {A : Type ℓ} (p : RoundRobin) (xs : List (Option A)) (i : ℕ) (v : A) where
  -- A waiting input is served by the call, or it comes closer to the head.
  pub arbitrate_progress :
      IsReady (length xs) p
      → i < length xs
      → slot xs i ≡ some v
      → (granted i (arbitrate p xs).grant ≡ true)
        ⊎ (distance (length xs) (arbitrate p xs).policy i < distance (length xs) p i)
  unfolding arbitrate
  arbitrate_progress ready h waiting = go (loop-Search p xs)
    where
      d : ℕ
      d = distance (length xs) p i

      seen : slot xs (looks_at p xs d) ≡ some v
      seen = rw ((looks_at-distance p xs i ready h).0) waiting

      go :
          Search 0 (length xs) (λ k. slot xs (looks_at p xs k)) (loop p xs)
          → (granted i (arbitrate p xs).grant ≡ true)
            ⊎ (distance (length xs) (arbitrate p xs).policy i < distance (length xs) p i)
      go (missed r none_left) =
          cc (none_left d (omega arith) (looks_at-distance p xs i ready h).1, seen)
      go (found m w r above below hit before) = elim (dec_lt m d) [
        | yes closer ↦ inr (
            rw (r, arbitrate, mod-add-mod)
              (distance-next (length xs) p.candidate i m (omega arith) h closer))
        | no far ↦ elim (dec_lt d m) [
          | yes early ↦ cc (before d (omega arith) early, seen)
          | no late ↦
              let e : m ≡ d = omega arith in
              inl (rw (r, arbitrate, e, (looks_at-distance p xs i ready h).0) (ground arith))
        ]
      ]

-- An input that waits at more calls in a row than its distance is served by one of them.
served-distance {ℓ} :
    {A : Type ℓ} (n i : ℕ) (p : RoundRobin) (calls : List (List (Option A)))
    → IsReady n p
    → i < n
    → All (λ xs. (length xs ≡ n) × ((v : A) × (slot xs i ≡ some v))) calls
    → distance n p i < length calls
    → served arbitrate p calls i ≡ true
unfolding served
served-distance n i p [] ready h waits enough = absurd (omega arith)
served-distance n i p (xs ∷ calls) ready h (((e, (v, waiting)), waits)) enough =
    elim (arbitrate_progress p xs i v (rw e ready) (rw e h) waiting) [
      | inl now ↦ rw now
      | inr closer ↦
          let p' : RoundRobin = (arbitrate p xs).policy in
          let ready' : IsReady n p' = rw (← e) (arbitrate-IsReady p xs (rw e ready)) in
          let shorter : distance n p' i < distance n p i = rw (← e) closer in
          ground (arith, served-distance n i p' calls ready' h waits (omega arith))
    ]

-- Bounded waiting: of `n` calls in a row at which input `i` of the `n` inputs has a value, whatever
-- the other inputs hold, one serves input `i`.
pub served_in_turn {ℓ} :
    {A : Type ℓ} (n i : ℕ) (p : RoundRobin) (calls : List (List (Option A)))
    → IsReady n p
    → i < n
    → All (λ xs. (length xs ≡ n) × ((v : A) × (slot xs i ≡ some v))) calls
    → n ≤ length calls
    → served arbitrate p calls i ≡ true
unfolding distance
served_in_turn n i p calls ready h waits enough =
    served-distance n i p calls ready h waits (ground arith)
