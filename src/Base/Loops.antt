-- ===== src/Base/Loops.antt =====
-- `for i in lo..lo + rounds { if let Some(v) = f(i) { return .. } }`, and what it finds.
use Prim.Native.Nat.{ℕ, zero, suc, ◌+◌, ◌<◌, ◌≤◌}
use mathlib.Core.Path.{◌≡◌, refl}
use mathlib.Core.Logic.{inl, inr}
use mathlib.Core.Option.{Option, none, some}
use native.Mathlib.Decide.{ℕ_discrete}
use native.Mathlib.Omega.{arith}
use gwr.Base.Tests.{Option-cases}

module _ {ℓ} {A : Type ℓ} where
  unfoldable pub find_first : ℕ → ℕ → (ℕ → Option A) → Option (ℕ × A)
  find_first zero i f = none
  find_first (suc rounds) i f = elim (f i) [
    | some v ↦ some (i, v)
    | none ↦ find_first rounds (i + 1) f
  ]

  -- Every index of the range was tried in vain.
  abbrev pub Misses : ℕ → ℕ → (ℕ → Option A) → Type ℓ
  Misses lo hi f = (m : ℕ) → lo ≤ m → m < hi → f m ≡ none

  -- What the loop answers: the first index of the range with a value, if there is one.
  pub data Search (lo hi : ℕ) (f : ℕ → Option A) (r : Option (ℕ × A)) : Type ℓ where
    missed : r ≡ none → Misses lo hi f → Search lo hi f r
    found :
        (m : ℕ) (v : A)
        → r ≡ some (m, v)
        → lo ≤ m
        → m < hi
        → f m ≡ some v
        → Misses lo m f
        → Search lo hi f r

  Misses-step : (lo hi : ℕ) (f : ℕ → Option A) → f lo ≡ none → Misses (lo + 1) hi f → Misses lo hi f
  Misses-step lo hi f e h m above below = elim (ℕ_discrete lo m) [
    | yes p ↦ ground arith
    | no p ↦ h m (omega arith) below
  ]

  pub find_first-Search :
      (rounds lo hi : ℕ) (f : ℕ → Option A)
      → lo + rounds ≡ hi
      → Search lo hi f (find_first rounds lo f)
  unfolding find_first
  find_first-Search zero lo hi f e = missed refl (λ m above below. absurd (omega arith))
  find_first-Search (suc rounds) lo hi f e = elim (Option-cases (f lo)) [
    | inr (v, hit) ↦
        found lo v (rw (hit, find_first)) (omega arith) (omega arith) hit
          (λ m above below. absurd (omega arith))
    | inl miss ↦ extend (find_first-Search rounds (lo + 1) hi f (omega arith)) miss
  ]
    where
      extend :
          Search (lo + 1) hi f (find_first rounds (lo + 1) f)
          → f lo ≡ none
          → Search lo hi f (find_first (suc rounds) lo f)
      extend (missed r none_left) miss =
          missed (rw (miss, find_first) r) (Misses-step lo hi f miss none_left)
      extend (found m v r above below hit before) miss =
          found m v (rw (miss, find_first) r) (omega arith) below hit
            (Misses-step lo m f miss before)
