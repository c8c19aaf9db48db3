-- ===== src/Base/Arith.antt =====
-- Arithmetic modulo a variable, for indices that go round a ring.
use Prim.Native.Nat.{ℕ, ◌+◌, ◌-◌, ◌%◌, ◌≤◌, ◌<◌}
use mathlib.Core.Path.{◌≡◌}
use native.Mathlib.Nat.{mod-eq_of_lt, mod-eq-sub-mod}
use native.Mathlib.Omega.{arith}

-- One round at most: below the modulus nothing happens, up to twice the modulus it is taken off.
pub mod_below : (a n : ℕ) → a < n → a % n ≡ a
mod_below a n h = mod-eq_of_lt h

pub mod_once : (a n : ℕ) → n ≤ a → a < n + n → a % n ≡ a - n
mod_once a n h k =
    omega (arith, mod-eq-sub-mod {n = a} {m = n} h, mod-eq_of_lt {n = a - n} {m = n} (omega arith))
