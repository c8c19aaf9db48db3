-- ===== src/Base/Integers.antt =====
-- Signed numbers over the native ones, for the sums that the Rust code takes as `i128`.
use Prim.Native.Nat.{ℕ, zero, suc, ◌+◌, ◌-◌, ◌/◌}
use gwr.Base.Tests.{leb, if◌then◌else◌}

-- `negsuc n` is `-(n + 1)`.
pub data ℤ : Type 0 where
  pos negsuc : ℕ → ℤ

abbrev pub neg : ℕ → ℤ
neg zero = pos 0
neg (suc n) = negsuc n

-- `a as i128 - b as i128`
infix 6 ◌⊖◌
abbrev pub ◌⊖◌ : ℕ → ℕ → ℤ
a ⊖ b = if leb b a then pos (a - b) else negsuc (b - a - 1)

-- `z + n as i128`
infixl 6 ◌+ℤ◌
abbrev pub ◌+ℤ◌ : ℤ → ℕ → ℤ
pos m +ℤ n = pos (m + n)
negsuc m +ℤ n = n ⊖ suc m

-- `z.clamp(0, bound as i128) as usize`
abbrev pub clamp : ℤ → ℕ → ℕ
clamp (pos n) bound = if leb bound n then bound else n
clamp (negsuc n) bound = 0

-- `z / d`, which rounds towards zero, and `z.div_euclid(d)`, which rounds down.
abbrev pub div_trunc : ℤ → ℕ → ℤ
div_trunc (pos n) d = pos (n / d)
div_trunc (negsuc n) d = neg (suc n / d)

abbrev pub div_euclid : ℤ → ℕ → ℤ
div_euclid (pos n) d = pos (n / d)
div_euclid (negsuc n) d = negsuc (n / d)
