-- ===== src/SimTime/Nanos.antt =====
-- What the times in ns rely on of the operations on floating-point numbers (IEEE 754), at the numbers
-- that they are used at: bit patterns of numbers that are not negative.
use gwr.Base.{ℕ, ◌+◌, ◌-◌, ◌*◌, ◌^◌, ◌≤◌, ◌<◌, u64_mod}
use gwr.SimTime.{Floats, to_ns, thousand, max_ns}

-- The bits of `2^e`, for an exponent of a normal number that is above or below zero.
abbrev pub two_pow : ℕ → ℕ
two_pow e = (1023 + e) * 2 ^ 52

abbrev pub two_pow_neg : ℕ → ℕ
two_pow_neg e = (1023 - e) * 2 ^ 52

-- A frequency that is finite, and `2^-900` MHz at least.
abbrev pub IsUsable : ℕ → Type 0
IsUsable freq_mhz = (two_pow_neg 900 ≤ freq_mhz) × (freq_mhz ≤ max_ns)

-- Conversion, division and product keep the order, and the numbers that they are used at stay far from
-- the greatest: a `u64` is `2^64` at most, such a number by a usable frequency is `2^964` at most, and a
-- thousand times such a number is finite and not the greatest.
pub record FloatLaws (floats : Floats) : Type 0 where
  pub of_u64_mono : (t u : ℕ) → t ≤ u → u < u64_mod → floats.of_u64 t ≤ floats.of_u64 u
  pub of_u64-le : (t : ℕ) → t < u64_mod → floats.of_u64 t ≤ two_pow 64
  pub div_mono :
      (a b freq_mhz : ℕ)
      → a ≤ b
      → b ≤ two_pow 64
      → IsUsable freq_mhz
      → floats.div a freq_mhz ≤ floats.div b freq_mhz
  pub div-le :
      (a freq_mhz : ℕ) → a ≤ two_pow 64 → IsUsable freq_mhz → floats.div a freq_mhz ≤ two_pow 964
  pub mul_mono : (a b : ℕ) → a ≤ b → b ≤ two_pow 964 → floats.mul a thousand ≤ floats.mul b thousand
  pub mul-lt : (a : ℕ) → a ≤ two_pow 964 → floats.mul a thousand < max_ns

module _ (floats : Floats) (laws : FloatLaws floats) where
  -- Times in ns grow with the tick.
  pub to_ns_mono :
      (freq_mhz t u : ℕ)
      → IsUsable freq_mhz
      → t ≤ u
      → u < u64_mod
      → to_ns floats freq_mhz t ≤ to_ns floats freq_mhz u
  unfolding to_ns
  to_ns_mono freq_mhz t u usable h small =
      laws.mul_mono _ _
        (laws.div_mono _ _ freq_mhz (laws.of_u64_mono t u h small) (laws.of_u64-le u small) usable)
        (laws.div-le _ freq_mhz (laws.of_u64-le u small) usable)

  -- A time in ns is below the greatest number.
  pub to_ns-lt :
      (freq_mhz t : ℕ) → IsUsable freq_mhz → t < u64_mod → to_ns floats freq_mhz t < max_ns
  unfolding to_ns
  to_ns-lt freq_mhz t usable small =
      laws.mul-lt _ (laws.div-le _ freq_mhz (laws.of_u64-le t small) usable)
