-- ===== src/Base/Results.antt =====
-- gwr-engine/src/types.rs: a `Result` with a `SimError`, beside the panics of the Rust code (a
-- failed `assert!`, an `unwrap` of nothing, an index out of range, an overflow in a checked build).
use Prim.Native.Nat.{ℕ, ◌+◌, ◌-◌, ◌*◌, ◌^◌}
use mathlib.Core.Path.{◌≡◌, refl}
use mathlib.Core.Logic.{◌≢◌}
use gwr.Base.Tests.{ltb, leb, if◌then◌else◌}

-- What the message of a `SimError` reports.
pub data SimError : Type 0 where
  invalid_release already_triggered already_connected not_connected : SimError
  zero_capacity cannot_store overflow : SimError
  invalid_size region_overlap unsupported_access wrong_length : SimError
  wrong_count missing_tensor incompatible_shapes invalid_output invalid_throughput : SimError
  invalid_parameter empty_output wrong_dtype empty_input : SimError

pub data Outcome {ℓ} (A : Type ℓ) : Type ℓ where
  ok : A → Outcome A
  error : SimError → Outcome A
  panic : Outcome A

infixl 5 ◌>>=◌
abbrev pub ◌>>=◌ {ℓ κ} : {A : Type ℓ} {B : Type κ} → Outcome A → (A → Outcome B) → Outcome B
ok a >>= f = f a
error e >>= f = error e
panic >>= f = panic

-- `u64` and 64-bit `usize` arithmetic with overflow checks.
abbrev pub u64_mod : ℕ
u64_mod = 2 ^ 64

abbrev pub add_u64 : ℕ → ℕ → Outcome ℕ
add_u64 a b = if ltb (a + b) u64_mod then ok (a + b) else panic

abbrev pub mul_u64 : ℕ → ℕ → Outcome ℕ
mul_u64 a b = if ltb (a * b) u64_mod then ok (a * b) else panic

abbrev pub sub_u64 : ℕ → ℕ → Outcome ℕ
sub_u64 a b = if leb b a then ok (a - b) else panic

pub ok_injective {ℓ} : {A : Type ℓ} {a b : A} → ◌≡◌ {A = Outcome A} (ok a) (ok b) → a ≡ b
ok_injective p = cc

-- Both steps of a chain that returns have returned.
pub returned {ℓ κ} :
    {B : Type ℓ} {C : Type κ} (first : Outcome B) (next : B → Outcome C) {c : C}
    → (first >>= next) ≡ ok c
    → (b : B) × (first ≡ ok b) × (next b ≡ ok c)
returned panic next p = cc
returned (error reason) next p = cc
returned (ok b) next p = (b, refl, p)

pub error-ne-ok {ℓ} : {A : Type ℓ} {e : SimError} {a : A} → ◌≢◌ {A = Outcome A} (error e) (ok a)
error-ne-ok p = cc

pub panic-ne-ok {ℓ} : {A : Type ℓ} {a : A} → ◌≢◌ {A = Outcome A} panic (ok a)
panic-ne-ok p = cc
