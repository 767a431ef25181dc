-- ===== src/Platform.antt =====
-- What the program takes from outside its own code: 64-bit and 32-bit floating-point numbers and
-- JSON values (`serde_json::Value`), as the parameter of everything that handles them. The
-- operations are Rust's; `PlatformLaws` lists the documented behaviour of f64 that proofs rely on.
use rusty_provider.Prelude.{ℕ, ◌≡◌, ◌⊎◌, Bool, true, false}

pub record Platform : Type 1 where
  pub F64 : Type 0
  pub F32 : Type 0
  pub Json : Type 0
  -- `n as f64`, which is exact for the constants of the source.
  pub of_nat : ℕ → F64
  pub add : F64 → F64 → F64
  pub sub : F64 → F64 → F64
  pub mul : F64 → F64 → F64
  pub div : F64 → F64 → F64
  -- `f64::min` and `f64::max`.
  pub fmin : F64 → F64 → F64
  pub fmax : F64 → F64 → F64
  -- `a <= b` and `a < b`, both false on a NaN.
  pub le : F64 → F64 → Bool
  pub lt : F64 → F64 → Bool
  -- `a.total_cmp(&b)` is not `Greater`.
  pub total_le : F64 → F64 → Bool
  -- `f64::MAX` and `f64::MIN`.
  pub max_value : F64
  pub min_value : F64
  -- The saturating casts `x as u32` and `x.ceil() as u64`.
  pub to_u32 : F64 → ℕ
  pub ceil_to_u64 : F64 → ℕ
  -- The f32 operations of the similarity score; `is_zero32 x` is `x == 0.0`.
  pub zero32 : F32
  pub add32 : F32 → F32 → F32
  pub mul32 : F32 → F32 → F32
  pub div32 : F32 → F32 → F32
  pub sqrt32 : F32 → F32
  pub is_zero32 : F32 → Bool
  pub widen : F32 → F64

-- The documented laws of IEEE 754 numbers and of `total_cmp`. None is claimed of a NaN: `lt` and
-- `le` are false there, and the laws about sums are for ordered, nonnegative values.
pub record PlatformLaws (P : Platform) : Type 0 where
  pub le_trans : (a b c : P.F64) → P.le a b ≡ true → P.le b c ≡ true → P.le a c ≡ true
  pub lt-not-le : (a b : P.F64) → P.lt a b ≡ true → P.le b a ≡ false
  pub add_grows :
      (a c : P.F64)
      → P.le (P.of_nat 0) a ≡ true
      → P.le (P.of_nat 0) c ≡ true
      → P.le a (P.add a c) ≡ true
  -- What is compared by `<=` with any result but false is no NaN.
  pub le_right : (a b : P.F64) → P.le a b ≡ true → P.le b b ≡ true
  pub le_lt_trans : (a b c : P.F64) → P.le a b ≡ true → P.lt b c ≡ true → P.lt a c ≡ true
  pub lt_or_le :
      (a b : P.F64) → P.le a a ≡ true → P.le b b ≡ true → (P.lt a b ≡ true) ⊎ (P.le b a ≡ true)
  -- `min` is not above its second argument, and a subtraction of 1 does not raise a number.
  pub fmin_le_right : (a b : P.F64) → P.le b b ≡ true → P.le (P.fmin a b) b ≡ true
  pub sub_one_le : (a c : P.F64) → P.le a c ≡ true → P.le (P.sub a (P.of_nat 1)) c ≡ true
  -- An integer is no NaN.
  pub of_nat_real : (n : ℕ) → P.le (P.of_nat n) (P.of_nat n) ≡ true
  pub total_le_trans :
      (a b c : P.F64) → P.total_le a b ≡ true → P.total_le b c ≡ true → P.total_le a c ≡ true
  pub total_le_total : (a b : P.F64) → (P.total_le a b ≡ true) ⊎ (P.total_le b a ≡ true)
