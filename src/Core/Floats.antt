-- ===== src/Core/Floats.antt =====
-- The floating-point arithmetic of the sources as an interface: the types `f32` and `f64` and the
-- operations and casts that are used. Nothing is assumed of them.
use heimwatch.Prelude.{ℕ, ◌≡◌, true, false, Bool, Bytes, List, [], ◌∷◌, length, Option, none, some}
use mathlib.Core.List.{foldl}

pub record Floats : Type 1 where
  pub F32 : Type 0
  pub F64 : Type 0
  -- the value that `Iterator::sum` starts from
  pub zero_f64 : F64
  pub zero_f32 : F32
  pub add_f64 : F64 → F64 → F64
  pub add_f32 : F32 → F32 → F32
  pub mul_f64 : F64 → F64 → F64
  pub div_f64 : F64 → F64 → F64
  pub div_f32 : F32 → F32 → F32
  pub mul_f32 : F32 → F32 → F32
  pub log2_f32 : F32 → F32
  pub max_f32 : F32 → F32 → F32
  pub clamp_f32 : F32 → F32 → F32 → F32
  pub lt_f32 : F32 → F32 → Bool
  -- the constant with these digits, so many of them after the point
  pub literal_f32 : ℕ → ℕ → F32
  -- `str::parse::<f32>`
  pub parse_f32 : Bytes → Option F32
  pub round : F64 → F64
  -- the casts, each named for the type that it goes to
  pub f64_of_u64 : ℕ → F64
  pub f32_of_u64 : ℕ → F32
  pub f64_of_f32 : F32 → F64
  pub f32_of_f64 : F64 → F32
  pub u64_of_f64 : F64 → ℕ
  pub u32_of_f64 : F64 → ℕ

-- What `<` on `f32` promises, where `IsNumber` says that a value is not NaN.
pub record FloatOrder (fl : Floats) : Type 1 where
  pub IsNumber : fl.F32 → Type 0
  pub lt_asym : (x y : fl.F32) → fl.lt_f32 x y ≡ true → fl.lt_f32 y x ≡ false
  pub ge_trans :
      (x y z : fl.F32)
      → IsNumber y
      → fl.lt_f32 x y ≡ false
      → fl.lt_f32 y z ≡ false
      → fl.lt_f32 x z ≡ false

module _ (fl : Floats) where
  open fl use {
    F32, F64, zero_f64, zero_f32, add_f64, add_f32, div_f64, div_f32, f64_of_u64, f32_of_u64,
  }

  pub sum_f64 : List F64 → F64
  sum_f64 = foldl add_f64 zero_f64

  unfoldable pub sum_f32 : List F32 → F32
  sum_f32 = foldl add_f32 zero_f32

  -- `values.iter().sum::<f64>() / values.len() as f64`, or `None` for no value.
  unfoldable pub mean_f64 : List F64 → Option F64
  mean_f64 [] = none
  mean_f64 (x ∷ xs) = some (div_f64 (sum_f64 (x ∷ xs)) (f64_of_u64 (length (x ∷ xs))))

  unfoldable pub mean_f32 : List F32 → Option F32
  mean_f32 [] = none
  mean_f32 (x ∷ xs) = some (div_f32 (sum_f32 (x ∷ xs)) (f32_of_u64 (length (x ∷ xs))))
