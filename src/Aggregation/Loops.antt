-- ===== src/Aggregation/Loops.antt =====
-- The loops and averages that the branches of `aggregate_records` share, in
-- crates/heimwatch-storage/src/aggregation.rs.
use mathlib.Core.List.{foldl}
use heimwatch.Prelude.{ℕ, List, [], ◌∷◌, Option, none, some}
use heimwatch.Core.Metrics.{MetricPayload, MetricRecord}
use heimwatch.Core.Floats.{Floats}

module _ (fl : Floats) where
  open fl use {
    F32, F64, zero_f64, add_f64, div_f64, round, f64_of_u64, f64_of_f32, f32_of_f64, u64_of_f64,
    u32_of_f64,
  }

  abbrev pub Rec : Type 0
  Rec = MetricRecord F32

  -- `(sum as f64 / records.len() as f64).round() as u32`
  pub rounded_mean : ℕ → ℕ → ℕ
  rounded_mean sum n = u32_of_f64 (round (div_f64 (f64_of_u64 sum) (f64_of_u64 n)))

  -- `(sum as f64 / n) as u64`
  pub truncated_mean : ℕ → ℕ → ℕ
  truncated_mean sum n = u64_of_f64 (div_f64 (f64_of_u64 sum) (f64_of_u64 n))

  -- the loop over the records, by their payloads
  abbrev pub fold_payloads : {A : Type 0} → (A → MetricPayload F32 → A) → A → List Rec → A
  fold_payloads step = foldl (λ acc r. step acc r.payload)

  -- what a loop `if let Some(v) = .. { values.push(v) }` leaves in `values`
  unfoldable pub values : {A : Type 0} → (MetricPayload F32 → Option A) → List Rec → List A
  values get [] = []
  values get (r ∷ rs) = elim (get r.payload) [ none ↦ values get rs | some v ↦ v ∷ values get rs ]
