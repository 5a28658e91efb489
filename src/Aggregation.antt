-- ===== src/Aggregation.antt =====
-- crates/heimwatch-storage/src/aggregation.rs: one record for many of the same type and
-- application; the branches for the types stand in the children.
pub mod Bucket
pub mod Calendar
pub mod Counters
pub mod Totals
pub mod Loops
pub mod Sums
pub mod Readings
use mathlib.Core.List.{foldl}
use mathlib.Core.Option
use heimwatch.Prelude.{
  ℕ, ◌+◌, Bool, true, false, List, [], ◌∷◌, map, Option, none, some, Bytes, length, ◌==◌,
  if◌then◌else◌, wrap64, wrap32,
}
use heimwatch.Prelude.Int.{ℤ, pos, add_i64, div_i64}
use heimwatch.Core.Metrics.{
  MetricPayload, MetricRecord, NetworkData, PowerData, FocusData, CpuData, MemoryData, DiskData,
  GpuData, GpuProcessData, GpuVendor,
}
use heimwatch.Core.Floats.{Floats, mean_f64}
use heimwatch.Aggregation.Loops.{Rec, fold_payloads, rounded_mean, truncated_mean, values}
use heimwatch.Aggregation.Sums.{
  aggregate_net, aggregate_cpu, aggregate_mem, aggregate_dsk, aggregate_foc,
}
use heimwatch.Aggregation.Readings.{aggregate_pwr, aggregate_gpu, aggregate_gpu_proc}

module _ (fl : Floats) where
  open fl use {
    F32, F64, zero_f64, add_f64, div_f64, round, f64_of_u64, f64_of_f32, f32_of_f64, u64_of_f64,
    u32_of_f64,
  }

  -- the first record's type decides
  unfoldable pub aggregate_payload : MetricPayload F32 → List (Rec fl) → MetricPayload F32
  aggregate_payload (MetricPayload.net _) = aggregate_net fl
  aggregate_payload (MetricPayload.cpu _) = aggregate_cpu fl
  aggregate_payload (MetricPayload.mem _) = aggregate_mem fl
  aggregate_payload (MetricPayload.dsk _) = aggregate_dsk fl
  aggregate_payload (MetricPayload.foc _) = aggregate_foc fl
  aggregate_payload (MetricPayload.pwr _) = aggregate_pwr fl
  aggregate_payload (MetricPayload.gpu _) = aggregate_gpu fl
  aggregate_payload (MetricPayload.gpu_proc _) = aggregate_gpu_proc fl

  unfoldable pub aggregate_records : List (Rec fl) → ℕ → Option (MetricRecord F32)
  unfolding aggregate_payload
  aggregate_records [] bucket_ts = none
  aggregate_records (r ∷ rs) bucket_ts = some (record {
    app_name = r.app_name;
    timestamp = bucket_ts;
    payload = aggregate_payload r.payload (r ∷ rs);
  })
