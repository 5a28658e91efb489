-- ===== src/Aggregation/Readings.antt =====
-- The branches of `aggregate_records` that average optional readings: power and GPU, in
-- crates/heimwatch-storage/src/aggregation.rs.
use mathlib.Core.List.{foldl}
use mathlib.Core.Option
use heimwatch.Prelude.{
  ℕ, Bool, false, List, [], ◌∷◌, map, Option, none, some, Bytes, length, ◌==◌, if◌then◌else◌,
}
use heimwatch.Prelude.Int.{ℤ, pos, add_i64, div_i64}
use heimwatch.Core.Metrics.{MetricPayload, PowerData, GpuData, GpuProcessData, GpuVendor}
use heimwatch.Core.Floats.{Floats, mean_f64}
use heimwatch.Aggregation.Loops.{Rec, fold_payloads, values}

module _ (fl : Floats) where
  open fl use {
    F32, F64, zero_f64, add_f64, div_f64, round, f64_of_u64, f64_of_f32, f32_of_f64, u64_of_f64,
    u32_of_f64,
  }

  -- a field of a power or GPU record, as the loops read it
  abbrev of_pwr : {A : Type 0} → (PowerData F32 → Option A) → MetricPayload F32 → Option A
  of_pwr get (MetricPayload.pwr d) = get d
  of_pwr get _ = none

  abbrev of_gpu : {A : Type 0} → (GpuData F32 → Option A) → MetricPayload F32 → Option A
  of_gpu get (MetricPayload.gpu d) = get d
  of_gpu get _ = none

  abbrev of_gpu_proc : {A : Type 0} → (GpuProcessData F32 → Option A) → MetricPayload F32 → Option A
  of_gpu_proc get (MetricPayload.gpu_proc d) = get d
  of_gpu_proc get _ = none

  -- the average of `f32` readings, and of integer readings by way of `f64`
  abbrev mean_of_f32 : List F32 → Option F32
  mean_of_f32 xs = Option.map f32_of_f64 (mean_f64 fl (map f64_of_f32 xs))

  abbrev mean_u64 : List ℕ → Option ℕ
  mean_u64 xs = Option.map u64_of_f64 (mean_f64 fl (map f64_of_u64 xs))

  abbrev mean_u32 : List ℕ → Option ℕ
  mean_u32 xs = Option.map u32_of_f64 (mean_f64 fl (map f64_of_u64 xs))

  abbrev mean_i64 : List ℤ → Option ℤ
  mean_i64 [] = none
  mean_i64 (x ∷ xs) = some (div_i64 (foldl add_i64 (pos 0) (x ∷ xs)) (length (x ∷ xs)))

  watt_step : F64 → MetricPayload F32 → F64
  watt_step sum (MetricPayload.pwr d) = add_f64 sum (f64_of_f32 d.watt_usage)
  watt_step sum _ = sum

  unfoldable pub charging_step : Bool → MetricPayload F32 → Bool
  charging_step _ (MetricPayload.pwr d) = d.charging
  charging_step last _ = last

  abbrev or_else : {A : Type 0} → Option A → Option A → Option A
  or_else none b = b
  or_else (some a) b = some a

  unfoldable pub wifi_step : Option Bool → MetricPayload F32 → Option Bool
  wifi_step last (MetricPayload.pwr d) = or_else d.is_wifi last
  wifi_step last _ = last

  unfoldable pub aggregate_pwr : List (Rec fl) → MetricPayload F32
  unfolding values watt_step charging_step wifi_step
  aggregate_pwr records =
      let watt_sum = fold_payloads fl watt_step (f64_of_u64 0) records in
      MetricPayload.pwr (record {
        watt_usage = f32_of_f64 (div_f64 watt_sum (f64_of_u64 (length records)));
        battery_percent = mean_of_f32 (values fl (of_pwr (λ d. d.battery_percent)) records);
        charging = fold_payloads fl charging_step false records;
        rapl_package_watts = mean_of_f32 (values fl (of_pwr (λ d. d.rapl_package_watts)) records);
        rapl_core_watts = mean_of_f32 (values fl (of_pwr (λ d. d.rapl_core_watts)) records);
        battery_current_ua = mean_i64 (values fl (of_pwr (λ d. d.battery_current_ua)) records);
        battery_voltage_uv = mean_u64 (values fl (of_pwr (λ d. d.battery_voltage_uv)) records);
        avg_cpu_freq_ratio = mean_of_f32 (values fl (of_pwr (λ d. d.avg_cpu_freq_ratio)) records);
        display_brightness = mean_of_f32 (values fl (of_pwr (λ d. d.display_brightness)) records);
        is_wifi = fold_payloads fl wifi_step none records;
      })

  -- the first index and vendor, and the last name
  unfoldable pub gpu_step :
      Option (ℕ × GpuVendor) × Bytes → MetricPayload F32 → Option (ℕ × GpuVendor) × Bytes
  gpu_step (first, _) (MetricPayload.gpu d) = (or_else first (some (d.gpu_index, d.vendor)), d.name)
  gpu_step (first, _) _ = (first, [])

  abbrev first_gpu : Option (ℕ × GpuVendor) → ℕ × GpuVendor
  first_gpu none = (0, GpuVendor.unknown)
  first_gpu (some p) = p

  unfoldable pub aggregate_gpu : List (Rec fl) → MetricPayload F32
  unfolding values gpu_step
  aggregate_gpu records =
      let (first, name) = fold_payloads fl gpu_step (none, []) records in
      let (gpu_index, vendor) = first_gpu first in
      MetricPayload.gpu (record {
        gpu_index = gpu_index;
        vendor = vendor;
        name = name;
        usage_percent = mean_of_f32 (values fl (of_gpu (λ d. d.usage_percent)) records);
        vram_used_bytes = mean_u64 (values fl (of_gpu (λ d. d.vram_used_bytes)) records);
        vram_total_bytes = mean_u64 (values fl (of_gpu (λ d. d.vram_total_bytes)) records);
        temperature_celsius = mean_of_f32 (values fl (of_gpu (λ d. d.temperature_celsius)) records);
        power_draw_watts = mean_of_f32 (values fl (of_gpu (λ d. d.power_draw_watts)) records);
        core_clock_mhz = mean_u32 (values fl (of_gpu (λ d. d.core_clock_mhz)) records);
        memory_clock_mhz = mean_u32 (values fl (of_gpu (λ d. d.memory_clock_mhz)) records);
      })

  -- the last index that is not preceded by one other than 0
  unfoldable pub index_step : ℕ → MetricPayload F32 → ℕ
  index_step idx (MetricPayload.gpu_proc d) = if idx == 0 then d.gpu_index else idx
  index_step idx _ = idx

  unfoldable pub aggregate_gpu_proc : List (Rec fl) → MetricPayload F32
  unfolding values index_step
  aggregate_gpu_proc records = MetricPayload.gpu_proc (record {
    gpu_index = fold_payloads fl index_step 0 records;
    usage_percent = mean_of_f32 (values fl (of_gpu_proc (λ d. d.usage_percent)) records);
    vram_used_bytes = mean_u64 (values fl (of_gpu_proc (λ d. d.vram_used_bytes)) records);
  })
