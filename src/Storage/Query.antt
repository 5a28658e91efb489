-- ===== src/Storage/Query.antt =====
-- The reading methods of `StorageLayer` in crates/heimwatch-storage/src/db.rs.
use mathlib.Core.List.{reverse, head?}
use heimwatch.Prelude.{
  ℕ, ◌+◌, ◌-◌, ◌*◌, min, max, Bool, true, false, ◌&&◌, List, [], ◌∷◌, ◌++◌, Option, none, some,
  Bytes, length, ltb, leb, if◌then◌else◌, u64_max, eq_bytes, wrap64,
}
use heimwatch.Error.{Failure, StorageError, Result, ok, err, ◌>>=◌}
use heimwatch.Core.Floats.{mean_f32}
use heimwatch.Core.Metrics.{MetricType, MetricPayload, PowerData, all_metric_types}
use heimwatch.Aggregation.Bucket.{month_bucket, subtract_months}
use heimwatch.Sled.{Entries}
use heimwatch.Storage.{Env, Rec, StorageLayer, Tree, scan, decode_all}

module _ (env : Env) where
  -- `sort_by_key(|r| r.timestamp)`, which is stable
  unfoldable pub insert_by_time : Rec env → List (Rec env) → List (Rec env)
  insert_by_time r [] = r ∷ []
  insert_by_time r (x ∷ xs) =
      let rest = insert_by_time r xs in if leb r.timestamp x.timestamp then r ∷ x ∷ xs else x ∷ rest

  unfoldable pub sort_by_time : List (Rec env) → List (Rec env)
  unfolding insert_by_time
  sort_by_time [] = []
  sort_by_time (r ∷ rs) = insert_by_time r (sort_by_time rs)

  abbrev pub is_empty : List (Rec env) → Bool
  is_empty [] = true
  is_empty (r ∷ rs) = false

  -- One `if start < .. && results.is_empty()` of the aggregated tiers.
  unfoldable pub try_tier :
      Bool → Tree env → MetricType → ℕ → ℕ → List (Rec env) → Result Failure (List (Rec env))
  try_tier older tree mt start end results =
      if older && is_empty results then decode_all env (scan env tree mt start end) else ok results

  unfoldable pub aggregated_tiers :
      ℕ → StorageLayer env → MetricType → ℕ → ℕ → Result Failure (List (Rec env))
  unfolding try_tier
  aggregated_tiers now s mt start end =
      let raw_boundary = now - 24 * 3600 in
      let daily_boundary = month_bucket env.chrono now in
      let monthly_boundary = subtract_months env.chrono now 12 in
      do
        daily ←
            try_tier (ltb start raw_boundary) s.metrics_1d mt (max start daily_boundary)
              (min end (raw_boundary - 1)) []
        monthly ←
            try_tier (ltb start daily_boundary) s.metrics_1m mt (max start monthly_boundary)
              (min end (daily_boundary - 1)) daily
        try_tier (ltb start monthly_boundary) s.metrics_1y mt start (min end (monthly_boundary - 1))
            monthly

  abbrev pub now_or_max : Option ℕ → ℕ
  now_or_max none = u64_max
  now_or_max (some now) = now

  -- the raw tree first, and the aggregated tiers only if it holds nothing
  unfoldable pub raw_or_tiers :
      ℕ → StorageLayer env → MetricType → ℕ → ℕ → List (Rec env) → Result Failure (List (Rec env))
  unfolding aggregated_tiers
  raw_or_tiers now s mt start end [] = aggregated_tiers now s mt start end
  raw_or_tiers now s mt start end (r ∷ rs) = ok (r ∷ rs)

  unfoldable pub get_metrics_by_type :
      Option ℕ → StorageLayer env → MetricType → ℕ → ℕ → Result Failure (List (Rec env))
  get_metrics_by_type clock s mt start end = do
    raw ← decode_all env (scan env s.metrics mt start end)
    results ← raw_or_tiers (now_or_max clock) s mt start end raw
    ok (sort_by_time results)

  unfoldable pub of_app : Bytes → List (Rec env) → List (Rec env)
  of_app app [] = []
  of_app app (r ∷ rs) =
      let rest = of_app app rs in if eq_bytes r.app_name app then r ∷ rest else rest

  unfoldable pub by_app :
      Option ℕ
      → StorageLayer env
      → Bytes
      → ℕ
      → ℕ
      → List MetricType
      → Result Failure (List (Rec env))
  by_app clock s app start end [] = ok []
  by_app clock s app start end (mt ∷ types) = do
    records ← get_metrics_by_type clock s mt start end
    rest ← by_app clock s app start end types
    ok (of_app app records ++ rest)

  unfoldable pub get_metrics_by_app :
      Option ℕ → StorageLayer env → Bytes → ℕ → ℕ → Result Failure (List (Rec env))
  unfolding by_app
  get_metrics_by_app clock s app start end = by_app clock s app start end all_metric_types

  unfoldable pub cpu_times : List (Rec env) → List ℕ
  cpu_times [] = []
  cpu_times (r ∷ rs) = elim r.payload [
    | MetricPayload.cpu d ↦ d.cpu_time_ns ∷ cpu_times rs
    | _ ↦ cpu_times rs
  ]

  abbrev pub sum_u64 : List ℕ → ℕ
  sum_u64 [] = 0
  sum_u64 (n ∷ ns) = wrap64 (n + sum_u64 ns)

  abbrev mean_time : List ℕ → Result Failure env.floats.F32
  mean_time [] = err (Failure.storage StorageError.not_found)
  mean_time (n ∷ ns) = ok (
      env.floats.div_f32 (env.floats.f32_of_u64 (sum_u64 (n ∷ ns)))
        (env.floats.f32_of_u64 (length (n ∷ ns))))

  unfoldable pub get_aggregated_cpu :
      Option ℕ → StorageLayer env → Bytes → ℕ → ℕ → Result Failure env.floats.F32
  unfolding cpu_times
  get_aggregated_cpu clock s app start end = do
    records ← get_metrics_by_app clock s app start end
    mean_time (cpu_times records)

  -- the last power record of a scan
  unfoldable pub last_power : Entries → Result Failure (Option (PowerData env.floats.F32))
  last_power [] = ok none
  last_power ((k, v) ∷ l) = elim (env.from_slice v) [
    | none ↦ err Failure.json
    | some r ↦ elim r.payload [ MetricPayload.pwr d ↦ ok (some d) | _ ↦ last_power l ]
  ]

  unfoldable pub get_power_state_at :
      StorageLayer env → ℕ → Result Failure (Option (PowerData env.floats.F32))
  unfolding last_power
  get_power_state_at s timestamp =
      last_power (reverse (scan env s.metrics MetricType.pwr 0 timestamp))

  unfoldable pub get_system_power_history :
      Option ℕ → StorageLayer env → ℕ → ℕ → Result Failure (List (Rec env))
  get_system_power_history clock s start end = get_metrics_by_type clock s MetricType.pwr start end

  unfoldable pub power_values :
      {A : Type 0} → (PowerData env.floats.F32 → Option A) → List (Rec env) → List A
  power_values get [] = []
  power_values get (r ∷ rs) = elim r.payload [
    | MetricPayload.pwr d ↦ elim (get d) [
      | none ↦ power_values get rs
      | some v ↦ v ∷ power_values get rs
    ]
    | _ ↦ power_values get rs
  ]

  unfoldable pub extract_rapl_average : List (Rec env) → Option env.floats.F32
  unfolding power_values
  extract_rapl_average rs = mean_f32 env.floats (power_values (λ d. d.rapl_package_watts) rs)

  unfoldable pub extract_freq_ratio_average : List (Rec env) → Option env.floats.F32
  unfolding power_values
  extract_freq_ratio_average rs = mean_f32 env.floats (power_values (λ d. d.avg_cpu_freq_ratio) rs)

  unfoldable pub extract_display_brightness_average : List (Rec env) → Option env.floats.F32
  unfolding power_values
  extract_display_brightness_average rs =
      mean_f32 env.floats (power_values (λ d. d.display_brightness) rs)

  -- the last reading, `rev().find_map(..)`
  unfoldable pub extract_is_wifi_last : List (Rec env) → Option Bool
  unfolding power_values
  extract_is_wifi_last rs = head? (reverse (power_values (λ d. d.is_wifi) rs))
