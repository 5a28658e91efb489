-- ===== src/Tui/Load.antt =====
-- `load_snapshot` of crates/heimwatch-tui/src/data.rs: what the terminal application shows of a window
-- of time.
use mathlib.Core.List.{reverse, head?, foldl}
use mathlib.Core.Option
use heimwatch.Prelude.{
  ℕ, ◌+◌, ◌-◌, ◌/◌, Bool, false, List, [], ◌∷◌, ◌++◌, map, Option, none, some, Bytes, length, take,
  wrap32, wrap64,
}
use heimwatch.Error.{Failure, Result, ok, ◌>>=◌}
use heimwatch.Core.Floats.{sum_f32}
use heimwatch.Core.Metrics.{MetricType, MetricPayload}
use heimwatch.Apps.{HashOrder, tally, sort_by}
use heimwatch.Storage.{Env, Rec, StorageLayer, read_clock}
use heimwatch.Storage.Query.{get_metrics_by_type}
use heimwatch.Storage.Top.{
  app_of, get_top_apps_by_network, get_top_apps_by_focus, get_top_apps_by_power,
}
use heimwatch.Tui.Snapshot.{AppCpuStats, AppSnapshot}
use heimwatch.Tui.Series.{downsample}

module _ (env : Env) where
  abbrev pub F32 : Type 0
  F32 = env.floats.F32

  pub record CpuAggregate : Type 0 where
    pub percentages : List F32
    pub threads : List ℕ
    pub times : List ℕ

  abbrev pub no_readings : CpuAggregate
  no_readings = record { percentages = []; threads = []; times = [] }

  unfoldable pub cpu_reading : Rec env → Option (F32 × ℕ × ℕ)
  cpu_reading r = elim r.payload [
    | MetricPayload.cpu d ↦ some (d.cpu_usage_percent, d.thread_count, d.cpu_time_ns)
    | _ ↦ none
  ]

  abbrev pub push_reading : CpuAggregate → F32 × ℕ × ℕ → CpuAggregate
  push_reading a (pct, threads, time) = record {
    percentages = a.percentages ++ pct ∷ [];
    threads = a.threads ++ threads ∷ [];
    times = a.times ++ time ∷ [];
  }

  -- `(sum as f64 / len as f64).round()`
  abbrev pub rounded : ℕ → ℕ → env.floats.F64
  rounded sum n =
      env.floats.round (env.floats.div_f64 (env.floats.f64_of_u64 sum) (env.floats.f64_of_u64 n))

  unfoldable pub cpu_row : Bytes × CpuAggregate → AppCpuStats F32
  cpu_row (app_name, d) = record {
    app_name = app_name;
    cpu_usage_percent =
        env.floats.div_f32 (sum_f32 env.floats d.percentages)
          (env.floats.f32_of_u64 (length d.percentages));
    thread_count =
        env.floats.u32_of_f64
          (rounded (foldl (λ a b. wrap32 (a + b)) 0 d.threads) (length d.threads));
    cpu_time_ns =
        env.floats.u64_of_f64 (rounded (foldl (λ a b. wrap64 (a + b)) 0 d.times) (length d.times));
  }

  abbrev pub more_cpu : AppCpuStats F32 → AppCpuStats F32 → Bool
  more_cpu a b = env.floats.lt_f32 b.cpu_usage_percent a.cpu_usage_percent

  unfoldable pub aggregate_cpu_apps : HashOrder → List (Rec env) → List (AppCpuStats F32)
  unfolding cpu_reading cpu_row
  aggregate_cpu_apps o cpu_records =
      let app_data = tally (app_of env) cpu_reading no_readings push_reading [] cpu_records in
      take 20 (sort_by more_cpu (map cpu_row (o.order app_data)))

  -- What the closures take of a record.
  unfoldable pub cpu_percent : Rec env → Option F32
  cpu_percent r = elim r.payload [ MetricPayload.cpu d ↦ some d.cpu_usage_percent | _ ↦ none ]

  unfoldable pub ram_mb : Rec env → Option ℕ
  ram_mb r = elim r.payload [ MetricPayload.mem d ↦ some (d.rss_bytes / 1000000) | _ ↦ none ]

  unfoldable pub tx_rx_of : Rec env → Option (ℕ × ℕ)
  tx_rx_of r = elim r.payload [ MetricPayload.net d ↦ some (d.tx_bytes, d.rx_bytes) | _ ↦ none ]

  unfoldable pub battery_of : Rec env → Option (Option F32 × Bool × F32)
  battery_of r = elim r.payload [
    | MetricPayload.pwr d ↦ some (d.battery_percent, d.charging, d.watt_usage)
    | _ ↦ none
  ]

  -- `records.last().and_then(..).unwrap_or(..)`
  abbrev pub last_or : {A : Type 0} → A → (Rec env → Option A) → List (Rec env) → A
  last_or default get records = elim (head? (reverse records)) [
    | none ↦ default
    | some r ↦ elim (get r) [ none ↦ default | some a ↦ a ]
  ]

  unfoldable pub load_snapshot :
      HashOrder → Option ℕ → StorageLayer env → ℕ → Result Failure (AppSnapshot F32)
  unfolding aggregate_cpu_apps cpu_percent ram_mb tx_rx_of battery_of
  load_snapshot o clock storage window_secs = do
    now ← read_clock clock
    let start = now - window_secs
    cpu_records ← get_metrics_by_type env clock storage MetricType.cpu start now
    mem_records ← get_metrics_by_type env clock storage MetricType.mem start now
    net_records ← get_metrics_by_type env clock storage MetricType.net start now
    pwr_records ← get_metrics_by_type env clock storage MetricType.pwr start now
    top_net_apps ← get_top_apps_by_network env o clock storage start now 20
    top_focus_apps ← get_top_apps_by_focus env o clock storage start now 20
    top_power_apps ← get_top_apps_by_power env o clock storage start now none 20
    let battery : Option F32 × Bool × F32 =
        last_or (none, false, env.floats.literal_f32 0 1) battery_of pwr_records
    let traffic : ℕ × ℕ = last_or (0, 0) tx_rx_of net_records
    -- `f32 as u64`: the cast to `f64` in between is exact
    ok (record {
      cpu_series =
          downsample
            (λ r. Option.map (λ p. env.floats.u64_of_f64 (env.floats.f64_of_f32 p)) (cpu_percent r))
            cpu_records;
      mem_series = downsample ram_mb mem_records;
      net_tx_series = downsample (λ r. Option.map (λ p. p.0) (tx_rx_of r)) net_records;
      net_rx_series = downsample (λ r. Option.map (λ p. p.1) (tx_rx_of r)) net_records;
      current_cpu_pct = last_or (env.floats.literal_f32 0 1) cpu_percent cpu_records;
      current_ram_mb = last_or 0 ram_mb mem_records;
      current_net_tx = traffic.0;
      current_net_rx = traffic.1;
      battery_pct = battery.0;
      charging = battery.1;
      watt_usage = battery.2;
      top_net_apps = top_net_apps;
      top_focus_apps = top_focus_apps;
      top_power_apps = top_power_apps;
      top_cpu_apps = aggregate_cpu_apps o cpu_records;
    })
